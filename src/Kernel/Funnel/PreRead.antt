-- ===== src/Kernel/Funnel/PreRead.antt =====
-- The reads of `submit` and `cancel_pre_read` in crates/yah-kernel/src/funnel/mod.rs and cancel.rs,
-- from the graph that the transaction works on.
use yet_another_harness.Prelude.{
  ℕ, suc, Bool, false, Option, none, some, List, [], ◌∷◌, ◌++◌, Text, text, text_eq, length, ◌==◌,
  if◌then◌else◌, ◌>>?◌, is_some,
}
use yet_another_harness.Prelude.Table.{Table, read, write}
use yet_another_harness.Kernel.Effect.{Hasher, derive_operation_key}
use yet_another_harness.Kernel.Cancel.{CancelKind, DeliveryOutcome, kind_eq}
use yet_another_harness.Kernel.Cancel.Scope.{MemberInput, ScopeMember, CancelRequest, member_row}
use yet_another_harness.Kernel.Funnel.Command.{
  Command, Method, RunOutcome, method_unit_id, method_operation_key,
}
use yet_another_harness.Kernel.Funnel.State.{
  Graph, RunNode, UnitNode, LeaseNode, EffectNode, CancelDeliveryNode,
}
use yet_another_harness.Kernel.Funnel.CancelRules.{DeliverySummary, admission_blockers}
use yet_another_harness.Kernel.Funnel.RunRules.{success_blockers}
use yet_another_harness.Kernel.Funnel.Resolution.{
  MemberLink, member_link, cancel_root_terminal, adoption_lineage,
}

pub record RequestData : Type 0 where
  pub version : ℕ
  pub request_record : CancelRequest

pub record CancelPreRead : Type 0 where
  pub admission_blockers : List Text
  pub member_links : Table MemberLink
  pub request : Option RequestData
  pub deliveries : List DeliverySummary
  pub delivery_exists : Bool
  -- with its operation key
  pub effect_row : Option (Text × EffectNode)
  pub root_attempt : Option (Text × ℕ)
  pub root_terminal : Option Bool

pub record PreRead : Type 0 where
  pub for_unit : Option Text
  pub unit : Option UnitNode
  pub lease : Option LeaseNode
  pub effect_key : Option Text
  pub effect : Option EffectNode
  pub run : Option RunNode
  pub run_blockers : List Text
  pub cancel : Option CancelPreRead

abbrev pub no_cancel : CancelPreRead
no_cancel = record {
  admission_blockers = [];
  member_links = [];
  request = none;
  deliveries = [];
  delivery_exists = false;
  effect_row = none;
  root_attempt = none;
  root_terminal = none;
}

abbrev pub delivery_outcome_wire : DeliveryOutcome → Text
delivery_outcome_wire DeliveryOutcome.observed_stopped = text "observed_stopped"
delivery_outcome_wire DeliveryOutcome.unresponsive = text "unresponsive"
delivery_outcome_wire DeliveryOutcome.already_terminal = text "already_terminal"
delivery_outcome_wire DeliveryOutcome.detached_declined = text "detached_declined"

unfoldable pub outcome_from_wire : Text → Option DeliveryOutcome
outcome_from_wire w =
    if text_eq w (text "observed_stopped")
    then some DeliveryOutcome.observed_stopped
    else if text_eq w (text "unresponsive")
    then some DeliveryOutcome.unresponsive
    else if text_eq w (text "already_terminal")
    then some DeliveryOutcome.already_terminal
    else if text_eq w (text "detached_declined")
    then some DeliveryOutcome.detached_declined
    else none

abbrev pub delivery_key : Text → Text → Text
delivery_key request_id member_id = request_id ++ 124 ∷ member_id

unfoldable pub collect_links : Graph → List MemberInput → Table MemberLink → Table MemberLink
collect_links g [] links = links
collect_links g (m ∷ ms) links = collect_links g ms (write m.member_id (member_link g m) links)

unfoldable pub request_data : Graph → Text → Option RequestData
request_data g request_id = read request_id g.cancel_requests >>? λ node.
    node.request_record >>? λ found.
    some (record { version = node.version; request_record = found })

-- One row of a request, when it is one and its outcome reads.
unfoldable pub summarise : Text → CancelDeliveryNode → Option DeliverySummary
summarise request_id row =
    if text_eq row.cancel_request_id request_id
    then (outcome_from_wire row.outcome >>? λ outcome.
        some (record { member_id = row.member_id; outcome = outcome }))
    else none

-- The rows of a request, by their keys.
unfoldable pub summaries : Graph → Text → List Text → List DeliverySummary
summaries g request_id [] = []
summaries g request_id (key ∷ keys) =
    let rest = summaries g request_id keys in
    elim (read key g.cancel_deliveries >>? summarise request_id) [
      | none ↦ rest
      | some summary ↦ summary ∷ rest
    ]

unfoldable pub delivery_summaries : Graph → Text → List DeliverySummary
delivery_summaries g request_id = elim (read request_id g.cancel_deliveries_by_request) [
  | none ↦ []
  | some keys ↦ summaries g request_id keys
]

unfoldable pub effect_for_intent : Graph → Text → Option (Text × EffectNode)
effect_for_intent g member_id =
    read member_id g.effect_intent_ids >>? λ key. read key g.effects >>? λ row. some (key, row)

-- The member that the delivery names is the last of the scope.
abbrev pub is_final : CancelRequest → ScopeMember → Bool
is_final request m = suc m.order_index == length request.scope.members

unfoldable pub pre_read_delivery : Graph → Text → Text → CancelPreRead
pre_read_delivery g request_id member_id =
    by_request (request_data g request_id)
      (is_some (read (delivery_key request_id member_id) g.cancel_deliveries))
  where
    effect_of : ScopeMember → Option (Text × EffectNode)
    effect_of m =
        if kind_eq m.member_kind CancelKind.effect_intent
        then effect_for_intent g m.member_id
        else none

    by_member : RequestData → Bool → Option ScopeMember → CancelPreRead
    by_member found exists none = record no_cancel {
      request = some found;
      delivery_exists = exists;
    }
    by_member found exists (some m) = record no_cancel {
      request = some found;
      delivery_exists = exists;
      deliveries = if is_final found.request_record m then delivery_summaries g request_id else [];
      effect_row = effect_of m;
    }

    by_request : Option RequestData → Bool → CancelPreRead
    by_request none exists = record no_cancel { delivery_exists = exists }
    by_request (some found) exists =
        by_member found exists (member_row found.request_record.scope member_id)

unfoldable pub root_attempt_of : Graph → CancelKind → Text → Option (Text × ℕ)
root_attempt_of g kind root_id =
    if kind_eq kind CancelKind.attempt
    then (read root_id g.attempt_ids >>? λ key.
        read key g.attempts >>? λ attempt. some (attempt.unit_id, attempt.attempt_epoch))
    else none

abbrev pub admits : Graph → Method → Option EffectNode → Option CancelPreRead
admits g method effect = adoption_lineage method g effect >>? λ lineage.
    some (record no_cancel { admission_blockers = admission_blockers g lineage })

unfoldable pub cancel_pre_read : Graph → Method → Option EffectNode → Option CancelPreRead
cancel_pre_read g method effect = by_method method
  where
    by_method : Method → Option CancelPreRead
    by_method (Method.unit_admit unit_id work_item_id run_id) = admits g method effect
    by_method (Method.unit_dispatch unit_id holder_id) = admits g method effect
    by_method (Method.effect_prepare unit_id spec) = admits g method effect
    by_method (Method.effect_dispatch unit_id key) = admits g method effect
    by_method (Method.cancel_request kind root_id reason policy proposed) = some (record no_cancel {
      member_links = collect_links g proposed [];
      root_attempt = root_attempt_of g kind root_id;
      root_terminal = cancel_root_terminal g kind root_id;
    })
    by_method (Method.cancel_record_delivery request_id member_id at observed outcome) =
        some (pre_read_delivery g request_id member_id)
    by_method other = none

unfoldable pub pre_read : Hasher → Graph → Command → PreRead
pre_read blake3 g cmd = record {
  for_unit = method_unit_id cmd.method;
  unit = unit;
  lease = method_unit_id cmd.method >>? λ id. read id g.leases;
  effect_key = effect_key;
  effect = effect;
  run = run_of cmd.method >>? λ id. read id g.runs;
  run_blockers = blockers cmd.method;
  cancel = cancel_pre_read g cmd.method effect;
}
  where
    unit : Option UnitNode
    unit = method_unit_id cmd.method >>? λ id. read id g.units

    key_of : Method → Option Text
    key_of (Method.effect_prepare unit_id spec) = unit >>? λ row.
        some (
          derive_operation_key blake3 row.work_item_id spec.logical_operation_id
            spec.request_digest)
    key_of method = method_operation_key method

    effect_key : Option Text
    effect_key = key_of cmd.method

    effect : Option EffectNode
    effect = effect_key >>? λ key. read key g.effects

    run_of : Method → Option Text
    run_of (Method.run_open run_id goal) = some run_id
    run_of (Method.run_close run_id outcome) = some run_id
    run_of method = none

    blockers : Method → List Text
    blockers (Method.run_close run_id RunOutcome.closed_success) = success_blockers g run_id
    blockers method = []
