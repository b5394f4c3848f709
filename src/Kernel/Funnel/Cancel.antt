-- ===== src/Kernel/Funnel/Cancel.antt =====
-- The arms of the cancellation methods of crates/yah-kernel/src/funnel/cancel.rs.
pub mod Deliveries
use yet_another_harness.Prelude.{
  ℕ, ◌-◌, Bool, true, false, ◌&&◌, ◌||◌, not, Option, none, some, List, [], ◌∷◌, ◌++◌, Text, text,
  text_eq, length, leb, ◌==◌, if◌then◌else◌, Result, ok, err, guard, or_fail, ◌>>◌, ◌>>=◌, is_some,
  is_none,
}
use yet_another_harness.Prelude.Table.{read}
use yet_another_harness.Ipc.Types.{Value, string, null}
use yet_another_harness.Kernel.Error.{ErrorKind, Rejection, durable, transient}
use yet_another_harness.Kernel.Ids.{display, uuid_try_from}
use yet_another_harness.Kernel.Effect.{EffectIntent, EffectState}
use yet_another_harness.Kernel.Cancel.{
  CancelKind, CancelReason, CancelPolicy, CancelStatus, DeliveryOutcome, kind_eq,
}
use yet_another_harness.Kernel.Cancel.Scope.{
  MemberInput, ScopeMember, ScopeError, CancelScope, CancelRequest, freeze, member_row,
}
use yet_another_harness.Kernel.Funnel.Command.{Command}
use yet_another_harness.Kernel.Funnel.State.{
  Funnel, EffectNode, EventDraft, EffectParkPlan, Plan, Accepted, increment, minted, json,
  json_uint,
}
use yet_another_harness.Kernel.Funnel.CancelRules.{kind_wire, request_status_after}
use yet_another_harness.Kernel.Funnel.Resolution.{MemberLink}
use yet_another_harness.Kernel.Funnel.PreRead.{
  PreRead, CancelPreRead, RequestData, delivery_outcome_wire, delivery_key, is_final,
}
use yet_another_harness.Kernel.Funnel.Gates.{authority_gate}

abbrev pub policy_wire : CancelPolicy → Text
policy_wire CancelPolicy.attached_cascade = text "attached_cascade"
policy_wire CancelPolicy.root_only = text "root_only"

abbrev pub reason_wire : CancelReason → Text
reason_wire CancelReason.owner_request = text "owner_request"
reason_wire CancelReason.budget_exhausted = text "budget_exhausted"
reason_wire CancelReason.policy_violation = text "policy_violation"
reason_wire CancelReason.superseded_by_epoch = text "superseded_by_epoch"
reason_wire CancelReason.dependency_failed = text "dependency_failed"
reason_wire CancelReason.shutdown_drain = text "shutdown_drain"

abbrev pub status_wire : CancelStatus → Text
status_wire CancelStatus.requested = text "requested"
status_wire CancelStatus.delivering = text "delivering"
status_wire CancelStatus.observed_partial = text "observed_partial"
status_wire CancelStatus.settled = text "settled"

-- Any error of `freeze` is a durable rejection.
abbrev pub frozen_scope : Result CancelScope ScopeError → Result CancelScope Rejection
frozen_scope (ok scope) = ok scope
frozen_scope (err e) = err (durable ErrorKind.invalid_request)

abbrev pub text_is : Option Text → Text → Bool
text_is none t = false
text_is (some u) t = text_eq u t

abbrev pub nat_is : Option ℕ → ℕ → Bool
nat_is none n = false
nat_is (some m) n = m == n

-- A member of the given kind, by its link, under the root.
unfoldable pub link_ok : CancelKind → Text → Option (Text × ℕ) → CancelKind → MemberLink → Bool
link_ok CancelKind.run root_id root_attempt kind link = text_is link.run_id root_id
link_ok CancelKind.execution_unit root_id root_attempt CancelKind.attempt link =
    text_is link.parent_unit root_id
link_ok CancelKind.execution_unit root_id root_attempt CancelKind.effect_intent link =
    text_is link.parent_unit root_id
link_ok CancelKind.attempt root_id none CancelKind.effect_intent link = false
link_ok CancelKind.attempt root_id (some (unit, epoch)) CancelKind.effect_intent link =
    text_is link.parent_unit unit && nat_is link.attempt_epoch epoch
link_ok _ root_id root_attempt kind link = false

unfoldable pub lives_under : CancelKind → Text → CancelPreRead → ScopeMember → Bool
lives_under root_kind root_id pre m =
    (kind_eq m.member_kind root_kind && text_eq m.member_id root_id)
    || (elim (read m.member_id pre.member_links) [
      | none ↦ false
      | some link ↦ link_ok root_kind root_id pre.root_attempt m.member_kind link
    ])

unfoldable pub check_members :
    CancelKind → Text → CancelPreRead → List ScopeMember → Result (Unit {0}) Rejection
check_members root_kind root_id pre [] = ok tt
check_members root_kind root_id pre (m ∷ ms) = do
  guard (lives_under root_kind root_id pre m) (durable ErrorKind.invalid_request)
  check_members root_kind root_id pre ms

abbrev pub is_root_only : CancelPolicy → Bool
is_root_only policy = elim policy [ CancelPolicy.root_only ↦ true | _ ↦ false ]

abbrev pub has_members : CancelScope → Bool
has_members scope = elim scope.members [ [] ↦ false | ◌∷◌ m ms ↦ true ]

unfoldable pub accept_cancel :
    Funnel → CancelKind → Text → CancelReason → CancelPolicy → CancelScope → Accepted
accept_cancel f root_kind root_id reason policy scope = record {
  plan = Plan.create_cancel_request (record {
    request_id = request_id;
    root_kind = kind_wire root_kind;
    root_id = root_id;
    policy = policy_wire policy;
    reason = reason_wire reason;
    status = status_wire status;
    request_record = request;
  });
  events =
      record {
        aggregate_kind = text "cancel_request";
        aggregate_id = request_id;
        aggregate_version = 1;
        event_kind = text "cancel_request.requested";
        payload = json (
            (text "root_kind", string (kind_wire root_kind))
            ∷ (text "root_id", string root_id)
            ∷ (text "reason", string (reason_wire reason))
            ∷ (text "policy", string (policy_wire policy))
            ∷ (text "status", string (status_wire status))
            ∷ (text "members", json_uint (length scope.members))
            ∷ []);
      }
      ∷ [];
  result = json (
      (text "cancel_request_id", string request_id)
      ∷ (text "version", json_uint 1)
      ∷ (text "status", string (status_wire status))
      ∷ (text "root_kind", string (kind_wire root_kind))
      ∷ (text "root_id", string root_id)
      ∷ []);
  mints = 1;
}
  where
    status : CancelStatus
    status = request_status_after scope []

    request : CancelRequest
    request = record {
      cancel_request_id = minted f 0;
      reason = reason;
      policy = policy;
      scope = scope;
      status = status;
      requested_at = f.clock_ms;
      requested_by_kind = text "daemon";
    }

    request_id : Text
    request_id = display (minted f 0)

-- `pre.cancel` is there for this method; the code panics without it.
unfoldable pub validate_cancel_commit :
    Funnel
    → Command
    → PreRead
    → CancelKind
    → Text
    → CancelReason
    → CancelPolicy
    → List MemberInput
    → Result Accepted Rejection
validate_cancel_commit f cmd pre root_kind root_id reason policy proposed = do
  authority_gate f.authority_epoch cmd
  cancel ← or_fail pre.cancel (transient ErrorKind.internal)
  scope ← frozen_scope (freeze root_kind root_id proposed)
  ended ← or_fail cancel.root_terminal (transient ErrorKind.not_found)
  guard (has_members scope || (is_root_only policy && ended)) (transient ErrorKind.invalid_request)
  check_members root_kind root_id cancel scope.members
  ok (accept_cancel f root_kind root_id reason policy scope)

unfoldable pub observation_is_valid : DeliveryOutcome → ℕ → Option ℕ → Bool
observation_is_valid DeliveryOutcome.unresponsive delivered_at observed_at = is_none observed_at
observation_is_valid _ delivered_at none = false
observation_is_valid _ delivered_at (some observed_at) = leb delivered_at observed_at

abbrev pub has_outcome_pending : EffectState → Bool
has_outcome_pending state = elim state [
  | EffectState.dispatching ↦ true
  | EffectState.dispatched ↦ true
  | EffectState.observing ↦ true
  | _ ↦ false
]

-- The intent of a delivered effect, at `reconciling`.
unfoldable pub parked : Text → EffectNode → EffectIntent → Result (Option EffectParkPlan) Rejection
parked key row intent = do
  version ← or_fail (increment row.version) (durable ErrorKind.resource_exhausted)
  ok (
      some (record {
        effect_key = key;
        effect_version = version;
        effect_record = record intent { state = EffectState.reconciling; version = version };
      }))

-- A delivered effect with dispatch evidence and no terminal is parked.
unfoldable pub park_plan : Option (Text × EffectNode) → Result (Option EffectParkPlan) Rejection
park_plan none = ok none
park_plan (some (key, row)) = or_fail row.intent_record (transient ErrorKind.internal) >>= λ intent.
    if has_outcome_pending intent.state && is_none intent.terminal
    then parked key row intent
    else ok none

-- The status after the delivery: by the rows only when the member is the last one.
unfoldable pub status_after :
    CancelPreRead → RequestData → ScopeMember → Text → DeliveryOutcome → CancelStatus
status_after cancel found m member_id outcome =
    if is_final found.request_record m
    then request_status_after found.request_record.scope
        (cancel.deliveries ++ record { member_id = member_id; outcome = outcome } ∷ [])
    else CancelStatus.delivering

abbrev pub json_option : Option ℕ → Value
json_option none = null
json_option (some n) = json_uint n

abbrev pub park_events : Text → Option EffectParkPlan → List EventDraft
park_events member_id none = []
park_events member_id (some park) =
    record {
      aggregate_kind = text "effect";
      aggregate_id = member_id;
      aggregate_version = park.effect_version;
      event_kind = text "effect.reconciling";
      payload = json (
          (text "next_reconcile_at", null) ∷ (text "source", string (text "cancel_delivery")) ∷ []);
    }
    ∷ []

-- One delivery: its row, the request at its next version and status, and the parked effect.
unfoldable pub accept_delivery :
    Text
    → Text
    → ScopeMember
    → RequestData
    → CancelStatus
    → ℕ
    → Option EffectParkPlan
    → ℕ
    → Option ℕ
    → DeliveryOutcome
    → Accepted
accept_delivery request_id member_id m found status version park delivered_at observed_at outcome =
    record {
      plan = Plan.cancel_record_delivery (record {
        delivery_key = delivery_key request_id member_id;
        request_id = request_id;
        request_version_after = version;
        request_status_after = status_wire status;
        request_record_after = record found.request_record { status = status };
        member_id = member_id;
        member_kind = kind_wire m.member_kind;
        order_index = m.order_index;
        outcome = delivery_outcome_wire outcome;
        park_effect = park;
      });
      events =
          record {
            aggregate_kind = text "cancel_request";
            aggregate_id = request_id;
            aggregate_version = version;
            event_kind = text "cancel_request.delivered";
            payload = json (
                (text "member_id", string member_id)
                ∷ (text "delivered_at", json_uint delivered_at)
                ∷ (text "observed_at", json_option observed_at)
                ∷ (text "outcome", string (delivery_outcome_wire outcome))
                ∷ (text "status", string (status_wire status))
                ∷ []);
          }
          ∷ park_events member_id park;
      result = json (
          (text "cancel_request_id", string request_id)
          ∷ (text "version", json_uint version)
          ∷ (text "member_id", string member_id)
          ∷ (text "outcome", string (delivery_outcome_wire outcome))
          ∷ (text "status", string (status_wire status))
          ∷ []);
      mints = 0;
    }

-- `u64::checked_sub(1)`
abbrev pub predecessor : ℕ → Option ℕ
predecessor n = if n == 0 then none else some (n - 1)

unfoldable pub validate_record_delivery :
    Funnel
    → Command
    → PreRead
    → Text
    → Text
    → ℕ
    → Option ℕ
    → DeliveryOutcome
    → Result Accepted Rejection
validate_record_delivery f cmd pre request_id member_id delivered_at observed_at outcome = do
  authority_gate f.authority_epoch cmd
  cancel ← or_fail pre.cancel (transient ErrorKind.internal)
  found ← or_fail cancel.request (transient ErrorKind.not_found)
  m ← or_fail (member_row found.request_record.scope member_id) (durable ErrorKind.invalid_request)
  guard (not cancel.delivery_exists) (durable ErrorKind.invalid_request)
  guard (observation_is_valid outcome delivered_at observed_at) (durable ErrorKind.invalid_request)
  delivered ← or_fail (predecessor found.version) (transient ErrorKind.internal)
  guard (m.order_index == delivered) (transient ErrorKind.invalid_request)
  park ← park_plan cancel.effect_row
  version ← or_fail (increment found.version) (durable ErrorKind.resource_exhausted)
  guard (is_some (uuid_try_from request_id)) (transient ErrorKind.internal)
  ok (
      accept_delivery request_id member_id m found (status_after cancel found m member_id outcome)
        version park delivered_at observed_at outcome)
