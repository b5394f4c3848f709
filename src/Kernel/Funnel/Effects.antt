-- ===== src/Kernel/Funnel/Effects.antt =====
-- crates/yah-kernel/src/funnel/effects.rs: the arms of the effect methods.
pub mod Settling
pub mod Authorizing
use yet_another_harness.Prelude.{
  ℕ, Bool, true, false, ◌&&◌, ◌||◌, not, Option, none, some, List, [], ◌∷◌, Text, text, text_eq,
  length, ◌==◌, if◌then◌else◌, Result, ok, err, guard, or_fail, ◌>>◌, ◌>>=◌, is_some, is_none,
}
use yet_another_harness.Ipc.Types.{Value, string, bool}
use yet_another_harness.Kernel.Error.{ErrorKind, Rejection, durable, transient}
use yet_another_harness.Kernel.Ids.{Uuid7, display}
use yet_another_harness.Kernel.Effect.{
  EffectIntent, EffectState, EffectTerminal, RetryClass, ReversibilityClass, TargetEnumeration,
  TargetObservation, settle,
}
use yet_another_harness.Kernel.Funnel.EffectRules.{
  SettleEvidence, check_target_list, classify_settle_targets, declared_at_prepare, settle_legality,
  state_wire, terminal_wire, is_prepared, is_irreversible,
}
use yet_another_harness.Kernel.Funnel.Command.{Command, EffectSpec, AttemptTokenClaims}
use yet_another_harness.Kernel.Funnel.State.{
  Funnel, EffectNode, EventDraft, Plan, Accepted, increment, minted, json, json_uint,
}
use yet_another_harness.Kernel.Funnel.PreRead.{PreRead, CancelPreRead}
use yet_another_harness.Kernel.Funnel.Gates.{authority_gate, holder_gate, expected_version_ok}

abbrev pub retry_wire : RetryClass → Text
retry_wire RetryClass.safe_idempotent = text "safe_idempotent"
retry_wire RetryClass.safe_with_operation_key = text "safe_with_operation_key"
retry_wire RetryClass.query_then_retry = text "query_then_retry"
retry_wire RetryClass.no_retry = text "no_retry"

abbrev pub reversibility_wire : ReversibilityClass → Text
reversibility_wire ReversibilityClass.bufferable = text "bufferable"
reversibility_wire ReversibilityClass.reversible_external = text "reversible_external"
reversibility_wire ReversibilityClass.irreversible = text "irreversible"

abbrev pub enumeration_wire : TargetEnumeration → Text
enumeration_wire TargetEnumeration.declared = text "declared"
enumeration_wire TargetEnumeration.post_hoc = text "post_hoc"

-- The row, its record, the unit and the version, in this order.
unfoldable pub resolve_bound :
    Command → PreRead → Text → Result (EffectNode × EffectIntent) Rejection
resolve_bound cmd pre unit_id = do
  row ← or_fail pre.effect (transient ErrorKind.not_found)
  intent ← or_fail row.intent_record (transient ErrorKind.internal)
  guard (text_eq intent.unit_id unit_id) (durable ErrorKind.invalid_request)
  expected_version_ok cmd row.version
  ok (row, intent)

abbrev pub already_settled : EffectIntent → Result (Unit {0}) Rejection
already_settled intent = guard (is_none intent.terminal) (durable ErrorKind.invalid_request)

abbrev pub next_version : ℕ → Result ℕ Rejection
next_version version = or_fail (increment version) (durable ErrorKind.resource_exhausted)

unfoldable pub update_accepted : Text → EffectIntent → Option Text → Text → Value → Accepted
update_accepted key intent terminal event_kind payload = record {
  plan = Plan.update_effect key intent.version (state_wire intent.state) terminal intent;
  events =
      record {
        aggregate_kind = text "effect";
        aggregate_id = display intent.effect_intent_id;
        aggregate_version = intent.version;
        event_kind = event_kind;
        payload = payload;
      }
      ∷ [];
  result = json (
      (text "operation_key", string intent.operation_key)
      ∷ (text "version", json_uint intent.version)
      ∷ (text "state", string (state_wire intent.state))
      ∷ []);
  mints = 0;
}

abbrev pub is_dispatching : EffectState → Bool
is_dispatching state = elim state [ EffectState.dispatching ↦ true | _ ↦ false ]

unfoldable pub validate_record_dispatched :
    Funnel → Command → PreRead → Text → Text → ℕ → Result Accepted Rejection
validate_record_dispatched f cmd pre unit_id operation_key dispatched_at = do
  token ← holder_gate f.authority_epoch cmd pre unit_id
  found ← resolve_bound cmd pre unit_id
  already_settled found.1
  guard (is_dispatching found.1.state) (transient ErrorKind.invalid_request)
  version ← next_version found.0.version
  ok (
      update_accepted operation_key
        (record found.1 {
          state = EffectState.dispatched;
          dispatched_at = some dispatched_at;
          version = version;
        })
        none (text "effect.dispatched")
        (json ((text "dispatched_at", json_uint dispatched_at) ∷ [])))

-- An error of `settle` is a property of the observations.
abbrev pub settled_intent : EffectTerminal → EffectIntent → Result EffectIntent Rejection
settled_intent terminal intent = elim (settle terminal intent).1 [
  | ok _ ↦ ok (settle terminal intent).0
  | err e ↦ err (durable ErrorKind.invalid_request)
]

unfoldable pub validate_settle :
    Funnel
    → Command
    → PreRead
    → Text
    → Text
    → EffectTerminal
    → List TargetObservation
    → SettleEvidence
    → ℕ
    → Result Accepted Rejection
validate_settle f cmd pre unit_id operation_key terminal targets evidence settled_at = do
  authority_gate f.authority_epoch cmd
  found ← resolve_bound cmd pre unit_id
  already_settled found.1
  check_target_list targets
  guard (is_none (settle_legality found.1 terminal evidence)) (transient ErrorKind.invalid_request)
  classified ← classify_settle_targets found.1 targets evidence
  intent ← settled_intent terminal (record found.1 { targets = classified })
  version ← next_version found.0.version
  ok (
      update_accepted operation_key
        (record intent {
          state = EffectState.settled;
          settled_at = some settled_at;
          version = version;
        })
        (some (terminal_wire terminal)) (text "effect.settled")
        (json (
          (text "terminal", string (terminal_wire terminal))
          ∷ (text "targets", json_uint (length targets))
          ∷ [])))

abbrev pub is_parkable : EffectState → Bool
is_parkable state = elim state [
  | EffectState.dispatching ↦ true
  | EffectState.dispatched ↦ true
  | EffectState.observing ↦ true
  | EffectState.reconciling ↦ true
  | _ ↦ false
]

unfoldable pub validate_park :
    Funnel → Command → PreRead → Text → Text → ℕ → Result Accepted Rejection
validate_park f cmd pre unit_id operation_key next_reconcile_at = do
  authority_gate f.authority_epoch cmd
  found ← resolve_bound cmd pre unit_id
  already_settled found.1
  guard (is_parkable found.1.state) (transient ErrorKind.invalid_request)
  version ← next_version found.0.version
  ok (
      update_accepted operation_key
        (record found.1 {
          state = EffectState.reconciling;
          next_reconcile_at = some next_reconcile_at;
          version = version;
        })
        none (text "effect.reconciling")
        (json ((text "next_reconcile_at", json_uint next_reconcile_at) ∷ [])))

abbrev pub is_empty {ℓ} : {A : Type ℓ} → List A → Bool
is_empty [] = true
is_empty (x ∷ xs) = false

-- No committed cancellation bars the command.
unfoldable pub unbarred : PreRead → Bool
unbarred pre = elim pre.cancel [ none ↦ true | some cancel ↦ is_empty cancel.admission_blockers ]

abbrev pub refuses_retry : RetryClass → Bool
refuses_retry class = elim class [ RetryClass.no_retry ↦ true | _ ↦ false ]

abbrev pub is_redispatchable : EffectState → Bool
is_redispatchable state = elim state [
  | EffectState.dispatched ↦ true
  | EffectState.reconciling ↦ true
  | _ ↦ false
]

-- The settlement of a prepared intent under a committed cancellation. `settle` does not fail.
unfoldable pub cancel_prepared :
    Funnel → Text → EffectNode → EffectIntent → Result Accepted Rejection
cancel_prepared f operation_key row intent = do
  version ← next_version row.version
  ok (
      update_accepted operation_key
        (record (settle EffectTerminal.cancelled intent).0 {
          settled_at = some f.clock_ms;
          version = version;
        })
        (some (terminal_wire EffectTerminal.cancelled)) (text "effect.settled")
        (json (
          (text "terminal", string (text "cancelled"))
          ∷ (text "settled_at", json_uint f.clock_ms)
          ∷ (text "rule_4", bool true)
          ∷ [])))

-- `prepared -> dispatching`, which authorizes the adapter to act.
unfoldable pub authorize_dispatch : EffectNode → EffectIntent → Text → Result Accepted Rejection
authorize_dispatch row intent operation_key = do
  guard (not (is_irreversible intent.reversibility_class) || is_some intent.approval_ref)
      (transient ErrorKind.approval_required)
  version ← next_version row.version
  ok (
      update_accepted operation_key
        (record intent { state = EffectState.dispatching; version = version }) none
        (text "effect.dispatching") (json ((text "operation_key", string operation_key) ∷ [])))

-- A prepared intent under a committed cancellation is settled instead.
unfoldable pub dispatch_or_cancel :
    Funnel → PreRead → Text → EffectNode → EffectIntent → Result Accepted Rejection
dispatch_or_cancel f pre operation_key row intent =
    if is_prepared intent.state && not (unbarred pre)
    then cancel_prepared f operation_key row intent
    else authorize_dispatch row intent operation_key

unfoldable pub validate_dispatch :
    Funnel → Command → PreRead → Text → Text → Result Accepted Rejection
validate_dispatch f cmd pre unit_id operation_key = do
  token ← holder_gate f.authority_epoch cmd pre unit_id
  found ← resolve_bound cmd pre unit_id
  already_settled found.1
  guard (is_prepared found.1.state || not (refuses_retry found.1.retry_class))
      (durable ErrorKind.invalid_request)
  guard (is_prepared found.1.state || is_redispatchable found.1.state)
      (transient ErrorKind.invalid_request)
  dispatch_or_cancel f pre operation_key found.0 found.1
