-- ===== src/Kernel/Effect.antt =====
-- crates/yah-kernel/src/effect/mod.rs: the durable effect record, its write-once settlement and the
-- classification of its targets. The operation key is a hash from outside (`Hasher`).
pub mod Settlement
use yet_another_harness.Prelude.{
  ℕ, Bool, true, false, ◌&&◌, ◌||◌, not, Option, none, some, List, [], ◌∷◌, ◌++◌, Text, text,
  text_eq, all, if◌then◌else◌, ◌==◌, Result, ok, err, map,
}
use yet_another_harness.Kernel.Ids.{Uuid7, display}

pub data EffectTerminal : Type 0 where
  succeeded : EffectTerminal
  failed : EffectTerminal
  cancelled : EffectTerminal
  compensated : EffectTerminal
  unknown : EffectTerminal

pub data EffectState : Type 0 where
  prepared : EffectState
  dispatching : EffectState
  dispatched : EffectState
  observing : EffectState
  reconciling : EffectState
  compensating : EffectState
  settled : EffectState

pub data RetryClass : Type 0 where
  safe_idempotent : RetryClass
  safe_with_operation_key : RetryClass
  query_then_retry : RetryClass
  no_retry : RetryClass

pub data ReversibilityClass : Type 0 where
  bufferable : ReversibilityClass
  reversible_external : ReversibilityClass
  irreversible : ReversibilityClass

pub data TargetEnumeration : Type 0 where
  declared : TargetEnumeration
  post_hoc : TargetEnumeration

pub data TargetState : Type 0 where
  not_applied : TargetState
  applied : TargetState
  partially_applied : TargetState
  unknown : TargetState

pub record TargetObservation : Type 0 where
  pub target_id : Text
  pub expected_digest : Option Text
  pub pre_digest : Option Text
  pub observed_digest : Option Text
  pub state : TargetState
  pub observed_at : Option ℕ

abbrev pub digest_is : Text → Option Text → Bool
digest_is observed none = false
digest_is observed (some digest) = text_eq observed digest

unfoldable pub declared_state : Option Text → Option Text → Option Text → TargetState
declared_state (some obs) exp pre =
    if digest_is obs exp
    then TargetState.applied
    else if digest_is obs pre
    then TargetState.not_applied
    else TargetState.partially_applied
declared_state none exp pre = TargetState.unknown

abbrev pub classify_declared : TargetObservation → TargetObservation
classify_declared t = record t {
  state = declared_state t.observed_digest t.expected_digest t.pre_digest;
}

pub record EffectIntent : Type 0 where
  pub effect_intent_id : Uuid7
  pub version : ℕ
  pub unit_id : Text
  pub attempt_epoch : ℕ
  pub stamp : ℕ
  pub authority_epoch : ℕ
  pub adapter_id : Text
  pub adapter_version : Text
  pub operation_key : Text
  pub logical_operation_id : Uuid7
  pub request_digest : Text
  pub retry_class : RetryClass
  pub reversibility_class : ReversibilityClass
  pub approval_ref : Option Uuid7
  pub policy_snapshot_digest : Text
  pub state : EffectState
  pub terminal : Option EffectTerminal
  pub target_enumeration : TargetEnumeration
  pub targets : List TargetObservation
  pub decomposable : Bool
  pub parent_effect_intent_id : Option Uuid7
  pub compensation_intent_id : Option Uuid7
  pub dispatched_at : Option ℕ
  pub settled_at : Option ℕ
  pub next_reconcile_at : Option ℕ

pub data EffectError : Type 0 where
  terminal_already_set : EffectTerminal → EffectError
  succeeded_with_unapplied_target : Text → EffectError
  failed_with_unknown_target : Text → EffectError

-- BLAKE3 of the bytes, in hexadecimal.
abbrev pub Hasher : Type 0
Hasher = Text → Text

-- The hasher is fed the three inputs in turn.
unfoldable pub derive_operation_key : Hasher → Text → Uuid7 → Text → Text
derive_operation_key blake3 work_item_id logical_operation_id request_digest =
    text "blake3:" ++ blake3 (work_item_id ++ display logical_operation_id ++ request_digest)

abbrev pub is_applied : TargetObservation → Bool
is_applied t = elim t.state [ TargetState.applied ↦ true | _ ↦ false ]

abbrev pub is_known : TargetObservation → Bool
is_known t = elim t.state [ TargetState.unknown ↦ false | _ ↦ true ]

-- `iter().find(|t| !test(t))`, by its id.
unfoldable pub find_failing : (TargetObservation → Bool) → List TargetObservation → Option Text
find_failing test [] = none
find_failing test (t ∷ ts) = if test t then find_failing test ts else some t.target_id

-- What bars a terminal, by the recorded targets.
abbrev pub target_error : EffectTerminal → List TargetObservation → Option EffectError
target_error EffectTerminal.succeeded targets = elim (find_failing is_applied targets) [
  | none ↦ none
  | some id ↦ some (EffectError.succeeded_with_unapplied_target id)
]
target_error EffectTerminal.failed targets = elim (find_failing is_known targets) [
  | none ↦ none
  | some id ↦ some (EffectError.failed_with_unknown_target id)
]
target_error _ targets = none

unfoldable pub settle : EffectTerminal → EffectIntent → EffectIntent × Result (Unit {0}) EffectError
settle terminal intent = elim intent.terminal [
  | some existing ↦ (intent, err (EffectError.terminal_already_set existing))
  | none ↦ elim (target_error terminal intent.targets) [
    | some error ↦ (intent, err error)
    | none ↦ (record intent { terminal = some terminal; state = EffectState.settled }, ok tt)
  ]
]

unfoldable pub classify_targets : EffectIntent → EffectTerminal
classify_targets intent = by_rows intent.targets
  where
    by_rows : List TargetObservation → EffectTerminal
    by_rows [] = EffectTerminal.unknown
    by_rows (t ∷ ts) =
        if not (all is_known (t ∷ ts))
        then EffectTerminal.unknown
        else if all is_applied (t ∷ ts)
        then EffectTerminal.succeeded
        else EffectTerminal.failed
