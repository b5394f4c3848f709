-- ===== src/Kernel/Funnel/EffectRules.antt =====
-- crates/yah-kernel/src/funnel/effect_rules.rs: the legality of a settlement, and the classification
-- of its targets. The reason of an unlawful transition is kept as a value.
pub mod Omission
use yet_another_harness.Prelude.{
  Bool, true, false, ◌&&◌, not, Option, none, some, List, [], ◌∷◌, Text, text, text_eq, text_ltb,
  mem_text, byte_length, length, leb, if◌then◌else◌, map, Result, ok, guard, ◌>>◌, is_some, is_none,
}
use yet_another_harness.Kernel.Error.{ErrorKind, Rejection, durable}
use yet_another_harness.Kernel.Effect.{
  EffectIntent, EffectState, EffectTerminal, ReversibilityClass, TargetEnumeration,
  TargetObservation, TargetState, classify_declared,
}

pub record SettleEvidence : Type 0 where
  pub clean_wait_status : Bool
  pub target_reported_cancellation : Bool

-- The loop of `check_target_list`, with the ids that it has seen.
unfoldable pub check_rows : List Text → List TargetObservation → Result (Unit {0}) Rejection
check_rows seen [] = ok tt
check_rows seen (t ∷ ts) = do
  guard (leb (byte_length t.target_id) 256) (durable ErrorKind.invalid_request)
  guard (not (mem_text t.target_id seen)) (durable ErrorKind.invalid_request)
  check_rows (t.target_id ∷ seen) ts

unfoldable pub check_target_list : List TargetObservation → Result (Unit {0}) Rejection
check_target_list targets = do
  guard (leb (length targets) 1024) (durable ErrorKind.invalid_request)
  check_rows [] targets

unfoldable pub insert_target : TargetObservation → List TargetObservation → List TargetObservation
insert_target t [] = t ∷ []
insert_target t (u ∷ us) =
    if text_ltb u.target_id t.target_id then u ∷ insert_target t us else t ∷ u ∷ us

-- The stable `sort_by` of the ids, as an insertion sort.
unfoldable pub sorted_by_target_id : List TargetObservation → List TargetObservation
sorted_by_target_id [] = []
sorted_by_target_id (t ∷ ts) = insert_target t (sorted_by_target_id ts)

abbrev pub unobserved : TargetObservation → TargetObservation
unobserved t = record t { observed_digest = none; observed_at = none; state = TargetState.unknown }

unfoldable pub declared_at_prepare : List TargetObservation → List TargetObservation
declared_at_prepare targets = sorted_by_target_id (map unobserved targets)

-- `by_id.get`: a later row of the same id replaces an earlier one.
unfoldable pub last_by_id : Text → List TargetObservation → Option TargetObservation
last_by_id id [] = none
last_by_id id (t ∷ ts) = elim (last_by_id id ts) [
  | some later ↦ some later
  | none ↦ if text_eq t.target_id id then some t else none
]

unfoldable pub declares : List TargetObservation → Text → Bool
declares [] id = false
declares (d ∷ ds) id = if text_eq d.target_id id then true else declares ds id

unfoldable pub check_declared :
    List TargetObservation → List TargetObservation → Result (Unit {0}) Rejection
check_declared declared [] = ok tt
check_declared declared (t ∷ ts) = do
  guard (declares declared t.target_id) (durable ErrorKind.invalid_request)
  check_declared declared ts

-- A declared row, with what was observed of it.
unfoldable pub merge_row : List TargetObservation → TargetObservation → TargetObservation
merge_row submitted d = elim (last_by_id d.target_id submitted) [
  | some obs ↦
      classify_declared
        (record d { observed_digest = obs.observed_digest; observed_at = obs.observed_at })
  | none ↦ classify_declared (record d { observed_digest = none; observed_at = none })
]

unfoldable pub merge_declared :
    List TargetObservation → List TargetObservation → Result (List TargetObservation) Rejection
merge_declared declared submitted = do
  check_declared declared submitted
  ok (map (merge_row submitted) declared)

unfoldable pub post_hoc_row : SettleEvidence → TargetObservation → TargetObservation
post_hoc_row evidence t = record t {
  expected_digest = none;
  state =
      if evidence.clean_wait_status && is_some t.observed_digest
      then TargetState.applied
      else TargetState.unknown;
}

unfoldable pub classify_post_hoc : List TargetObservation → SettleEvidence → List TargetObservation
classify_post_hoc submitted evidence = sorted_by_target_id (map (post_hoc_row evidence) submitted)

pub data Unlawful : Type 0 where
  needs_dispatch_evidence : Unlawful
  needs_reported_cancellation : Unlawful
  nothing_dispatched : Unlawful
  irreversible_effect : Unlawful
  no_compensation_intent : Unlawful
  no_adapter_acted : Unlawful

abbrev pub has_dispatch_evidence : EffectState → Bool
has_dispatch_evidence state = elim state [
  | EffectState.prepared ↦ false
  | EffectState.settled ↦ false
  | _ ↦ true
]

abbrev pub is_prepared : EffectState → Bool
is_prepared state = elim state [ EffectState.prepared ↦ true | _ ↦ false ]

abbrev pub is_irreversible : ReversibilityClass → Bool
is_irreversible class = elim class [ ReversibilityClass.irreversible ↦ true | _ ↦ false ]

unfoldable pub settle_legality : EffectIntent → EffectTerminal → SettleEvidence → Option Unlawful
settle_legality intent terminal evidence = by_terminal terminal
  where
    by_terminal : EffectTerminal → Option Unlawful
    by_terminal EffectTerminal.succeeded =
        if has_dispatch_evidence intent.state then none else some Unlawful.needs_dispatch_evidence
    by_terminal EffectTerminal.failed =
        if has_dispatch_evidence intent.state then none else some Unlawful.needs_dispatch_evidence
    by_terminal EffectTerminal.cancelled =
        if is_prepared intent.state
        then none
        else if has_dispatch_evidence intent.state && evidence.target_reported_cancellation
        then none
        else some Unlawful.needs_reported_cancellation
    by_terminal EffectTerminal.compensated =
        if not (has_dispatch_evidence intent.state)
        then some Unlawful.nothing_dispatched
        else if is_irreversible intent.reversibility_class
        then some Unlawful.irreversible_effect
        else if is_none intent.compensation_intent_id
        then some Unlawful.no_compensation_intent
        else none
    by_terminal EffectTerminal.unknown =
        if has_dispatch_evidence intent.state then none else some Unlawful.no_adapter_acted

unfoldable pub classify_settle_targets :
    EffectIntent
    → List TargetObservation
    → SettleEvidence
    → Result (List TargetObservation) Rejection
classify_settle_targets intent submitted evidence = by_enumeration intent.target_enumeration
  where
    by_enumeration : TargetEnumeration → Result (List TargetObservation) Rejection
    by_enumeration TargetEnumeration.declared = merge_declared intent.targets submitted
    by_enumeration TargetEnumeration.post_hoc = ok (classify_post_hoc submitted evidence)

abbrev pub terminal_wire : EffectTerminal → Text
terminal_wire EffectTerminal.succeeded = text "succeeded"
terminal_wire EffectTerminal.failed = text "failed"
terminal_wire EffectTerminal.cancelled = text "cancelled"
terminal_wire EffectTerminal.compensated = text "compensated"
terminal_wire EffectTerminal.unknown = text "unknown"

abbrev pub state_wire : EffectState → Text
state_wire EffectState.prepared = text "prepared"
state_wire EffectState.dispatching = text "dispatching"
state_wire EffectState.dispatched = text "dispatched"
state_wire EffectState.observing = text "observing"
state_wire EffectState.reconciling = text "reconciling"
state_wire EffectState.compensating = text "compensating"
state_wire EffectState.settled = text "settled"
