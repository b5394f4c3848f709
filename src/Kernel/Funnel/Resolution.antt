-- ===== src/Kernel/Funnel/Resolution.antt =====
-- crates/yah-kernel/src/funnel/cancel_resolution.rs and store/cancel_recovery.rs: the place of a
-- member and of a would-be child in the tree of cancellation.
use yet_another_harness.Prelude.{
  ℕ, Bool, true, false, ◌&&◌, ◌||◌, Option, none, some, List, [], ◌∷◌, ◌++◌, Text, text, text_eq,
  mem_text, ltb, if◌then◌else◌, ◌>>?◌, is_some,
}
use yet_another_harness.Prelude.Table.{read}
use yet_another_harness.Kernel.Effect.{EffectState}
use yet_another_harness.Kernel.Cancel.{CancelKind, kind_eq}
use yet_another_harness.Kernel.Cancel.Scope.{MemberInput}
use yet_another_harness.Kernel.Funnel.Command.{Method}
use yet_another_harness.Kernel.Funnel.State.{Graph, EffectNode, attempt_key}
use yet_another_harness.Kernel.Funnel.RunRules.{unit_run_id}

pub record MemberLink : Type 0 where
  pub parent_unit : Option Text
  pub run_id : Option Text
  pub attempt_epoch : Option ℕ

unfoldable pub attempt_to_unit : Graph → Text → Option (Text × Text)
attempt_to_unit g attempt_id = read attempt_id g.attempt_ids >>? λ key.
    read key g.attempts >>? λ attempt.
    unit_run_id g attempt.unit_id >>? λ run_id. some (attempt.unit_id, run_id)

unfoldable pub effect_to_unit : Graph → Text → Option (Text × Text × Option ℕ)
effect_to_unit g effect_intent_id = read effect_intent_id g.effect_intent_ids >>? λ key.
    read key g.effects >>? λ effect. unit_run_id g effect.unit_id >>? λ run_id.
    some (effect.unit_id, run_id, some effect.attempt_epoch)

unfoldable pub attempt_id_for_epoch : Graph → Text → ℕ → Option Text
attempt_id_for_epoch g unit_id epoch =
    read (attempt_key unit_id epoch) g.attempts >>? λ attempt. some attempt.attempt_id

-- A member that does not resolve has the default texts.
unfoldable pub member_link : Graph → MemberInput → MemberLink
member_link g m = by_kind m.member_kind
  where
    link : Option Text → Option Text → Option ℕ → MemberLink
    link unit run epoch = record { parent_unit = unit; run_id = run; attempt_epoch = epoch }

    by_kind : CancelKind → MemberLink
    by_kind CancelKind.run = link none (some m.member_id) none
    by_kind CancelKind.execution_unit = link none (unit_run_id g m.member_id) none
    by_kind CancelKind.attempt = elim (attempt_to_unit g m.member_id) [
      | none ↦ link (some []) (some []) none
      | some found ↦ link (some found.0) (some found.1) none
    ]
    by_kind CancelKind.effect_intent = elim (effect_to_unit g m.member_id) [
      | none ↦ link (some []) (some []) none
      | some found ↦ link (some found.0) (some found.1) found.2
    ]

-- Membership in a list of statuses: `true`, `false`, or no such status.
abbrev pub by_status : List Text → List Text → Text → Option Bool
by_status live ended status =
    if mem_text status live then some false else if mem_text status ended then some true else none

abbrev pub run_live : List Text
run_live = text "open" ∷ text "active" ∷ text "reconciling" ∷ []

abbrev pub run_ended : List Text
run_ended = text "closed_success" ∷ text "closed_failure" ∷ text "cancelled" ∷ []

abbrev pub unit_statuses : List Text
unit_statuses =
    text "admitted"
    ∷ text "dispatched"
    ∷ text "running"
    ∷ text "awaiting_review"
    ∷ text "awaiting_integration"
    ∷ text "settled_accepted"
    ∷ text "settled_rejected"
    ∷ text "cancelled"
    ∷ text "failed"
    ∷ text "abandoned"
    ∷ []

abbrev pub attempt_live : List Text
attempt_live =
    text "active" ∷ text "completed" ∷ text "cancelled" ∷ text "failed" ∷ text "unknown" ∷ []

abbrev pub is_settled_state : EffectState → Bool
is_settled_state state = elim state [ EffectState.settled ↦ true | _ ↦ false ]

-- `Some(true)` only for a root with a durable proof of its end.
unfoldable pub cancel_root_terminal : Graph → CancelKind → Text → Option Bool
cancel_root_terminal g CancelKind.run root_id =
    read root_id g.runs >>? λ run. by_status run_live run_ended run.status
cancel_root_terminal g CancelKind.execution_unit root_id =
    read root_id g.units >>? λ unit. by_status unit_statuses [] unit.status
cancel_root_terminal g CancelKind.attempt root_id = read root_id g.attempt_ids >>? λ key.
    read key g.attempts >>? λ attempt.
    by_status attempt_live (text "superseded" ∷ []) attempt.status
cancel_root_terminal g CancelKind.effect_intent root_id =
    read root_id g.effect_intent_ids >>? λ key. read key g.effects >>? λ effect.
    effect.intent_record >>? λ intent.
    some (is_settled_state intent.state && is_some intent.terminal)

unfoldable pub unit_lineage : Graph → Text → Bool → Option (List (CancelKind × Text))
unit_lineage g unit_id include_attempt = read unit_id g.units >>? λ unit. some (
    (CancelKind.run, unit.run_id)
    ∷ (CancelKind.execution_unit, unit_id)
    ∷ current unit.current_attempt_epoch)
  where
    current : ℕ → List (CancelKind × Text)
    current epoch =
        if include_attempt && ltb 0 epoch
        then (elim (attempt_id_for_epoch g unit_id epoch) [
          | none ↦ []
          | some attempt_id ↦ (CancelKind.attempt, attempt_id) ∷ []
        ])
        else []

unfoldable pub in_lineage : CancelKind → Text → List (CancelKind × Text) → Bool
in_lineage kind id [] = false
in_lineage kind id ((k, i) ∷ rest) = (kind_eq k kind && text_eq i id) || in_lineage kind id rest

-- The attempt that the effect was prepared under, when it is not in the lineage, and the effect.
unfoldable pub effect_lineage :
    Graph → Text → EffectNode → List (CancelKind × Text) → List (CancelKind × Text)
effect_lineage g unit_id row lineage =
    (lineage ++ own_attempt) ++ (CancelKind.effect_intent, row.effect_intent_id) ∷ []
  where
    own_attempt : List (CancelKind × Text)
    own_attempt =
        if text_eq row.unit_id unit_id
        then (elim (attempt_id_for_epoch g unit_id row.attempt_epoch) [
          | none ↦ []
          | some attempt_id ↦
              if in_lineage CancelKind.attempt attempt_id lineage
              then []
              else (CancelKind.attempt, attempt_id) ∷ []
        ])
        else []

unfoldable pub adoption_lineage :
    Method → Graph → Option EffectNode → Option (List (CancelKind × Text))
adoption_lineage (Method.unit_admit unit_id work_item_id run_id) g effect =
    some ((CancelKind.run, run_id) ∷ [])
adoption_lineage (Method.unit_dispatch unit_id holder_id) g effect = unit_lineage g unit_id false
adoption_lineage (Method.effect_prepare unit_id spec) g effect = unit_lineage g unit_id true
adoption_lineage (Method.effect_dispatch unit_id key) g effect =
    unit_lineage g unit_id true >>? λ lineage. elim effect [
      | none ↦ some lineage
      | some row ↦ some (effect_lineage g unit_id row lineage)
    ]
adoption_lineage _ g effect = none
