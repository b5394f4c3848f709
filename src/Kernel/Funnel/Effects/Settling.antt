-- ===== src/Kernel/Funnel/Effects/Settling.antt =====
-- What an accepted `effect.settle` of crates/yah-kernel/src/funnel/effects.rs says of the world.
use yet_another_harness.Prelude.{
  ℕ, ◌≡◌, ◌≢◌, refl, inl, inr, Bool-cases, true, Option, none, some, List, Text, all, map, arith,
  ok,
}
use yet_another_harness.Kernel.Ids.{Uuid7}
use yet_another_harness.Kernel.Effect.{
  EffectIntent, EffectState, EffectTerminal, ReversibilityClass, TargetEnumeration,
  TargetObservation,
}
use yet_another_harness.Kernel.Effect.Settlement.{settle_lem, IsHonest}
use yet_another_harness.Kernel.Funnel.EffectRules.{
  SettleEvidence, merge_row, merge_declared, classify_settle_targets, settle_legality, is_prepared,
  has_dispatch_evidence,
}
use yet_another_harness.Kernel.Funnel.EffectRules.Omission.{is_witnessed, merged_applied}
use yet_another_harness.Kernel.Funnel.Command.{Command}
use yet_another_harness.Kernel.Funnel.State.{Funnel, EffectNode, Accepted}
use yet_another_harness.Kernel.Funnel.PreRead.{PreRead}
use yet_another_harness.Kernel.Funnel.Effects.{resolve_bound, settled_intent, validate_settle}

settled_intent-IsHonest :
    (terminal : EffectTerminal) (intent after : EffectIntent)
    → settled_intent terminal intent ≡ ok after
    → IsHonest terminal intent.targets
settled_intent-IsHonest terminal intent after h = ground (arith, h, settle_lem terminal intent)

merge_declared_ok :
    (declared submitted rows : List TargetObservation)
    → merge_declared declared submitted ≡ ok rows
    → rows ≡ map (merge_row submitted) declared
unfolding merge_declared
merge_declared_ok declared submitted rows h = ground (arith, h)

-- The adapter may have acted: the dispatch was committed, and the effect is not settled.
abbrev pub IsSent : EffectIntent → Type 0
IsSent intent = (intent.state ≢ EffectState.prepared) × (intent.state ≢ EffectState.settled)

-- When an effect can be settled with a terminal.
pub data IsLawful (intent : EffectIntent) (evidence : SettleEvidence)
    : EffectTerminal → Type 0 where
  success : IsSent intent → IsLawful intent evidence EffectTerminal.succeeded
  failure : IsSent intent → IsLawful intent evidence EffectTerminal.failed
  uncertain : IsSent intent → IsLawful intent evidence EffectTerminal.unknown
  never_sent :
      intent.state ≡ EffectState.prepared → IsLawful intent evidence EffectTerminal.cancelled
  reported :
      IsSent intent
      → evidence.target_reported_cancellation ≡ true
      → IsLawful intent evidence EffectTerminal.cancelled
  compensation :
      (id : Uuid7)
      → IsSent intent
      → intent.reversibility_class ≢ ReversibilityClass.irreversible
      → intent.compensation_intent_id ≡ some id
      → IsLawful intent evidence EffectTerminal.compensated

sent : (intent : EffectIntent) → has_dispatch_evidence intent.state ≡ true → IsSent intent
sent intent h = (λ e. ground (arith, h, e), λ e. ground (arith, h, e))

settle_legality-IsLawful :
    (intent : EffectIntent) (evidence : SettleEvidence) (terminal : EffectTerminal)
    → settle_legality intent terminal evidence ≡ none
    → IsLawful intent evidence terminal
unfolding settle_legality
settle_legality-IsLawful intent evidence EffectTerminal.succeeded h =
    success (sent intent (ground (arith, h)))
settle_legality-IsLawful intent evidence EffectTerminal.failed h =
    failure (sent intent (ground (arith, h)))
settle_legality-IsLawful intent evidence EffectTerminal.unknown h =
    uncertain (sent intent (ground (arith, h)))
settle_legality-IsLawful intent evidence EffectTerminal.cancelled h =
    elim (Bool-cases (is_prepared intent.state)) [
      | inl fresh ↦ never_sent (ground (arith, fresh))
      | inr left ↦ reported (sent intent (ground (arith, h, left))) (ground (arith, h, left))
    ]
settle_legality-IsLawful intent evidence EffectTerminal.compensated h =
    by_id intent.compensation_intent_id refl
  where
    by_id :
        (o : Option Uuid7)
        → intent.compensation_intent_id ≡ o
        → IsLawful intent evidence EffectTerminal.compensated
    by_id none e = absurd (ground (arith, h, e))
    by_id (some id) e =
        compensation id (sent intent (ground (arith, h, e))) (λ u. ground (arith, h, u)) e

module _ (f : Funnel) (cmd : Command) (pre : PreRead) (unit_id key : Text)
    (targets : List TargetObservation) (evidence : SettleEvidence) (at : ℕ) (row : EffectNode)
    (intent : EffectIntent) (found : pre.effect ≡ some row)
    (reads : row.intent_record ≡ some intent) where
  settle_checks :
      (terminal : EffectTerminal) (a : Accepted)
      → validate_settle f cmd pre unit_id key terminal targets evidence at ≡ ok a
      → (intent.terminal ≡ none) × (settle_legality intent terminal evidence ≡ none)
  unfolding validate_settle resolve_bound
  settle_checks terminal a h = ground (arith, h, found, reads)

  -- When `effect.settle` is accepted, the intent had no terminal, and the new one is lawful:
  -- `succeeded`, `failed` and `unknown` are settled only of an effect that was sent, which is neither
  -- prepared nor settled; `cancelled` of one still prepared, or sent and whose target reported the
  -- cancellation; and `compensated` of one that was sent, is not irreversible, and names its
  -- compensation.
  pub validate_settle-IsLawful :
      (terminal : EffectTerminal) (a : Accepted)
      → validate_settle f cmd pre unit_id key terminal targets evidence at ≡ ok a
      → (intent.terminal ≡ none) × IsLawful intent evidence terminal
  validate_settle-IsLawful terminal a h =
      let checks = settle_checks terminal a h in
      (checks.0, settle_legality-IsLawful intent evidence terminal checks.1)

  -- An effect with declared targets is settled `succeeded` only when every one of them was observed
  -- at its expected digest: an omitted observation never makes a success.
  pub succeeded_observed :
      (a : Accepted)
      → intent.target_enumeration ≡ TargetEnumeration.declared
      → validate_settle f cmd pre unit_id key EffectTerminal.succeeded targets evidence at ≡ ok a
      → all (is_witnessed targets) intent.targets ≡ true
  unfolding validate_settle resolve_bound classify_settle_targets
  succeeded_observed a declared h = grind (
    arith,
    h,
    found,
    reads,
    declared,
    settled_intent-IsHonest,
    merge_declared_ok,
    merged_applied targets intent.targets,
  )
