-- ===== src/Kernel/Effect/Settlement.antt =====
-- The rules of settlement of crates/yah-kernel/src/effect/mod.rs.
use yet_another_harness.Prelude.{
  ◌≡◌, refl, Bool, true, false, none, some, List, [], ◌∷◌, all, ok, err, arith, ◌↔◌,
}
use yet_another_harness.Kernel.Effect.{
  EffectTerminal, EffectState, EffectIntent, TargetObservation, EffectError, is_applied, is_known,
  find_failing, target_error, settle, classify_targets, succeeded, failed,
}

all-find_failing :
    (test : TargetObservation → Bool) (ts : List TargetObservation)
    → all test ts ≡ (elim (find_failing test ts) [ none ↦ true | some _ ↦ false ])
unfolding find_failing
all-find_failing test [] = refl
all-find_failing test (t ∷ ts) = ground (arith, all-find_failing test ts)

-- What a settlement with a terminal says of the targets.
abbrev pub IsHonest : EffectTerminal → List TargetObservation → Type 0
IsHonest terminal targets =
    (terminal ≡ succeeded → all is_applied targets ≡ true)
    × (terminal ≡ failed → all is_known targets ≡ true)

target_error-IsHonest :
    (terminal : EffectTerminal) (targets : List TargetObservation)
    → (target_error terminal targets ≡ none) ↔ IsHonest terminal targets
target_error-IsHonest terminal targets =
    let applied = all-find_failing is_applied targets in
    let known = all-find_failing is_known targets in by_terminal terminal applied known
  where
    by_terminal :
        (terminal : EffectTerminal)
        → all is_applied targets
          ≡ (elim (find_failing is_applied targets) [ none ↦ true | some _ ↦ false ])
        → all is_known targets
          ≡ (elim (find_failing is_known targets) [ none ↦ true | some _ ↦ false ])
        → (target_error terminal targets ≡ none) ↔ IsHonest terminal targets
    by_terminal terminal applied known = ground (arith, applied, known)

-- A settlement succeeds exactly on an intent without a terminal whose targets bear the terminal
-- out: all of them applied for `succeeded`, none of them unknown for `failed`.
pub settle_lem :
    (terminal : EffectTerminal) (intent : EffectIntent)
    → ((settle terminal intent).1 ≡ ok tt)
      ↔ ((intent.terminal ≡ none) × IsHonest terminal intent.targets)
unfolding settle
settle_lem terminal intent = ground (arith, target_error-IsHonest terminal intent.targets)

-- A settlement that succeeds sets the terminal and the state, and nothing else; a refused one
-- changes nothing.
pub settle_outcome :
    (terminal : EffectTerminal) (intent : EffectIntent)
    → (settle terminal intent).0 ≡ (elim (settle terminal intent).1 [
      | ok _ ↦ record intent { terminal = some terminal; state = EffectState.settled }
      | err _ ↦ intent
    ])
unfolding settle
settle_outcome terminal intent = ground arith

classify_targets-IsHonest :
    (intent : EffectIntent) → IsHonest (classify_targets intent) intent.targets
unfolding classify_targets
classify_targets-IsHonest intent = ground arith

-- The classifier's own answer always settles an intent that has no terminal.
pub settle-classify_targets :
    (intent : EffectIntent)
    → intent.terminal ≡ none
    → (settle (classify_targets intent) intent).1 ≡ ok tt
settle-classify_targets intent h =
    (settle_lem (classify_targets intent) intent).1 (h, classify_targets-IsHonest intent)

-- The terminal is write-once: after a settlement, any other is refused and changes nothing.
pub settle-settle :
    (first second : EffectTerminal) (intent : EffectIntent)
    → (settle first intent).1 ≡ ok tt
    → settle second (settle first intent).0
      ≡ ((settle first intent).0, err (EffectError.terminal_already_set first))
unfolding settle
settle-settle first second intent h = ground arith
