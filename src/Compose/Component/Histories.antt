-- ===== src/Compose/Component/Histories.antt =====
-- The fence of activation epochs over any history of a component instance of
-- crates/yah-compose/src/component.rs.
use yet_another_harness.Prelude.{
  ℕ, ◌+◌, ◌≤◌, ◌≡◌, ◌≢◌, refl, ap, Option, none, some, List, [], ◌∷◌, ok, arith,
}
use yet_another_harness.Compose.Lifecycle.{ActivationEpoch, LifecycleError, activation}
use yet_another_harness.Compose.Component.{
  ComponentInstance, checked_succ, new, begin_start, complete_start, mark_failed, begin_stop,
  complete_stop, remove_pending,
}
use yet_another_harness.Compose.Component.Steps.{
  Step, take_step, presented, run, begins, activations,
}
use yet_another_harness.Compose.Component.Fence.{
  IsFenced, take_step-IsFenced, take_step-refused, accepted_epoch,
}

-- A call counts the activation that it begins, and keeps the incarnation.
take_step-counts :
    (step : Step) (i : ComponentInstance)
    → ((take_step step i).0.last_activation ≡ i.last_activation + begins step (take_step step i).1)
      × ((take_step step i).0.incarnation ≡ i.incarnation)
unfolding take_step begin_start complete_start mark_failed begin_stop complete_stop remove_pending
    checked_succ
take_step-counts Step.begin_start i = ground arith
take_step-counts (Step.complete_start epoch) i = ground arith
take_step-counts (Step.mark_failed epoch summary) i = ground arith
take_step-counts (Step.begin_stop epoch target) i = ground arith
take_step-counts (Step.complete_stop epoch) i = ground arith
take_step-counts Step.remove_pending i = ground arith

run-counts :
    (steps : List Step) (i : ComponentInstance)
    → ((run steps i).last_activation ≡ i.last_activation + activations steps i)
      × ((run steps i).incarnation ≡ i.incarnation)
unfolding run activations
run-counts [] i = ground arith
run-counts (step ∷ steps) i =
    let (counted, kept) = take_step-counts step i in
    let (counts, keeps) = run-counts steps (take_step step i).0 in (omega arith, ground arith)

run-IsFenced : (steps : List Step) (i : ComponentInstance) → IsFenced i → IsFenced (run steps i)
unfolding run
run-IsFenced [] i fenced = fenced
run-IsFenced (step ∷ steps) i fenced =
    run-IsFenced steps (take_step step i).0 (take_step-IsFenced step i fenced)

-- An epoch that a call of any later time presents with success is that of the incarnation, and its
-- sequence number counts the activations so far.
fenced_epoch :
    (i : ComponentInstance) (steps : List Step) (step : Step) (epoch : ActivationEpoch)
    → IsFenced i
    → (take_step step (run steps i)).1 ≡ none
    → presented step ≡ some epoch
    → epoch
      ≡ record { incarnation = i.incarnation; sequence = i.last_activation + activations steps i }
fenced_epoch i steps step epoch fenced h given =
    let current = accepted_epoch step (run steps i) epoch h given in
    let still = run-IsFenced steps i fenced in let counts = run-counts steps i in ground arith

new-IsFenced :
    (counter next : ℕ) (i : ComponentInstance)
    → new counter ≡ (next, ok i)
    → IsFenced i × (i.incarnation ≡ counter) × (i.last_activation ≡ 0) × (next ≡ counter + 1)
unfolding new checked_succ activation
new-IsFenced counter next i h = ground arith

-- Over every history of a new instance: a call that presents an activation epoch succeeds only if
-- the epoch is that of this incarnation, and its sequence number counts all the activations that
-- the history has begun, so that it is the newest.
pub run-accepted :
    (counter next : ℕ) (i : ComponentInstance) (steps : List Step) (step : Step)
    (epoch : ActivationEpoch)
    → new counter ≡ (next, ok i)
    → (take_step step (run steps i)).1 ≡ none
    → presented step ≡ some epoch
    → epoch ≡ record { incarnation = counter; sequence = activations steps i }
run-accepted counter next i steps step epoch fresh h given =
    let (fenced, inc, last, _) = new-IsFenced counter next i fresh in
    let found = fenced_epoch i steps step epoch fenced h given in ground arith

-- The epoch that a start returns is current.
begin_start-IsFenced :
    (i j : ComponentInstance) (epoch : ActivationEpoch)
    → begin_start i ≡ (j, ok epoch)
    → IsFenced j × (epoch.sequence ≡ j.last_activation)
unfolding begin_start activation
begin_start-IsFenced i j epoch h = ground arith

-- Late work is refused and changes nothing: the epoch of a start is of no use once a later
-- activation has begun.
pub take_step-late :
    (i j : ComponentInstance) (epoch : ActivationEpoch) (steps : List Step) (step : Step)
    → begin_start i ≡ (j, ok epoch)
    → 1 ≤ activations steps j
    → presented step ≡ some epoch
    → ((take_step step (run steps j)).1 ≢ none) × ((take_step step (run steps j)).0 ≡ run steps j)
take_step-late i j epoch steps step begun later given =
    (refused, unchanged (take_step step (run steps j)).1 refl)
  where
    refused : (take_step step (run steps j)).1 ≢ none
    refused h =
        let (fenced, sequence) = begin_start-IsFenced i j epoch begun in
        let found = fenced_epoch j steps step epoch fenced h given in
        let sequences = ap (λ e. e.sequence) found in omega (arith, sequences, sequence)

    unchanged :
        (e : Option LifecycleError)
        → (take_step step (run steps j)).1 ≡ e
        → (take_step step (run steps j)).0 ≡ run steps j
    unchanged none h = absurd (refused h)
    unchanged (some e) h = take_step-refused step (run steps j) e h
