-- ===== src/Compose/Tests.antt =====
-- Runs of a component instance, and instances of the theorems on them.
use yet_another_harness.Prelude.{◌≡◌, ◌≢◌, refl, none, List, [], ◌∷◌, ok, arith}
use yet_another_harness.Compose.Lifecycle.{
  ActivationEpoch, StopTarget, ComponentState, ComponentStateKind, LifecycleAction,
  invalid_transition, kind, activation, invalid, require_action, require_activation,
}
use yet_another_harness.Compose.Component.{
  ComponentInstance, checked_succ, new, begin_start, complete_start, begin_stop, complete_stop,
  remove_pending,
}
use yet_another_harness.Compose.Component.Steps.{
  Step, take_step, presented, Transition, run, activations,
}
use yet_another_harness.Compose.Component.Fence.{take_step-accepted, take_step-refused}
use yet_another_harness.Compose.Component.Histories.{run-accepted, take_step-late}

abbrev fresh : ComponentInstance
fresh = record {
  state = ComponentState.pending;
  incarnation = 1;
  last_activation = 0;
  last_failure = none;
}

abbrev first_epoch : ActivationEpoch
first_epoch = record { incarnation = 1; sequence = 1 }

abbrev started : ComponentInstance
started = record fresh { state = ComponentState.starting first_epoch; last_activation = 1 }

-- The first activation is stopped, and the second begins.
abbrev restart : List Step
restart =
    Step.begin_stop first_epoch StopTarget.pending
    ∷ Step.complete_stop first_epoch
    ∷ Step.begin_start
    ∷ []

new_counts : new 1 ≡ (2, ok fresh)
unfolding new checked_succ
new_counts = refl

start_fresh : begin_start fresh ≡ (started, ok first_epoch)
unfolding begin_start require_action checked_succ
start_fresh = refl

run-accepted_example :
    first_epoch ≡ record { incarnation = 1; sequence = activations (Step.begin_start ∷ []) fresh }
unfolding run take_step begin_start complete_start require_action require_activation activation
    checked_succ presented
run-accepted_example =
    run-accepted 1 2 fresh (Step.begin_start ∷ []) (Step.complete_start first_epoch) first_epoch
      new_counts refl refl

take_step-late_example :
    ((take_step (Step.complete_start first_epoch) (run restart started)).1 ≢ none)
    × ((take_step (Step.complete_start first_epoch) (run restart started)).0 ≡ run restart started)
unfolding run take_step begin_start begin_stop complete_stop require_action require_activation
    activation checked_succ presented activations
take_step-late_example =
    take_step-late fresh started first_epoch restart (Step.complete_start first_epoch) start_fresh
      (omega arith) refl

take_step-accepted_example :
    Transition (kind fresh.state) Step.begin_start (kind (take_step Step.begin_start fresh).0.state)
unfolding take_step begin_start require_action checked_succ
take_step-accepted_example = take_step-accepted Step.begin_start fresh refl

take_step-refused_example : (take_step Step.remove_pending started).0 ≡ started
unfolding take_step remove_pending invalid kind
take_step-refused_example =
    take_step-refused Step.remove_pending started
      (invalid_transition ComponentStateKind.starting LifecycleAction.remove_pending) refl
