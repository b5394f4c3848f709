-- ===== src/Compose/Component/Fence.antt =====
-- The transitions of a component instance of crates/yah-compose/src/component.rs, and the fence of
-- its activation epochs.
use yet_another_harness.Prelude.{◌≡◌, ◌⊎◌, none, some, arith}
use yet_another_harness.Compose.Lifecycle.{
  ActivationEpoch, LifecycleError, activation, kind, require_action, require_activation,
}
use yet_another_harness.Compose.Component.Steps.{
  Step, take_step, presented, Transition, starts, activates, fails_starting, fails_active,
  stops_starting, stops_active, stops_failed, settles, retires, removes,
}
use yet_another_harness.Compose.Component.{
  ComponentInstance, begin_start, complete_start, mark_failed, begin_stop, complete_stop,
  remove_pending,
}

-- A call that returns an error leaves the instance as it was.
pub take_step-refused :
    (step : Step) (i : ComponentInstance) (e : LifecycleError)
    → (take_step step i).1 ≡ some e
    → (take_step step i).0 ≡ i
unfolding take_step begin_start complete_start mark_failed begin_stop complete_stop remove_pending
take_step-refused Step.begin_start i e h = ground arith
take_step-refused (Step.complete_start epoch) i e h = ground arith
take_step-refused (Step.mark_failed epoch summary) i e h = ground arith
take_step-refused (Step.begin_stop epoch target) i e h = ground arith
take_step-refused (Step.complete_stop epoch) i e h = ground arith
take_step-refused Step.remove_pending i e h = ground arith

-- A call succeeds only along a transition of the lifecycle.
pub take_step-accepted :
    (step : Step) (i : ComponentInstance)
    → (take_step step i).1 ≡ none
    → Transition (kind i.state) step (kind (take_step step i).0.state)
unfolding take_step begin_start complete_start mark_failed begin_stop complete_stop remove_pending
    kind require_action require_activation
take_step-accepted Step.begin_start i h = grind (arith, starts)
take_step-accepted (Step.complete_start epoch) i h = grind (arith, activates epoch)
take_step-accepted (Step.mark_failed epoch summary) i h =
    grind (arith, fails_starting epoch summary, fails_active epoch summary)
take_step-accepted (Step.begin_stop epoch target) i h =
    grind (arith, stops_starting epoch target, stops_active epoch target, stops_failed epoch target)
take_step-accepted (Step.complete_stop epoch) i h = grind (arith, settles epoch, retires epoch)
take_step-accepted Step.remove_pending i h = grind (arith, removes)

-- A call that presents an epoch succeeds only with the current one.
pub accepted_epoch :
    (step : Step) (i : ComponentInstance) (epoch : ActivationEpoch)
    → (take_step step i).1 ≡ none
    → presented step ≡ some epoch
    → activation i.state ≡ some epoch
unfolding take_step begin_start complete_start mark_failed begin_stop complete_stop remove_pending
    presented require_activation
accepted_epoch Step.begin_start i epoch h given = cc
accepted_epoch (Step.complete_start received) i epoch h given = ground (arith, h, given)
accepted_epoch (Step.mark_failed received summary) i epoch h given = ground (arith, h, given)
accepted_epoch (Step.begin_stop received target) i epoch h given = ground (arith, h, given)
accepted_epoch (Step.complete_stop received) i epoch h given = ground (arith, h, given)
accepted_epoch Step.remove_pending i epoch h given = cc

-- What every history keeps: the current epoch is the last that was begun.
abbrev pub IsFenced : ComponentInstance → Type 0
IsFenced i =
    (activation i.state ≡ none)
    ⊎ (activation i.state
        ≡ some (record { incarnation = i.incarnation; sequence = i.last_activation }))

pub take_step-IsFenced :
    (step : Step) (i : ComponentInstance) → IsFenced i → IsFenced (take_step step i).0
unfolding take_step begin_start complete_start mark_failed begin_stop complete_stop remove_pending
    require_activation activation
take_step-IsFenced Step.begin_start i f = ground arith
take_step-IsFenced (Step.complete_start epoch) i f = ground arith
take_step-IsFenced (Step.mark_failed epoch summary) i f = ground arith
take_step-IsFenced (Step.begin_stop epoch target) i f = ground arith
take_step-IsFenced (Step.complete_stop epoch) i f = ground arith
take_step-IsFenced Step.remove_pending i f = ground arith
