-- ===== src/Compose/Component.antt =====
-- crates/yah-compose/src/component.rs: a mounted component instance and its transitions. The
-- instance's ids and its scope never change, and are left out. A method returns the new instance
-- and its `Result`.
pub mod Steps
pub mod Fence
pub mod Histories
use yet_another_harness.Prelude.{
  ℕ, ◌+◌, ◌-◌, ◌^◌, Option, none, some, List, [], ◌∷◌, Result, ok, err, ltb, if◌then◌else◌, Text,
}
use yet_another_harness.Compose.Lifecycle.{
  ActivationEpoch, StopTarget, FailurePhase, ComponentFailure, ComponentState, LifecycleAction,
  LifecycleError, activation, invalid, require_action, require_activation,
}

pub record ComponentInstance : Type 0 where
  pub state : ComponentState
  pub incarnation : ℕ
  pub last_activation : ℕ
  pub last_failure : Option ComponentFailure

-- `u64::checked_add(1)`
unfoldable pub checked_succ : ℕ → Option ℕ
checked_succ n = if ltb n (2 ^ 64 - 1) then some (n + 1) else none

-- `new`, on the process-wide counter of incarnations: the counter after it, and the instance.
unfoldable pub new : ℕ → ℕ × Result ComponentInstance LifecycleError
new counter = elim (checked_succ counter) [
  | none ↦ (counter, err LifecycleError.instance_incarnation_exhausted)
  | some next ↦ (
    next,
    ok (record {
      state = ComponentState.pending;
      incarnation = counter;
      last_activation = 0;
      last_failure = none;
    }),
  )
]

unfoldable pub begin_start :
    ComponentInstance → ComponentInstance × Result ActivationEpoch LifecycleError
begin_start i = elim (require_action i.state LifecycleAction.begin_start) [
  | err error ↦ (i, err error)
  | ok _ ↦ elim (checked_succ i.last_activation) [
    | none ↦ (i, err LifecycleError.activation_epoch_exhausted)
    | some next ↦
        let epoch : ActivationEpoch = record { incarnation = i.incarnation; sequence = next } in
        (record i { last_activation = next; state = ComponentState.starting epoch }, ok epoch)
  ]
]

unfoldable pub complete_start :
    ActivationEpoch → ComponentInstance → ComponentInstance × Result (Unit {0}) LifecycleError
complete_start epoch i = elim (require_activation i.state LifecycleAction.complete_start epoch) [
  | err error ↦ (i, err error)
  | ok _ ↦ publish i.state
]
  where
    publish : ComponentState → ComponentInstance × Result (Unit {0}) LifecycleError
    publish (ComponentState.starting current) =
        (record i { state = ComponentState.active epoch }, ok tt)
    publish state = (i, err (invalid state LifecycleAction.complete_start))

unfoldable pub mark_failed :
    ActivationEpoch
    → Text
    → ComponentInstance
    → ComponentInstance × Result (Unit {0}) LifecycleError
mark_failed epoch summary i = elim (require_activation i.state LifecycleAction.mark_failed epoch) [
  | err error ↦ (i, err error)
  | ok _ ↦ fail i.state
]
  where
    failed_in : FailurePhase → ComponentInstance × Result (Unit {0}) LifecycleError
    failed_in phase =
        let failure : ComponentFailure = record { phase = phase; summary = summary } in
        (
          record i { last_failure = some failure; state = ComponentState.failed epoch failure },
          ok tt,
        )

    fail : ComponentState → ComponentInstance × Result (Unit {0}) LifecycleError
    fail (ComponentState.starting current) = failed_in FailurePhase.starting
    fail (ComponentState.active current) = failed_in FailurePhase.active
    fail state = (i, err (invalid state LifecycleAction.mark_failed))

unfoldable pub begin_stop :
    ActivationEpoch
    → StopTarget
    → ComponentInstance
    → ComponentInstance × Result (Unit {0}) LifecycleError
begin_stop epoch target i = elim (require_activation i.state LifecycleAction.begin_stop epoch) [
  | err error ↦ (i, err error)
  | ok _ ↦ stop i.state
]
  where
    stop_after : Option ComponentFailure → ComponentInstance × Result (Unit {0}) LifecycleError
    stop_after prior_failure =
        (record i { state = ComponentState.stopping epoch target prior_failure }, ok tt)

    stop : ComponentState → ComponentInstance × Result (Unit {0}) LifecycleError
    stop (ComponentState.failed current failure) = stop_after (some failure)
    stop (ComponentState.starting current) = stop_after none
    stop (ComponentState.active current) = stop_after none
    stop state = (i, err (invalid state LifecycleAction.begin_stop))

abbrev stable : StopTarget → ComponentState
stable StopTarget.pending = ComponentState.pending
stable StopTarget.removed = ComponentState.removed

unfoldable pub complete_stop :
    ActivationEpoch → ComponentInstance → ComponentInstance × Result (Unit {0}) LifecycleError
complete_stop epoch i = elim (require_activation i.state LifecycleAction.complete_stop epoch) [
  | err error ↦ (i, err error)
  | ok _ ↦ reach i.state
]
  where
    reach : ComponentState → ComponentInstance × Result (Unit {0}) LifecycleError
    reach (ComponentState.stopping current target prior_failure) =
        (record i { state = stable target }, ok tt)
    reach state = (i, err (invalid state LifecycleAction.complete_stop))

unfoldable pub remove_pending :
    ComponentInstance → ComponentInstance × Result (Unit {0}) LifecycleError
remove_pending i = go i.state
  where
    go : ComponentState → ComponentInstance × Result (Unit {0}) LifecycleError
    go ComponentState.pending = (record i { state = ComponentState.removed }, ok tt)
    go state = (i, err (invalid state LifecycleAction.remove_pending))
