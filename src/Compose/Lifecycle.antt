-- ===== src/Compose/Lifecycle.antt =====
-- crates/yah-compose/src/lifecycle.rs: activation epochs, the states of a component, and the checks
-- of a transition.
use yet_another_harness.Prelude.{
  ℕ, Bool, ◌&&◌, ◌==◌, if◌then◌else◌, Option, none, some, Result, ok, err, Text,
}

pub record ActivationEpoch : Type 0 where
  pub incarnation : ℕ
  pub sequence : ℕ

-- `==` of the derived `PartialEq`
abbrev pub epoch_eq : ActivationEpoch → ActivationEpoch → Bool
epoch_eq a b = (a.incarnation == b.incarnation) && (a.sequence == b.sequence)

pub data StopTarget : Type 0 where
  pending removed : StopTarget

pub data FailurePhase : Type 0 where
  starting active : FailurePhase

pub record ComponentFailure : Type 0 where
  pub phase : FailurePhase
  pub summary : Text

pub data ComponentState : Type 0 where
  pending : ComponentState
  starting : ActivationEpoch → ComponentState
  active : ActivationEpoch → ComponentState
  failed : ActivationEpoch → ComponentFailure → ComponentState
  stopping : ActivationEpoch → StopTarget → Option ComponentFailure → ComponentState
  removed : ComponentState

pub data ComponentStateKind : Type 0 where
  pending starting active failed stopping removed : ComponentStateKind

pub data LifecycleAction : Type 0 where
  begin_start complete_start mark_failed begin_stop complete_stop remove_pending : LifecycleAction

pub data LifecycleError : Type 0 where
  invalid_transition : ComponentStateKind → LifecycleAction → LifecycleError
  stale_activation : ActivationEpoch → ActivationEpoch → LifecycleError
  instance_incarnation_exhausted activation_epoch_exhausted : LifecycleError

unfoldable pub kind : ComponentState → ComponentStateKind
kind ComponentState.pending = ComponentStateKind.pending
kind (ComponentState.starting activation) = ComponentStateKind.starting
kind (ComponentState.active activation) = ComponentStateKind.active
kind (ComponentState.failed activation failure) = ComponentStateKind.failed
kind (ComponentState.stopping activation target prior_failure) = ComponentStateKind.stopping
kind ComponentState.removed = ComponentStateKind.removed

unfoldable pub activation : ComponentState → Option ActivationEpoch
activation ComponentState.pending = none
activation (ComponentState.starting epoch) = some epoch
activation (ComponentState.active epoch) = some epoch
activation (ComponentState.failed epoch failure) = some epoch
activation (ComponentState.stopping epoch target prior_failure) = some epoch
activation ComponentState.removed = none

unfoldable pub invalid : ComponentState → LifecycleAction → LifecycleError
invalid state action = LifecycleError.invalid_transition (kind state) action

unfoldable pub require_action : ComponentState → LifecycleAction → Result (Unit {0}) LifecycleError
require_action ComponentState.pending LifecycleAction.begin_start = ok tt
require_action state action = err (invalid state action)

unfoldable pub require_activation :
    ComponentState → LifecycleAction → ActivationEpoch → Result (Unit {0}) LifecycleError
require_activation state action received = elim (activation state) [
  | none ↦ err (invalid state action)
  | some expected ↦
      if epoch_eq expected received
      then ok tt
      else err (LifecycleError.stale_activation expected received)
]
