-- ===== src/Compose/Component/Steps.antt =====
-- A call of a transition method of crates/yah-compose/src/component.rs, histories of them, and the
-- transitions that the lifecycle admits.
use yet_another_harness.Prelude.{ℕ, ◌+◌, Option, none, some, List, [], ◌∷◌, Result, ok, err, Text}
use yet_another_harness.Compose.Lifecycle.{
  ActivationEpoch, StopTarget, ComponentStateKind, LifecycleError,
}
use yet_another_harness.Compose.Component.{ComponentInstance}
use yet_another_harness.Compose.Component

-- A call of one of the transition methods.
pub data Step : Type 0 where
  begin_start : Step
  complete_start : ActivationEpoch → Step
  mark_failed : ActivationEpoch → Text → Step
  begin_stop : ActivationEpoch → StopTarget → Step
  complete_stop : ActivationEpoch → Step
  remove_pending : Step

abbrev outcome {ℓ} :
    {A : Type ℓ}
    → ComponentInstance × Result A LifecycleError
    → ComponentInstance × Option LifecycleError
outcome (i, ok a) = (i, none)
outcome (i, err e) = (i, some e)

-- The instance after the call, and its error.
unfoldable pub take_step : Step → ComponentInstance → ComponentInstance × Option LifecycleError
take_step Step.begin_start i = outcome (Component.begin_start i)
take_step (Step.complete_start epoch) i = outcome (Component.complete_start epoch i)
take_step (Step.mark_failed epoch summary) i = outcome (Component.mark_failed epoch summary i)
take_step (Step.begin_stop epoch target) i = outcome (Component.begin_stop epoch target i)
take_step (Step.complete_stop epoch) i = outcome (Component.complete_stop epoch i)
take_step Step.remove_pending i = outcome (Component.remove_pending i)

-- The epoch that a call presents.
unfoldable pub presented : Step → Option ActivationEpoch
presented Step.begin_start = none
presented (Step.complete_start epoch) = some epoch
presented (Step.mark_failed epoch summary) = some epoch
presented (Step.begin_stop epoch target) = some epoch
presented (Step.complete_stop epoch) = some epoch
presented Step.remove_pending = none

-- The transitions that the lifecycle admits.
pub data Transition : ComponentStateKind → Step → ComponentStateKind → Type 0 where
  starts : Transition ComponentStateKind.pending Step.begin_start ComponentStateKind.starting
  activates :
      (a : ActivationEpoch)
      → Transition ComponentStateKind.starting (Step.complete_start a) ComponentStateKind.active
  fails_starting :
      (a : ActivationEpoch) (t : Text)
      → Transition ComponentStateKind.starting (Step.mark_failed a t) ComponentStateKind.failed
  fails_active :
      (a : ActivationEpoch) (t : Text)
      → Transition ComponentStateKind.active (Step.mark_failed a t) ComponentStateKind.failed
  stops_starting :
      (a : ActivationEpoch) (t : StopTarget)
      → Transition ComponentStateKind.starting (Step.begin_stop a t) ComponentStateKind.stopping
  stops_active :
      (a : ActivationEpoch) (t : StopTarget)
      → Transition ComponentStateKind.active (Step.begin_stop a t) ComponentStateKind.stopping
  stops_failed :
      (a : ActivationEpoch) (t : StopTarget)
      → Transition ComponentStateKind.failed (Step.begin_stop a t) ComponentStateKind.stopping
  settles :
      (a : ActivationEpoch)
      → Transition ComponentStateKind.stopping (Step.complete_stop a) ComponentStateKind.pending
  retires :
      (a : ActivationEpoch)
      → Transition ComponentStateKind.stopping (Step.complete_stop a) ComponentStateKind.removed
  removes : Transition ComponentStateKind.pending Step.remove_pending ComponentStateKind.removed

-- A history of calls.
unfoldable pub run : List Step → ComponentInstance → ComponentInstance
run [] i = i
run (step ∷ steps) i = run steps (take_step step i).0

-- One for a start that succeeds.
abbrev pub begins : Step → Option LifecycleError → ℕ
begins Step.begin_start none = 1
begins step error = 0

-- How many activations a history begins.
unfoldable pub activations : List Step → ComponentInstance → ℕ
activations [] i = 0
activations (step ∷ steps) i =
    begins step (take_step step i).1 + activations steps (take_step step i).0
