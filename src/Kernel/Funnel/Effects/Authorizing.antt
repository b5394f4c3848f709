-- ===== src/Kernel/Funnel/Effects/Authorizing.antt =====
-- What an accepted `effect.dispatch` of crates/yah-kernel/src/funnel/effects.rs authorizes.
use yet_another_harness.Prelude.{
  Bool-cases, ◌⊎◌, inl, inr, ◌≡◌, Bool, true, false, ◌&&◌, ◌||◌, not, Option, none, some, Text,
  arith, ok, is_some,
}
use yet_another_harness.Kernel.Effect.{EffectIntent, EffectState, EffectTerminal, settle}
use yet_another_harness.Kernel.Funnel.EffectRules.{is_prepared, is_irreversible}
use yet_another_harness.Kernel.Funnel.Command.{Command}
use yet_another_harness.Kernel.Funnel.State.{Funnel, EffectNode, Plan, Accepted}
use yet_another_harness.Kernel.Funnel.PreRead.{PreRead}
use yet_another_harness.Kernel.Funnel.Effects.{
  resolve_bound, update_accepted, cancel_prepared, authorize_dispatch, dispatch_or_cancel,
  validate_dispatch, unbarred, refuses_retry, is_redispatchable,
}

-- The intent that a plan writes.
abbrev pub written_intent : Plan → Option EffectIntent
written_intent (Plan.update_effect key version state terminal intent) = some intent
written_intent plan = none

abbrev pub state_after : Accepted → Option EffectState
state_after a = elim (written_intent a.plan) [ none ↦ none | some intent ↦ some intent.state ]

abbrev pub terminal_after : Accepted → Option EffectTerminal
terminal_after a = elim (written_intent a.plan) [ none ↦ none | some intent ↦ intent.terminal ]

-- No approval is owed, or there is one.
abbrev pub is_approved : EffectIntent → Bool
is_approved intent = not (is_irreversible intent.reversibility_class) || is_some intent.approval_ref

-- A first dispatch under no committed cancellation, or a retry that the class allows.
abbrev pub may_dispatch : PreRead → EffectIntent → Bool
may_dispatch pre intent =
    (is_prepared intent.state && unbarred pre)
    || (is_redispatchable intent.state && not (refuses_retry intent.retry_class))

-- A first dispatch, or a retry that the class allows.
abbrev pub may_retry : EffectIntent → Bool
may_retry intent =
    (is_prepared intent.state || not (refuses_retry intent.retry_class))
    && (is_prepared intent.state || is_redispatchable intent.state)

-- The two ways that a dispatch is accepted.
pub data Dispatched (pre : PreRead) (intent : EffectIntent) (a : Accepted) : Type 0 where
  authorized :
      state_after a ≡ some EffectState.dispatching
      → is_approved intent ≡ true
      → may_dispatch pre intent ≡ true
      → Dispatched pre intent a
  cancelled :
      terminal_after a ≡ some EffectTerminal.cancelled
      → (is_prepared intent.state && not (unbarred pre)) ≡ true
      → Dispatched pre intent a

cancel_prepared_lem :
    (f : Funnel) (key : Text) (row : EffectNode) (intent : EffectIntent) (a : Accepted)
    → intent.terminal ≡ none
    → cancel_prepared f key row intent ≡ ok a
    → terminal_after a ≡ some EffectTerminal.cancelled
unfolding cancel_prepared update_accepted settle
cancel_prepared_lem f key row intent a fresh h = ground (arith, fresh, h)

authorize_dispatch_lem :
    (row : EffectNode) (intent : EffectIntent) (key : Text) (a : Accepted)
    → authorize_dispatch row intent key ≡ ok a
    → (state_after a ≡ some EffectState.dispatching) × (is_approved intent ≡ true)
unfolding authorize_dispatch update_accepted
authorize_dispatch_lem row intent key a h = ground (arith, h)

dispatch_or_cancel-Dispatched :
    (f : Funnel) (pre : PreRead) (key : Text) (row : EffectNode) (intent : EffectIntent)
    (a : Accepted)
    → intent.terminal ≡ none
    → may_retry intent ≡ true
    → dispatch_or_cancel f pre key row intent ≡ ok a
    → Dispatched pre intent a
unfolding dispatch_or_cancel
dispatch_or_cancel-Dispatched f pre key row intent a fresh retry h =
    split (Bool-cases (is_prepared intent.state && not (unbarred pre)))
  where
    split :
        ((is_prepared intent.state && not (unbarred pre)) ≡ true)
          ⊎ ((is_prepared intent.state && not (unbarred pre)) ≡ false)
        → Dispatched pre intent a
    split (inl barred) =
        cancelled (cancel_prepared_lem f key row intent a fresh (ground (arith, barred, h))) barred
    split (inr clear) =
        let given = authorize_dispatch_lem row intent key a (ground (arith, clear, h)) in
        authorized given.0 given.1 (ground (arith, clear, retry))

-- What the checks before the decision say.
dispatch_checks :
    (f : Funnel) (cmd : Command) (pre : PreRead) (unit_id key : Text) (row : EffectNode)
    (intent : EffectIntent) (a : Accepted)
    → pre.effect ≡ some row
    → row.intent_record ≡ some intent
    → validate_dispatch f cmd pre unit_id key ≡ ok a
    → (intent.terminal ≡ none)
      × (may_retry intent ≡ true)
      × (dispatch_or_cancel f pre key row intent ≡ ok a)
unfolding validate_dispatch resolve_bound
dispatch_checks f cmd pre unit_id key row intent a found reads h = ground (arith, h, found, reads)

-- A dispatch that is accepted of an intent without a terminal either authorizes the adapter to act,
-- with the approval that an irreversible effect needs and as a first dispatch that no committed
-- cancellation bars or a retry that the class allows; or it settles a prepared intent `cancelled`
-- under a committed cancellation.
pub validate_dispatch-Dispatched :
    (f : Funnel) (cmd : Command) (pre : PreRead) (unit_id key : Text) (row : EffectNode)
    (intent : EffectIntent) (a : Accepted)
    → pre.effect ≡ some row
    → row.intent_record ≡ some intent
    → validate_dispatch f cmd pre unit_id key ≡ ok a
    → Dispatched pre intent a
validate_dispatch-Dispatched f cmd pre unit_id key row intent a found reads h =
    let checks = dispatch_checks f cmd pre unit_id key row intent a found reads h in
    dispatch_or_cancel-Dispatched f pre key row intent a checks.0 checks.1 checks.2
