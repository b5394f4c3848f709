-- ===== src/Ipc/Session/Settlement.antt =====
-- The terminal of each host call: how often the events settle it, against the table of calls in
-- flight. Over crates/yah-plugin-ipc/src/session.
pub mod Ends
pub mod Inputs
pub mod Ledger
use yet_another_harness.Prelude.{
  ℕ, ◌+◌, ◌≡◌, refl, ◌∙◌, List, [], ◌∷◌, ◌++◌, arith, ◌==◌, if◌then◌else◌,
}
use yet_another_harness.Prelude.Map.{contains}
use yet_another_harness.Ipc.Types.{CallId}
use yet_another_harness.Ipc.Session.State.{
  HostSession, SessionEvent, host_call_settled, host_call_lost,
}

-- Whether an event is a terminal of the call.
abbrev pub is_terminal : CallId → SessionEvent → ℕ
is_terminal id (host_call_settled call_id outcome) = if call_id == id then 1 else 0
is_terminal id (host_call_lost call_id error reconcile) = if call_id == id then 1 else 0
is_terminal id _ = 0

-- How many terminals of the call the events hold.
abbrev pub terminals : CallId → List SessionEvent → ℕ
terminals id [] = 0
terminals id (event ∷ events) = is_terminal id event + terminals id events

-- The terminals of the call so far, and one for a call that is in flight.
abbrev pub owed : CallId → HostSession → ℕ
owed id s = terminals id s.events + (if contains id s.host_calls then 1 else 0)

-- What no input changes: what is owed, the next id, and the configuration.
pub record Keeps (id : CallId) (s t : HostSession) : Type 0 where
  pub owed_same : owed id t ≡ owed id s
  pub next_same : t.next_host_call ≡ s.next_host_call
  pub config_same : t.config ≡ s.config

pub Keeps-refl : (id : CallId) (s : HostSession) → Keeps id s s
Keeps-refl id s = record { owed_same = refl; next_same = refl; config_same = refl }

pub Keeps-trans : (id : CallId) {s t u : HostSession} → Keeps id s t → Keeps id t u → Keeps id s u
Keeps-trans id h k = record {
  owed_same = k.owed_same ∙ h.owed_same;
  next_same = k.next_same ∙ h.next_same;
  config_same = k.config_same ∙ h.config_same;
}

pub terminals-append :
    (id : CallId) (xs ys : List SessionEvent)
    → terminals id (xs ++ ys) ≡ terminals id xs + terminals id ys
terminals-append id [] ys = omega arith
terminals-append id (x ∷ xs) ys = omega (arith, terminals-append id xs ys)
