-- ===== src/Ipc/Session/Delivery.antt =====
-- The delivery of the worker's calls to the embedding host: how often the events deliver a call id.
-- Over crates/yah-plugin-ipc/src/session.
pub mod Ends
pub mod Inputs
pub mod Histories
use yet_another_harness.Prelude.{
  ℕ, ◌+◌, ◌≡◌, ◌≤◌, refl, ◌∙◌, ◌||◌, true, List, [], ◌∷◌, ◌++◌, arith, ◌==◌, if◌then◌else◌, Bool,
}
use yet_another_harness.Prelude.Map.{contains}
use yet_another_harness.Ipc.Types.{CallId}
use yet_another_harness.Ipc.Session.State.{HostSession, SessionEvent, call_delivered, is_closed}

abbrev pub is_delivery : CallId → SessionEvent → ℕ
is_delivery id (call_delivered call_id method payload stream deadline_ms) =
    if call_id == id then 1 else 0
is_delivery id _ = 0

-- How many deliveries of the call the events hold.
abbrev pub deliveries : CallId → List SessionEvent → ℕ
deliveries id [] = 0
deliveries id (event ∷ events) = is_delivery id event + deliveries id events

pub deliveries-append :
    (id : CallId) (xs ys : List SessionEvent)
    → deliveries id (xs ++ ys) ≡ deliveries id xs + deliveries id ys
deliveries-append id [] ys = omega arith
deliveries-append id (x ∷ xs) ys = omega (arith, deliveries-append id xs ys)

-- The worker can no longer start a call of this id.
abbrev pub is_spent : CallId → HostSession → Bool
is_spent id s =
    contains id s.worker_calls || contains id s.retired_worker_calls || is_closed s.phase

-- The events deliver the id once at most, and not before it is spent.
abbrev pub IsOnce : CallId → HostSession → Type 0
IsOnce id s = deliveries id s.events ≤ (if is_spent id s then 1 else 0)

-- A step that delivers no call of the id, and does not free it.
pub record Quiet (id : CallId) (s t : HostSession) : Type 0 where
  pub same : deliveries id t.events ≡ deliveries id s.events
  pub spent : is_spent id s ≡ true → is_spent id t ≡ true

pub Quiet-refl : (id : CallId) (s : HostSession) → Quiet id s s
Quiet-refl id s = record { same = refl; spent = λ h. h }

pub Quiet-trans : (id : CallId) {s t u : HostSession} → Quiet id s t → Quiet id t u → Quiet id s u
Quiet-trans id h k = record { same = k.same ∙ h.same; spent = λ x. k.spent (h.spent x) }

pub Quiet-IsOnce : (id : CallId) {s t : HostSession} → Quiet id s t → IsOnce id s → IsOnce id t
Quiet-IsOnce id h once = ground (arith, h.same, h.spent)
