-- ===== src/Kernel/Funnel/Cancel/Deliveries.antt =====
-- The order of the deliveries of one request, of crates/yah-kernel/src/funnel/cancel.rs.
use yet_another_harness.Prelude.{
  ℕ, ◌+◌, ◌-◌, ◌≡◌, Option, none, some, List, [], ◌∷◌, Text, ok, subst, arith,
}
use yet_another_harness.Kernel.Cancel.{DeliveryOutcome}
use yet_another_harness.Kernel.Funnel.Command.{Command}
use yet_another_harness.Kernel.Funnel.State.{Funnel, CancelDeliveryPlan, Plan, Accepted, increment}
use yet_another_harness.Kernel.Funnel.PreRead.{PreRead, CancelPreRead, RequestData}
use yet_another_harness.Kernel.Funnel.Cancel.{validate_record_delivery, accept_delivery}

-- The delivery that a plan writes.
abbrev pub written_delivery : Plan → Option CancelDeliveryPlan
written_delivery (Plan.cancel_record_delivery d) = some d
written_delivery plan = none

-- Accepted deliveries of a request, from the version that the first one reads: each one reads the
-- version that the one before it wrote. The list holds the members' indices in the frozen order.
pub data Deliveries (request_id : Text) : ℕ → List ℕ → Type 0 where
  none_left : {version : ℕ} → Deliveries request_id version []
  deliver :
      {is : List ℕ} (f : Funnel) (cmd : Command) (pre : PreRead) (cancel : CancelPreRead)
      (found : RequestData) (member_id : Text) (delivered_at : ℕ) (observed_at : Option ℕ)
      (outcome : DeliveryOutcome) (a : Accepted) (d : CancelDeliveryPlan)
      → pre.cancel ≡ some cancel
      → cancel.request ≡ some found
      → validate_record_delivery f cmd pre request_id member_id delivered_at observed_at outcome
        ≡ ok a
      → written_delivery a.plan ≡ some d
      → Deliveries request_id d.request_version_after is
      → Deliveries request_id found.version (d.order_index ∷ is)

-- The numbers from the given one on, one after the other.
abbrev pub CountsFrom : ℕ → List ℕ → Type 0
CountsFrom n [] = Unit {0}
CountsFrom n (i ∷ is) = (i ≡ n) × CountsFrom (n + 1) is

record_delivery_lem :
    (f : Funnel) (cmd : Command) (pre : PreRead) (cancel : CancelPreRead) (found : RequestData)
    (request_id member_id : Text) (delivered_at : ℕ) (observed_at : Option ℕ)
    (outcome : DeliveryOutcome) (a : Accepted) (d : CancelDeliveryPlan)
    → pre.cancel ≡ some cancel
    → cancel.request ≡ some found
    → validate_record_delivery f cmd pre request_id member_id delivered_at observed_at outcome
      ≡ ok a
    → written_delivery a.plan ≡ some d
    → (d.order_index ≡ found.version - 1) × (d.request_version_after - 1 ≡ found.version - 1 + 1)
unfolding validate_record_delivery accept_delivery increment
record_delivery_lem f cmd pre cancel found request_id member_id delivered_at observed_at outcome a d
      reads finds h writes =
    ground (arith, h, reads, finds, writes)

-- The accepted deliveries of a request, each reading the version that the one before it wrote,
-- reach the frozen members by their indices, one after the other, from one less than the version
-- that the first delivery reads: no index is skipped and none is used twice.
pub Deliveries-CountsFrom :
    (request_id : Text) (version : ℕ) (is : List ℕ)
    → Deliveries request_id version is
    → CountsFrom (version - 1) is
Deliveries-CountsFrom request_id version [] none_left = tt
Deliveries-CountsFrom request_id version (i ∷ is)
      (deliver f cmd pre cancel found member_id at observed outcome a d reads finds h writes rest) =
    let now =
      record_delivery_lem f cmd pre cancel found request_id member_id at observed outcome a d reads
        finds h writes in
    (
      now.0,
      subst (λ n. CountsFrom n is) now.1
          (Deliveries-CountsFrom request_id d.request_version_after is rest),
    )
