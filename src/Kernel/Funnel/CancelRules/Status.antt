-- ===== src/Kernel/Funnel/CancelRules/Status.antt =====
-- The status of a request, of crates/yah-kernel/src/funnel/cancel_rules.rs.
use yet_another_harness.Prelude.{
  ◌≡◌, ◌≢◌, ◌↔◌, refl, Bool, true, false, not, subst, Option, none, some, List, [], ◌∷◌, Text,
  text_eq, all, arith,
}
use yet_another_harness.Kernel.Cancel.{CancelStatus, DeliveryOutcome}
use yet_another_harness.Kernel.Cancel.Scope.{CancelScope, ScopeMember}
use yet_another_harness.Kernel.Funnel.CancelRules.{
  DeliverySummary, outcome_of, is_settled_by, request_status_after,
}

-- No delivery reached the member.
abbrev pub is_undelivered : Text → List DeliverySummary → Bool
is_undelivered id deliveries = all (λ d. not (text_eq d.member_id id)) deliveries

-- What the last delivery to the member came to.
pub data LastOutcome (id : Text) : List DeliverySummary → DeliveryOutcome → Type 0 where
  last :
      (d : DeliverySummary) (ds : List DeliverySummary)
      → text_eq d.member_id id ≡ true
      → is_undelivered id ds ≡ true
      → LastOutcome id (d ∷ ds) d.outcome
  before :
      (d : DeliverySummary) (ds : List DeliverySummary) (outcome : DeliveryOutcome)
      → LastOutcome id ds outcome
      → LastOutcome id (d ∷ ds) outcome

-- The member was delivered to, and did not stay unresponsive.
abbrev pub IsAnswered : List DeliverySummary → Text → Type 0
IsAnswered deliveries id =
    (outcome : DeliveryOutcome) × LastOutcome id deliveries outcome
    × (outcome ≢ DeliveryOutcome.unresponsive)

abbrev pub AreAnswered : List DeliverySummary → List ScopeMember → Type 0
AreAnswered deliveries [] = Unit {0}
AreAnswered deliveries (m ∷ ms) = IsAnswered deliveries m.member_id × AreAnswered deliveries ms

outcome_of-is_undelivered :
    (id : Text) (ds : List DeliverySummary)
    → (outcome_of id ds ≡ none) ↔ (is_undelivered id ds ≡ true)
unfolding outcome_of
outcome_of-is_undelivered id [] = ground arith
outcome_of-is_undelivered id (d ∷ ds) = ground (arith, outcome_of-is_undelivered id ds)

outcome_of_last :
    (id : Text) (ds : List DeliverySummary) (outcome : DeliveryOutcome)
    → LastOutcome id ds outcome
    → outcome_of id ds ≡ some outcome
unfolding outcome_of
outcome_of_last id [] outcome h = elim h [ ]
outcome_of_last id (d ∷ ds) outcome (last _ _ same absent) =
    ground (arith, same, absent, outcome_of-is_undelivered id ds)
outcome_of_last id (d ∷ ds) outcome (before _ _ _ found) =
    ground (arith, outcome_of_last id ds outcome found)

outcome_of-LastOutcome :
    (id : Text) (ds : List DeliverySummary) (outcome : DeliveryOutcome)
    → outcome_of id ds ≡ some outcome
    → LastOutcome id ds outcome
unfolding outcome_of
outcome_of-LastOutcome id [] outcome h = cc
outcome_of-LastOutcome id (d ∷ ds) outcome h =
    by_rest (outcome_of id ds) refl (outcome_of-LastOutcome id ds outcome)
  where
    by_rest :
        (o : Option DeliveryOutcome)
        → outcome_of id ds ≡ o
        → (outcome_of id ds ≡ some outcome → LastOutcome id ds outcome)
        → LastOutcome id (d ∷ ds) outcome
    by_rest (some later) e rest = before d ds outcome (rest (ground (arith, h, e)))
    by_rest none e rest =
        subst (LastOutcome id (d ∷ ds)) (ground (arith, h, e))
          (last d ds (ground (arith, h, e)) ((outcome_of-is_undelivered id ds).0 e))

is_settled_by-IsAnswered :
    (ds : List DeliverySummary) (m : ScopeMember)
    → (is_settled_by ds m ≡ true) ↔ IsAnswered ds m.member_id
is_settled_by-IsAnswered ds m = (λ h. answered (outcome_of m.member_id ds) refl h, settled)
  where
    answered :
        (o : Option DeliveryOutcome)
        → outcome_of m.member_id ds ≡ o
        → is_settled_by ds m ≡ true
        → IsAnswered ds m.member_id
    answered none e h = absurd (ground (arith, e, h))
    answered (some outcome) e h =
        (outcome, outcome_of-LastOutcome m.member_id ds outcome e, λ u. ground (arith, e, h, u))

    settled : IsAnswered ds m.member_id → is_settled_by ds m ≡ true
    settled (outcome, found, responsive) =
        ground (arith, outcome_of_last m.member_id ds outcome found, responsive)

all-AreAnswered :
    (ds : List DeliverySummary) (ms : List ScopeMember)
    → (all (is_settled_by ds) ms ≡ true) ↔ AreAnswered ds ms
all-AreAnswered ds [] = (λ h. tt, λ h. refl)
all-AreAnswered ds (m ∷ ms) = ground (arith, is_settled_by-IsAnswered ds m, all-AreAnswered ds ms)

settled_nowhere :
    (ms : List ScopeMember) (m : ScopeMember) → all (is_settled_by []) (m ∷ ms) ≡ false
unfolding outcome_of
settled_nowhere ms m = refl

settled_by_all :
    (scope : CancelScope) (deliveries : List DeliverySummary)
    → (request_status_after scope deliveries ≡ CancelStatus.settled)
      ↔ (all (is_settled_by deliveries) scope.members ≡ true)
unfolding request_status_after
settled_by_all scope deliveries = grind (arith, settled_nowhere)

-- A request is settled exactly when each member of its scope was delivered to, and the outcome of
-- the last delivery to it is another than `unresponsive`.
pub request_status_after-settled :
    (scope : CancelScope) (deliveries : List DeliverySummary)
    → (request_status_after scope deliveries ≡ CancelStatus.settled)
      ↔ AreAnswered deliveries scope.members
request_status_after-settled scope deliveries =
    let by_test = settled_by_all scope deliveries in
    let by_rows = all-AreAnswered deliveries scope.members in
    (λ h. by_rows.0 (by_test.0 h), λ h. by_test.1 (by_rows.1 h))
