-- ===== src/Kernel/Funnel/CancelRules.antt =====
-- crates/yah-kernel/src/funnel/cancel_rules.rs: the status of a request, and the committed
-- cancellations that bar an admission. A blocker is its member; its reason is diagnostic.
pub mod Status
use yet_another_harness.Prelude.{
  Bool, true, false, ◌&&◌, Option, none, some, List, [], ◌∷◌, ◌++◌, Text, text, text_eq, all,
  if◌then◌else◌, is_some,
}
use yet_another_harness.Prelude.Table.{read}
use yet_another_harness.Kernel.Cancel.{CancelKind, CancelStatus, DeliveryOutcome, is_discharged}
use yet_another_harness.Kernel.Cancel.Scope.{ScopeMember, CancelScope}
use yet_another_harness.Kernel.Funnel.State.{Graph}

abbrev pub kind_wire : CancelKind → Text
kind_wire CancelKind.run = text "run"
kind_wire CancelKind.execution_unit = text "execution_unit"
kind_wire CancelKind.attempt = text "attempt"
kind_wire CancelKind.effect_intent = text "effect_intent"

pub record DeliverySummary : Type 0 where
  pub member_id : Text
  pub outcome : DeliveryOutcome

-- `outcomes.get`: a later row of the same member replaces an earlier one.
unfoldable pub outcome_of : Text → List DeliverySummary → Option DeliveryOutcome
outcome_of id [] = none
outcome_of id (d ∷ ds) = elim (outcome_of id ds) [
  | some later ↦ some later
  | none ↦ if text_eq d.member_id id then some d.outcome else none
]

abbrev pub is_delivered : List DeliverySummary → ScopeMember → Bool
is_delivered deliveries m = is_some (outcome_of m.member_id deliveries)

abbrev pub discharges : Option DeliveryOutcome → Bool
discharges none = false
discharges (some outcome) = is_discharged outcome

abbrev pub is_settled_by : List DeliverySummary → ScopeMember → Bool
is_settled_by deliveries m = discharges (outcome_of m.member_id deliveries)

unfoldable pub request_status_after : CancelScope → List DeliverySummary → CancelStatus
request_status_after scope deliveries = by_members scope.members deliveries
  where
    by_rows : CancelStatus
    by_rows =
        if all (is_settled_by deliveries) scope.members
        then CancelStatus.settled
        else if all (is_delivered deliveries) scope.members
        then CancelStatus.observed_partial
        else CancelStatus.delivering

    by_members : List ScopeMember → List DeliverySummary → CancelStatus
    by_members [] ds = CancelStatus.settled
    by_members (m ∷ ms) [] = CancelStatus.requested
    by_members (m ∷ ms) (d ∷ ds) = by_rows

-- The key of a root in the book of cancelled roots.
abbrev pub root_key : Text → Text → Text
root_key root_kind root_id = root_kind ++ 47 ∷ root_id

-- The committed cancellation of a root, when there is one.
unfoldable pub bars : Graph → CancelKind → Text → Bool
bars g kind root_id = elim (read (root_key (kind_wire kind) root_id) g.cancel_roots) [
  | none ↦ false
  | some request_id ↦ elim (read request_id g.cancel_requests) [
    | none ↦ false
    | some request ↦ text_eq request.root_kind (kind_wire kind) && text_eq request.root_id root_id
  ]
]

unfoldable pub admission_blockers : Graph → List (CancelKind × Text) → List Text
admission_blockers g [] = []
admission_blockers g ((kind, root_id) ∷ lineage) =
    let rest = admission_blockers g lineage in
    if bars g kind root_id then (kind_wire kind ++ 58 ∷ root_id) ∷ rest else rest
