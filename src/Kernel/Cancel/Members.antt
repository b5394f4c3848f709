-- ===== src/Kernel/Cancel/Members.antt =====
-- `CancelScope::member` of crates/yah-kernel/src/cancel.rs, over its four binary searches.
use yet_another_harness.Prelude.{
  ◌≡◌, refl, Bool, true, Option, List, [], ◌∷◌, Text, text_eq, length, arith,
}
use yet_another_harness.Kernel.Cancel.{CancelKind}
use yet_another_harness.Kernel.Cancel.Scope.{
  ScopeMember, CancelScope, in_order, row_at, or_else, member_row,
}
use yet_another_harness.Kernel.Cancel.Lookup.{
  find_row, find_row_cons, none_after, in_order_right, binary_search-find_row,
}

abbrev pub has_id : Text → ScopeMember → Bool
has_id id m = text_eq m.member_id id

-- The first row of the id, found by its kind.
abbrev by_kinds : Text → List ScopeMember → Option ScopeMember
by_kinds id ms = or_else (find_row (row_at CancelKind.effect_intent id) ms) (
    or_else (find_row (row_at CancelKind.attempt id) ms) (
      or_else (find_row (row_at CancelKind.execution_unit id) ms)
        (find_row (row_at CancelKind.run id) ms)))

by_kinds_nil : (id : Text) → by_kinds id [] ≡ find_row (has_id id) []
unfolding find_row
by_kinds_nil id = refl

by_kinds-find_row :
    (id : Text) (ms : List ScopeMember)
    → in_order ms ≡ true
    → by_kinds id ms ≡ find_row (has_id id) ms
by_kinds-find_row id [] h = by_kinds_nil id
by_kinds-find_row id (m ∷ ms) h = ground (
  arith,
  find_row_cons (has_id id) m ms,
  find_row_cons (row_at CancelKind.effect_intent id) m ms,
  find_row_cons (row_at CancelKind.attempt id) m ms,
  find_row_cons (row_at CancelKind.execution_unit id) m ms,
  find_row_cons (row_at CancelKind.run id) m ms,
  none_after CancelKind.effect_intent id m ms h,
  none_after CancelKind.attempt id m ms h,
  none_after CancelKind.execution_unit id m ms h,
  by_kinds-find_row id ms (in_order_right (m ∷ []) ms h),
)

-- In a scope that is in order, the lookup of a member by binary searches finds what a search from
-- the front finds.
pub member_row-find_row :
    (scope : CancelScope) (id : Text)
    → in_order scope.members ≡ true
    → member_row scope id ≡ find_row (has_id id) scope.members
unfolding member_row
member_row-find_row scope id h =
    rw
      (
        binary_search-find_row (length scope.members) CancelKind.effect_intent id scope.members
            (omega arith) h,
        binary_search-find_row (length scope.members) CancelKind.attempt id scope.members
            (omega arith) h,
        binary_search-find_row (length scope.members) CancelKind.execution_unit id scope.members
            (omega arith) h,
        binary_search-find_row (length scope.members) CancelKind.run id scope.members (omega arith)
            h,
      )
      (by_kinds-find_row id scope.members h)
