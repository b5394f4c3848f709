-- ===== src/Kernel/Cancel/Freeze.antt =====
-- What `freeze` of crates/yah-kernel/src/cancel.rs returns.
use yet_another_harness.Prelude.{
  ℕ, suc, ◌≤◌, ◌≡◌, ◌↔◌, refl, ap, sym, subst, ◌∙◌, Bool, true, List, [], ◌∷◌, Text, length, all,
  map, Perm, arith, ok,
}
use yet_another_harness.Kernel.Ids.{valid_wire_identifier}
use yet_another_harness.Kernel.Cancel.{CancelKind}
use yet_another_harness.Kernel.Cancel.Scope.{
  MemberInput, ScopeMember, CancelScope, is_under, check_under_root, check_distinct, freeze,
  max_scope_members, sort_members, number, rows_valid, validate_scope,
}
use yet_another_harness.Kernel.Cancel.Order.{
  unseen, unseen-sort_members, all-sort_members, length-sort_members, in_order-sort_members,
  sort_members-Perm,
}

-- A member of the tree of the root.
abbrev pub is_owned : CancelKind → Text → MemberInput → Bool
is_owned root_kind root_id m = is_under root_kind root_id m.member_kind m.member_id

abbrev pub has_wire_id : MemberInput → Bool
has_wire_id m = valid_wire_identifier m.member_id

check_under_root-all :
    (root_kind : CancelKind) (root_id : Text) (ms : List MemberInput)
    → (check_under_root root_kind root_id ms ≡ ok tt) ↔ (all (is_owned root_kind root_id) ms ≡ true)
unfolding check_under_root
check_under_root-all root_kind root_id [] = ground arith
check_under_root-all root_kind root_id (m ∷ ms) =
    ground (arith, check_under_root-all root_kind root_id ms)

check_distinct-unseen :
    (seen : List Text) (ms : List MemberInput)
    → (check_distinct seen ms ≡ ok tt) ↔ (unseen seen ms ≡ true)
unfolding check_distinct unseen
check_distinct-unseen seen [] = ground arith
check_distinct-unseen seen (m ∷ ms) = ground (arith, check_distinct-unseen (m.member_id ∷ seen) ms)

-- What an accepted proposal has passed, and the scope that is made of it.
freeze_lem :
    (root_kind : CancelKind) (root_id : Text) (proposed : List MemberInput) (scope : CancelScope)
    → freeze root_kind root_id proposed ≡ ok scope
    → (length proposed ≤ max_scope_members)
      × (all (is_owned root_kind root_id) proposed ≡ true)
      × (unseen [] proposed ≡ true)
      × (record {
        root_kind = root_kind;
        root_id = root_id;
        members = number 0 (sort_members proposed);
      }
          ≡ scope)
unfolding freeze
freeze_lem root_kind root_id proposed scope h =
    ground
      (arith, h, check_under_root-all root_kind root_id proposed, check_distinct-unseen [] proposed)

rows_valid-number :
    (root_kind : CancelKind) (root_id : Text) (index : ℕ) (seen : List Text) (ms : List MemberInput)
    → all (is_owned root_kind root_id) ms ≡ true
    → all has_wire_id ms ≡ true
    → unseen seen ms ≡ true
    → rows_valid root_kind root_id index seen (number index ms) ≡ true
unfolding rows_valid number unseen
rows_valid-number root_kind root_id index seen [] h k l = refl
rows_valid-number root_kind root_id index seen (m ∷ ms) h k l =
    ground (arith, h, k, l, rows_valid-number root_kind root_id (suc index) (m.member_id ∷ seen) ms)

length-number : (index : ℕ) (ms : List MemberInput) → length (number index ms) ≡ length ms
unfolding number
length-number index [] = refl
length-number index (m ∷ ms) = omega (arith, length-number (suc index) ms)

-- Whatever scope `freeze` returns is one that `validate` accepts, when the root and the members
-- have wire identifiers: at most 4096 members, each in the tree of the root, with no id twice,
-- numbered from 0, the deepest kind first and then by id.
pub validate_scope-freeze :
    (root_kind : CancelKind) (root_id : Text) (proposed : List MemberInput) (scope : CancelScope)
    → freeze root_kind root_id proposed ≡ ok scope
    → valid_wire_identifier root_id ≡ true
    → all has_wire_id proposed ≡ true
    → validate_scope scope ≡ true
unfolding validate_scope
validate_scope-freeze root_kind root_id proposed scope h root ids =
    let accepted = freeze_lem root_kind root_id proposed scope h in
    let members = sort_members proposed in
    let rows =
      rows_valid-number root_kind root_id 0 [] members
        (all-sort_members (is_owned root_kind root_id) proposed ∙ accepted.1)
        (all-sort_members has_wire_id proposed ∙ ids)
        (unseen-sort_members [] proposed ∙ accepted.2) in
    let order = in_order-sort_members proposed accepted.2 in
    let count = length-number 0 members in
    let same = length-sort_members proposed in
    subst (λ t. validate_scope t ≡ true) accepted.3
      (ground (arith, accepted.0, root, rows, order, count, same))

-- What was proposed, as the frozen rows hold it.
abbrev pub proposal : ScopeMember → MemberInput
proposal m = record {
  member_kind = m.member_kind;
  member_id = m.member_id;
  attachment = m.attachment;
}

proposal-number : (index : ℕ) (ms : List MemberInput) → map proposal (number index ms) ≡ ms
unfolding number
proposal-number index [] = refl
proposal-number index (m ∷ ms) = ap (◌∷◌ m) (proposal-number (suc index) ms)

-- The scope that `freeze` returns holds the members that were proposed, each as it was proposed and
-- none left out or added, in some order.
pub freeze-Perm :
    (root_kind : CancelKind) (root_id : Text) (proposed : List MemberInput) (scope : CancelScope)
    → freeze root_kind root_id proposed ≡ ok scope
    → Perm (map proposal scope.members) proposed
freeze-Perm root_kind root_id proposed scope h =
    subst (λ t. Perm (map proposal t.members) proposed)
      (freeze_lem root_kind root_id proposed scope h).3
      (subst (λ l. Perm l proposed) (sym (proposal-number 0 (sort_members proposed)))
        (sort_members-Perm proposed))
