-- ===== src/Kernel/Cancel/Order.antt =====
-- The order of members in crates/yah-kernel/src/cancel.rs.
use mathlib.Core.List.Perm
use yet_another_harness.Prelude.{
  ℕ, suc, ◌≡◌, refl, Bool, true, false, ◌&&◌, not, List, [], ◌∷◌, Text, text_eq_sym,
  text_ltb_irrefl, text_ltb_trans, text_ltb_total, mem_text, length, ◌==◌, if_intro, and_left,
  and_right, and_intro, not_of_false, ◌∙◌, all, Perm, arith,
}
use yet_another_harness.Kernel.Cancel.{CancelKind, depth, kind_eq}
use yet_another_harness.Kernel.Cancel.Scope.{
  MemberInput, sorts_before, insert_member, sort_members, number, in_order,
}

insert_member-Perm : (m : MemberInput) (ns : List MemberInput) → Perm (insert_member m ns) (m ∷ ns)
unfolding insert_member
insert_member-Perm m [] = Perm.rfl
insert_member-Perm m (n ∷ ns) =
    if_intro (λ l. Perm l (m ∷ n ∷ ns)) (sorts_before n m)
      (λ _. Perm.trans (Perm.cons n (insert_member-Perm m ns)) (Perm.swap m n ns)) (λ _. Perm.rfl)

-- Sorting keeps the members.
pub sort_members-Perm : (ms : List MemberInput) → Perm (sort_members ms) ms
unfolding sort_members
sort_members-Perm [] = Perm.rfl
sort_members-Perm (m ∷ ms) =
    Perm.trans (insert_member-Perm m (sort_members ms)) (Perm.cons m (sort_members-Perm ms))

pub length-insert_member :
    (m : MemberInput) (ns : List MemberInput) → length (insert_member m ns) ≡ suc (length ns)
unfolding insert_member
length-insert_member m [] = refl
length-insert_member m (n ∷ ns) = ground (arith, length-insert_member m ns)

pub length-sort_members : (ms : List MemberInput) → length (sort_members ms) ≡ length ms
unfolding sort_members
length-sort_members [] = refl
length-sort_members (m ∷ ms) =
    omega (arith, length-insert_member m (sort_members ms), length-sort_members ms)

all-insert_member :
    (p : MemberInput → Bool) (m : MemberInput) (ns : List MemberInput)
    → all p (insert_member m ns) ≡ (p m && all p ns)
unfolding insert_member
all-insert_member p m [] = refl
all-insert_member p m (n ∷ ns) = ground (arith, all-insert_member p m ns)

pub all-sort_members :
    (p : MemberInput → Bool) (ms : List MemberInput) → all p (sort_members ms) ≡ all p ms
unfolding sort_members
all-sort_members p [] = refl
all-sort_members p (m ∷ ms) =
    ground (arith, all-insert_member p m (sort_members ms), all-sort_members p ms)

-- No id stands twice, nor among those seen.
unfoldable pub unseen : List Text → List MemberInput → Bool
unseen seen [] = true
unseen seen (m ∷ ms) = not (mem_text m.member_id seen) && unseen (m.member_id ∷ seen) ms

unseen_cong :
    (s t : List Text) (ms : List MemberInput)
    → ((x : Text) → mem_text x s ≡ mem_text x t)
    → unseen s ms ≡ unseen t ms
unfolding unseen
unseen_cong s t [] h = refl
unseen_cong s t (m ∷ ms) h =
    rw (h m.member_id, unseen_cong (m.member_id ∷ s) (m.member_id ∷ t) ms (λ x. rw (h x)))

unseen-insert_member :
    (seen : List Text) (m : MemberInput) (ns : List MemberInput)
    → unseen seen (insert_member m ns) ≡ unseen seen (m ∷ ns)
unfolding unseen insert_member
unseen-insert_member seen m [] = refl
unseen-insert_member seen m (n ∷ ns) =
    let swapped =
      unseen_cong (m.member_id ∷ n.member_id ∷ seen) (n.member_id ∷ m.member_id ∷ seen) ns
        (λ x. swap_lem x) in
    ground (
      arith,
      unseen-insert_member (n.member_id ∷ seen) m ns,
      swapped,
      text_eq_sym m.member_id n.member_id,
    )
  where
    swap_lem :
        (x : Text)
        → mem_text x (m.member_id ∷ n.member_id ∷ seen)
          ≡ mem_text x (n.member_id ∷ m.member_id ∷ seen)
    swap_lem x = ground arith

pub unseen-sort_members :
    (seen : List Text) (ms : List MemberInput) → unseen seen (sort_members ms) ≡ unseen seen ms
unfolding sort_members unseen
unseen-sort_members seen [] = refl
unseen-sort_members seen (m ∷ ms) = ground (
  arith,
  unseen-insert_member seen m (sort_members ms),
  unseen-sort_members (m.member_id ∷ seen) ms,
)

-- No member is to stand before its neighbour on the left.
unfoldable follows : MemberInput → List MemberInput → Bool
follows m [] = true
follows m (n ∷ ns) = not (sorts_before n m)

unfoldable sorted : List MemberInput → Bool
sorted [] = true
sorted (m ∷ ms) = follows m ms && sorted ms

sorts_before_asymm : (a b : MemberInput) → sorts_before a b ≡ true → sorts_before b a ≡ false
sorts_before_asymm a b h =
    ground
      (arith, h, text_ltb_trans a.member_id b.member_id a.member_id, text_ltb_irrefl a.member_id)

follows-insert_member :
    (n m : MemberInput) (ns : List MemberInput)
    → follows n ns ≡ true
    → sorts_before m n ≡ false
    → follows n (insert_member m ns) ≡ true
unfolding follows insert_member
follows-insert_member n m [] h k = ground arith
follows-insert_member n m (o ∷ os) h k = ground (arith, h, k)

sorted-insert_member :
    (m : MemberInput) (ns : List MemberInput)
    → sorted ns ≡ true
    → sorted (insert_member m ns) ≡ true
unfolding sorted insert_member follows
sorted-insert_member m [] h = refl
sorted-insert_member m (n ∷ ns) h =
    if_intro (λ l. sorted l ≡ true) (sorts_before n m)
      (λ before.
        and_intro
          (follows-insert_member n m ns (and_left (follows n ns) (sorted ns) h)
            (sorts_before_asymm n m before))
          (sorted-insert_member m ns (and_right (follows n ns) (sorted ns) h)))
      (λ after. and_intro (not_of_false after) h)

sorted-sort_members : (ms : List MemberInput) → sorted (sort_members ms) ≡ true
unfolding sort_members sorted
sorted-sort_members [] = refl
sorted-sort_members (m ∷ ms) = sorted-insert_member m (sort_members ms) (sorted-sort_members ms)

kind_eq-depth : (a b : CancelKind) → kind_eq a b ≡ (depth a == depth b)
kind_eq-depth a b = ground arith

-- Without repeated ids the order is strict.
in_order-number :
    (index : ℕ) (seen : List Text) (ms : List MemberInput)
    → sorted ms ≡ true
    → unseen seen ms ≡ true
    → in_order (number index ms) ≡ true
unfolding in_order number unseen sorted follows
in_order-number index seen [] h k = refl
in_order-number index seen (m ∷ []) h k = refl
in_order-number index seen (m ∷ n ∷ ms) h k = ground (
  arith,
  h,
  k,
  in_order-number (suc index) (m.member_id ∷ seen) (n ∷ ms),
  kind_eq-depth m.member_kind n.member_kind,
  text_ltb_total m.member_id n.member_id,
  text_eq_sym m.member_id n.member_id,
)

-- The frozen members stand in strict order: the deepest kind first, then by id.
pub in_order-sort_members :
    (ms : List MemberInput) → unseen [] ms ≡ true → in_order (number 0 (sort_members ms)) ≡ true
in_order-sort_members ms h =
    in_order-number 0 [] (sort_members ms) (sorted-sort_members ms) (unseen-sort_members [] ms ∙ h)
