-- ===== src/Kernel/Cancel/Lookup.antt =====
-- `CancelScope::member` of crates/yah-kernel/src/cancel.rs against a search from the front.
use yet_another_harness.Prelude.{
  ℕ, zero, suc, ◌-◌, ◌/◌, ◌≤◌, ◌≡◌, refl, sym, ◌∙◌, ap, Bool, true, false, ◌&&◌, ◌||◌, not, Option,
  none, some, List, [], ◌∷◌, ◌++◌, Text, text_eq_sound, text_ltb, text_ltb_irrefl, text_ltb_trans,
  text_ltb_total, length, take, drop, take-append-drop, length-take, length-drop, ltb, ◌==◌,
  if◌then◌else◌, arith, and_left, and_right, Bool-cases, inl, inr, and_intro, all,
}
use yet_another_harness.Kernel.Cancel.{CancelKind, depth, kind_eq}
use yet_another_harness.Kernel.Cancel.Scope.{
  ScopeMember, in_order, row_before, row_at, binary_search, or_else,
}

-- The first row that passes a test.
unfoldable pub find_row : (ScopeMember → Bool) → List ScopeMember → Option ScopeMember
find_row test [] = none
find_row test (m ∷ ms) = if test m then some m else find_row test ms

-- One row before the next, as `windows(2)` compares them.
abbrev pub precedes : ScopeMember → ScopeMember → Bool
precedes m n =
    ltb (depth n.member_kind) (depth m.member_kind)
    || (kind_eq m.member_kind n.member_kind && text_ltb m.member_id n.member_id)

precedes-depth :
    (m n : ScopeMember)
    → precedes m n ≡ (
        ltb (depth n.member_kind) (depth m.member_kind)
        || ((depth m.member_kind == depth n.member_kind) && text_ltb m.member_id n.member_id))
precedes-depth m n = by_kinds m.member_kind n.member_kind (text_ltb m.member_id n.member_id)
  where
    by_kinds :
        (k l : CancelKind) (b : Bool)
        → (ltb (depth l) (depth k) || (kind_eq k l && b))
          ≡ (ltb (depth l) (depth k) || ((depth k == depth l) && b))
    by_kinds k l b = ground arith

module _ (kind : CancelKind) (id : Text) where
  -- A row behind what is looked for.
  abbrev pub is_after : ScopeMember → Bool
  is_after m = not (row_at kind id m) && not (row_before kind id m)

  before_left :
      (m n : ScopeMember) → precedes m n ≡ true → is_after n ≡ false → row_before kind id m ≡ true
  before_left m n h k = ground (
    arith,
    precedes-depth m n,
    h,
    k,
    text_ltb_trans m.member_id n.member_id id,
    text_eq_sound n.member_id id,
  )

  after_right : (m n : ScopeMember) → precedes m n ≡ true → is_after m ≡ true → is_after n ≡ true
  after_right m n h k = ground (
    arith,
    precedes-depth m n,
    h,
    k,
    text_ltb_trans m.member_id n.member_id id,
    text_eq_sound n.member_id id,
    text_ltb_total m.member_id id,
  )

  not_both : (m : ScopeMember) → row_before kind id m ≡ true → row_at kind id m ≡ false
  not_both m h = ground (arith, h, text_eq_sound m.member_id id, text_ltb_irrefl id)

  all_before :
      (xs ys : List ScopeMember) (m : ScopeMember)
      → in_order (xs ++ m ∷ ys) ≡ true
      → is_after m ≡ false
      → all (row_before kind id) xs ≡ true
  unfolding in_order
  all_before [] ys m h k = refl
  all_before (x ∷ []) ys m h k =
      let last = before_left x m (and_left (precedes x m) (in_order (m ∷ ys)) h) k in
      and_intro last refl
  all_before (x ∷ y ∷ xs) ys m h k =
      let rest =
        all_before (y ∷ xs) ys m (and_right (precedes x y) (in_order (y ∷ xs ++ m ∷ ys)) h) k in
      let near = and_left (row_before kind id y) (all (row_before kind id) xs) rest in
      let first =
        before_left x y (and_left (precedes x y) (in_order (y ∷ xs ++ m ∷ ys)) h)
          (not_after y near) in
      and_intro first rest
    where
      not_after : (n : ScopeMember) → row_before kind id n ≡ true → is_after n ≡ false
      not_after n e = ground (arith, e)

  none_before :
      (xs : List ScopeMember)
      → all (row_before kind id) xs ≡ true
      → find_row (row_at kind id) xs ≡ none
  unfolding find_row
  none_before [] h = refl
  none_before (x ∷ xs) h =
      let near = and_left (row_before kind id x) (all (row_before kind id) xs) h in
      let rest =
        none_before xs (and_right (row_before kind id x) (all (row_before kind id) xs) h) in
      rw (not_both x near) rest

  pub none_after :
      (m : ScopeMember) (ys : List ScopeMember)
      → in_order (m ∷ ys) ≡ true
      → is_after m ≡ true
      → find_row (row_at kind id) (m ∷ ys) ≡ none
  unfolding in_order find_row
  none_after m [] h k = at_none m k
    where
      at_none :
          (n : ScopeMember) → is_after n ≡ true → (if row_at kind id n then some n else none) ≡ none
      at_none n e = ground (arith, e)
  none_after m (n ∷ ys) h k =
      let next = after_right m n (and_left (precedes m n) (in_order (n ∷ ys)) h) k in
      let rest = none_after n ys (and_right (precedes m n) (in_order (n ∷ ys)) h) next in
      skip m (find_row (row_at kind id) (n ∷ ys)) k ∙ rest
    where
      skip :
          (o : ScopeMember) (found : Option ScopeMember)
          → is_after o ≡ true
          → (if row_at kind id o then some o else found) ≡ found
      skip o found e = ground (arith, e)

  find_row-append :
      (xs ys : List ScopeMember)
      → find_row (row_at kind id) (xs ++ ys)
        ≡ or_else (find_row (row_at kind id) xs) (find_row (row_at kind id) ys)
  unfolding find_row
  find_row-append [] ys = refl
  find_row-append (x ∷ xs) ys = ground (arith, find_row-append xs ys)

in_order_left : (xs ys : List ScopeMember) → in_order (xs ++ ys) ≡ true → in_order xs ≡ true
unfolding in_order
in_order_left [] ys h = refl
in_order_left (x ∷ []) ys h = refl
in_order_left (x ∷ y ∷ xs) ys h =
    and_intro (and_left (precedes x y) _ h)
      (in_order_left (y ∷ xs) ys (and_right (precedes x y) _ h))

pub in_order_right : (xs ys : List ScopeMember) → in_order (xs ++ ys) ≡ true → in_order ys ≡ true
unfolding in_order
in_order_right [] ys h = h
in_order_right (x ∷ []) [] h = refl
in_order_right (x ∷ []) (y ∷ ys) h = and_right (precedes x y) (in_order (y ∷ ys)) h
in_order_right (x ∷ y ∷ xs) ys h = in_order_right (y ∷ xs) ys (and_right (precedes x y) _ h)

none_of_empty :
    (test : ScopeMember → Bool) (ms : List ScopeMember) → length ms ≤ 0 → find_row test ms ≡ none
unfolding find_row
none_of_empty test [] h = refl
none_of_empty test (m ∷ ms) h = absurd (omega arith)

pub find_row_cons :
    (test : ScopeMember → Bool) (m : ScopeMember) (r : List ScopeMember)
    → find_row test (m ∷ r) ≡ (if test m then some m else find_row test r)
unfolding find_row
find_row_cons test m r = refl

-- Where the search goes, given what the halves hold.
search_by :
    (kind : CancelKind) (id : Text) (xs : List ScopeMember) (m : ScopeMember) (r : List ScopeMember)
    → in_order (xs ++ m ∷ r) ≡ true
    → (if row_at kind id m
        then some m
        else if row_before kind id m
        then find_row (row_at kind id) r
        else find_row (row_at kind id) xs)
      ≡ find_row (row_at kind id) (xs ++ m ∷ r)
search_by kind id xs m r h = elim (Bool-cases (is_after kind id m)) [
  | inl after ↦
      behind m _ _ after
      ∙ (sym (right_none _ _ (none_after kind id m r (in_order_right xs (m ∷ r) h) after))
          ∙ sym (find_row-append kind id xs (m ∷ r)))
  | inr near ↦
      let left = none_before kind id xs (all_before kind id xs r m h near) in
      here m (find_row (row_at kind id) r) (find_row (row_at kind id) xs) near
      ∙ sym (find_row-append kind id xs (m ∷ r) ∙ rw left (find_row_cons (row_at kind id) m r))
]
  where
    behind :
        (n : ScopeMember) (there back : Option ScopeMember)
        → is_after kind id n ≡ true
        → (if row_at kind id n then some n else if row_before kind id n then there else back) ≡ back
    behind n there back e = ground (arith, e)

    here :
        (n : ScopeMember) (there back : Option ScopeMember)
        → is_after kind id n ≡ false
        → (if row_at kind id n then some n else if row_before kind id n then there else back)
          ≡ (if row_at kind id n then some n else there)
    here n there back e = ground (arith, e)

    right_none : (a b : Option ScopeMember) → b ≡ none → or_else a b ≡ a
    right_none none b e = e
    right_none (some x) b e = refl

pub binary_search-find_row :
    (fuel : ℕ) (kind : CancelKind) (id : Text) (ms : List ScopeMember)
    → length ms ≤ fuel
    → in_order ms ≡ true
    → binary_search fuel kind id ms ≡ find_row (row_at kind id) ms
unfolding binary_search
binary_search-find_row zero kind id ms long h =
    sym (none_of_empty (row_at kind id) ms (omega arith))
binary_search-find_row (suc fuel) kind id ms long h =
    split (drop (length ms / 2) ms) (take-append-drop (length ms / 2) ms)
      (length-drop (length ms / 2) ms) (binary_search-find_row fuel kind id)
  where
    split :
        (right : List ScopeMember)
        → take (length ms / 2) ms ++ right ≡ ms
        → length right ≡ length ms - length ms / 2
        → ((l : List ScopeMember)
            → length l ≤ fuel
            → in_order l ≡ true
            → binary_search fuel kind id l ≡ find_row (row_at kind id) l)
        → (elim right [
          | [] ↦ none
          | ◌∷◌ m r ↦
              if row_at kind id m
              then some m
              else if row_before kind id m
              then binary_search fuel kind id r
              else binary_search fuel kind id (take (length ms / 2) ms)
        ])
          ≡ find_row (row_at kind id) ms
    split [] whole size search = sym (none_of_empty (row_at kind id) ms (omega (arith, size)))
    split (m ∷ r) whole size search =
        let ordered = ap in_order whole ∙ h in
        let xs = take (length ms / 2) ms in
        let goes_left =
          search xs (omega (arith, length-take (length ms / 2) ms))
            (in_order_left xs (m ∷ r) ordered) in
        let goes_right =
          search r (omega (arith, size))
            (in_order_right (m ∷ []) r (in_order_right xs (m ∷ r) ordered)) in
        rw (goes_left, goes_right)
          (search_by kind id xs m r ordered ∙ ap (find_row (row_at kind id)) whole)
