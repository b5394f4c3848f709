-- ===== src/Prelude/Map.antt =====
-- `BTreeMap` and `BTreeSet` over `u64` keys: an association list in the order of its keys.
use Prim.Native.Nat.{ℕ, suc, ◌≤◌}
use mathlib.Core.Path.{◌≡◌, refl}
use mathlib.Core.Bool.{Bool, true, false}
use mathlib.Core.Option.{Option, none, some}
use mathlib.Core.List.{List, [], ◌∷◌}
use native.Mathlib.Omega.{arith}
use yet_another_harness.Prelude.Tests.{◌==◌, ltb, if◌then◌else◌}
use yet_another_harness.Prelude.Lists.{length}

abbrev pub Map {ℓ} : Type ℓ → Type ℓ
Map V = List (ℕ × V)

abbrev pub Set : Type 0
Set = Map (Unit {0})

module _ {ℓ} {V : Type ℓ} where
  unfoldable pub lookup : ℕ → Map V → Option V
  lookup k [] = none
  lookup k ((j, v) ∷ m) = if j == k then some v else lookup k m

  unfoldable pub contains : ℕ → Map V → Bool
  contains k [] = false
  contains k ((j, v) ∷ m) = if j == k then true else contains k m

  -- A new entry, in the order of the keys.
  unfoldable pub put : ℕ → V → Map V → Map V
  put k v [] = (k, v) ∷ []
  put k v ((j, w) ∷ m) = if ltb k j then (k, v) ∷ (j, w) ∷ m else (j, w) ∷ put k v m

  unfoldable pub replace : ℕ → V → Map V → Map V
  replace k v [] = []
  replace k v ((j, w) ∷ m) = (if j == k then (k, v) else (j, w)) ∷ replace k v m

  unfoldable pub insert : ℕ → V → Map V → Map V
  insert k v m = if contains k m then replace k v m else put k v m

  unfoldable pub remove : ℕ → Map V → Map V
  remove k [] = []
  remove k ((j, v) ∷ m) = if j == k then remove k m else (j, v) ∷ remove k m

  unfoldable pub keys : Map V → List ℕ
  keys [] = []
  keys ((j, v) ∷ m) = j ∷ keys m

  pub contains-lookup :
      (k : ℕ) (m : Map V) → contains k m ≡ elim (lookup k m) [ none ↦ false | some _ ↦ true ]
  unfolding lookup contains
  contains-lookup k [] = refl
  contains-lookup k ((i, w) ∷ m) = ground (arith, contains-lookup k m)

  pub contains_of_lookup : (k : ℕ) (m : Map V) {v : V} → lookup k m ≡ some v → contains k m ≡ true
  contains_of_lookup k m h = ground (arith, contains-lookup k m)

  lookup-put :
      (k j : ℕ) (v : V) (m : Map V)
      → contains k m ≡ false
      → lookup j (put k v m) ≡ (if k == j then some v else lookup j m)
  unfolding put lookup contains
  lookup-put k j v [] h = refl
  lookup-put k j v (entry ∷ m) h = ground (arith, lookup-put k j v m)

  lookup-replace :
      (k j : ℕ) (v : V) (m : Map V)
      → contains k m ≡ true
      → lookup j (replace k v m) ≡ (if k == j then some v else lookup j m)
  unfolding replace lookup contains
  lookup-replace k j v [] h = cc
  lookup-replace k j v (entry ∷ m) h =
      ground (arith, lookup-replace k j v m, lookup-replace_of_absent k j v m)
    where
      lookup-replace_of_absent :
          (k j : ℕ) (v : V) (m : Map V)
          → contains k m ≡ false
          → lookup j (replace k v m) ≡ lookup j m
      lookup-replace_of_absent k j v [] h = refl
      lookup-replace_of_absent k j v (entry ∷ m) h =
          ground (arith, lookup-replace_of_absent k j v m)

  pub lookup-insert :
      (at read : ℕ) (v : V) (m : Map V)
      → lookup read (insert at v m) ≡ (if at == read then some v else lookup read m)
  unfolding insert
  lookup-insert at read v m = ground (arith, lookup-put at read v m, lookup-replace at read v m)

  pub lookup-remove :
      (k j : ℕ) (m : Map V) → lookup j (remove k m) ≡ (if k == j then none else lookup j m)
  unfolding lookup remove
  lookup-remove k j [] = ground arith
  lookup-remove k j ((i, w) ∷ m) = ground (arith, lookup-remove k j m)

  contains-put :
      (k j : ℕ) (v : V) (m : Map V)
      → contains j (put k v m) ≡ (if k == j then true else contains j m)
  unfolding put contains
  contains-put k j v [] = refl
  contains-put k j v (entry ∷ m) = ground (arith, contains-put k j v m)

  contains-replace : (k j : ℕ) (v : V) (m : Map V) → contains j (replace k v m) ≡ contains j m
  unfolding replace contains
  contains-replace k j v [] = refl
  contains-replace k j v (entry ∷ m) = ground (arith, contains-replace k j v m)

  pub contains-insert :
      (k j : ℕ) (v : V) (m : Map V)
      → contains j (insert k v m) ≡ (if k == j then true else contains j m)
  unfolding insert
  contains-insert k j v m = ground (arith, contains-put k j v m, contains-replace k j v m)

  pub contains-remove :
      (k j : ℕ) (m : Map V) → contains j (remove k m) ≡ (if k == j then false else contains j m)
  unfolding contains remove
  contains-remove k j [] = ground arith
  contains-remove k j ((i, w) ∷ m) = ground (arith, contains-remove k j m)

  length-put : (k : ℕ) (v : V) (m : Map V) → length (put k v m) ≡ suc (length m)
  unfolding put
  length-put k v [] = refl
  length-put k v (entry ∷ m) = ground (arith, length-put k v m)

  length-replace : (k : ℕ) (v : V) (m : Map V) → length (replace k v m) ≡ length m
  unfolding replace
  length-replace k v [] = refl
  length-replace k v (entry ∷ m) = omega (arith, length-replace k v m)

  -- An insertion adds one entry, and none over an old one.
  pub length-insert :
      (k : ℕ) (v : V) (m : Map V)
      → length (insert k v m) ≡ (if contains k m then length m else suc (length m))
  unfolding insert
  length-insert k v m = ground (arith, length-put k v m, length-replace k v m)

  pub length-remove : (k : ℕ) (m : Map V) → length (remove k m) ≤ length m
  unfolding remove
  length-remove k [] = omega arith
  length-remove k ((i, w) ∷ m) = ground (arith, length-remove k m)

  pub length-remove_of_contains :
      (k : ℕ) (m : Map V) → contains k m ≡ true → suc (length (remove k m)) ≤ length m
  unfolding remove contains
  length-remove_of_contains k [] h = absurd (false≢true h)
    where
      false≢true : false ≡ true → ⊥
      false≢true e = cc
  length-remove_of_contains k ((i, w) ∷ m) h =
      ground (arith, length-remove_of_contains k m, length-remove k m)
