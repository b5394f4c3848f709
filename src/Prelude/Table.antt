-- ===== src/Prelude/Table.antt =====
-- A `HashMap` with texts for keys: an association list in the order of insertion.
use mathlib.Core.Path.{◌≡◌, refl}
use mathlib.Core.Option.{Option, none, some}
use mathlib.Core.List.{List, [], ◌∷◌}
use native.Mathlib.Omega.{arith}
use yet_another_harness.Prelude.Tests.{if◌then◌else◌}
use yet_another_harness.Prelude.Lists.{Text, text_eq, text_eq_sound}

abbrev pub Table {ℓ} : Type ℓ → Type ℓ
Table V = List (Text × V)

module _ {ℓ} {V : Type ℓ} where
  -- `get`
  unfoldable pub read : Text → Table V → Option V
  read k [] = none
  read k ((j, v) ∷ t) = if text_eq j k then some v else read k t

  -- `insert`: over the old value, or a new entry.
  unfoldable pub write : Text → V → Table V → Table V
  write k v [] = (k, v) ∷ []
  write k v ((j, w) ∷ t) = if text_eq j k then (j, v) ∷ t else (j, w) ∷ write k v t

  pub read-write :
      (at key : Text) (v : V) (t : Table V)
      → read key (write at v t) ≡ (if text_eq at key then some v else read key t)
  unfolding read write
  read-write at key v [] = refl
  read-write at key v ((j, w) ∷ t) =
      ground (
        arith,
        read-write at key v t,
        text_eq_sound j at,
        text_eq_sound j key,
        text_eq_sound at key,
      )
