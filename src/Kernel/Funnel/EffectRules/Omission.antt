-- ===== src/Kernel/Funnel/EffectRules/Omission.antt =====
-- The classification of declared targets, of crates/yah-kernel/src/funnel/effect_rules.rs: what an
-- omitted observation can claim.
use yet_another_harness.Prelude.{
  ◌≡◌, refl, Bool, false, Option, none, some, List, [], ◌∷◌, map, all, arith,
}
use yet_another_harness.Kernel.Effect.{TargetObservation, is_applied, digest_is, declared_state}
use yet_another_harness.Kernel.Funnel.EffectRules.{last_by_id, merge_row}

abbrev pub observes : TargetObservation → Option TargetObservation → Bool
observes d none = false
observes d (some obs) = elim obs.observed_digest [
  | none ↦ false
  | some digest ↦ digest_is digest d.expected_digest
]

-- A declared target whose submitted row observed its expected digest.
abbrev pub is_witnessed : List TargetObservation → TargetObservation → Bool
is_witnessed submitted d = observes d (last_by_id d.target_id submitted)

is_applied-merge_row :
    (submitted : List TargetObservation) (d : TargetObservation)
    → is_applied (merge_row submitted d) ≡ is_witnessed submitted d
unfolding merge_row declared_state
is_applied-merge_row submitted d = ground arith

-- Every merged row counts as applied exactly when each declared target was observed at its expected
-- digest.
pub merged_applied :
    (submitted declared : List TargetObservation)
    → all is_applied (map (merge_row submitted) declared) ≡ all (is_witnessed submitted) declared
merged_applied submitted [] = refl
merged_applied submitted (d ∷ ds) =
    ground (arith, is_applied-merge_row submitted d, merged_applied submitted ds)
