-- ===== src/Kernel/Funnel/Tests/Prepare.antt =====
-- An effect of crates/yah-kernel/src/funnel/effects.rs that is prepared twice.
use yet_another_harness.Prelude.{◌≡◌, refl, false, none, [], ◌∷◌, Text, text, ok}
use yet_another_harness.Prelude.Table.{read, write}
use yet_another_harness.Kernel.Effect.{
  RetryClass, ReversibilityClass, TargetEnumeration, derive_operation_key,
}
use yet_another_harness.Kernel.Funnel.EffectRules.{check_target_list, check_rows}
use yet_another_harness.Kernel.Funnel.Command.{Command, Method, EffectSpec}
use yet_another_harness.Kernel.Funnel.State.{Graph, Accepted, minted}
use yet_another_harness.Kernel.Funnel.CancelRules.{admission_blockers, bars}
use yet_another_harness.Kernel.Funnel.Resolution.{
  adoption_lineage, unit_lineage, effect_lineage, attempt_id_for_epoch,
}
use yet_another_harness.Kernel.Funnel.PreRead.{pre_read, cancel_pre_read}
use yet_another_harness.Kernel.Funnel.Gates.{holder_gate, check_holder_fence}
use yet_another_harness.Kernel.Funnel.Effects.{unbarred}
use yet_another_harness.Kernel.Funnel.Apply.{apply_plan}
use yet_another_harness.Kernel.Funnel.Prepare.{validate_prepare, accept_new}
use yet_another_harness.Kernel.Funnel.Prepare.Again.{
  validate_prepare-validate_prepare, already_prepared,
}
use yet_another_harness.Kernel.Tests.{target}
use yet_another_harness.Kernel.Funnel.Tests.{outside}
use yet_another_harness.Kernel.Funnel.Tests.Units.{accepted, funnel, graph, report, claims, staged}

abbrev spec : EffectSpec
spec = record {
  logical_operation_id = 9;
  request_digest = text "d";
  adapter_id = text "a";
  adapter_version = text "1";
  retry_class = RetryClass.safe_idempotent;
  reversibility_class = ReversibilityClass.bufferable;
  target_enumeration = TargetEnumeration.declared;
  approval_ref = none;
  policy_snapshot_digest = text "d";
  declared_targets = target ∷ [];
  decomposable = false;
  compensation_intent_id = none;
}

abbrev preparing : Command
preparing = record report { method = Method.effect_prepare (text "u") spec }

abbrev key : Text
key = derive_operation_key outside.blake3 (text "w") 9 (text "d")

abbrev first : Accepted
first =
    accepted
      (validate_prepare funnel preparing (pre_read outside.blake3 graph preparing) (text "u") spec)

abbrev prepared : Graph
prepared = staged (apply_plan graph first.plan)

validate_prepare-validate_prepare_example :
    validate_prepare funnel preparing (pre_read outside.blake3 prepared preparing) (text "u") spec
    ≡ ok (already_prepared key (minted funnel 0))
unfolding pre_read cancel_pre_read read write text validate_prepare accept_new apply_plan
    holder_gate check_holder_fence unbarred adoption_lineage unit_lineage effect_lineage
    attempt_id_for_epoch admission_blockers bars check_target_list check_rows
validate_prepare-validate_prepare_example =
    validate_prepare-validate_prepare outside.blake3 funnel preparing (text "u") key spec first
      prepared refl refl refl refl refl funnel preparing claims refl refl refl
