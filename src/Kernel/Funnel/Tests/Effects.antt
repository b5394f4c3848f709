-- ===== src/Kernel/Funnel/Tests/Effects.antt =====
-- The effect methods of the funnel of crates/yah-kernel/src/funnel, on one effect.
use yet_another_harness.Prelude.{◌≡◌, refl, true, none, some, List, [], ◌∷◌, text, all}
use yet_another_harness.Prelude.Table.{read}
use yet_another_harness.Kernel.Effect.{
  EffectTerminal, TargetObservation, declared_state, find_failing, settle,
}
use yet_another_harness.Kernel.Funnel.EffectRules.{
  SettleEvidence, check_target_list, check_rows, settle_legality, classify_settle_targets,
  merge_declared, merge_row, check_declared, declares, last_by_id,
}
use yet_another_harness.Kernel.Funnel.EffectRules.Omission.{is_witnessed}
use yet_another_harness.Kernel.Funnel.Command.{Command, Method}
use yet_another_harness.Kernel.Funnel.State.{Graph, EffectNode, Accepted, increment}
use yet_another_harness.Kernel.Funnel.CancelRules.{admission_blockers, bars}
use yet_another_harness.Kernel.Funnel.Resolution.{
  adoption_lineage, unit_lineage, effect_lineage, attempt_id_for_epoch,
}
use yet_another_harness.Kernel.Funnel.PreRead.{PreRead, pre_read, cancel_pre_read}
use yet_another_harness.Kernel.Funnel.Gates.{
  authority_gate, holder_gate, check_holder_fence, expected_version_ok,
}
use yet_another_harness.Kernel.Funnel.Effects.{
  resolve_bound, validate_settle, validate_dispatch, dispatch_or_cancel, authorize_dispatch,
  unbarred,
}
use yet_another_harness.Kernel.Funnel.Effects.Settling.{
  validate_settle-IsLawful, succeeded_observed, IsLawful,
}
use yet_another_harness.Kernel.Funnel.Effects.Authorizing.{validate_dispatch-Dispatched, Dispatched}
use yet_another_harness.Kernel.Tests.{effect, target}
use yet_another_harness.Kernel.Funnel.Tests.{outside}
use yet_another_harness.Kernel.Funnel.Tests.Units.{accepted, funnel, graph, report, versioned}

abbrev row : EffectNode
row = record {
  effect_intent_id = text "7";
  unit_id = text "u";
  attempt_epoch = 0;
  version = 1;
  state = text "dispatched";
  terminal = none;
  intent_record = some effect;
}

abbrev with_effect : Graph
with_effect = record graph { effects = (text "k", row) ∷ [] }

abbrev observed : List TargetObservation
observed = record target { observed_digest = some (text "new"); observed_at = some 6 } ∷ []

abbrev evidence : SettleEvidence
evidence = record { clean_wait_status = true; target_reported_cancellation = true }

abbrev settling : EffectTerminal → Command
settling terminal =
    versioned (Method.effect_settle (text "u") (text "k") terminal observed evidence 8)

abbrev before : Command → PreRead
before cmd = pre_read outside.blake3 with_effect cmd

abbrev settled : EffectTerminal → Accepted
settled terminal = accepted (
    validate_settle funnel (settling terminal) (before (settling terminal)) (text "u") (text "k")
      terminal observed evidence 8)

validate_settle-IsLawful_example :
    (effect.terminal ≡ none) × IsLawful effect evidence EffectTerminal.cancelled
unfolding pre_read cancel_pre_read read text validate_settle resolve_bound authority_gate
    expected_version_ok increment check_target_list check_rows settle_legality
    classify_settle_targets merge_declared merge_row check_declared declares last_by_id settle
    find_failing declared_state
validate_settle-IsLawful_example =
    validate_settle-IsLawful funnel (settling EffectTerminal.cancelled)
      (before (settling EffectTerminal.cancelled)) (text "u") (text "k") observed evidence 8 row
      effect refl refl EffectTerminal.cancelled (settled EffectTerminal.cancelled) refl

succeeded_observed_example : all (is_witnessed observed) effect.targets ≡ true
unfolding pre_read cancel_pre_read read text validate_settle resolve_bound authority_gate
    expected_version_ok increment check_target_list check_rows settle_legality
    classify_settle_targets merge_declared merge_row check_declared declares last_by_id settle
    find_failing declared_state
succeeded_observed_example =
    succeeded_observed funnel (settling EffectTerminal.succeeded)
      (before (settling EffectTerminal.succeeded)) (text "u") (text "k") observed evidence 8 row
      effect refl refl (settled EffectTerminal.succeeded) refl refl

abbrev dispatching : Command
dispatching = record report {
  expected_version = some 1;
  method = Method.effect_dispatch (text "u") (text "k");
}

abbrev redispatched : Accepted
redispatched =
    accepted (validate_dispatch funnel dispatching (before dispatching) (text "u") (text "k"))

validate_dispatch-Dispatched_example : Dispatched (before dispatching) effect redispatched
unfolding pre_read cancel_pre_read read text validate_dispatch dispatch_or_cancel authorize_dispatch
    resolve_bound holder_gate check_holder_fence expected_version_ok increment unbarred
    adoption_lineage unit_lineage effect_lineage attempt_id_for_epoch admission_blockers bars
validate_dispatch-Dispatched_example =
    validate_dispatch-Dispatched funnel dispatching (before dispatching) (text "u") (text "k") row
      effect redispatched refl refl refl
