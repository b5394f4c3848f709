-- ===== src/Kernel/Funnel/Tests/Units.antt =====
-- Fences of the funnel of crates/yah-kernel/src/funnel, on one unit.
use yet_another_harness.Prelude.{
  ◌≡◌, ◌≢◌, ◌↔◌, ◌&&◌, refl, true, Option, none, some, [], ◌∷◌, Text, text, Result, ok, err, arith,
  text_eq,
}
use yet_another_harness.Prelude.Table.{read, write}
use yet_another_harness.Kernel.Error.{Rejection}
use yet_another_harness.Kernel.Funnel.Command.{
  Command, Method, PrincipalKind, RunOutcome, AttemptTokenClaims,
}
use yet_another_harness.Kernel.Funnel.State.{
  Graph, Funnel, UnitNode, LeaseNode, EffectNode, CancelRequestNode, Plan, Accepted, increment,
  json,
}
use yet_another_harness.Kernel.Funnel.CancelRules.{admission_blockers, bars}
use yet_another_harness.Kernel.Funnel.RunRules.{
  effect_blocks, success_blockers, effect_blockers, units_of, cancel_blocks, is_unsettled_in,
}
use yet_another_harness.Kernel.Funnel.Resolution.{adoption_lineage, unit_lineage}
use yet_another_harness.Kernel.Funnel.PreRead.{PreRead, pre_read, cancel_pre_read}
use yet_another_harness.Kernel.Funnel.Gates.{authority_gate, holder_gate, expected_version_ok}
use yet_another_harness.Kernel.Funnel.Gates.Fence.{holder_gate_lem, is_holder_of, is_current}
use yet_another_harness.Kernel.Funnel.Effects.{unbarred}
use yet_another_harness.Kernel.Funnel.Validate.{
  validate, validate_stamp_bump, validate_unit_dispatch, validate_run_close, prior_attempt_of,
}
use yet_another_harness.Kernel.Funnel.Validate.Fencing.{stamp_bump_fences, dispatch_fences}
use yet_another_harness.Kernel.Funnel.Validate.Closing.{closed_success_settled, IsRooted, IsProved}
use yet_another_harness.Kernel.Funnel.Apply.{
  apply_plan, apply_dispatch, update, supersede, upsert_lease,
}
use yet_another_harness.Kernel.Funnel.Tests.{empty_graph, fresh, outside, by_daemon}

abbrev unit : UnitNode
unit = record {
  version = 1;
  current_attempt_epoch = 0;
  stamp = 3;
  status = text "admitted";
  work_item_id = text "w";
  run_id = text "r";
}

abbrev lease : LeaseNode
lease = record { attempt_epoch = 0; holder_id = text "h"; status = text "active"; version = 1 }

abbrev pub graph : Graph
graph = record empty_graph {
  units = (text "u", unit) ∷ [];
  leases = (text "u", lease) ∷ [];
  runs =
      (text "r", record { version = 1; status = text "open"; goal_work_item_id = text "w" }) ∷ [];
}

abbrev pub funnel : Funnel
funnel = record fresh { graph = graph }

abbrev pub claims : AttemptTokenClaims
claims = record {
  unit_id = text "u";
  attempt_epoch = 0;
  stamp = 3;
  authority_epoch = 1;
  holder_id = text "h";
  nonce = text "n";
}

abbrev pub report : Command
report = record (by_daemon (text "c5") (Method.progress_report (text "u"))) {
  principal_kind = PrincipalKind.agent;
  principal_id = text "h";
  attempt_token = some claims;
}

abbrev pub reading : PreRead
reading = pre_read outside.blake3 graph report

holder_gate_lem_example :
    (holder_gate 1 report reading (text "u") ≡ ok claims)
    ↔ ((is_holder_of 1 report claims (text "u") && is_current 1 claims unit lease) ≡ true)
unfolding pre_read cancel_pre_read read text
holder_gate_lem_example =
    holder_gate_lem 1 report reading (text "u") claims unit lease refl refl refl refl

-- What an accepted command will do, and what it makes of the graph.
abbrev pub accepted : Result Accepted Rejection → Accepted
accepted (ok a) = a
accepted (err r) = record { plan = Plan.nothing; events = []; result = json []; mints = 0 }

abbrev pub staged : Option Graph → Graph
staged none = empty_graph
staged (some g) = g

abbrev pub versioned : Method → Command
versioned method = record (by_daemon (text "c4") method) { expected_version = some 1 }

abbrev bump : Command
bump = versioned (Method.stamp_bump (text "u"))

abbrev bump_accepted : Accepted
bump_accepted =
    accepted (validate_stamp_bump funnel bump (pre_read outside.blake3 graph bump) (text "u"))

abbrev bumped : Graph
bumped = staged (apply_plan graph bump_accepted.plan)

stamp_bump_fences_example :
    holder_gate 1 report (pre_read outside.blake3 bumped report) (text "u") ≢ ok claims
unfolding pre_read cancel_pre_read read write text validate_stamp_bump authority_gate
    expected_version_ok increment apply_plan update
stamp_bump_fences_example =
    stamp_bump_fences funnel bump (pre_read outside.blake3 graph bump) (text "u") unit bump_accepted
      bumped refl refl refl outside.blake3 1 report claims refl (omega arith)

abbrev assign : Command
assign = versioned (Method.unit_dispatch (text "u") (text "k"))

abbrev assign_accepted : Accepted
assign_accepted = accepted (
    validate_unit_dispatch funnel assign (pre_read outside.blake3 graph assign) (text "u")
      (text "k"))

abbrev assigned : Graph
assigned = staged (apply_plan graph assign_accepted.plan)

dispatch_fences_example :
    holder_gate 1 report (pre_read outside.blake3 assigned report) (text "u") ≢ ok claims
unfolding pre_read cancel_pre_read read write text validate_unit_dispatch authority_gate
    expected_version_ok increment apply_plan apply_dispatch update supersede upsert_lease unbarred
    adoption_lineage unit_lineage admission_blockers bars prior_attempt_of
dispatch_fences_example =
    dispatch_fences funnel assign (pre_read outside.blake3 graph assign) (text "u") (text "k") unit
      assign_accepted assigned refl refl refl outside.blake3 1 report claims refl (omega arith)

-- The unit has a settled effect, and a settled cancellation.
abbrev finished : Graph
finished = record graph {
  effects =
      (
        text "k",
        record {
          effect_intent_id = text "7";
          unit_id = text "u";
          attempt_epoch = 0;
          version = 3;
          state = text "settled";
          terminal = some (text "cancelled");
          intent_record = none;
        },
      )
      ∷ [];
  cancel_requests =
      (
        text "q",
        record {
          root_kind = text "execution_unit";
          root_id = text "u";
          policy = text "root_only";
          reason = text "owner_request";
          status = text "settled";
          version = 2;
          request_record = none;
        },
      )
      ∷ [];
}

abbrev finishing : Funnel
finishing = record fresh { graph = finished }

abbrev close : Command
close = versioned (Method.run_close (text "r") RunOutcome.closed_success)

closed_success_settled_example :
    ((request_id : Text) (request : CancelRequestNode)
      → read request_id finished.cancel_requests ≡ some request
      → IsRooted finished (text "r") request
      → text_eq request.status (text "settled") ≡ true)
    × ((key : Text) (effect : EffectNode) (owner : UnitNode)
        → read key finished.effects ≡ some effect
        → read effect.unit_id finished.units ≡ some owner
        → text_eq owner.run_id (text "r") ≡ true
        → IsProved effect)
unfolding pre_read cancel_pre_read read text validate validate_run_close authority_gate
    expected_version_ok increment success_blockers effect_blockers units_of cancel_blocks
    effect_blocks is_unsettled_in
closed_success_settled_example =
    closed_success_settled outside.blake3 finishing close (text "r")
      (accepted (validate finishing close (pre_read outside.blake3 finished close))) refl refl
