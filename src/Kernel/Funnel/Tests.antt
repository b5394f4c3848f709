-- ===== src/Kernel/Funnel/Tests.antt =====
-- Runs of the funnel of crates/yah-kernel/src/funnel, on small graphs.
mod Units
mod Effects
mod Deliveries
mod Prepare
use yet_another_harness.Prelude.{
  ℕ, ◌≡◌, refl, Bool, true, false, Option, none, some, List, [], ◌∷◌, Text, text, arith,
}
use yet_another_harness.Prelude.Table.{read, write}
use yet_another_harness.Ipc.Types.{Value, string}
use yet_another_harness.Kernel.Error.{ErrorKind, Rejection, durable}
use yet_another_harness.Kernel.Ids.{
  is_digest, valid_wire_identifier, display, mint, hex_pad, hex_char, hyphenated,
}
use yet_another_harness.Kernel.Funnel.Command.{
  Command, Method, PrincipalKind, ScopeKind, Submission, AttemptTokenClaims,
}
use yet_another_harness.Kernel.Funnel.State.{
  Graph, Funnel, UnitNode, LeaseNode, increment, json, json_uint, minted,
}
use yet_another_harness.Kernel.Funnel.Gates.{authority_gate}
use yet_another_harness.Kernel.Funnel.PreRead.{pre_read, cancel_pre_read}
use yet_another_harness.Kernel.Funnel.Validate.{
  validate, validate_work_item_create, validate_run_open,
}
use yet_another_harness.Kernel.Funnel.Apply.{apply_plan}
use yet_another_harness.Kernel.Funnel.Receipt.{
  address_is_valid, identifiers_are_valid, method_identifiers_are_valid, project_scope_is_valid,
  scope_fits, receipt_key, receipt,
}
use yet_another_harness.Kernel.Funnel.Submit.{
  Outside, Commit, submit, decide, carry_out, over_limit, any_over, stage, stage_events, seal,
  sealed, event_node, cursor_range, persist_rejection,
}
use yet_another_harness.Kernel.Funnel.Submit.Retry.{submit-completed, submit-durable}
use yet_another_harness.Kernel.Funnel.Submit.Journal.{run-IsJournal, IsJournal, ascends, run}
use yet_another_harness.Kernel.Funnel.Submit.Rejected.{submit-rejected, KeepsBut}

abbrev pub empty_graph : Graph
empty_graph = record {
  runs = [];
  work_items = [];
  units = [];
  attempts = [];
  attempt_ids = [];
  leases = [];
  effects = [];
  effect_intent_ids = [];
  cancel_requests = [];
  cancel_roots = [];
  cancel_deliveries = [];
  cancel_deliveries_by_request = [];
  receipts = [];
  events = [];
}

abbrev pub fresh : Funnel
fresh = record {
  graph = empty_graph;
  authority_epoch = 1;
  project_id = text "p";
  next_cursor = 1;
  poisoned = false;
  clock_ms = 5;
  mint_seq = 0;
}

abbrev pub outside : Outside
outside = record {
  blake3 = λ bytes. bytes;
  payload_length = λ payload. 2;
  result_length = λ result. some 2;
}

abbrev pub by_daemon : Text → Method → Command
by_daemon id method = record {
  command_id = id;
  scope_kind = ScopeKind.global;
  scope_id = text "g";
  request_digest = text "d";
  expected_version = none;
  principal_kind = PrincipalKind.daemon;
  principal_id = text "daemon";
  authority_epoch = some 1;
  attempt_token = none;
  causation_id = none;
  correlation_id = none;
  method = method;
}

abbrev pub open_run : Command
open_run = by_daemon (text "c1") (Method.run_open (text "r") (text "w"))

abbrev pub opened : Value
opened = json ((text "run_id", string (text "r")) ∷ (text "version", json_uint 1) ∷ [])

submit-completed_example :
    submit outside Commit.failed (submit outside Commit.committed fresh open_run).0 open_run
    ≡ ((submit outside Commit.committed fresh open_run).0, Submission.replayed opened)
unfolding submit decide carry_out over_limit any_over stage stage_events seal sealed event_node
    cursor_range address_is_valid identifiers_are_valid method_identifiers_are_valid
    project_scope_is_valid scope_fits valid_wire_identifier validate validate_run_open
    authority_gate pre_read cancel_pre_read apply_plan increment receipt_key receipt read write text
submit-completed_example =
    submit-completed outside Commit.committed fresh open_run opened refl outside Commit.failed

-- The funnel after the run is opened.
abbrev pub with_run : Funnel
with_run = (submit outside Commit.committed fresh open_run).0

abbrev pub open_again : Command
open_again = by_daemon (text "c2") (Method.run_open (text "r") (text "w"))

submit-durable_example :
    ((submit outside Commit.committed with_run open_again).1
      ≡ Submission.rejected ErrorKind.invalid_request false)
    × ((again : Outside) (later : Commit)
        → submit again later (submit outside Commit.committed with_run open_again).0 open_again ≡ (
          (submit outside Commit.committed with_run open_again).0,
          Submission.rejected ErrorKind.invalid_request true,
        ))
unfolding submit decide carry_out over_limit any_over stage stage_events seal sealed event_node
    cursor_range address_is_valid identifiers_are_valid method_identifiers_are_valid
    project_scope_is_valid scope_fits valid_wire_identifier validate validate_run_open
    authority_gate pre_read cancel_pre_read apply_plan increment receipt_key receipt read write text
submit-durable_example =
    submit-durable outside with_run open_again (durable ErrorKind.invalid_request) refl refl refl
      refl refl

run-IsJournal_example : IsJournal (
    run outside fresh (
      (Commit.committed, open_run)
      ∷ (Commit.unknown, by_daemon (text "c3") (Method.run_open (text "s") (text "w")))
      ∷ []))
unfolding ascends
run-IsJournal_example =
    run-IsJournal outside fresh
      ((Commit.committed, open_run)
        ∷ (Commit.unknown, by_daemon (text "c3") (Method.run_open (text "s") (text "w")))
        ∷ [])
      refl

submit-rejected_example :
    KeepsBut
      (receipt_key open_run)
      with_run.graph
      (submit outside Commit.committed with_run open_again).0.graph
unfolding submit decide carry_out over_limit any_over stage stage_events seal sealed event_node
    cursor_range address_is_valid identifiers_are_valid method_identifiers_are_valid
    project_scope_is_valid scope_fits valid_wire_identifier validate validate_run_open
    authority_gate pre_read cancel_pre_read apply_plan increment receipt_key receipt read write text
    persist_rejection
submit-rejected_example =
    submit-rejected outside Commit.committed with_run open_again ErrorKind.invalid_request false
      (receipt_key open_run) (λ e. ground (arith, e)) refl refl
