-- ===== src/Kernel/Funnel/Validate.antt =====
-- `validate` of crates/yah-kernel/src/funnel/validate.rs: a command against the state that was read,
-- into a plan.
pub mod Closing
pub mod Fencing
use yet_another_harness.Prelude.{
  ℕ, Bool, true, false, ◌&&◌, ◌||◌, not, Option, none, some, List, [], ◌∷◌, Text, text, text_eq,
  ltb, if◌then◌else◌, Result, ok, err, guard, or_fail, ◌>>◌, ◌>>=◌, is_none, is_some,
}
use yet_another_harness.Prelude.Table.{read}
use yet_another_harness.Ipc.Types.{Value, Items, string, array, nil, cons}
use yet_another_harness.Kernel.Error.{ErrorKind, Rejection, durable, transient}
use yet_another_harness.Kernel.Ids.{display}
use yet_another_harness.Kernel.Funnel.Command.{Command, Method, RunOutcome, outcome_wire}
use yet_another_harness.Kernel.Funnel.State.{
  Funnel, UnitNode, LeaseNode, RunNode, EventDraft, Plan, Accepted, increment, minted, attempt_key,
  json, json_uint,
}
use yet_another_harness.Kernel.Funnel.PreRead.{PreRead}
use yet_another_harness.Kernel.Funnel.Gates.{authority_gate, holder_gate, expected_version_ok}
use yet_another_harness.Kernel.Funnel.Effects.{
  is_empty, unbarred, validate_record_dispatched, validate_settle, validate_park, validate_dispatch,
}
use yet_another_harness.Kernel.Funnel.Prepare.{validate_prepare}
use yet_another_harness.Kernel.Funnel.Cancel.{validate_cancel_commit, validate_record_delivery}

-- `increment` of validate.rs.
abbrev pub next : ℕ → Result ℕ Rejection
next value = or_fail (increment value) (durable ErrorKind.resource_exhausted)

abbrev pub event : Text → Text → ℕ → Text → Value → List EventDraft
event kind id version name payload =
    record {
      aggregate_kind = kind;
      aggregate_id = id;
      aggregate_version = version;
      event_kind = name;
      payload = payload;
    }
    ∷ []

abbrev pub accept : Plan → List EventDraft → Value → ℕ → Accepted
accept plan events result mints = record {
  plan = plan;
  events = events;
  result = result;
  mints = mints;
}

unfoldable pub validate_run_open :
    Funnel → Command → PreRead → Text → Text → Result Accepted Rejection
validate_run_open f cmd pre run_id goal_work_item_id = do
  authority_gate f.authority_epoch cmd
  guard (is_none pre.run) (durable ErrorKind.invalid_request)
  ok (
      accept (Plan.create_run run_id goal_work_item_id)
        (event (text "run") run_id 1 (text "run.opened")
          (json ((text "goal_work_item_id", string goal_work_item_id) ∷ [])))
        (json ((text "run_id", string run_id) ∷ (text "version", json_uint 1) ∷ [])) 0)

abbrev pub is_closable : Text → Bool
is_closable status = text_eq status (text "open") || text_eq status (text "active")

unfoldable pub validate_run_close :
    Funnel → Command → PreRead → Text → RunOutcome → Result Accepted Rejection
validate_run_close f cmd pre run_id outcome = do
  authority_gate f.authority_epoch cmd
  run ← or_fail pre.run (transient ErrorKind.not_found)
  expected_version_ok cmd run.version
  guard (is_closable run.status) (durable ErrorKind.invalid_request)
  guard (is_empty pre.run_blockers) (durable ErrorKind.invalid_request)
  version ← next run.version
  ok (
      accept (Plan.close_run run_id version (outcome_wire outcome))
        (event (text "run") run_id version (text "run.closed")
          (json ((text "outcome", string (outcome_wire outcome)) ∷ [])))
        (json (
          (text "run_id", string run_id)
          ∷ (text "version", json_uint version)
          ∷ (text "status", string (outcome_wire outcome))
          ∷ []))
        0)

abbrev pub json_texts : List Text → Value
json_texts texts = array (items texts)
  where
    items : List Text → Items
    items [] = nil
    items (t ∷ ts) = cons (string t) (items ts)

unfoldable pub validate_work_item_create :
    Funnel → Command → Text → Text → List Text → Result Accepted Rejection
validate_work_item_create f cmd work_item_id digest scope = do
  authority_gate f.authority_epoch cmd
  guard (is_none (read work_item_id f.graph.work_items)) (durable ErrorKind.invalid_request)
  ok (
      accept (Plan.create_work_item work_item_id digest scope)
        (event (text "work_item") work_item_id 1 (text "work_item.created") (
          json (
            (text "acceptance_contract_digest", string digest)
            ∷ (text "declared_write_scope", json_texts scope)
            ∷ [])))
        (json ((text "work_item_id", string work_item_id) ∷ (text "version", json_uint 1) ∷ [])) 0)

unfoldable pub validate_unit_admit :
    Funnel → Command → PreRead → Text → Text → Text → Result Accepted Rejection
validate_unit_admit f cmd pre unit_id work_item_id run_id = do
  authority_gate f.authority_epoch cmd
  guard (is_some (read run_id f.graph.runs)) (transient ErrorKind.not_found)
  guard (is_some (read work_item_id f.graph.work_items)) (transient ErrorKind.not_found)
  guard (is_none pre.unit) (durable ErrorKind.invalid_request)
  guard (unbarred pre) (durable ErrorKind.invalid_request)
  ok (
      accept (Plan.create_unit unit_id work_item_id run_id)
        (event (text "unit") unit_id 1 (text "unit.admitted")
          (json ((text "work_item_id", string work_item_id) ∷ (text "run_id", string run_id) ∷ [])))
        (json ((text "unit_id", string unit_id) ∷ (text "version", json_uint 1) ∷ [])) 0)

-- The key of the attempt of the current epoch, which must be there; none before the first.
unfoldable pub prior_attempt_of : Funnel → Text → UnitNode → Result (Option Text) Rejection
prior_attempt_of f unit_id unit =
    if ltb 0 unit.current_attempt_epoch
    then (elim (read (attempt_key unit_id unit.current_attempt_epoch) f.graph.attempts) [
      | some attempt ↦ ok (some (attempt_key unit_id unit.current_attempt_epoch))
      | none ↦ err (transient ErrorKind.internal)
    ])
    else ok none

abbrev pub lease_version : Option LeaseNode → Option ℕ
lease_version none = none
lease_version (some lease) = some lease.version

unfoldable pub validate_unit_dispatch :
    Funnel → Command → PreRead → Text → Text → Result Accepted Rejection
validate_unit_dispatch f cmd pre unit_id holder_id = do
  authority_gate f.authority_epoch cmd
  unit ← or_fail pre.unit (transient ErrorKind.not_found)
  expected_version_ok cmd unit.version
  guard (unbarred pre) (durable ErrorKind.invalid_request)
  prior ← prior_attempt_of f unit_id unit
  epoch ← next unit.current_attempt_epoch
  version ← next unit.version
  ok (
      accept
        (Plan.dispatch unit_id version epoch unit.stamp f.authority_epoch holder_id
          (display (minted f 0)) (display (minted f 1)) (lease_version pre.lease) prior)
        (event (text "unit") unit_id version (text "unit.dispatched") (
          json (
            (text "attempt_epoch", json_uint epoch)
            ∷ (text "attempt_id", string (display (minted f 0)))
            ∷ (text "holder_id", string holder_id)
            ∷ [])))
        (json (
          (text "unit_id", string unit_id)
          ∷ (text "version", json_uint version)
          ∷ (text "attempt_epoch", json_uint epoch)
          ∷ (text "attempt_id", string (display (minted f 0)))
          ∷ (text "stamp", json_uint unit.stamp)
          ∷ (text "authority_epoch", json_uint f.authority_epoch)
          ∷ (text "holder_id", string holder_id)
          ∷ (text "token_nonce", string (display (minted f 1)))
          ∷ []))
        2)

-- A fence that passed has seen the unit; the code panics without it.
unfoldable pub validate_progress_report :
    Funnel → Command → PreRead → Text → Result Accepted Rejection
validate_progress_report f cmd pre unit_id = do
  token ← holder_gate f.authority_epoch cmd pre unit_id
  unit ← or_fail pre.unit (transient ErrorKind.internal)
  expected_version_ok cmd unit.version
  ok (
      accept Plan.nothing []
        (json ((text "unit_id", string unit_id) ∷ (text "version", json_uint unit.version) ∷ [])) 0)

unfoldable pub validate_stamp_bump : Funnel → Command → PreRead → Text → Result Accepted Rejection
validate_stamp_bump f cmd pre unit_id = do
  authority_gate f.authority_epoch cmd
  unit ← or_fail pre.unit (transient ErrorKind.not_found)
  expected_version_ok cmd unit.version
  version ← next unit.version
  stamp ← next unit.stamp
  ok (
      accept (Plan.bump_unit unit_id version (some stamp))
        (event (text "unit") unit_id version (text "unit.stamp_bumped")
          (json ((text "stamp", json_uint stamp) ∷ [])))
        (json (
          (text "unit_id", string unit_id)
          ∷ (text "version", json_uint version)
          ∷ (text "stamp", json_uint stamp)
          ∷ []))
        0)

unfoldable pub validate : Funnel → Command → PreRead → Result Accepted Rejection
validate f cmd pre = by_method cmd.method
  where
    by_method : Method → Result Accepted Rejection
    by_method (Method.run_open run_id goal) = validate_run_open f cmd pre run_id goal
    by_method (Method.run_close run_id outcome) = validate_run_close f cmd pre run_id outcome
    by_method (Method.work_item_create id digest scope) =
        validate_work_item_create f cmd id digest scope
    by_method (Method.unit_admit unit_id work_item_id run_id) =
        validate_unit_admit f cmd pre unit_id work_item_id run_id
    by_method (Method.unit_dispatch unit_id holder_id) =
        validate_unit_dispatch f cmd pre unit_id holder_id
    by_method (Method.progress_report unit_id) = validate_progress_report f cmd pre unit_id
    by_method (Method.stamp_bump unit_id) = validate_stamp_bump f cmd pre unit_id
    by_method (Method.token_reissue unit_id) = err (transient ErrorKind.capability_unsupported)
    by_method (Method.effect_prepare unit_id spec) = validate_prepare f cmd pre unit_id spec
    by_method (Method.effect_dispatch unit_id key) = validate_dispatch f cmd pre unit_id key
    by_method (Method.effect_record_dispatched unit_id key at) =
        validate_record_dispatched f cmd pre unit_id key at
    by_method (Method.effect_settle unit_id key terminal targets evidence at) =
        validate_settle f cmd pre unit_id key terminal targets evidence at
    by_method (Method.effect_park_reconciling unit_id key at) =
        validate_park f cmd pre unit_id key at
    by_method (Method.cancel_request kind root_id reason policy proposed) =
        validate_cancel_commit f cmd pre kind root_id reason policy proposed
    by_method (Method.cancel_record_delivery request_id member_id at observed outcome) =
        validate_record_delivery f cmd pre request_id member_id at observed outcome
