-- ===== src/Kernel/Funnel/Submit.antt =====
-- `Funnel::submit` of crates/yah-kernel/src/funnel/mod.rs. What Selene answers to a commit, the hash and
-- the lengths of encoded values come from outside. An error of Selene's own while it stages is taken
-- at the commit, which fails before durability.
pub mod Retry
pub mod Journal
pub mod Rejected
use yet_another_harness.Prelude.{
  ℕ, suc, ◌+◌, Bool, true, false, ◌||◌, not, Option, none, some, List, [], ◌∷◌, ◌++◌, Text, text,
  ltb, if◌then◌else◌, Result, ok, err,
}
use yet_another_harness.Prelude.Table.{read, write}
use yet_another_harness.Ipc.Types.{Value}
use yet_another_harness.Kernel.Error.{ErrorKind, Rejection}
use yet_another_harness.Kernel.Ids.{display}
use yet_another_harness.Kernel.Effect.{Hasher}
use yet_another_harness.Kernel.Funnel.Command.{Command, Submission, principal_wire}
use yet_another_harness.Kernel.Funnel.State.{
  Graph, Funnel, ReceiptNode, EventNode, EventDraft, Accepted, increment, minted,
}
use yet_another_harness.Kernel.Funnel.PreRead.{pre_read}
use yet_another_harness.Kernel.Funnel.Validate.{validate}
use yet_another_harness.Kernel.Funnel.Apply.{apply_plan}
use yet_another_harness.Kernel.Funnel.Receipt.{address_is_valid, receipt_key, receipt}
use yet_another_harness.Kernel.Funnel.Replay.{replay_stored, error_result, completed_status}

-- What the source takes from other crates.
pub record Outside : Type 0 where
  pub blake3 : Hasher
  -- `wire_json_len`
  pub payload_length : Value → ℕ
  -- the canonical encoding of a result, when it has one
  pub result_length : Value → Option ℕ

-- The answer to `commit`: durable, uncertain, or refused before durability.
-- After an uncertain answer the write may be durable or not: the funnel is poisoned and keeps the
-- graph from before, which no later command reads.
pub data Commit : Type 0 where
  committed : Commit
  unknown : Commit
  failed : Commit

abbrev pub max_event_payload_bytes : ℕ
max_event_payload_bytes = 16384

abbrev pub max_result_bytes : ℕ
max_result_bytes = 4096

unfoldable pub any_over : (Value → ℕ) → List EventDraft → Bool
any_over size [] = false
any_over size (e ∷ es) = ltb max_event_payload_bytes (size e.payload) || any_over size es

abbrev pub result_over : Option ℕ → Bool
result_over none = true
result_over (some n) = ltb max_result_bytes n

unfoldable pub over_limit : Outside → Accepted → Bool
over_limit o a = any_over o.payload_length a.events || result_over (o.result_length a.result)

abbrev pub put_receipt : Text → ReceiptNode → Graph → Graph
put_receipt key row g = record g { receipts = write key row g.receipts }

-- A rejection that leaves a receipt.
unfoldable pub persist_rejection : Commit → Funnel → Command → ErrorKind → Funnel × Submission
persist_rejection Commit.committed f cmd kind = (
  record f {
    graph =
        put_receipt (receipt_key cmd) (receipt cmd (text "rejected") (error_result kind) none)
          f.graph;
  },
  Submission.rejected kind false,
)
persist_rejection Commit.unknown f cmd kind =
    (record f { poisoned = true }, Submission.rejected kind false)
persist_rejection Commit.failed f cmd kind = (f, Submission.rejected ErrorKind.internal false)

unfoldable pub event_node : Funnel → Command → ℕ → EventDraft → EventNode
event_node f cmd ordinal draft = record {
  event_id = display (minted f 0);
  cursor = f.next_cursor;
  aggregate_kind = draft.aggregate_kind;
  aggregate_id = draft.aggregate_id;
  aggregate_version = draft.aggregate_version;
  ordinal = ordinal;
  event_kind = draft.event_kind;
  payload = draft.payload;
  receipt_key = receipt_key cmd;
  command_id = cmd.command_id;
  actor_kind = principal_wire cmd.principal_kind;
  actor_id = cmd.principal_id;
  occurred_at_ms = f.clock_ms;
  causation_id = cmd.causation_id;
  correlation_id = cmd.correlation_id;
}

abbrev pub cons_option {ℓ} : {A : Type ℓ} → A → Option (List A) → Option (List A)
cons_option a none = none
cons_option a (some as') = some (a ∷ as')

-- Each event takes a cursor and an id, from an ordinal. They stay taken when the commit fails.
unfoldable pub stage_events :
    Funnel → Command → ℕ → List EventDraft → Funnel × Option (List EventNode)
stage_events f cmd ordinal [] = (f, some [])
stage_events f cmd ordinal (draft ∷ drafts) = elim (increment f.next_cursor) [
  | none ↦ (f, none)
  | some cursor ↦
      let rest =
        stage_events (record f { next_cursor = cursor; mint_seq = f.mint_seq + 1 }) cmd
          (suc ordinal) drafts in
      (rest.0, cons_option (event_node f cmd ordinal draft) rest.1)
]

-- The first and the last cursor.
unfoldable pub cursor_range : List EventNode → Option (ℕ × ℕ)
cursor_range [] = none
cursor_range (e ∷ es) = some (e.cursor, last e.cursor es)
  where
    last : ℕ → List EventNode → ℕ
    last cursor [] = cursor
    last cursor (x ∷ xs) = last x.cursor xs

-- The graph with the events and the completed receipt.
unfoldable pub sealed : Graph → Command → Accepted → List EventNode → Graph
sealed g cmd a events =
    put_receipt (receipt_key cmd) (receipt cmd completed_status a.result (cursor_range events))
      (record g { events = g.events ++ events })

-- The staged graph, and the funnel whose counters have moved.
unfoldable pub stage : Funnel → Command → Accepted → Funnel × Option Graph
stage f cmd a = elim (apply_plan f.graph a.plan) [
  | none ↦ (f, none)
  | some g ↦
      let staged = stage_events f cmd 0 a.events in
      (staged.0, elim staged.1 [ none ↦ none | some events ↦ some (sealed g cmd a events) ])
]

unfoldable pub seal : Commit → Funnel × Option Graph → Value → Funnel × Submission
seal commit (f, none) result = (f, Submission.rejected ErrorKind.internal false)
seal Commit.committed (f, some g) result = (record f { graph = g }, Submission.completed result)
seal Commit.unknown (f, some g) result =
    (record f { poisoned = true }, Submission.rejected ErrorKind.outcome_unknown false)
seal Commit.failed (f, some g) result = (f, Submission.rejected ErrorKind.internal false)

-- The ids that validation minted stay taken.
abbrev pub after_mints : Accepted → Funnel → Funnel
after_mints a f = record f { mint_seq = f.mint_seq + a.mints }

unfoldable pub carry_out : Outside → Commit → Funnel → Command → Accepted → Funnel × Submission
carry_out o commit f cmd a =
    if over_limit o a
    then persist_rejection commit (after_mints a f) cmd ErrorKind.payload_too_large
    else seal commit (stage (after_mints a f) cmd a) a.result

unfoldable pub decide :
    Outside → Commit → Funnel → Command → Result Accepted Rejection → Funnel × Submission
decide o commit f cmd (ok accepted) = carry_out o commit f cmd accepted
decide o commit f cmd (err r) =
    if r.persist
    then persist_rejection commit f cmd r.kind
    else (f, Submission.rejected r.kind false)

unfoldable pub submit : Outside → Commit → Funnel → Command → Funnel × Submission
submit o commit f cmd =
    if f.poisoned
    then (f, Submission.rejected ErrorKind.unavailable false)
    else if not (address_is_valid cmd f.project_id)
    then (f, Submission.rejected ErrorKind.invalid_request false)
    else (elim (read (receipt_key cmd) f.graph.receipts) [
      | some stored ↦ (f, replay_stored cmd stored)
      | none ↦ decide o commit f cmd (validate f cmd (pre_read o.blake3 f.graph cmd))
    ])
