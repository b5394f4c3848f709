-- ===== src/Kernel/Funnel/Submit/Retry.antt =====
-- What a retry of a command gets from `submit` of crates/yah-kernel/src/funnel/mod.rs.
use yet_another_harness.Prelude.{
  ℕ, suc, ◌+◌, ◌≡◌, ◌≢◌, refl, ◌∙◌, true, false, Option, none, some, List, [], ◌∷◌, ◌++◌, Text,
  text, text_eq, text_eq_refl, if◌then◌else◌, Result, ok, err, arith,
}
use yet_another_harness.Prelude.Table.{read, read-write}
use yet_another_harness.Ipc.Types.{Value}
use yet_another_harness.Kernel.Error.{ErrorKind, Rejection}
use yet_another_harness.Kernel.Funnel.Command.{Command, Submission}
use yet_another_harness.Kernel.Funnel.State.{
  Graph, Funnel, ReceiptNode, EventDraft, EventNode, Accepted, increment,
}
use yet_another_harness.Kernel.Funnel.PreRead.{pre_read}
use yet_another_harness.Kernel.Funnel.Validate.{validate}
use yet_another_harness.Kernel.Funnel.Receipt.{address_is_valid, receipt_key, receipt}
use yet_another_harness.Kernel.Funnel.Replay.{
  replay_stored, stored_answer, stored_kind, error_from_wire, error_result, field, completed_status,
}
use yet_another_harness.Kernel.Funnel.Submit.{
  Outside, Commit, persist_rejection, put_receipt, stage_events, cursor_range, sealed, stage, seal,
  carry_out, decide, submit,
}

stored_kind-error_result : (kind : ErrorKind) → stored_kind (error_result kind) ≡ kind
unfolding stored_kind error_from_wire field text
stored_kind-error_result kind = elim kind as (λ k. stored_kind (error_result k) ≡ k) [
  | ErrorKind.invalid_request ↦ refl
  | ErrorKind.unauthenticated ↦ refl
  | ErrorKind.unauthorized ↦ refl
  | ErrorKind.not_found ↦ refl
  | ErrorKind.version_conflict ↦ refl
  | ErrorKind.idempotency_conflict ↦ refl
  | ErrorKind.fence_rejected ↦ refl
  | ErrorKind.journal_immutable ↦ refl
  | ErrorKind.policy_denied ↦ refl
  | ErrorKind.capability_unsupported ↦ refl
  | ErrorKind.approval_required ↦ refl
  | ErrorKind.resource_exhausted ↦ refl
  | ErrorKind.payload_too_large ↦ refl
  | ErrorKind.cursor_expired ↦ refl
  | ErrorKind.slow_consumer ↦ refl
  | ErrorKind.cancelled ↦ refl
  | ErrorKind.deadline_exceeded ↦ refl
  | ErrorKind.unavailable ↦ refl
  | ErrorKind.outcome_unknown ↦ refl
  | ErrorKind.internal ↦ refl
]

-- A receipt answers its own command.
replay_receipt :
    (cmd : Command) (status : Text) (result : Value) (cursors : Option (ℕ × ℕ))
    → replay_stored cmd (receipt cmd status result cursors) ≡ (
        if text_eq status completed_status
        then Submission.replayed result
        else Submission.rejected (stored_kind result) true)
unfolding replay_stored receipt stored_answer
replay_receipt cmd status result cursors = rw (
  text_eq_refl cmd.request_digest,
  text_eq_refl (receipt cmd status result cursors).command_type,
  text_eq_refl (receipt cmd status result cursors).principal_kind,
  text_eq_refl cmd.principal_id,
)

rejected_differs : text_eq (text "rejected") completed_status ≡ false
unfolding text
rejected_differs = refl

-- What a graph answers to a command that has a receipt in it.
unfoldable pub answer : Command → Graph → Option Submission
answer cmd g = elim (read (receipt_key cmd) g.receipts) [
  | none ↦ none
  | some stored ↦ some (replay_stored cmd stored)
]

-- A command that is answered gets the answer again, and changes nothing.
submit_answered :
    (o : Outside) (c : Commit) (f : Funnel) (cmd : Command) (s : Submission)
    → f.poisoned ≡ false
    → address_is_valid cmd f.project_id ≡ true
    → answer cmd f.graph ≡ some s
    → submit o c f cmd ≡ (f, s)
unfolding submit answer
submit_answered o c f cmd s h k l = ground (arith, h, k, l)

answer-put_receipt :
    (cmd : Command) (g : Graph) (status : Text) (result : Value) (cursors : Option (ℕ × ℕ))
    → answer cmd (put_receipt (receipt_key cmd) (receipt cmd status result cursors) g)
      ≡ some (
          if text_eq status completed_status
          then Submission.replayed result
          else Submission.rejected (stored_kind result) true)
unfolding answer
answer-put_receipt cmd g status result cursors =
    let row = receipt cmd status result cursors in
    ground (
      arith,
      read-write (receipt_key cmd) (receipt_key cmd) row g.receipts,
      text_eq_refl (receipt_key cmd),
      replay_receipt cmd status result cursors,
    )

answer-completed :
    (cmd : Command) (g : Graph) (result : Value) (cursors : Option (ℕ × ℕ))
    → answer cmd (put_receipt (receipt_key cmd) (receipt cmd completed_status result cursors) g)
      ≡ some (Submission.replayed result)
answer-completed cmd g result cursors =
    answer-put_receipt cmd g completed_status result cursors ∙ rw (text_eq_refl completed_status)

answer-rejected :
    (cmd : Command) (g : Graph) (kind : ErrorKind)
    → answer cmd
        (put_receipt (receipt_key cmd) (receipt cmd (text "rejected") (error_result kind) none) g)
      ≡ some (Submission.rejected kind true)
answer-rejected cmd g kind =
    answer-put_receipt cmd g (text "rejected") (error_result kind) none
    ∙ rw (rejected_differs, stored_kind-error_result kind)

-- The counters move, and nothing else.
pub stage_events_keeps :
    (f : Funnel) (cmd : Command) (ordinal : ℕ) (drafts : List EventDraft)
    → ((stage_events f cmd ordinal drafts).0.poisoned ≡ f.poisoned)
      × ((stage_events f cmd ordinal drafts).0.project_id ≡ f.project_id)
      × ((stage_events f cmd ordinal drafts).0.graph ≡ f.graph)
unfolding stage_events increment
stage_events_keeps f cmd ordinal [] = (refl, refl, refl)
stage_events_keeps f cmd ordinal (draft ∷ drafts) =
    let rest =
      stage_events_keeps (record f { next_cursor = f.next_cursor + 1; mint_seq = f.mint_seq + 1 })
        cmd (suc ordinal) drafts in
    ground (arith, rest)

answer-sealed :
    (g : Graph) (cmd : Command) (a : Accepted) (events : List EventNode)
    → answer cmd (sealed g cmd a events) ≡ some (Submission.replayed a.result)
unfolding sealed
answer-sealed g cmd a events =
    answer-completed cmd (record g { events = g.events ++ events }) a.result (cursor_range events)

-- A staged graph answers its command.
answer-stage :
    (f : Funnel) (cmd : Command) (a : Accepted) (g : Graph)
    → (stage f cmd a).1 ≡ some g
    → answer cmd g ≡ some (Submission.replayed a.result)
unfolding stage
answer-stage f cmd a g h = grind (arith, h, answer-sealed)

pub stage_keeps :
    (f : Funnel) (cmd : Command) (a : Accepted)
    → ((stage f cmd a).0.poisoned ≡ f.poisoned)
      × ((stage f cmd a).0.project_id ≡ f.project_id)
      × ((stage f cmd a).0.graph ≡ f.graph)
unfolding stage
stage_keeps f cmd a = ground (arith, stage_events_keeps f cmd 0 a.events)

-- What a completed command leaves.
abbrev Answers : Command → Funnel → Funnel → Submission → Type 0
Answers cmd f g s =
    (answer cmd g.graph ≡ some s) × (g.poisoned ≡ f.poisoned) × (g.project_id ≡ f.project_id)

carry_out_answer :
    (o : Outside) (c : Commit) (f : Funnel) (cmd : Command) (a : Accepted) (result : Value)
    → (carry_out o c f cmd a).1 ≡ Submission.completed result
    → Answers cmd f (carry_out o c f cmd a).0 (Submission.replayed result)
unfolding carry_out persist_rejection seal
carry_out_answer o c f cmd a result h = grind (arith, h, answer-stage, stage_keeps)

decide_answer :
    (o : Outside) (c : Commit) (f : Funnel) (cmd : Command) (v : Result Accepted Rejection)
    (result : Value)
    → (decide o c f cmd v).1 ≡ Submission.completed result
    → Answers cmd f (decide o c f cmd v).0 (Submission.replayed result)
unfolding decide persist_rejection
decide_answer o c f cmd (ok a) result h = carry_out_answer o c f cmd a result h
decide_answer o c f cmd (err r) result h = absurd (uncompleted h)
  where
    uncompleted : (decide o c f cmd (err r)).1 ≡ Submission.completed result → ⊥
    uncompleted e = ground (arith, e)

replay_uncompleted :
    (cmd : Command) (stored : ReceiptNode) (result : Value)
    → replay_stored cmd stored ≢ Submission.completed result
unfolding replay_stored stored_answer
replay_uncompleted cmd stored result = ground arith

completed_leaves :
    (o : Outside) (c : Commit) (f : Funnel) (cmd : Command) (result : Value)
    → (submit o c f cmd).1 ≡ Submission.completed result
    → (f.poisoned ≡ false)
      × (address_is_valid cmd f.project_id ≡ true)
      × Answers cmd f (submit o c f cmd).0 (Submission.replayed result)
unfolding submit
completed_leaves o c f cmd result h = grind (
  arith,
  h,
  decide_answer o c f cmd (validate f cmd (pre_read o.blake3 f.graph cmd)) result,
  replay_uncompleted,
)

-- A command that was completed is answered again with the same result, whatever the commit would
-- do, and the retry changes nothing.
pub submit-completed :
    (o : Outside) (c : Commit) (f : Funnel) (cmd : Command) (result : Value)
    → (submit o c f cmd).1 ≡ Submission.completed result
    → (again : Outside) (later : Commit)
    → submit again later (submit o c f cmd).0 cmd
      ≡ ((submit o c f cmd).0, Submission.replayed result)
submit-completed o c f cmd result h again later =
    let left = completed_leaves o c f cmd result h in
    submit_answered again later (submit o c f cmd).0 cmd (Submission.replayed result)
      (ground (arith, left)) (ground (arith, left)) (ground (arith, left))

durable_leaves :
    (o : Outside) (f : Funnel) (cmd : Command) (r : Rejection)
    → f.poisoned ≡ false
    → address_is_valid cmd f.project_id ≡ true
    → read (receipt_key cmd) f.graph.receipts ≡ none
    → validate f cmd (pre_read o.blake3 f.graph cmd) ≡ err r
    → r.persist ≡ true
    → ((submit o Commit.committed f cmd).1 ≡ Submission.rejected r.kind false)
      × Answers cmd f (submit o Commit.committed f cmd).0 (Submission.rejected r.kind true)
unfolding submit decide persist_rejection
durable_leaves o f cmd r clear valid fresh refused durable =
    ground (arith, clear, valid, fresh, refused, durable, answer-rejected cmd f.graph r.kind)

-- A durable rejection leaves a receipt: the retry is rejected with the same kind, as a replay, and
-- changes nothing.
pub submit-durable :
    (o : Outside) (f : Funnel) (cmd : Command) (r : Rejection)
    → f.poisoned ≡ false
    → address_is_valid cmd f.project_id ≡ true
    → read (receipt_key cmd) f.graph.receipts ≡ none
    → validate f cmd (pre_read o.blake3 f.graph cmd) ≡ err r
    → r.persist ≡ true
    → ((submit o Commit.committed f cmd).1 ≡ Submission.rejected r.kind false)
      × ((again : Outside) (later : Commit)
          → submit again later (submit o Commit.committed f cmd).0 cmd
            ≡ ((submit o Commit.committed f cmd).0, Submission.rejected r.kind true))
submit-durable o f cmd r clear valid fresh refused durable =
    let left = durable_leaves o f cmd r clear valid fresh refused durable in
    (
      left.0,
      λ again later.
          submit_answered again later (submit o Commit.committed f cmd).0 cmd
            (Submission.rejected r.kind true) (ground (arith, left, clear))
            (ground (arith, left, valid)) (ground (arith, left)),
    )
