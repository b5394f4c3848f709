-- ===== src/Kernel/Funnel/Submit/Rejected.antt =====
-- What a command that `submit` of crates/yah-kernel/src/funnel/mod.rs does not complete leaves.
use yet_another_harness.Prelude.{
  ◌≡◌, ◌≢◌, refl, Bool, false, none, Text, text, text_eq, arith, Result, ok, err,
}
use yet_another_harness.Prelude.Table.{read, read-write}
use yet_another_harness.Kernel.Error.{ErrorKind, Rejection}
use yet_another_harness.Kernel.Funnel.Command.{Command, Submission}
use yet_another_harness.Kernel.Funnel.State.{Graph, Funnel, ReceiptNode, Accepted}
use yet_another_harness.Kernel.Funnel.PreRead.{pre_read}
use yet_another_harness.Kernel.Funnel.Validate.{validate}
use yet_another_harness.Kernel.Funnel.Receipt.{receipt_key, receipt}
use yet_another_harness.Kernel.Funnel.Replay.{error_result}
use yet_another_harness.Kernel.Funnel.Submit.{
  Outside, Commit, persist_rejection, stage, seal, carry_out, decide, submit, after_mints,
}
use yet_another_harness.Kernel.Funnel.Submit.Retry.{stage_keeps}

-- The same rows, but for the receipts: of them, the one under the given key.
abbrev pub KeepsBut : Text → Graph → Graph → Type 0
KeepsBut other before after =
    (after ≡ record before { receipts = after.receipts })
    × (read other after.receipts ≡ read other before.receipts)

-- Of a rejected answer.
abbrev Rejects : Text → Graph → Funnel × Submission → Type 0
Rejects other before answer =
    (kind : ErrorKind) (replayed : Bool)
    → answer.1 ≡ Submission.rejected kind replayed
    → KeepsBut other before answer.0.graph

persist_rejection-Rejects :
    (c : Commit) (f : Funnel) (cmd : Command) (kind : ErrorKind) (other : Text)
    → text_eq (receipt_key cmd) other ≡ false
    → Rejects other f.graph (persist_rejection c f cmd kind)
unfolding persist_rejection
persist_rejection-Rejects Commit.committed f cmd kind other differs k r h =
    (refl, rw (read-write (receipt_key cmd) other row f.graph.receipts, differs))
  where
    row : ReceiptNode
    row = receipt cmd (text "rejected") (error_result kind) none
persist_rejection-Rejects Commit.unknown f cmd kind other differs k r h = (refl, refl)
persist_rejection-Rejects Commit.failed f cmd kind other differs k r h = (refl, refl)

seal-Rejects :
    (c : Commit) (f : Funnel) (cmd : Command) (a : Accepted) (other : Text)
    → Rejects other f.graph (seal c (stage f cmd a) a.result)
unfolding seal
seal-Rejects c f cmd a other k r h = ground (arith, h, stage_keeps f cmd a)

decide-Rejects :
    (o : Outside) (c : Commit) (f : Funnel) (cmd : Command) (v : Result Accepted Rejection)
    (other : Text)
    → text_eq (receipt_key cmd) other ≡ false
    → Rejects other f.graph (decide o c f cmd v)
unfolding decide carry_out
decide-Rejects o c f cmd (ok a) other differs k r h = ground (
  arith,
  h,
  seal-Rejects c (after_mints a f) cmd a other k r,
  persist_rejection-Rejects c (after_mints a f) cmd ErrorKind.payload_too_large other differs k r,
)
decide-Rejects o c f cmd (err e) other differs k r h =
    ground (arith, h, persist_rejection-Rejects c f cmd e.kind other differs k r)

-- A command that is answered by a rejection, when the store is not uncertain of its commit, leaves
-- every row but the command's own receipt, and the journal, as they were: the receipts of the other
-- commands are read as before.
pub submit-rejected :
    (o : Outside) (c : Commit) (f : Funnel) (cmd : Command) (kind : ErrorKind) (replayed : Bool)
    (other : Text)
    → c ≢ Commit.unknown
    → text_eq (receipt_key cmd) other ≡ false
    → (submit o c f cmd).1 ≡ Submission.rejected kind replayed
    → KeepsBut other f.graph (submit o c f cmd).0.graph
unfolding submit
submit-rejected o c f cmd kind replayed other known differs h = ground (
  arith,
  h,
  decide-Rejects o c f cmd (validate f cmd (pre_read o.blake3 f.graph cmd)) other differs kind
      replayed,
)
