-- ===== src/Kernel/Funnel/Submit/Journal.antt =====
-- The journal that `submit` of crates/yah-kernel/src/funnel/mod.rs appends to, and the rows that a
-- rejection leaves alone.
use yet_another_harness.Prelude.{
  ℕ, suc, ◌+◌, ◌≤◌, ◌≡◌, ap, ◌∙◌, Bool, true, ◌&&◌, some, List, [], ◌∷◌, ◌++◌, leb, arith, Result,
  ok, err,
}
use yet_another_harness.Kernel.Error.{ErrorKind, Rejection}
use yet_another_harness.Kernel.Funnel.Command.{Command}
use yet_another_harness.Kernel.Funnel.State.{
  Graph, Funnel, Plan, EventDraft, EventNode, Accepted, increment,
}
use yet_another_harness.Kernel.Funnel.PreRead.{pre_read}
use yet_another_harness.Kernel.Funnel.Validate.{validate}
use yet_another_harness.Kernel.Funnel.Apply.{
  apply_dispatch, apply_create_request, apply_record_delivery, apply_plan,
}
use yet_another_harness.Kernel.Funnel.Submit.{
  Outside, Commit, persist_rejection, stage_events, event_node, sealed, stage, seal, carry_out,
  decide, submit, after_mints,
}
use yet_another_harness.Kernel.Funnel.Submit.Retry.{stage_events_keeps}

-- The cursors ascend, from a bound up to below another.
unfoldable pub ascends : ℕ → List EventNode → ℕ → Bool
ascends low [] high = leb low high
ascends low (e ∷ es) high = leb low e.cursor && ascends (suc e.cursor) es high

-- The events stand in the order of their cursors, below the next cursor.
abbrev pub IsJournal : Funnel → Type 0
IsJournal f = ascends 0 f.graph.events f.next_cursor ≡ true

ascends-append :
    (low middle high : ℕ) (xs ys : List EventNode)
    → ascends low xs middle ≡ true
    → ascends middle ys high ≡ true
    → ascends low (xs ++ ys) high ≡ true
unfolding ascends
ascends-append low middle high [] ys h k = weaken low ys h k
  where
    weaken :
        (bound : ℕ) (zs : List EventNode)
        → leb bound middle ≡ true
        → ascends middle zs high ≡ true
        → ascends bound zs high ≡ true
    weaken bound [] e l = ground (arith, e, l)
    weaken bound (z ∷ zs) e l = ground (arith, e, l)
ascends-append low middle high (x ∷ xs) ys h k =
    ground (arith, h, k, ascends-append (suc x.cursor) middle high xs ys)

-- The staged events take the cursors from the next one on.
stage_events-ascends :
    (f : Funnel) (cmd : Command) (ordinal : ℕ) (drafts : List EventDraft) (events : List EventNode)
    → (stage_events f cmd ordinal drafts).1 ≡ some events
    → ascends f.next_cursor events (stage_events f cmd ordinal drafts).0.next_cursor ≡ true
unfolding stage_events ascends increment event_node
stage_events-ascends f cmd ordinal [] events h = ground (arith, h)
stage_events-ascends f cmd ordinal (draft ∷ drafts) events h =
    let rest =
      stage_events-ascends (record f { next_cursor = f.next_cursor + 1; mint_seq = f.mint_seq + 1 })
        cmd (suc ordinal) drafts in
    grind (arith, h, rest)

stage_events_cursor :
    (f : Funnel) (cmd : Command) (ordinal : ℕ) (drafts : List EventDraft)
    → f.next_cursor ≤ (stage_events f cmd ordinal drafts).0.next_cursor
unfolding stage_events increment
stage_events_cursor f cmd ordinal [] = omega arith
stage_events_cursor f cmd ordinal (draft ∷ drafts) = ground (
  arith,
  stage_events_cursor (record f { next_cursor = f.next_cursor + 1; mint_seq = f.mint_seq + 1 }) cmd
      (suc ordinal) drafts,
)

ascends_mono :
    (low high higher : ℕ) (es : List EventNode)
    → high ≤ higher
    → ascends low es high ≡ true
    → ascends low es higher ≡ true
unfolding ascends
ascends_mono low high higher [] h k = ground (arith, h, k)
ascends_mono low high higher (e ∷ es) h k =
    ground (arith, h, k, ascends_mono (suc e.cursor) high higher es)

-- A plan writes no event and no receipt.
pub apply_plan_journal :
    (g after : Graph) (plan : Plan)
    → apply_plan g plan ≡ some after
    → (after.events ≡ g.events) × (after.receipts ≡ g.receipts)
unfolding apply_plan apply_dispatch apply_create_request apply_record_delivery
apply_plan_journal g after plan h = ground (arith, h)

stage_events-IsJournal :
    (f : Funnel) (cmd : Command) (ordinal : ℕ) (drafts : List EventDraft)
    → IsJournal f
    → IsJournal (stage_events f cmd ordinal drafts).0
stage_events-IsJournal f cmd ordinal drafts j =
    let wider =
      ascends_mono 0 f.next_cursor (stage_events f cmd ordinal drafts).0.next_cursor f.graph.events
        (stage_events_cursor f cmd ordinal drafts) j in
    ground (arith, wider, stage_events_keeps f cmd ordinal drafts)

stage-IsJournal :
    (f : Funnel) (cmd : Command) (a : Accepted) → IsJournal f → IsJournal (stage f cmd a).0
unfolding stage
stage-IsJournal f cmd a j = ground (arith, j, stage_events-IsJournal f cmd 0 a.events j)

sealed-ascends :
    (f : Funnel) (g : Graph) (cmd : Command) (a : Accepted) (events : List EventNode)
    → IsJournal f
    → g.events ≡ f.graph.events
    → (stage_events f cmd 0 a.events).1 ≡ some events
    → ascends 0 (sealed g cmd a events).events (stage_events f cmd 0 a.events).0.next_cursor ≡ true
unfolding sealed
sealed-ascends f g cmd a events j same staged =
    ascends-append 0 f.next_cursor (stage_events f cmd 0 a.events).0.next_cursor g.events events
      (ap (λ es. ascends 0 es f.next_cursor) same ∙ j)
      (stage_events-ascends f cmd 0 a.events events staged)

stage-ascends :
    (f : Funnel) (cmd : Command) (a : Accepted) (g : Graph)
    → IsJournal f
    → (stage f cmd a).1 ≡ some g
    → ascends 0 g.events (stage f cmd a).0.next_cursor ≡ true
unfolding stage
stage-ascends f cmd a g j h = grind (arith, h, sealed-ascends, apply_plan_journal)

persist_rejection-IsJournal :
    (c : Commit) (f : Funnel) (cmd : Command) (kind : ErrorKind)
    → IsJournal f
    → IsJournal (persist_rejection c f cmd kind).0
unfolding persist_rejection
persist_rejection-IsJournal c f cmd kind j = ground (arith, j)

seal-IsJournal :
    (c : Commit) (f : Funnel) (cmd : Command) (a : Accepted)
    → IsJournal f
    → IsJournal (seal c (stage f cmd a) a.result).0
unfolding seal
seal-IsJournal c f cmd a j = grind (arith, j, stage-IsJournal f cmd a j, stage-ascends)

carry_out-IsJournal :
    (o : Outside) (c : Commit) (f : Funnel) (cmd : Command) (a : Accepted)
    → IsJournal f
    → IsJournal (carry_out o c f cmd a).0
unfolding carry_out
carry_out-IsJournal o c f cmd a j = ground (
  arith,
  seal-IsJournal c (after_mints a f) cmd a j,
  persist_rejection-IsJournal c (after_mints a f) cmd ErrorKind.payload_too_large j,
)

decide-IsJournal :
    (o : Outside) (c : Commit) (f : Funnel) (cmd : Command) (v : Result Accepted Rejection)
    → IsJournal f
    → IsJournal (decide o c f cmd v).0
unfolding decide
decide-IsJournal o c f cmd (ok a) j = carry_out-IsJournal o c f cmd a j
decide-IsJournal o c f cmd (err r) j =
    ground (arith, j, persist_rejection-IsJournal c f cmd r.kind j)

submit-IsJournal :
    (o : Outside) (c : Commit) (f : Funnel) (cmd : Command)
    → IsJournal f
    → IsJournal (submit o c f cmd).0
unfolding submit
submit-IsJournal o c f cmd j =
    ground (arith, j, decide-IsJournal o c f cmd (validate f cmd (pre_read o.blake3 f.graph cmd)) j)

-- A history of commands, each with what its commit answers.
unfoldable pub run : Outside → Funnel → List (Commit × Command) → Funnel
run o f [] = f
run o f ((commit, cmd) ∷ rest) = run o (submit o commit f cmd).0 rest

-- After any history of commands, whatever their commits answered, the events of the journal stand
-- in strictly ascending order of their cursors, all below the next cursor.
pub run-IsJournal :
    (o : Outside) (f : Funnel) (history : List (Commit × Command))
    → IsJournal f
    → IsJournal (run o f history)
unfolding run
run-IsJournal o f [] j = j
run-IsJournal o f ((commit, cmd) ∷ rest) j =
    run-IsJournal o (submit o commit f cmd).0 rest (submit-IsJournal o commit f cmd j)
