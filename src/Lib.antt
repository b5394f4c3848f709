-- ===== src/Lib.antt =====
-- A model of the harness, and the theorems on it.
--
-- The worker wire protocol (crates/yah-plugin-ipc) runs between the host and one worker process.
-- Bytes enter a frame decoder (`FrameDecoder`), whole frames go through admission into the host's
-- session (`HostSession`), a state machine with no IO: it answers with frames in an outbox and with
-- events for the embedding host, which in turn calls the session's own interface.
--
-- Which file models which part:
--   Prelude, Prelude/*      shared names, tests, lists, texts (lists of code points), results, and
--                           maps with `u64` keys in the order of the keys (BTreeMap, BTreeSet)
--   Ipc/Frame               crates/yah-plugin-ipc/src/frame.rs
--   Ipc/Types               crates/yah-plugin-ipc/src/types.rs and the bounds in lib.rs
--   Ipc/Session/State       session/mod.rs: `HostSession`, its events and helpers
--   Ipc/Session/Ijson       session/mod.rs: `value_within_ijson`
--   Ipc/Session/Settle      `fatal`, `on_goodbye`, `settle_host_call_locally`, `reclaim_handles`,
--                           `expire_deadlines`
--   Ipc/Session/Refuse, Reads, Handles, Release
--                           the refusals of calls.rs, and session/handles.rs
--   Ipc/Session/Calls, Replies
--                           session/calls.rs
--   Ipc/Session/Streams, Streaming
--                           session/streams.rs: the worker's frames, and the host's methods
--   Ipc/Session/Negotiate   session/negotiate.rs
--   Ipc/Session/Machine     session/mod.rs: `validate_bounds`, `on_frame`, `feed`, `end_of_input`,
--                           `tick`
--   Ipc/Session/Actions     one step of a session, and a history of steps
-- and the proofs: Ipc/Session/Settlement (terminals of host calls), Bounds (ceilings and budget),
-- Closing, Delivery (of worker calls), Draining (of the input), Refusals, Agreement
-- (negotiation) and Flow (streams), over the case principles of Ipc/Session/Cases.
--
-- The composition graph (crates/yah-compose) mounts components in a process, apart from the worker
-- protocol. A `ComponentInstance` is a small state machine, whose late callbacks are fenced off by
-- activation epochs:
--   Compose/Lifecycle       lifecycle.rs
--   Compose/Component       component.rs: `ComponentInstance` and its methods
--   Compose/Component/Steps calls of the methods, histories, and the transitions they may take
-- and the proofs: Compose/Component/Fence and Histories.
--
-- The kernel (crates/yah-kernel) commits every accepted command through one funnel. A `Command` is
-- claimed or replayed by its receipt, the fence state is read, the command is validated into a plan,
-- and the plan, its events and its receipt are committed together:
--   Kernel/Error, Ids       error.rs and ids.rs
--   Kernel/Effect           effect/mod.rs: the effect record and its settlement
--   Kernel/Cancel, Cancel/Scope
--                           cancel.rs: the frozen scope of a cancellation
--   Kernel/Funnel/Command, State
--                           funnel/command.rs, plan.rs, lifecycle.rs, and the state of mod.rs
--   Kernel/Funnel/EffectRules, CancelRules, RunRules, Resolution
--                           the rules of the same names, cancel_resolution.rs, and
--                           store/cancel_recovery.rs
--   Kernel/Funnel/PreRead   the reads of `submit`
--   Kernel/Funnel/Gates     the authorization classes, and `check_holder_fence` of store/mod.rs
--   Kernel/Funnel/Effects, Prepare, Cancel, Validate
--                           effects.rs, cancel.rs and validate.rs: the methods
--   Kernel/Funnel/Apply, Receipt, Replay, Submit
--                           the mutation phase of mod.rs, receipt.rs, replay.rs, and `submit`
-- and the proofs: Kernel/Ids/Roundtrip, Effect/Settlement, Cancel/Order, Freeze, Lookup and
-- Members, Funnel/Gates/Fence, Funnel/Effects/Settling and Authorizing,
-- Funnel/EffectRules/Omission, Funnel/Cancel/Deliveries, Funnel/Prepare/Again,
-- Funnel/CancelRules/Status, Funnel/Validate/Closing and Fencing, and Funnel/Submit/Retry, Journal
-- and Rejected.
--
-- How the kernel is read. The Selene graph is a table of typed rows for each label, under the keys
-- of the store's address book; a node handle is the key of its row, and a `record` column holds the
-- value that its JSON encodes, or `none` where it does not parse. What Selene answers to a commit is
-- an argument of `submit`. A rejection has its kind and whether it persists, and not its text. An id
-- that validation mints is counted in the plan it returns. Where the source would panic on a row that
-- an earlier check has seen, or when ids run out, the model rejects or goes on.
--
-- How the code is read. A method that mutates `self` returns the new record, with its `Result`
-- where it has one. A `u64` counter wraps, as in a release build, and a length cast by `as u32` is
-- reduced; a theorem that needs a counter not to wrap says so. A text is the list of its code
-- points. A panic is `none`.
--
-- Fuel. `drain` and `feed_loop` call `next_frame` until it returns no frame; each frame takes at
-- least five bytes off the buffer, so that they are given one more than its length. A binary search
-- of a scope is given the length of the slice, which halves; a decimal number has twenty digits.
--
-- What comes from outside is the record `Codec`: JSON decoding (serde_json, behind the strict
-- decoder) and encoding lengths, BLAKE3, and Debug formatting; and for the kernel the record
-- `Outside`: BLAKE3 and the lengths of encoded values. Nothing is assumed of them.
--
-- Not modelled: the allocation behind a buffer, the generated schemas, the scopes, services and
-- reconciliation of crates/yah-compose, the kernel's provider protocols, its store beyond the rows
-- that the funnel reads and writes, and all other crates.
pub mod Prelude
pub mod Ipc
pub mod Compose
pub mod Kernel
