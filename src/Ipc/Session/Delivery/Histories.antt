-- ===== src/Ipc/Session/Delivery/Histories.antt =====
-- A call id of the worker is delivered once at most over any history of a session.
use yet_another_harness.Prelude.{ℕ, ◌≤◌, Bool, List, [], ◌∷◌, Option, arith, Text}
use yet_another_harness.Prelude.Map.{contains-insert, contains-remove}
use yet_another_harness.Ipc.Types.{
  CallId, HandleId, HandleKind, CancelTarget, StreamClass, Outcome, Value,
}
use yet_another_harness.Ipc.Session.State.{Codec, HostSession, WorkerCall, SessionConfig, new}
use yet_another_harness.Ipc.Session.Handles.{mint_capability_handle, offer_artifact}
use yet_another_harness.Ipc.Session.Calls.{call_worker, finish_reply, reply_to_worker}
use yet_another_harness.Ipc.Session.Replies.{cancel}
use yet_another_harness.Ipc.Session.Streaming.{
  grant_credit, note_lossy_drops, open_stream, stream_item,
}
use yet_another_harness.Ipc.Session.Release.{ask_release, release_worker_handle}
use yet_another_harness.Ipc.Session.Actions.{Action, act, run}
use yet_another_harness.Ipc.Session.Cases.{reply_to_worker_cases}
use yet_another_harness.Ipc.Session.Delivery.{Quiet, Quiet-refl, Quiet-IsOnce, IsOnce, deliveries}
use yet_another_harness.Ipc.Session.Delivery.Ends.{reclaim_handles-Quiet}
use yet_another_harness.Ipc.Session.Delivery.Inputs.{feed-IsOnce, end_of_input-Quiet, tick-Quiet}

module _ (id : CallId) where
  call_worker-Quiet :
      (c : Codec) (method : Text) (payload : Value) (deadline_ms : Option ℕ) (stream : Bool)
      (s : HostSession)
      → Quiet id s (call_worker c method payload deadline_ms stream s).0
  unfolding call_worker
  call_worker-Quiet c method payload deadline_ms stream s = ground arith

  cancel-Quiet :
      (call_id : CallId) (target : CancelTarget) (s : HostSession)
      → Quiet id s (cancel call_id target s).0
  unfolding cancel
  cancel-Quiet call_id target s = ground arith

  grant_credit-Quiet :
      (call_id : CallId) (additional : ℕ) (s : HostSession)
      → Quiet id s (grant_credit call_id additional s).0
  unfolding grant_credit
  grant_credit-Quiet call_id additional s = ground arith

  -- A reply takes its call off the table, and retires its id.
  finish_reply-Quiet :
      (call_id : CallId) (state : WorkerCall) (outcome : Outcome) (s : HostSession)
      → Quiet id s (finish_reply call_id state outcome s)
  unfolding finish_reply
  finish_reply-Quiet call_id state outcome s = grind (
    arith,
    reclaim_handles-Quiet id,
    contains-insert call_id id tt s.retired_worker_calls,
    contains-remove call_id id s.worker_calls,
  )

  reply_to_worker-Quiet :
      (c : Codec) (call_id : CallId) (outcome : Outcome) (s : HostSession)
      → Quiet id s (reply_to_worker c call_id outcome s).0
  reply_to_worker-Quiet c call_id outcome s =
      reply_to_worker_cases (Quiet id s) c call_id outcome s (Quiet-refl id s)
        λ state sent live. finish_reply-Quiet call_id state sent s

  mint-Quiet :
      (minted_for : CallId) (s : HostSession) → Quiet id s (mint_capability_handle minted_for s).0
  unfolding mint_capability_handle
  mint-Quiet minted_for s = grind (arith, contains-insert {V = WorkerCall})

  offer-Quiet :
      (c : Codec) (minted_for : CallId) (bytes : List ℕ) (media_type : Text) (s : HostSession)
      → Quiet id s (offer_artifact c minted_for bytes media_type s).0
  unfolding offer_artifact
  offer-Quiet c minted_for bytes media_type s = grind (arith, contains-insert {V = WorkerCall})

  note_lossy_drops-Quiet :
      (call_id : CallId) (dropped : ℕ) (s : HostSession)
      → Quiet id s (note_lossy_drops call_id dropped s).0
  unfolding note_lossy_drops
  note_lossy_drops-Quiet call_id dropped s = grind (arith, contains-insert {V = WorkerCall})

  open_stream-Quiet :
      (call_id : CallId) (credit : ℕ) (s : HostSession)
      → Quiet id s (open_stream call_id credit s).0
  unfolding open_stream
  open_stream-Quiet call_id credit s = grind (arith, contains-insert {V = WorkerCall})

  stream_item-Quiet :
      (c : Codec) (call_id : CallId) (class : StreamClass) (more : Bool) (payload : Value)
      (s : HostSession)
      → Quiet id s (stream_item c call_id class more payload s).0
  unfolding stream_item
  stream_item-Quiet c call_id class more payload s = grind (arith, contains-insert {V = WorkerCall})

  release_worker_handle-Quiet :
      (handle : HandleId) (kind : HandleKind) (s : HostSession)
      → Quiet id s (release_worker_handle handle kind s).0
  unfolding release_worker_handle ask_release
  release_worker_handle-Quiet handle kind s = ground arith

  act-IsOnce :
      (c : Codec) (action : Action) (s : HostSession) → IsOnce id s → IsOnce id (act c action s)
  unfolding act
  act-IsOnce c (Action.feed bytes) s = feed-IsOnce id c bytes s
  act-IsOnce c Action.end_of_input s = Quiet-IsOnce id (end_of_input-Quiet id s)
  act-IsOnce c (Action.tick now_ms) s = Quiet-IsOnce id (tick-Quiet id now_ms s)
  act-IsOnce c (Action.call_worker method payload deadline_ms stream) s =
      Quiet-IsOnce id (call_worker-Quiet c method payload deadline_ms stream s)
  act-IsOnce c (Action.cancel call_id target) s = Quiet-IsOnce id (cancel-Quiet call_id target s)
  act-IsOnce c (Action.reply_to_worker call_id outcome) s =
      Quiet-IsOnce id (reply_to_worker-Quiet c call_id outcome s)
  act-IsOnce c (Action.mint_capability_handle minted_for) s =
      Quiet-IsOnce id (mint-Quiet minted_for s)
  act-IsOnce c (Action.offer_artifact minted_for bytes media_type) s =
      Quiet-IsOnce id (offer-Quiet c minted_for bytes media_type s)
  act-IsOnce c (Action.release_worker_handle handle kind) s =
      Quiet-IsOnce id (release_worker_handle-Quiet handle kind s)
  act-IsOnce c (Action.grant_credit call_id additional) s =
      Quiet-IsOnce id (grant_credit-Quiet call_id additional s)
  act-IsOnce c (Action.note_lossy_drops call_id dropped) s =
      Quiet-IsOnce id (note_lossy_drops-Quiet call_id dropped s)
  act-IsOnce c (Action.open_stream call_id credit) s =
      Quiet-IsOnce id (open_stream-Quiet call_id credit s)
  act-IsOnce c (Action.stream_item call_id class more payload) s =
      Quiet-IsOnce id (stream_item-Quiet c call_id class more payload s)

  run-IsOnce :
      (c : Codec) (actions : List Action) (s : HostSession)
      → IsOnce id s
      → IsOnce id (run c actions s)
  unfolding run
  run-IsOnce c [] s once = once
  run-IsOnce c (action ∷ actions) s once =
      run-IsOnce c actions (act c action s) (act-IsOnce c action s once)

-- Over every history of a new session, whatever the worker sends: the events deliver a call id of
-- the worker to the embedding host once at most.
pub run-deliveries :
    (c : Codec) (config : SessionConfig) (actions : List Action) (id : CallId)
    → deliveries id (run c actions (new config)).events ≤ 1
unfolding new
run-deliveries c config actions id =
    let once = run-IsOnce id c actions (new config) (omega arith) in ground arith
