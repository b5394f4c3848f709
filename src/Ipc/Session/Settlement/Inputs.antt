-- ===== src/Ipc/Session/Settlement/Inputs.antt =====
-- Every input of a session keeps what is owed.
use yet_another_harness.Prelude.{ℕ, zero, suc, ◌≡◌, Bool, true, List, [], ◌∷◌, arith}
use yet_another_harness.Prelude.Map.{contains, contains-remove, contains-insert, contains-lookup}
use yet_another_harness.Ipc.Types.{
  CallId, HandleId, HandleKind, WireErrorKind, Outcome, StreamData, Call, WorkerMessage,
  CancelTarget,
}
use yet_another_harness.Ipc.Session.State.{Codec, HostSession, HostCall, SessionEvent}
use yet_another_harness.Ipc.Session.Refuse.{
  push_call_refusal, refuse_worker_call, refuse_worker_call_unspent,
}
use yet_another_harness.Ipc.Session.Reads.{serve_artifact_read}
use yet_another_harness.Ipc.Session.Calls.{on_worker_call, deliver_call}
use yet_another_harness.Ipc.Session.Replies.{
  on_late_reply, settle_reply, on_live_reply, on_worker_reply, on_worker_cancel,
}
use yet_another_harness.Ipc.Session.Streams.{
  on_stream_open, accept_item, on_stream_item, on_stream_data, on_credit,
}
use yet_another_harness.Ipc.Session.Release.{on_release, on_release_ack}
use yet_another_harness.Ipc.Session.Negotiate.{
  on_pre_negotiation, on_hello, accept_hello, refuse_hello,
}
use yet_another_harness.Ipc.Session.Machine.{
  dispatch, on_active, on_frame, feed_loop, feed, end_of_input, tick,
}
use yet_another_harness.Ipc.Session.Settlement.{Keeps, Keeps-refl, terminals-append}
use yet_another_harness.Ipc.Session.Settlement.Ends.{
  fatal-Keeps, drop_handle-Keeps, on_goodbye-Keeps, expire_deadlines-Keeps,
}

module _ (id : CallId) where
  push_call_refusal-Keeps :
      (call_id : CallId) (kind : WireErrorKind) (retryable : Bool) (s : HostSession)
      → Keeps id s (push_call_refusal call_id kind retryable s)
  unfolding push_call_refusal
  push_call_refusal-Keeps call_id kind retryable s =
      ground (arith, terminals-append id s.events (SessionEvent.call_refused call_id kind ∷ []))

  refuse_worker_call-Keeps :
      (call_id : CallId) (kind : WireErrorKind) (s : HostSession)
      → Keeps id s (refuse_worker_call call_id kind s)
  unfolding refuse_worker_call push_call_refusal
  refuse_worker_call-Keeps call_id kind s =
      ground (arith, terminals-append id s.events (SessionEvent.call_refused call_id kind ∷ []))

  serve_artifact_read-Keeps :
      (c : Codec) (request : Call) (s : HostSession) → Keeps id s (serve_artifact_read c request s)
  unfolding serve_artifact_read
  serve_artifact_read-Keeps c request s = grind (arith, refuse_worker_call-Keeps)

  on_worker_call-Keeps :
      (c : Codec) (request : Call) (s : HostSession) → Keeps id s (on_worker_call c request s)
  unfolding on_worker_call deliver_call refuse_worker_call_unspent
  on_worker_call-Keeps c request s = grind (
    arith,
    fatal-Keeps id,
    refuse_worker_call-Keeps,
    push_call_refusal-Keeps,
    serve_artifact_read-Keeps,
    terminals-append id s.events,
  )

  on_late_reply-Keeps : (outcome : Outcome) (s : HostSession) → Keeps id s (on_late_reply outcome s)
  unfolding on_late_reply
  on_late_reply-Keeps (Outcome.spilled offer) s = grind (arith, fatal-Keeps id)
  on_late_reply-Keeps _ s = Keeps-refl id s

  settle_reply-Keeps :
      (call_id : CallId) (outcome : Outcome) (s : HostSession)
      → contains call_id s.host_calls ≡ true
      → Keeps id s (settle_reply call_id outcome s)
  unfolding settle_reply
  settle_reply-Keeps call_id outcome s live = ground (
    arith,
    contains-remove call_id id s.host_calls,
    terminals-append id s.events (SessionEvent.host_call_settled call_id outcome ∷ []),
  )

  on_live_reply-Keeps :
      (c : Codec) (call_id : CallId) (outcome : Outcome) (s : HostSession)
      → contains call_id s.host_calls ≡ true
      → Keeps id s (on_live_reply c call_id outcome s)
  unfolding on_live_reply
  on_live_reply-Keeps c call_id (Outcome.ok result) s live =
      grind (arith, fatal-Keeps id, settle_reply-Keeps)
  on_live_reply-Keeps c call_id (Outcome.spilled offer) s live =
      grind (arith, fatal-Keeps id, settle_reply-Keeps)
  on_live_reply-Keeps c call_id _ s live = settle_reply-Keeps call_id _ s live

  on_worker_reply-Keeps :
      (c : Codec) (call_id : CallId) (outcome : Outcome) (s : HostSession)
      → Keeps id s (on_worker_reply c call_id outcome s)
  unfolding on_worker_reply
  on_worker_reply-Keeps c call_id outcome s =
      grind (arith, fatal-Keeps id, on_live_reply-Keeps, on_late_reply-Keeps)

  on_worker_cancel-Keeps :
      (call_id : CallId) (target : CancelTarget) (s : HostSession)
      → Keeps id s (on_worker_cancel call_id target s)
  unfolding on_worker_cancel
  on_worker_cancel-Keeps call_id target s = grind (arith, terminals-append id s.events)

  on_stream_open-Keeps :
      (call_id : CallId) (credit : ℕ) (s : HostSession)
      → Keeps id s (on_stream_open call_id credit s)
  unfolding on_stream_open
  on_stream_open-Keeps call_id credit s = grind (
    arith,
    fatal-Keeps id,
    terminals-append id s.events,
    contains-insert {V = HostCall} call_id id,
    contains-lookup call_id s.host_calls,
  )

  accept_item-Keeps :
      (item : StreamData) (credit_left : ℕ) (state : HostCall) (s : HostSession)
      → contains item.call_id s.host_calls ≡ true
      → Keeps id s (accept_item item credit_left state s)
  unfolding accept_item
  accept_item-Keeps item credit_left state s live =
      grind (arith, terminals-append id s.events, contains-insert {V = HostCall} item.call_id id)

  on_stream_item-Keeps :
      (item : StreamData) (state : HostCall) (s : HostSession)
      → contains item.call_id s.host_calls ≡ true
      → Keeps id s (on_stream_item item state s)
  unfolding on_stream_item
  on_stream_item-Keeps item state s live = grind (arith, fatal-Keeps id, accept_item-Keeps)

  on_stream_data-Keeps :
      (c : Codec) (item : StreamData) (s : HostSession) → Keeps id s (on_stream_data c item s)
  unfolding on_stream_data
  on_stream_data-Keeps c item s =
      grind (arith, fatal-Keeps id, on_stream_item-Keeps, contains-lookup item.call_id s.host_calls)

  on_credit-Keeps :
      (call_id : CallId) (additional : ℕ) (s : HostSession)
      → Keeps id s (on_credit call_id additional s)
  unfolding on_credit
  on_credit-Keeps call_id additional s = grind (arith, fatal-Keeps id, terminals-append id s.events)

  on_release-Keeps :
      (handle : HandleId) (kind : HandleKind) (s : HostSession)
      → Keeps id s (on_release handle kind s)
  unfolding on_release
  on_release-Keeps handle kind s =
      grind (arith, fatal-Keeps id, drop_handle-Keeps id handle true s, terminals-append id)

  on_release_ack-Keeps :
      (handle : HandleId) (kind : HandleKind) (s : HostSession)
      → Keeps id s (on_release_ack handle kind s)
  unfolding on_release_ack
  on_release_ack-Keeps handle kind s = grind (arith, fatal-Keeps id, terminals-append id s.events)

  dispatch-Keeps :
      (c : Codec) (message : WorkerMessage) (s : HostSession) → Keeps id s (dispatch c message s)
  unfolding dispatch
  dispatch-Keeps c (WorkerMessage.hello h) s = fatal-Keeps id _ _ s
  dispatch-Keeps c (WorkerMessage.call request) s = on_worker_call-Keeps c request s
  dispatch-Keeps c (WorkerMessage.reply call_id outcome) s =
      on_worker_reply-Keeps c call_id outcome s
  dispatch-Keeps c (WorkerMessage.stream_open call_id credit) s =
      on_stream_open-Keeps call_id credit s
  dispatch-Keeps c (WorkerMessage.stream_data item) s = on_stream_data-Keeps c item s
  dispatch-Keeps c (WorkerMessage.credit call_id additional) s =
      on_credit-Keeps call_id additional s
  dispatch-Keeps c (WorkerMessage.cancel call_id target) s = on_worker_cancel-Keeps call_id target s
  dispatch-Keeps c (WorkerMessage.release handle kind) s = on_release-Keeps handle kind s
  dispatch-Keeps c (WorkerMessage.release_ack handle kind) s = on_release_ack-Keeps handle kind s
  dispatch-Keeps c (WorkerMessage.goodbye reason) s = on_goodbye-Keeps id reason s

  on_pre_negotiation-Keeps :
      (c : Codec) (message : WorkerMessage) (s : HostSession)
      → Keeps id s (on_pre_negotiation c message s)
  unfolding on_pre_negotiation on_hello accept_hello refuse_hello
  on_pre_negotiation-Keeps c message s = grind (arith, terminals-append id s.events)

  on_frame-Keeps : (c : Codec) (raw : List ℕ) (s : HostSession) → Keeps id s (on_frame c raw s)
  unfolding on_frame on_active
  on_frame-Keeps c raw s = grind (arith, fatal-Keeps id, dispatch-Keeps, on_pre_negotiation-Keeps)

  feed_loop-Keeps : (c : Codec) (fuel : ℕ) (s : HostSession) → Keeps id s (feed_loop c fuel s)
  unfolding feed_loop
  feed_loop-Keeps c zero s = Keeps-refl id s
  feed_loop-Keeps c (suc fuel) s =
      grind (arith, fatal-Keeps id, on_frame-Keeps, feed_loop-Keeps c fuel)

  -- Whatever bytes the worker sends, no terminal of a host call is lost, doubled or made up: the
  -- call's terminals among the events, and one more if it is in flight, are as many as before. Nor
  -- do the next host call id and the configuration change.
  pub feed-Keeps : (c : Codec) (bytes : List ℕ) (s : HostSession) → Keeps id s (feed c bytes s)
  unfolding feed
  feed-Keeps c bytes s = grind (arith, feed_loop-Keeps)

  pub end_of_input-Keeps : (s : HostSession) → Keeps id s (end_of_input s)
  unfolding end_of_input
  end_of_input-Keeps s = grind (arith, fatal-Keeps id)

  pub tick-Keeps : (now_ms : ℕ) (s : HostSession) → Keeps id s (tick now_ms s)
  unfolding tick
  tick-Keeps now_ms s = grind (arith, expire_deadlines-Keeps id)
