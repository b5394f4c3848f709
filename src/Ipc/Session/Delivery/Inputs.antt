-- ===== src/Ipc/Session/Delivery/Inputs.antt =====
-- No frame of the worker delivers a call id twice.
use yet_another_harness.Prelude.{ℕ, ◌≡◌, true, false, List, [], ◌∷◌, arith}
use yet_another_harness.Prelude.Map.{contains-insert}
use yet_another_harness.Ipc.Types.{
  CallId, HandleId, HandleKind, WireErrorKind, Outcome, StreamData, Call, WorkerMessage,
  CancelTarget,
}
use yet_another_harness.Ipc.Session.State.{
  Codec, HostSession, HostCall, WorkerCall, SessionEvent, is_closed,
}
use yet_another_harness.Ipc.Session.Refuse.{
  push_call_refusal, refuse_worker_call, refuse_worker_call_unspent,
}
use yet_another_harness.Ipc.Session.Reads.{serve_artifact_read}
use yet_another_harness.Ipc.Session.Calls.{on_worker_call, deliver_call}
use yet_another_harness.Ipc.Session.Replies.{
  on_late_reply, settle_reply, on_live_reply, on_worker_reply, on_worker_cancel,
}
use yet_another_harness.Ipc.Session.Streams.{
  on_stream_open, accept_item, on_stream_item, on_stream_data, on_credit,
}
use yet_another_harness.Ipc.Session.Release.{on_release, on_release_ack}
use yet_another_harness.Ipc.Session.Negotiate.{
  on_pre_negotiation, on_hello, accept_hello, refuse_hello,
}
use yet_another_harness.Ipc.Session.Machine.{
  dispatch, on_active, on_frame, feed, end_of_input, tick,
}
use yet_another_harness.Ipc.Session.Cases.{is_known_call, on_worker_call_cases, feed_keeps}
use yet_another_harness.Ipc.Session.Delivery.{
  Quiet, Quiet-refl, Quiet-IsOnce, IsOnce, deliveries-append,
}
use yet_another_harness.Ipc.Session.Delivery.Ends.{
  fatal-Quiet, drop_handle-Quiet, on_goodbye-Quiet, expire_deadlines-Quiet,
}

module _ (id : CallId) where
  refuse_worker_call-Quiet :
      (call_id : CallId) (kind : WireErrorKind) (s : HostSession)
      → Quiet id s (refuse_worker_call call_id kind s)
  unfolding refuse_worker_call push_call_refusal
  refuse_worker_call-Quiet call_id kind s = ground (
    arith,
    deliveries-append id s.events (SessionEvent.call_refused call_id kind ∷ []),
    contains-insert call_id id tt s.retired_worker_calls,
  )

  refuse_unspent-Quiet :
      (call_id : CallId) (s : HostSession) → Quiet id s (refuse_worker_call_unspent call_id s)
  unfolding refuse_worker_call_unspent push_call_refusal
  refuse_unspent-Quiet call_id s = grind (arith, deliveries-append id s.events)

  serve_artifact_read-Quiet :
      (c : Codec) (request : Call) (s : HostSession) → Quiet id s (serve_artifact_read c request s)
  unfolding serve_artifact_read
  serve_artifact_read-Quiet c request s = grind (
    arith,
    refuse_worker_call-Quiet,
    contains-insert request.call_id id tt s.retired_worker_calls,
  )

  -- An id that is delivered was not spent, and is spent by it.
  deliver_call-IsOnce :
      (request : Call) (s : HostSession)
      → is_known_call request.call_id s ≡ false
      → is_closed s.phase ≡ false
      → IsOnce id s
      → IsOnce id (deliver_call request s)
  unfolding deliver_call
  deliver_call-IsOnce request s fresh up once =
      grind
        (arith, deliveries-append id s.events, contains-insert {V = WorkerCall} request.call_id id)

  on_worker_call-IsOnce :
      (c : Codec) (request : Call) (s : HostSession)
      → is_closed s.phase ≡ false
      → IsOnce id s
      → IsOnce id (on_worker_call c request s)
  on_worker_call-IsOnce c request s up once =
      on_worker_call_cases (IsOnce id) c request s (Quiet-IsOnce id (fatal-Quiet id _ _ s) once)
        (Quiet-IsOnce id (refuse_unspent-Quiet request.call_id s) once)
        (λ room. Quiet-IsOnce id (refuse_worker_call-Quiet _ _ s) once)
        (λ room. Quiet-IsOnce id (refuse_worker_call-Quiet _ _ s) once)
        (λ room. Quiet-IsOnce id (serve_artifact_read-Quiet c request s) once)
        (λ fresh room below. deliver_call-IsOnce request s fresh up once)

  on_late_reply-Quiet : (outcome : Outcome) (s : HostSession) → Quiet id s (on_late_reply outcome s)
  unfolding on_late_reply
  on_late_reply-Quiet (Outcome.spilled offer) s = grind (arith, fatal-Quiet id)
  on_late_reply-Quiet _ s = Quiet-refl id s

  settle_reply-Quiet :
      (call_id : CallId) (outcome : Outcome) (s : HostSession)
      → Quiet id s (settle_reply call_id outcome s)
  unfolding settle_reply
  settle_reply-Quiet call_id outcome s =
      ground
        (arith, deliveries-append id s.events (SessionEvent.host_call_settled call_id outcome ∷ []))

  on_live_reply-Quiet :
      (c : Codec) (call_id : CallId) (outcome : Outcome) (s : HostSession)
      → Quiet id s (on_live_reply c call_id outcome s)
  unfolding on_live_reply
  on_live_reply-Quiet c call_id (Outcome.ok result) s =
      grind (arith, fatal-Quiet id, settle_reply-Quiet)
  on_live_reply-Quiet c call_id (Outcome.spilled offer) s =
      grind (arith, fatal-Quiet id, settle_reply-Quiet)
  on_live_reply-Quiet c call_id _ s = settle_reply-Quiet call_id _ s

  on_worker_reply-Quiet :
      (c : Codec) (call_id : CallId) (outcome : Outcome) (s : HostSession)
      → Quiet id s (on_worker_reply c call_id outcome s)
  unfolding on_worker_reply
  on_worker_reply-Quiet c call_id outcome s =
      grind (arith, fatal-Quiet id, on_live_reply-Quiet, on_late_reply-Quiet)

  on_worker_cancel-Quiet :
      (call_id : CallId) (target : CancelTarget) (s : HostSession)
      → Quiet id s (on_worker_cancel call_id target s)
  unfolding on_worker_cancel
  on_worker_cancel-Quiet call_id target s = grind (arith, deliveries-append id s.events)

  on_stream_open-Quiet :
      (call_id : CallId) (credit : ℕ) (s : HostSession)
      → Quiet id s (on_stream_open call_id credit s)
  unfolding on_stream_open
  on_stream_open-Quiet call_id credit s =
      grind (arith, fatal-Quiet id, deliveries-append id s.events)

  on_stream_item-Quiet :
      (item : StreamData) (state : HostCall) (s : HostSession)
      → Quiet id s (on_stream_item item state s)
  unfolding on_stream_item accept_item
  on_stream_item-Quiet item state s = grind (arith, fatal-Quiet id, deliveries-append id s.events)

  on_stream_data-Quiet :
      (c : Codec) (item : StreamData) (s : HostSession) → Quiet id s (on_stream_data c item s)
  unfolding on_stream_data
  on_stream_data-Quiet c item s = grind (arith, fatal-Quiet id, on_stream_item-Quiet)

  on_credit-Quiet :
      (call_id : CallId) (additional : ℕ) (s : HostSession)
      → Quiet id s (on_credit call_id additional s)
  unfolding on_credit
  on_credit-Quiet call_id additional s = grind (
    arith,
    fatal-Quiet id,
    deliveries-append id s.events,
    contains-insert {V = WorkerCall} call_id id,
  )

  on_release-Quiet :
      (handle : HandleId) (kind : HandleKind) (s : HostSession)
      → Quiet id s (on_release handle kind s)
  unfolding on_release
  on_release-Quiet handle kind s =
      grind (arith, fatal-Quiet id, drop_handle-Quiet id handle true s, deliveries-append id)

  on_release_ack-Quiet :
      (handle : HandleId) (kind : HandleKind) (s : HostSession)
      → Quiet id s (on_release_ack handle kind s)
  unfolding on_release_ack
  on_release_ack-Quiet handle kind s = grind (arith, fatal-Quiet id, deliveries-append id s.events)

  on_pre_negotiation-Quiet :
      (c : Codec) (message : WorkerMessage) (s : HostSession)
      → is_closed s.phase ≡ false
      → Quiet id s (on_pre_negotiation c message s)
  unfolding on_pre_negotiation on_hello accept_hello refuse_hello
  on_pre_negotiation-Quiet c message s up = grind (arith, deliveries-append id s.events)

  dispatch-IsOnce :
      (c : Codec) (message : WorkerMessage) (s : HostSession)
      → is_closed s.phase ≡ false
      → IsOnce id s
      → IsOnce id (dispatch c message s)
  unfolding dispatch
  dispatch-IsOnce c (WorkerMessage.hello h) s up = Quiet-IsOnce id (fatal-Quiet id _ _ s)
  dispatch-IsOnce c (WorkerMessage.call request) s up = on_worker_call-IsOnce c request s up
  dispatch-IsOnce c (WorkerMessage.reply call_id outcome) s up =
      Quiet-IsOnce id (on_worker_reply-Quiet c call_id outcome s)
  dispatch-IsOnce c (WorkerMessage.stream_open call_id credit) s up =
      Quiet-IsOnce id (on_stream_open-Quiet call_id credit s)
  dispatch-IsOnce c (WorkerMessage.stream_data item) s up =
      Quiet-IsOnce id (on_stream_data-Quiet c item s)
  dispatch-IsOnce c (WorkerMessage.credit call_id additional) s up =
      Quiet-IsOnce id (on_credit-Quiet call_id additional s)
  dispatch-IsOnce c (WorkerMessage.cancel call_id target) s up =
      Quiet-IsOnce id (on_worker_cancel-Quiet call_id target s)
  dispatch-IsOnce c (WorkerMessage.release handle kind) s up =
      Quiet-IsOnce id (on_release-Quiet handle kind s)
  dispatch-IsOnce c (WorkerMessage.release_ack handle kind) s up =
      Quiet-IsOnce id (on_release_ack-Quiet handle kind s)
  dispatch-IsOnce c (WorkerMessage.goodbye reason) s up =
      Quiet-IsOnce id (on_goodbye-Quiet id reason s)

  on_frame-IsOnce :
      (c : Codec) (raw : List ℕ) (s : HostSession) → IsOnce id s → IsOnce id (on_frame c raw s)
  unfolding on_frame on_active
  on_frame-IsOnce c raw s once =
      grind (arith, Quiet-IsOnce id, fatal-Quiet id, dispatch-IsOnce, on_pre_negotiation-Quiet)

  pub feed-IsOnce :
      (c : Codec) (bytes : List ℕ) (s : HostSession) → IsOnce id s → IsOnce id (feed c bytes s)
  feed-IsOnce c bytes =
      feed_keeps (IsOnce id) c (λ d s once. once)
        (λ kind detail s once. Quiet-IsOnce id (fatal-Quiet id kind detail s) once)
        (on_frame-IsOnce c) bytes

  pub end_of_input-Quiet : (s : HostSession) → Quiet id s (end_of_input s)
  unfolding end_of_input
  end_of_input-Quiet s = grind (arith, fatal-Quiet id)

  pub tick-Quiet : (now_ms : ℕ) (s : HostSession) → Quiet id s (tick now_ms s)
  unfolding tick
  tick-Quiet now_ms s = grind (arith, expire_deadlines-Quiet id)
