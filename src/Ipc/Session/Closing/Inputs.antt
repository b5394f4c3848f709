-- ===== src/Ipc/Session/Closing/Inputs.antt =====
-- Every frame of the worker leaves a session active, or empty.
use yet_another_harness.Prelude.{ℕ, ◌≡◌, true, List, arith, Text, text}
use yet_another_harness.Ipc.Types.{
  CallId, HandleId, HandleKind, WireErrorKind, Outcome, StreamData, Call, WorkerMessage,
  CancelTarget,
}
use yet_another_harness.Ipc.Session.State.{Codec, HostSession, HostCall, is_active}
use yet_another_harness.Ipc.Session.Settle.{fatal}
use yet_another_harness.Ipc.Session.Refuse.{
  push_call_refusal, refuse_worker_call, refuse_worker_call_unspent,
}
use yet_another_harness.Ipc.Session.Reads.{serve_artifact_read}
use yet_another_harness.Ipc.Session.Calls.{on_worker_call, deliver_call}
use yet_another_harness.Ipc.Session.Replies.{
  on_late_reply, settle_reply, on_live_reply, on_worker_reply, on_worker_cancel, remember_offer,
}
use yet_another_harness.Ipc.Session.Streams.{
  on_stream_open, accept_item, on_stream_item, on_stream_data, on_credit,
}
use yet_another_harness.Ipc.Session.Release.{on_release, on_release_ack}
use yet_another_harness.Ipc.Session.Negotiate.{
  on_pre_negotiation, on_hello, accept_hello, refuse_hello,
}
use yet_another_harness.Ipc.Session.Machine.{dispatch, on_active, on_frame}
use yet_another_harness.Ipc.Session.Closing.{IsEmpty, IsIdle, Stays, Rests}
use yet_another_harness.Ipc.Session.Closing.Ends.{fatal-Rests, on_goodbye-Rests, drop_handle-Stays}

refuse_worker_call-Stays :
    (call_id : CallId) (kind : WireErrorKind) (s : HostSession)
    → Stays s (refuse_worker_call call_id kind s)
unfolding refuse_worker_call push_call_refusal
refuse_worker_call-Stays call_id kind s = ground arith

serve_artifact_read-Stays :
    (c : Codec) (request : Call) (s : HostSession) → Stays s (serve_artifact_read c request s)
unfolding serve_artifact_read
serve_artifact_read-Stays c request s = grind (arith, refuse_worker_call-Stays)

module _ (s : HostSession) (on : is_active s.phase ≡ true) where
  broken : (kind : WireErrorKind) (detail : Text) → Rests s (fatal kind detail s)
  broken kind detail = fatal-Rests kind detail s (λ off. ground arith)

  on_worker_call-Rests : (c : Codec) (request : Call) → Rests s (on_worker_call c request s)
  unfolding on_worker_call deliver_call refuse_worker_call_unspent push_call_refusal
  on_worker_call-Rests c request =
      grind (arith, broken, refuse_worker_call-Stays, serve_artifact_read-Stays)

  on_late_reply-Rests : (outcome : Outcome) → Rests s (on_late_reply outcome s)
  unfolding on_late_reply
  on_late_reply-Rests (Outcome.spilled offer) = grind (arith, broken)
  on_late_reply-Rests _ = ground arith

  on_live_reply-Rests :
      (c : Codec) (call_id : CallId) (outcome : Outcome)
      → Rests s (on_live_reply c call_id outcome s)
  unfolding on_live_reply settle_reply remember_offer
  on_live_reply-Rests c call_id (Outcome.ok result) = grind (arith, broken)
  on_live_reply-Rests c call_id (Outcome.spilled offer) =
      let t = remember_offer offer s in
      let reused : Rests t
          (fatal WireErrorKind.unknown_handle (text "spilled offer reuses a worker handle id") t) =
        fatal-Rests _ _ t (λ off. ground arith) in
      grind (arith, broken, reused)
  on_live_reply-Rests c call_id _ = ground arith

  on_worker_reply-Rests :
      (c : Codec) (call_id : CallId) (outcome : Outcome)
      → Rests s (on_worker_reply c call_id outcome s)
  unfolding on_worker_reply
  on_worker_reply-Rests c call_id outcome =
      grind (arith, broken, on_live_reply-Rests, on_late_reply-Rests)

  on_worker_cancel-Rests :
      (call_id : CallId) (target : CancelTarget) → Rests s (on_worker_cancel call_id target s)
  unfolding on_worker_cancel
  on_worker_cancel-Rests call_id target = ground arith

  on_stream_open-Rests : (call_id : CallId) (credit : ℕ) → Rests s (on_stream_open call_id credit s)
  unfolding on_stream_open
  on_stream_open-Rests call_id credit = grind (arith, broken)

  on_stream_item-Rests :
      (item : StreamData) (state : HostCall) → Rests s (on_stream_item item state s)
  unfolding on_stream_item accept_item
  on_stream_item-Rests item state = grind (arith, broken)

  on_stream_data-Rests : (c : Codec) (item : StreamData) → Rests s (on_stream_data c item s)
  unfolding on_stream_data
  on_stream_data-Rests c item = grind (arith, broken, on_stream_item-Rests)

  on_credit-Rests : (call_id : CallId) (additional : ℕ) → Rests s (on_credit call_id additional s)
  unfolding on_credit
  on_credit-Rests call_id additional = grind (arith, broken)

  on_release-Rests : (handle : HandleId) (kind : HandleKind) → Rests s (on_release handle kind s)
  unfolding on_release
  on_release-Rests handle kind = grind (arith, broken, drop_handle-Stays handle true s)

  on_release_ack-Rests :
      (handle : HandleId) (kind : HandleKind) → Rests s (on_release_ack handle kind s)
  unfolding on_release_ack
  on_release_ack-Rests handle kind = grind (arith, broken)

  on_active-Rests : (c : Codec) (message : WorkerMessage) → Rests s (on_active c message s)
  unfolding on_active dispatch
  on_active-Rests c message = grind (arith, broken, dispatched)
    where
      dispatched : (message : WorkerMessage) → Rests s (dispatch c message s)
      dispatched (WorkerMessage.hello h) = broken _ _
      dispatched (WorkerMessage.call request) = on_worker_call-Rests c request
      dispatched (WorkerMessage.reply call_id outcome) = on_worker_reply-Rests c call_id outcome
      dispatched (WorkerMessage.stream_open call_id credit) = on_stream_open-Rests call_id credit
      dispatched (WorkerMessage.stream_data item) = on_stream_data-Rests c item
      dispatched (WorkerMessage.credit call_id additional) = on_credit-Rests call_id additional
      dispatched (WorkerMessage.cancel call_id target) = on_worker_cancel-Rests call_id target
      dispatched (WorkerMessage.release handle kind) = on_release-Rests handle kind
      dispatched (WorkerMessage.release_ack handle kind) = on_release_ack-Rests handle kind
      dispatched (WorkerMessage.goodbye reason) = on_goodbye-Rests reason s

on_pre_negotiation-Rests :
    (c : Codec) (message : WorkerMessage) (s : HostSession)
    → IsEmpty s
    → Rests s (on_pre_negotiation c message s)
unfolding on_pre_negotiation on_hello accept_hello refuse_hello
on_pre_negotiation-Rests c message s empty = ground arith

pub on_frame-Rests :
    (c : Codec) (raw : List ℕ) (s : HostSession) → IsIdle s → Rests s (on_frame c raw s)
unfolding on_frame
on_frame-Rests c raw s idle = grind (arith, fatal-Rests, on_pre_negotiation-Rests, on_active-Rests)
