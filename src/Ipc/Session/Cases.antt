-- ===== src/Ipc/Session/Cases.antt =====
-- Case principles for the longer handlers of crates/yah-plugin-ipc/src/session: a property that
-- holds after every way that a handler can end holds after the handler.
use yet_another_harness.Prelude.{
  ℕ, zero, suc, ◌≡◌, Bool, true, false, ◌||◌, List, arith, leb, ltb, length, Text, text, some,
}
use yet_another_harness.Prelude.Map.{contains, lookup, contains_of_lookup}
use yet_another_harness.Ipc.Types.{
  CallId, HandleId, HandleKind, Value, WireErrorKind, Outcome, StreamData, Call,
}
use yet_another_harness.Ipc.Session.State.{
  Codec, HostSession, HostCall, WorkerCall, budget_full, as_u32,
}
use yet_another_harness.Ipc.Frame.{FrameDecoder}
use yet_another_harness.Ipc.Frame
use yet_another_harness.Ipc.Session.Settle.{fatal}
use yet_another_harness.Ipc.Session.Machine.{on_frame, feed_loop, feed}
use yet_another_harness.Ipc.Session.Refuse.{refuse_worker_call, refuse_worker_call_unspent}
use yet_another_harness.Ipc.Session.Reads.{serve_artifact_read}
use yet_another_harness.Ipc.Session.Calls.{
  on_worker_call, deliver_call, finish_reply, reply_to_worker,
}
use yet_another_harness.Ipc.Session.Release.{ask_release, release_worker_handle}
use yet_another_harness.Ipc.Session.Replies.{on_live_reply, settle_reply}
use yet_another_harness.Ipc.Session.Streams.{
  on_stream_data, on_stream_item, accept_item, spend_credit,
}

-- A call id that is in flight, or retired.
abbrev pub is_known_call : CallId → HostSession → Bool
is_known_call id s = contains id s.worker_calls || contains id s.retired_worker_calls

module _ (P : HostSession → Type 0) (c : Codec) where
  pub on_worker_call_cases :
      (request : Call) (s : HostSession)
      → P (fatal WireErrorKind.duplicate_call (text "worker call id reused") s)
      → P (refuse_worker_call_unspent request.call_id s)
      → (budget_full s ≡ false
          → P (refuse_worker_call request.call_id WireErrorKind.payload_too_large s))
      → (budget_full s ≡ false
          → P (refuse_worker_call request.call_id WireErrorKind.resource_exhausted s))
      → (budget_full s ≡ false → P (serve_artifact_read c request s))
      → (is_known_call request.call_id s ≡ false
          → budget_full s ≡ false
          → leb s.config.ceilings.worker_calls_in_flight (as_u32 (length s.worker_calls)) ≡ false
          → P (deliver_call request s))
      → P (on_worker_call c request s)
  unfolding on_worker_call
  on_worker_call_cases request s reused unspent large full served delivered = ground arith

  pub on_live_reply-ok_cases :
      (call_id : CallId) (result : Value) (s : HostSession)
      → P (fatal WireErrorKind.payload_too_large (text "inline result over bound") s)
      → P (settle_reply call_id (Outcome.ok result) s)
      → P (on_live_reply c call_id (Outcome.ok result) s)
  unfolding on_live_reply
  on_live_reply-ok_cases call_id result s large settled = ground arith

  on_stream_item_cases :
      (item : StreamData) (state : HostCall) (s : HostSession)
      → ((kind : WireErrorKind) (detail : Text) → P (fatal kind detail s))
      → ((left : ℕ)
          → spend_credit item.class state.credit_left ≡ some left
          → P (accept_item item left state s))
      → P (on_stream_item item state s)
  unfolding on_stream_item
  on_stream_item_cases item state s broken accepted = grind (arith, broken, accepted)

  pub on_stream_data_cases :
      (item : StreamData) (s : HostSession)
      → ((kind : WireErrorKind) (detail : Text) → P (fatal kind detail s))
      → P s
      → ((state : HostCall) (left : ℕ)
          → lookup item.call_id s.host_calls ≡ some state
          → P (accept_item item left state s))
      → P (on_stream_data c item s)
  unfolding on_stream_data
  on_stream_data_cases item s broken late accepted = grind (arith, on_stream_item_cases)

  pub reply_to_worker_cases :
      (call_id : CallId) (outcome : Outcome) (s : HostSession)
      → P s
      → ((state : WorkerCall) (sent : Outcome)
          → contains call_id s.worker_calls ≡ true
          → P (finish_reply call_id state sent s))
      → P (reply_to_worker c call_id outcome s).0
  unfolding reply_to_worker
  reply_to_worker_cases call_id outcome s refused sent =
      grind (arith, refused, sent, contains_of_lookup {V = WorkerCall} call_id)

module _ (P : HostSession → Type 0) where
  pub release_worker_handle_cases :
      (handle : HandleId) (kind : HandleKind) (s : HostSession)
      → P s
      → (budget_full s ≡ false
          → ltb (as_u32 (length s.pending_worker_releases)) s.config.ceilings.live_handles ≡ true
          → P (ask_release handle kind s))
      → P (release_worker_handle handle kind s).0
  unfolding release_worker_handle
  release_worker_handle_cases handle kind s refused asked = ground (arith, refused, asked)

-- What a change of the decoder, a failure and a frame keep, the bytes of the worker keep.
module _ (P : HostSession → Type 0) (c : Codec)
    (decoded : (d : FrameDecoder) (s : HostSession) → P s → P (record s { decoder = d }))
    (failed : (kind : WireErrorKind) (detail : Text) (s : HostSession)
      → P s
      → P (fatal kind detail s))
    (framed : (raw : List ℕ) (s : HostSession) → P s → P (on_frame c raw s)) where
  feed_loop_keeps : (fuel : ℕ) (s : HostSession) → P s → P (feed_loop c fuel s)
  unfolding feed_loop
  feed_loop_keeps zero s p = p
  feed_loop_keeps (suc fuel) s p =
      let polled = decoded (Frame.next_frame s.decoder).0 s p in
      grind (arith, failed, framed, polled, feed_loop_keeps fuel)

  pub feed_keeps : (bytes : List ℕ) (s : HostSession) → P s → P (feed c bytes s)
  unfolding feed
  feed_keeps bytes s p =
      let d = Frame.feed bytes s.decoder in
      let fed =
        feed_loop_keeps (suc (length d.buffer)) (record s { decoder = d }) (decoded d s p) in
      ground (arith, fed, p)
