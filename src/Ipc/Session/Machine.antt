-- ===== src/Ipc/Session/Machine.antt =====
-- crates/yah-plugin-ipc/src/session/mod.rs: admission of a frame, its dispatch, and the inputs of
-- a session (bytes, end of input, time).
use yet_another_harness.Prelude.{
  ℕ, zero, suc, max, Bool, true, false, ◌&&◌, List, none, some, Result, ok, err, ◌>>◌, guard, leb,
  ltb, if◌then◌else◌, length, Text, text,
}
use yet_another_harness.Ipc.Types.{
  CallId, WireErrorKind, Outcome, WorkerMessage, max_control_frame_bytes, max_error_detail_chars,
  max_media_type_chars, max_method_chars, max_goodbye_reason_chars,
}
use yet_another_harness.Ipc.Frame.{
  FrameStreamError, frame_too_large, empty_frame, EndOfInput, clean,
}
use yet_another_harness.Ipc.Frame
use yet_another_harness.Ipc.Session.State.{
  Codec, HostSession, Phase, awaiting_hello, active, closed, is_active, is_closed,
}
use yet_another_harness.Ipc.Session.Settle.{fatal, on_goodbye, expire_deadlines}
use yet_another_harness.Ipc.Session.Handles.{id_ok, bounded_chars}
use yet_another_harness.Ipc.Session.Calls.{is_digest, on_worker_call}
use yet_another_harness.Ipc.Session.Replies.{on_worker_reply, on_worker_cancel}
use yet_another_harness.Ipc.Session.Streams.{on_stream_open, on_stream_data, on_credit}
use yet_another_harness.Ipc.Session.Release.{on_release, on_release_ack}
use yet_another_harness.Ipc.Session.Negotiate.{name_ok, on_pre_negotiation}

abbrev bounded_id : Text → ℕ → Result (Unit {0}) Text
bounded_id reason id = guard (id_ok id) reason

abbrev call_id_bounds : CallId → Result (Unit {0}) Text
call_id_bounds = bounded_id (text "call id outside wire range")

abbrev handle_id_bounds : ℕ → Result (Unit {0}) Text
handle_id_bounds = bounded_id (text "handle id outside wire range")

abbrev outcome_bounds : Outcome → Result (Unit {0}) Text
outcome_bounds (Outcome.err error) =
    guard (leb (length error.message) max_error_detail_chars)
      (text "error message outside its length bound")
outcome_bounds (Outcome.spilled offer) = do
  handle_id_bounds offer.handle
  guard (bounded_chars max_media_type_chars offer.media_type)
      (text "media type outside its length bound")
  guard (is_digest offer.digest_blake3) (text "digest is not 64 lowercase hex characters")
outcome_bounds _ = ok tt

unfoldable pub validate_bounds : WorkerMessage → Result (Unit {0}) Text
validate_bounds (WorkerMessage.hello h) =
    guard (name_ok h.sdk_name && name_ok h.sdk_version)
      (text "sdk identity outside its length bound")
validate_bounds (WorkerMessage.call request) = do
  call_id_bounds request.call_id
  guard (bounded_chars max_method_chars request.method)
      (text "method name outside its length bound")
validate_bounds (WorkerMessage.reply call_id outcome) = do
  call_id_bounds call_id
  outcome_bounds outcome
validate_bounds (WorkerMessage.stream_open call_id credit) = call_id_bounds call_id
validate_bounds (WorkerMessage.stream_data item) = call_id_bounds item.call_id
validate_bounds (WorkerMessage.credit call_id additional) = call_id_bounds call_id
validate_bounds (WorkerMessage.cancel call_id target) = call_id_bounds call_id
validate_bounds (WorkerMessage.release handle kind) = handle_id_bounds handle
validate_bounds (WorkerMessage.release_ack handle kind) = handle_id_bounds handle
validate_bounds (WorkerMessage.goodbye reason) =
    guard (leb (length reason) max_goodbye_reason_chars)
      (text "goodbye reason outside its length bound")

unfoldable pub is_control : WorkerMessage → Bool
is_control (WorkerMessage.call request) = false
is_control (WorkerMessage.reply call_id outcome) = false
is_control (WorkerMessage.stream_data item) = false
is_control _ = true

-- The dispatch of `on_active`, behind the bounds.
unfoldable pub dispatch : Codec → WorkerMessage → HostSession → HostSession
dispatch c (WorkerMessage.hello h) s =
    fatal WireErrorKind.negotiation_required (text "second hello") s
dispatch c (WorkerMessage.call request) s = on_worker_call c request s
dispatch c (WorkerMessage.reply call_id outcome) s = on_worker_reply c call_id outcome s
dispatch c (WorkerMessage.stream_open call_id credit) s = on_stream_open call_id credit s
dispatch c (WorkerMessage.stream_data item) s = on_stream_data c item s
dispatch c (WorkerMessage.credit call_id additional) s = on_credit call_id additional s
dispatch c (WorkerMessage.cancel call_id target) s = on_worker_cancel call_id target s
dispatch c (WorkerMessage.release handle kind) s = on_release handle kind s
dispatch c (WorkerMessage.release_ack handle kind) s = on_release_ack handle kind s
dispatch c (WorkerMessage.goodbye reason) s = on_goodbye reason s

unfoldable pub on_active : Codec → WorkerMessage → HostSession → HostSession
on_active c message s = elim (validate_bounds message) [
  | err reason ↦ fatal WireErrorKind.invalid_frame reason s
  | ok _ ↦ dispatch c message s
]

-- The `match self.phase` of `on_frame`.
abbrev by_phase : Phase → Codec → WorkerMessage → HostSession → HostSession
by_phase awaiting_hello c message s = on_pre_negotiation c message s
by_phase active c message s = on_active c message s
by_phase closed c message s = s

unfoldable pub on_frame : Codec → List ℕ → HostSession → HostSession
on_frame c raw s = elim (c.decode raw) [
  | err detail ↦ fatal WireErrorKind.invalid_frame detail s
  | ok message ↦
      if is_control message && ltb max_control_frame_bytes (length raw)
      then fatal WireErrorKind.frame_too_large (text "control frame over bound") s
      else by_phase s.phase c message s
]

abbrev pub stream_fault : FrameStreamError → WireErrorKind
stream_fault (frame_too_large declared) = WireErrorKind.frame_too_large
stream_fault empty_frame = WireErrorKind.invalid_frame

-- The loop of `feed`. Each frame shortens the decoder's buffer, so that a fuel above its length is
-- enough.
unfoldable pub feed_loop : Codec → ℕ → HostSession → HostSession
feed_loop c zero s = s
feed_loop c (suc fuel) s =
    let polled = Frame.next_frame s.decoder in
    let t = record s { decoder = polled.0 } in
    elim polled.1 [
      | ok none ↦ t
      | err error ↦ fatal (stream_fault error) (text "frame stream violation") t
      | ok (some frame) ↦
          let u = on_frame c frame t in
          let more = feed_loop c fuel u in if is_closed u.phase then u else more
    ]

unfoldable pub feed : Codec → List ℕ → HostSession → HostSession
feed c bytes s =
    if is_closed s.phase
    then s
    else let d = Frame.feed bytes s.decoder in
      feed_loop c (suc (length d.buffer)) (record s { decoder = d })

abbrev is_clean : EndOfInput → Bool
is_clean clean = true
is_clean _ = false

unfoldable pub end_of_input : HostSession → HostSession
end_of_input s =
    if is_closed s.phase
    then s
    else if is_clean (Frame.finish s.decoder)
    then fatal WireErrorKind.outcome_unknown (text "worker disconnected") s
    else fatal WireErrorKind.invalid_frame (text "worker disconnected mid-frame") s

unfoldable pub tick : ℕ → HostSession → HostSession
tick now_ms s =
    let t = record s { now_ms = max s.now_ms now_ms } in
    if is_active t.phase then expire_deadlines t else t
