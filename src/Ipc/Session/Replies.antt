-- ===== src/Ipc/Session/Replies.antt =====
-- crates/yah-plugin-ipc/src/session/calls.rs: cancels, and the worker's terminal frames.
use yet_another_harness.Prelude.{
  true, Result, ok, ◌>>◌, guard, or_fail, ltb, ◌==◌, if◌then◌else◌, text,
}
use yet_another_harness.Prelude.Map.{lookup, contains, insert, remove}
use yet_another_harness.Ipc.Types.{
  CallId, WireErrorKind, artifact, CancelTarget, call, stream, Outcome, ArtifactOffer, HostMessage,
  max_inline_result_bytes,
}
use yet_another_harness.Ipc.Session.State.{
  Codec, HostSession, HostCall, SessionEvent, AppError, not_active, unknown_call, push_event,
  push_outbox, is_active, budget_full,
}
use yet_another_harness.Ipc.Session.Settle.{fatal}
use yet_another_harness.Ipc.Session.Handles.{admit}
use yet_another_harness.Ipc.Session.Calls.{byte_len}

abbrev mute : CancelTarget → HostCall → HostCall
mute stream state = record state { stream_muted = true }
mute call state = state

unfoldable pub cancel :
    CallId → CancelTarget → HostSession → HostSession × Result (Unit {0}) AppError
cancel call_id target s = admit s checked λ state. (
  push_outbox (HostMessage.cancel call_id target)
      (record s { host_calls = insert call_id (mute target state) s.host_calls }),
  ok tt,
)
  where
    checked : Result HostCall AppError
    checked = do
      guard (is_active s.phase) not_active
      or_fail (lookup call_id s.host_calls) unknown_call

-- `offered_worker_handles.insert(handle, HandleKind::Artifact)`
unfoldable pub remember_offer : ArtifactOffer → HostSession → HostSession
remember_offer offer s = record s {
  offered_worker_handles = insert offer.handle artifact s.offered_worker_handles;
}

abbrev reused_offer : HostSession → HostSession
reused_offer = fatal WireErrorKind.unknown_handle (text "spilled offer reuses a worker handle id")

-- A terminal for a call that is settled already.
unfoldable pub on_late_reply : Outcome → HostSession → HostSession
unfolding remember_offer
on_late_reply (Outcome.spilled offer) s =
    if contains offer.handle s.offered_worker_handles
    then reused_offer s
    else if budget_full s
    then s
    else remember_offer offer s
on_late_reply _ s = s

unfoldable pub settle_reply : CallId → Outcome → HostSession → HostSession
settle_reply call_id outcome s =
    push_event (SessionEvent.host_call_settled call_id outcome) (record s {
      host_calls = remove call_id s.host_calls;
      retired_host_calls = insert call_id tt s.retired_host_calls;
    })

-- A terminal for a call in flight. `fatal` after the insertion of a reused handle id sees the
-- inserted entry, which has the key and the kind of the old one or replaces its kind.
unfoldable pub on_live_reply : Codec → CallId → Outcome → HostSession → HostSession
unfolding settle_reply remember_offer
on_live_reply c call_id (Outcome.ok result) s =
    if ltb max_inline_result_bytes (byte_len c 0 result)
    then fatal WireErrorKind.payload_too_large (text "inline result over bound") s
    else settle_reply call_id (Outcome.ok result) s
on_live_reply c call_id (Outcome.spilled offer) s =
    if offer.bytes == 0
    then fatal WireErrorKind.invalid_frame (text "spilled artifact of zero bytes") s
    else if contains offer.handle s.offered_worker_handles
    then reused_offer (remember_offer offer s)
    else settle_reply call_id (Outcome.spilled offer) (remember_offer offer s)
on_live_reply c call_id outcome s = settle_reply call_id outcome s

unfoldable pub on_worker_reply : Codec → CallId → Outcome → HostSession → HostSession
unfolding on_live_reply on_late_reply
on_worker_reply c call_id outcome s =
    if contains call_id s.host_calls
    then on_live_reply c call_id outcome s
    else if contains call_id s.retired_host_calls
    then on_late_reply outcome s
    else fatal WireErrorKind.unknown_call (text "reply to unknown host call") s

unfoldable pub on_worker_cancel : CallId → CancelTarget → HostSession → HostSession
on_worker_cancel call_id target s =
    if contains call_id s.worker_calls
    then push_event (SessionEvent.cancel_requested call_id target) s
    else s
