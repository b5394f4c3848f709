-- ===== src/Ipc/Session/Calls.antt =====
-- crates/yah-plugin-ipc/src/session/calls.rs: calls in both directions and their terminal frames.
use yet_another_harness.Prelude.{
  ℕ, ◌-◌, ◌^◌, Bool, true, false, ◌&&◌, ◌||◌, not, [], Option, none, some, Result, ok, ◌>>=◌, ◌>>◌,
  guard, or_fail, leb, ltb, ◌==◌, if◌then◌else◌, length, all, Text, text, text_eq, mem_nat,
}
use yet_another_harness.Prelude.Map.{lookup, contains, insert, remove}
use yet_another_harness.Ipc.Types.{
  CallId, Value, WireErrorKind, Outcome, ArtifactOffer, Call, HostMessage, max_wire_id,
  max_call_payload_bytes, max_inline_result_bytes, max_media_type_chars, max_method_chars,
}
use yet_another_harness.Ipc.Session.Ijson.{value_within_ijson}
use yet_another_harness.Ipc.Session.State.{
  Codec, HostSession, WorkerCall, HostCall, SessionEvent, AppError, not_active, unknown_call,
  call_ceiling, spill_required, payload_too_large, invalid_field, already_settled, session_retired,
  push_event, push_outbox, is_active, as_u32, add_u64, budget_full, clip_detail,
}
use yet_another_harness.Ipc.Session.Settle.{fatal, reclaim_handles}
use yet_another_harness.Ipc.Session.Refuse.{refuse_worker_call, refuse_worker_call_unspent}
use yet_another_harness.Ipc.Session.Reads.{serve_artifact_read}
use yet_another_harness.Ipc.Session.Handles.{admit, id_ok, bounded_chars}

-- `serde_json::to_vec(v).map(|b| b.len()).unwrap_or(fallback)`
abbrev pub byte_len : Codec → ℕ → Value → ℕ
byte_len c fallback v = elim (c.to_vec_len v) [ none ↦ fallback | some n ↦ n ]

abbrev pub usize_max : ℕ
usize_max = 2 ^ 64 - 1

unfoldable pub artifact_read_method : Text
artifact_read_method = text "artifact.read"

unfoldable pub deliver_call : Call → HostSession → HostSession
deliver_call request s =
    push_event
      (SessionEvent.call_delivered request.call_id request.method request.payload request.stream
        request.deadline_ms)
      (record s { worker_calls = insert request.call_id started s.worker_calls })
  where
    started : WorkerCall
    started = record {
      stream = request.stream;
      stream_credit = none;
      next_seq = 0;
      lossy_dropped = 0;
      last_item_sent = false;
      minted = [];
    }

unfoldable pub on_worker_call : Codec → Call → HostSession → HostSession
on_worker_call c request s =
    if contains request.call_id s.worker_calls || contains request.call_id s.retired_worker_calls
    then fatal WireErrorKind.duplicate_call (text "worker call id reused") s
    else if budget_full s
    then refuse_worker_call_unspent request.call_id s
    else if ltb max_call_payload_bytes (byte_len c usize_max request.payload)
    then refuse_worker_call request.call_id WireErrorKind.payload_too_large s
    else if leb s.config.ceilings.worker_calls_in_flight (as_u32 (length s.worker_calls))
    then refuse_worker_call request.call_id WireErrorKind.resource_exhausted s
    else if text_eq request.method artifact_read_method
    then serve_artifact_read c request s
    else deliver_call request s

-- `is_ascii_hexdigit() && !is_ascii_uppercase()`
abbrev pub is_lower_hex : ℕ → Bool
is_lower_hex b = (leb b'0' b && leb b b'9') || (leb b'a' b && leb b b'f')

-- On a text that is all ASCII its bytes are its code points, and any other fails the second test.
abbrev pub is_digest : Text → Bool
is_digest t = (length t == 64) && all is_lower_hex t

unfoldable pub validate_outbound_offer : ArtifactOffer → HostSession → Result (Unit {0}) AppError
validate_outbound_offer offer s = do
  guard (id_ok offer.handle) (invalid_field (text "handle id outside wire range"))
  guard (not (offer.bytes == 0)) (invalid_field (text "spilled artifact of zero bytes"))
  guard (leb offer.bytes max_wire_id) (invalid_field (text "offer bytes outside wire range"))
  guard (bounded_chars max_media_type_chars offer.media_type)
      (invalid_field (text "media type outside its length bound"))
  guard (is_digest offer.digest_blake3)
      (invalid_field (text "digest is not 64 lowercase hex characters"))
  entry ←
      or_fail (lookup offer.handle s.handles)
        (invalid_field (text "spilled offer for a handle the session does not hold"))
  held ← or_fail entry.artifact (invalid_field (text "spilled offer names a capability handle"))
  guard
      ((length held.bytes == offer.bytes)
        && text_eq held.media_type offer.media_type
        && text_eq held.digest_blake3 offer.digest_blake3)
      (invalid_field (text "spilled offer does not match the held artifact"))

-- The `match &mut outcome` of `reply_to_worker`: the outcome that goes out.
unfoldable pub outbound_outcome :
    Codec → WorkerCall → Outcome → HostSession → Result Outcome AppError
outbound_outcome c state (Outcome.ok result) s = do
  guard (value_within_ijson result) (invalid_field (text "integer outside the I-JSON safe range"))
  guard (leb (byte_len c 0 result) max_inline_result_bytes) (spill_required (byte_len c 0 result))
  ok (Outcome.ok result)
outbound_outcome c state (Outcome.spilled offer) s = do
  validate_outbound_offer offer s
  guard (mem_nat offer.handle state.minted)
      (invalid_field (text "spilled offer minted for a different call"))
  ok (Outcome.spilled offer)
outbound_outcome c state (Outcome.err error) s =
    ok (Outcome.err (record error { message = clip_detail error.message }))
outbound_outcome c state (Outcome.cancelled reason) s = ok (Outcome.cancelled reason)

abbrev pub reclaims : Outcome → Bool
reclaims (Outcome.ok result) = false
reclaims (Outcome.spilled offer) = false
reclaims _ = true

-- The part of `reply_to_worker` behind its checks.
unfoldable pub finish_reply : CallId → WorkerCall → Outcome → HostSession → HostSession
finish_reply call_id state outcome s =
    let t = record s {
      worker_calls = remove call_id s.worker_calls;
      retired_worker_calls = insert call_id tt s.retired_worker_calls;
    } in
    push_outbox (HostMessage.reply call_id outcome)
      (if reclaims outcome then reclaim_handles state.minted t else t)

unfoldable pub reply_to_worker :
    Codec → CallId → Outcome → HostSession → HostSession × Result (Unit {0}) AppError
reply_to_worker c call_id outcome s =
    admit s checked λ (state, sent). (finish_reply call_id state sent s, ok tt)
  where
    checked : Result (WorkerCall × Outcome) AppError
    checked = do
      guard (is_active s.phase) not_active
      state ←
          or_fail (lookup call_id s.worker_calls)
            (if contains call_id s.retired_worker_calls then already_settled else unknown_call)
      sent ← outbound_outcome c state outcome s
      ok (state, sent)

unfoldable pub call_worker :
    Codec → Text → Value → Option ℕ → Bool → HostSession → HostSession × Result CallId AppError
call_worker c method payload deadline_ms stream s = admit s checked λ _. (
  push_outbox (HostMessage.call request) (record s {
    next_host_call = add_u64 s.next_host_call 1;
    host_calls = insert s.next_host_call started s.host_calls;
  }),
  ok s.next_host_call,
)
  where
    checked : Result (Unit {0}) AppError
    checked = do
      guard (is_active s.phase) not_active
      guard (bounded_chars max_method_chars method)
          (invalid_field (text "method name outside its length bound"))
      guard (value_within_ijson payload)
          (invalid_field (text "integer outside the I-JSON safe range"))
      guard (leb (byte_len c usize_max payload) max_call_payload_bytes)
          (payload_too_large (byte_len c usize_max payload))
      guard (not (budget_full s)) session_retired
      guard (ltb (as_u32 (length s.host_calls)) s.config.ceilings.host_calls_in_flight) call_ceiling

    started : HostCall
    started = record {
      stream = stream;
      stream_open = false;
      credit_left = 0;
      highest_seq = none;
      lossy_dropped = 0;
      last_item_seen = false;
      deadline_at = elim deadline_ms [ none ↦ none | some budget ↦ some (add_u64 s.now_ms budget) ];
      stream_muted = false;
    }

    request : Call
    request = record {
      call_id = s.next_host_call;
      method = method;
      deadline_ms = deadline_ms;
      stream = stream;
      payload = payload;
    }
