-- ===== src/Ipc/Session/Streaming.antt =====
-- crates/yah-plugin-ipc/src/session/streams.rs: the streaming methods of the embedding host.
use yet_another_harness.Prelude.{
  is_none, ℕ, ◌+◌, ◌-◌, ◌^◌, Bool, true, ◌&&◌, not, some, Result, ok, ◌>>=◌, ◌>>◌, guard, or_fail,
  leb, ◌==◌, if◌then◌else◌, min, text,
}
use yet_another_harness.Prelude.Map.{lookup, insert}
use yet_another_harness.Ipc.Types.{
  CallId, Value, StreamClass, HostMessage, max_wire_id, max_stream_data_bytes,
}
use yet_another_harness.Ipc.Session.Ijson.{value_within_ijson}
use yet_another_harness.Ipc.Session.State.{
  Codec, HostSession, WorkerCall, HostCall, AppError, not_active, unknown_call, invalid_field,
  payload_too_large, stream_violation, push_outbox, is_active, add_u64,
}
use yet_another_harness.Ipc.Session.Handles.{admit}
use yet_another_harness.Ipc.Session.Calls.{byte_len, usize_max}
use yet_another_harness.Ipc.Session.Streams.{checked_add_u32, spend_credit}

unfoldable pub grant_credit : CallId → ℕ → HostSession → HostSession × Result (Unit {0}) AppError
grant_credit call_id additional s = admit s checked λ (state, next). (
  push_outbox (HostMessage.credit call_id additional)
      (record s { host_calls = insert call_id (record state { credit_left = next }) s.host_calls }),
  ok tt,
)
  where
    checked : Result (HostCall × ℕ) AppError
    checked = do
      guard (is_active s.phase) not_active
      state ← or_fail (lookup call_id s.host_calls) unknown_call
      guard state.stream_open (stream_violation (text "stream not open"))
      next ←
          or_fail (checked_add_u32 state.credit_left additional)
            (stream_violation (text "credit overflow"))
      guard (not (additional == 0) && leb next s.config.ceilings.max_stream_credit)
          (stream_violation (text "credit outside bounds"))
      ok (state, next)

-- `u64::saturating_add`
abbrev pub saturating_add_u64 : ℕ → ℕ → ℕ
saturating_add_u64 a b = min (a + b) (2 ^ 64 - 1)

unfoldable pub note_lossy_drops :
    CallId → ℕ → HostSession → HostSession × Result (Unit {0}) AppError
note_lossy_drops call_id dropped s = admit s checked λ state. (
  record s {
    worker_calls =
        insert call_id
          (record state { lossy_dropped = saturating_add_u64 state.lossy_dropped dropped })
          s.worker_calls;
  },
  ok tt,
)
  where
    checked : Result WorkerCall AppError
    checked = do
      guard (is_active s.phase) not_active
      state ← or_fail (lookup call_id s.worker_calls) unknown_call
      window ← or_fail state.stream_credit (stream_violation (text "stream not open"))
      guard (not state.last_item_sent) (stream_violation (text "drops after the last item"))
      guard (leb (saturating_add_u64 state.lossy_dropped dropped) max_wire_id)
          (invalid_field (text "drop count outside wire range"))
      ok state

unfoldable pub open_stream : CallId → ℕ → HostSession → HostSession × Result (Unit {0}) AppError
open_stream call_id credit s = admit s checked λ state. (
  push_outbox (HostMessage.stream_open call_id credit) (record s {
    worker_calls = insert call_id (record state { stream_credit = some credit }) s.worker_calls;
  }),
  ok tt,
)
  where
    checked : Result WorkerCall AppError
    checked = do
      guard (is_active s.phase) not_active
      state ← or_fail (lookup call_id s.worker_calls) unknown_call
      guard state.stream (stream_violation (text "call did not ask to stream"))
      guard (is_none state.stream_credit) (stream_violation (text "stream already open"))
      guard (not (credit == 0) && leb credit s.config.ceilings.max_stream_credit)
          (stream_violation (text "credit outside bounds"))
      ok state

abbrev send_item : Bool → ℕ → WorkerCall → WorkerCall
send_item more window state = record state {
  stream_credit = some window;
  next_seq = add_u64 state.next_seq 1;
  last_item_sent = if more then state.last_item_sent else true;
}

unfoldable pub stream_item :
    Codec
    → CallId
    → StreamClass
    → Bool
    → Value
    → HostSession
    → HostSession × Result (Unit {0}) AppError
stream_item c call_id class more payload s = admit s checked λ (state, window). (
  push_outbox
      (HostMessage.stream_data (record {
        call_id = call_id;
        seq = state.next_seq;
        more = more;
        class = class;
        dropped = state.lossy_dropped;
        payload = payload;
      }))
      (record s { worker_calls = insert call_id (send_item more window state) s.worker_calls }),
  ok tt,
)
  where
    checked : Result (WorkerCall × ℕ) AppError
    checked = do
      guard (is_active s.phase) not_active
      state ← or_fail (lookup call_id s.worker_calls) unknown_call
      window ← or_fail state.stream_credit (stream_violation (text "stream not open"))
      guard (not state.last_item_sent) (stream_violation (text "item after the last one"))
      guard (value_within_ijson payload)
          (invalid_field (text "integer outside the I-JSON safe range"))
      guard (leb (byte_len c usize_max payload) max_stream_data_bytes)
          (payload_too_large (byte_len c usize_max payload))
      left ← or_fail (spend_credit class window) (stream_violation (text "no credit left"))
      ok (state, left)
