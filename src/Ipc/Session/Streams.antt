-- ===== src/Ipc/Session/Streams.antt =====
-- crates/yah-plugin-ipc/src/session/streams.rs: streams and their credit windows.
use yet_another_harness.Prelude.{
  ℕ, ◌+◌, ◌-◌, ◌^◌, true, ◌||◌, not, Option, none, some, ltb, ◌==◌, if◌then◌else◌, text,
}
use yet_another_harness.Prelude.Map.{lookup, contains, insert}
use yet_another_harness.Ipc.Types.{
  CallId, WireErrorKind, StreamClass, lossless, lossy, StreamData, max_stream_data_bytes,
}
use yet_another_harness.Ipc.Session.State.{
  Codec, HostSession, WorkerCall, HostCall, SessionEvent, push_event, add_u64,
}
use yet_another_harness.Ipc.Session.Settle.{fatal}
use yet_another_harness.Ipc.Session.Calls.{byte_len, usize_max}

abbrev put_host_call : CallId → HostCall → HostSession → HostSession
put_host_call call_id state s = record s { host_calls = insert call_id state s.host_calls }

abbrev put_worker_call : CallId → WorkerCall → HostSession → HostSession
put_worker_call call_id state s = record s { worker_calls = insert call_id state s.worker_calls }

unfoldable pub on_stream_open : CallId → ℕ → HostSession → HostSession
on_stream_open call_id credit s = elim (lookup call_id s.host_calls) [
  | none ↦
      if contains call_id s.retired_host_calls
      then s
      else fatal WireErrorKind.unknown_call (text "stream open for unknown call") s
  | some state ↦
      if not state.stream
      then fatal WireErrorKind.invalid_frame (text "stream open on a plain call") s
      else if state.stream_open
      then fatal WireErrorKind.invalid_frame (text "second stream open") s
      else if (credit == 0) || ltb s.config.ceilings.max_stream_credit credit
      then fatal WireErrorKind.invalid_frame (text "stream credit outside bounds") s
      else push_event (SessionEvent.stream_opened call_id credit)
          (put_host_call call_id (record state { stream_open = true; credit_left = credit }) s)
]

-- `highest_seq.map_or(0, |seq| seq + 1)`
abbrev pub expected_seq : HostCall → ℕ
expected_seq state = elim state.highest_seq [ none ↦ 0 | some seq ↦ add_u64 seq 1 ]

-- The credit that is left after an item of the class; `none` is an overdraw.
abbrev pub spend_credit : StreamClass → ℕ → Option ℕ
spend_credit lossless window = if window == 0 then none else some (window - 1)
spend_credit lossy window = some window

abbrev pub take_item : StreamData → ℕ → HostCall → HostCall
take_item item credit_left state = record state {
  credit_left = credit_left;
  highest_seq = some item.seq;
  lossy_dropped = item.dropped;
  last_item_seen = if item.more then state.last_item_seen else true;
}

-- The part of `on_stream_data` behind its checks.
unfoldable pub accept_item : StreamData → ℕ → HostCall → HostSession → HostSession
accept_item item credit_left state s =
    let t = put_host_call item.call_id (take_item item credit_left state) s in
    if state.stream_muted
    then t
    else push_event
        (SessionEvent.stream_item item.call_id item.seq item.more item.class item.dropped
          item.payload)
        t

unfoldable pub on_stream_item : StreamData → HostCall → HostSession → HostSession
unfolding accept_item
on_stream_item item state s =
    if not state.stream || not state.stream_open
    then fatal WireErrorKind.invalid_frame (text "stream data before open") s
    else if state.last_item_seen
    then fatal WireErrorKind.invalid_frame (text "stream data after last item") s
    else if not (item.seq == expected_seq state)
    then fatal WireErrorKind.invalid_frame (text "stream sequence not monotonic") s
    else if ltb item.dropped state.lossy_dropped
    then fatal WireErrorKind.invalid_frame (text "drop count went backwards") s
    else elim (spend_credit item.class state.credit_left) [
      | none ↦ fatal WireErrorKind.resource_exhausted (text "stream credit overdrawn") s
      | some credit_left ↦ accept_item item credit_left state s
    ]

unfoldable pub on_stream_data : Codec → StreamData → HostSession → HostSession
unfolding on_stream_item
on_stream_data c item s =
    if ltb max_stream_data_bytes (byte_len c usize_max item.payload)
    then fatal WireErrorKind.payload_too_large (text "stream item over bound") s
    else elim (lookup item.call_id s.host_calls) [
      | some state ↦ on_stream_item item state s
      | none ↦
          if contains item.call_id s.retired_host_calls
          then s
          else fatal WireErrorKind.unknown_call (text "stream data for unknown call") s
    ]

-- `u32::checked_add`
abbrev pub checked_add_u32 : ℕ → ℕ → Option ℕ
checked_add_u32 a b = if ltb (a + b) (2 ^ 32) then some (a + b) else none

unfoldable pub on_credit : CallId → ℕ → HostSession → HostSession
on_credit call_id additional s = elim (lookup call_id s.worker_calls) [
  | none ↦ s
  | some state ↦ elim state.stream_credit [
    | none ↦ fatal WireErrorKind.invalid_frame (text "credit before stream open") s
    | some window ↦ elim (checked_add_u32 window additional) [
      | none ↦ fatal WireErrorKind.invalid_frame (text "credit overflow") s
      | some next ↦
          if (additional == 0) || ltb s.config.ceilings.max_stream_credit next
          then fatal WireErrorKind.invalid_frame (text "credit outside bounds") s
          else push_event (SessionEvent.credit_granted call_id additional)
              (put_worker_call call_id (record state { stream_credit = some next }) s)
    ]
  ]
]
