-- ===== src/Ipc/Session/Tests.antt =====
-- Runs of a session with a small codec, and instances of the theorems on it.
use yet_another_harness.Prelude.{
  ℕ, ◌+◌, ◌*◌, ◌≤◌, ◌≡◌, refl, true, false, List, [], ◌∷◌, none, some, Result, ok, err, arith, ◌==◌,
  if◌then◌else◌, Text,
}
use yet_another_harness.Prelude.Map.{contains, lookup, insert, put, remove, keys}
use yet_another_harness.Ipc.Frame
use yet_another_harness.Ipc.Types.{
  StreamData, lossless, null, CancelTarget, Outcome, WorkerMessage, hello, Hello,
}
use yet_another_harness.Ipc.Session.State.{
  Codec, HostSession, HostCall, SessionConfig, active, new, default_config, retired_operations,
  budget_full, is_closed, not_active,
}
use yet_another_harness.Ipc.Session.Ijson.{value_within_ijson}
use yet_another_harness.Ipc.Session.Settle.{
  fatal, tear_down, settle_all, reclaim_all_handles, reclaim_handles, reclaim_each,
}
use yet_another_harness.Ipc.Session.Calls.{call_worker}
use yet_another_harness.Ipc.Session.Replies.{on_worker_reply, on_live_reply, settle_reply, cancel}
use yet_another_harness.Ipc.Session.Agreement.{Decided, on_pre_negotiation-Decided}
use yet_another_harness.Ipc.Session.Streams.{
  on_stream_data, on_stream_item, accept_item, expected_seq,
}
use yet_another_harness.Ipc.Session.Flow.{receive, receive-AreConsecutive, AreConsecutive, spent}
use yet_another_harness.Ipc.Session.Refusals.{act-refused, error_returned}
use yet_another_harness.Ipc.Session.Negotiate.{
  on_pre_negotiation, on_hello, accept_hello, unknown_features,
}
use yet_another_harness.Ipc.Session.Machine.{
  is_control, on_active, validate_bounds, dispatch, on_frame, feed_loop, feed, end_of_input,
}
use yet_another_harness.Ipc.Session.Actions.{Action, act, run}
use yet_another_harness.Ipc.Session.Bounds.{AreWords, IsBounded}
use yet_another_harness.Ipc.Session.Bounds.Histories.{run-IsBounded, run-retired_operations}
use yet_another_harness.Ipc.Session.Closing.{IsEmpty}
use yet_another_harness.Ipc.Session.Closing.Histories.{act-closed, run-closed}
use yet_another_harness.Ipc.Session.Delivery.{deliveries}
use yet_another_harness.Ipc.Session.Delivery.Histories.{run-deliveries}
use yet_another_harness.Ipc.Session.Draining.{IsDrained, Takes, run-feed-Takes}
use yet_another_harness.Ipc.Session.Settlement.{Keeps, terminals}
use yet_another_harness.Ipc.Session.Settlement.Inputs.{feed-Keeps}
use yet_another_harness.Ipc.Session.Settlement.Ledger.{started, run-terminals}

abbrev greeting : Hello
greeting = record {
  protocol_versions = 1 ∷ [];
  sdk_name = 110 ∷ [];
  sdk_version = 49 ∷ [];
  features = [];
  required_features = [];
}

-- A frame of one byte says which message it is.
abbrev decode_byte : List ℕ → Result WorkerMessage Text
decode_byte (n ∷ []) =
    if n == 1
    then ok (WorkerMessage.hello greeting)
    else if n == 2
    then ok (WorkerMessage.reply 1 (Outcome.ok null))
    else if n == 3
    then ok (WorkerMessage.goodbye [])
    else err []
decode_byte _ = err []

abbrev small_codec : Codec
small_codec = record {
  decode = decode_byte;
  to_vec_len = λ v. some 4;
  artifact_read = λ v. none;
  blake3 = λ bytes. [];
  debug_versions = λ versions. [];
  debug_features = λ features. [];
}

abbrev hello_wire : List ℕ
hello_wire = 0 ∷ 0 ∷ 0 ∷ 1 ∷ 1 ∷ []

abbrev reply_wire : List ℕ
reply_wire = 0 ∷ 0 ∷ 0 ∷ 1 ∷ 2 ∷ []

-- A call is started and answered, and the worker disconnects.
abbrev answered : List Action
answered =
    Action.feed hello_wire
    ∷ Action.call_worker (109 ∷ []) null none false
    ∷ Action.feed reply_wire
    ∷ Action.end_of_input
    ∷ []

hello_activates : (feed small_codec hello_wire (new default_config)).phase ≡ active
unfolding feed feed_loop on_frame on_pre_negotiation on_hello accept_hello unknown_features
    is_control new default_config Frame.feed Frame.next_frame Frame.from_be_bytes Frame.new
hello_activates = refl

run-terminals_example :
    let s = run small_codec answered (new default_config) in
    terminals 1 s.events + (if contains 1 s.host_calls then 1 else 0) ≡ started 1 s
run-terminals_example = run-terminals small_codec default_config answered 1 (omega arith)

feed-Keeps_example : Keeps 1 (new default_config) (feed small_codec hello_wire (new default_config))
feed-Keeps_example = feed-Keeps 1 small_codec hello_wire (new default_config)

abbrev small_config : SessionConfig
small_config = record default_config { retired_operation_budget = some 1 }

small_config-AreWords : AreWords small_config.ceilings
unfolding default_config
small_config-AreWords = record {
  host_word = omega arith;
  worker_word = omega arith;
  handle_word = omega arith;
}

run-IsBounded_example :
    let s = run small_codec answered (new small_config) in (s.config ≡ small_config) × IsBounded s
run-IsBounded_example = run-IsBounded small_codec small_config answered small_config-AreWords

run-retired_operations_example :
    retired_operations (run small_codec answered (new small_config))
    ≤ 1
      + small_config.ceilings.worker_calls_in_flight
      + 2 * small_config.ceilings.host_calls_in_flight
      + 2 * small_config.ceilings.live_handles
run-retired_operations_example =
    run-retired_operations small_codec small_config answered 1 small_config-AreWords refl

answered_closes : is_closed (run small_codec answered (new default_config)).phase ≡ true
unfolding run act feed feed_loop on_frame on_pre_negotiation on_hello accept_hello unknown_features
    is_control new default_config Frame.feed Frame.next_frame Frame.from_be_bytes Frame.new
    end_of_input Frame.finish fatal tear_down settle_all reclaim_all_handles reclaim_handles
    reclaim_each keys call_worker on_active validate_bounds dispatch on_worker_reply on_live_reply
    settle_reply value_within_ijson contains insert put remove budget_full retired_operations
answered_closes = refl

run-closed_example :
    let s = run small_codec answered (new default_config) in
    IsEmpty s × (terminals 1 s.events ≡ started 1 s)
run-closed_example = run-closed small_codec default_config answered 1 (omega arith) answered_closes

act-closed_example :
    let s = run small_codec answered (new default_config) in
    act small_codec (Action.tick 7) s
    ≡ record s { now_ms = (act small_codec (Action.tick 7) s).now_ms }
act-closed_example =
    act-closed small_codec (Action.tick 7) (run small_codec answered (new default_config))
      answered_closes

-- A session that waits for the reply.
abbrev calling : List Action
calling = Action.feed hello_wire ∷ Action.call_worker (109 ∷ []) null none false ∷ []

run-feed-Takes_example :
    Takes small_codec reply_wire
      (run small_codec calling (new default_config))
      (feed small_codec reply_wire (run small_codec calling (new default_config)))
    × IsDrained (feed small_codec reply_wire (run small_codec calling (new default_config)))
run-feed-Takes_example = run-feed-Takes small_codec default_config calling reply_wire

early_cancel :
    error_returned small_codec (Action.cancel 1 CancelTarget.call) (new default_config)
    ≡ some not_active
unfolding error_returned cancel new
early_cancel = refl

act-refused_example :
    act small_codec (Action.cancel 1 CancelTarget.call) (new default_config) ≡ new default_config
act-refused_example =
    act-refused small_codec (Action.cancel 1 CancelTarget.call) (new default_config) not_active
      early_cancel

run-deliveries_example : deliveries 1 (run small_codec answered (new default_config)).events ≤ 1
run-deliveries_example = run-deliveries small_codec default_config answered 1

on_pre_negotiation-Decided_example :
    Decided greeting
      (new default_config)
      (on_pre_negotiation small_codec (hello greeting) (new default_config))
on_pre_negotiation-Decided_example =
    on_pre_negotiation-Decided small_codec greeting (new default_config)

-- A streaming call with a credit of one, and an item of its stream.
abbrev streaming_call : HostCall
streaming_call = record {
  stream = true;
  stream_open = true;
  credit_left = 1;
  highest_seq = none;
  lossy_dropped = 0;
  last_item_seen = false;
  deadline_at = none;
  stream_muted = false;
}

abbrev streaming : HostSession
streaming = record (new default_config) { phase = active; host_calls = (1, streaming_call) ∷ [] }

abbrev first_item : StreamData
first_item = record {
  call_id = 1;
  seq = 0;
  more = true;
  class = lossless;
  dropped = 0;
  payload = null;
}

receive-AreConsecutive_example :
    AreConsecutive (expected_seq streaming_call) (first_item ∷ []) × (spent (first_item ∷ []) ≤ 1)
unfolding receive on_stream_data on_stream_item accept_item lookup insert contains
receive-AreConsecutive_example =
    receive-AreConsecutive small_codec (first_item ∷ []) 1 streaming_call streaming refl (refl, tt)
      refl
