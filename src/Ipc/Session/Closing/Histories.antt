-- ===== src/Ipc/Session/Closing/Histories.antt =====
-- The end of a session over any history of it.
use yet_another_harness.Prelude.{
  ℕ, ◌+◌, ◌^◌, ◌<◌, ◌≡◌, refl, false, true, List, [], ◌∷◌, arith, length,
}
use yet_another_harness.Prelude.Map.{contains}
use yet_another_harness.Ipc.Types.{CallId}
use yet_another_harness.Ipc.Session.State.{
  Codec, HostSession, SessionConfig, new, is_active, is_closed,
}
use yet_another_harness.Ipc.Session.Handles.{mint_capability_handle, offer_artifact}
use yet_another_harness.Ipc.Session.Calls.{call_worker, finish_reply, reply_to_worker}
use yet_another_harness.Ipc.Session.Replies.{cancel}
use yet_another_harness.Ipc.Session.Streaming.{
  grant_credit, note_lossy_drops, open_stream, stream_item,
}
use yet_another_harness.Ipc.Session.Release.{ask_release, release_worker_handle}
use yet_another_harness.Ipc.Session.Machine.{end_of_input, tick}
use yet_another_harness.Ipc.Session.Machine
use yet_another_harness.Ipc.Session.Cases.{feed_keeps}
use yet_another_harness.Ipc.Session.Actions.{Action, act, run}
use yet_another_harness.Ipc.Session.Settlement.{terminals}
use yet_another_harness.Ipc.Session.Settlement.Ledger.{started, run-terminals}
use yet_another_harness.Ipc.Session.Closing.{IsEmpty, IsIdle}
use yet_another_harness.Ipc.Session.Closing.Ends.{
  fatal-Rests, reclaim_handles-Stays, expire_deadlines-Stays,
}
use yet_another_harness.Ipc.Session.Closing.Inputs.{on_frame-Rests}

feed-IsIdle :
    (c : Codec) (bytes : List ℕ) (s : HostSession) → IsIdle s → IsIdle (Machine.feed c bytes s)
feed-IsIdle c bytes =
    feed_keeps IsIdle c (λ d s idle off. ground (arith, idle off))
      (λ kind detail s idle. (fatal-Rests kind detail s idle).idle)
      (λ raw s idle. (on_frame-Rests c raw s idle).idle) bytes

-- Behind the end of a session nothing moves but its clock.
act-IsIdle : (c : Codec) (action : Action) (s : HostSession) → IsIdle s → IsIdle (act c action s)
unfolding act end_of_input tick call_worker cancel reply_to_worker finish_reply
    mint_capability_handle offer_artifact release_worker_handle ask_release grant_credit
    note_lossy_drops open_stream stream_item
act-IsIdle c (Action.feed bytes) s idle = feed-IsIdle c bytes s idle
act-IsIdle c Action.end_of_input s idle = grind (arith, fatal-Rests)
act-IsIdle c (Action.tick now_ms) s idle = grind (arith, expire_deadlines-Stays)
act-IsIdle c (Action.call_worker method payload deadline_ms stream) s idle = ground arith
act-IsIdle c (Action.cancel call_id target) s idle = ground arith
act-IsIdle c (Action.reply_to_worker call_id outcome) s idle = grind (arith, reclaim_handles-Stays)
act-IsIdle c (Action.mint_capability_handle minted_for) s idle = ground arith
act-IsIdle c (Action.offer_artifact minted_for bytes media_type) s idle = ground arith
act-IsIdle c (Action.release_worker_handle handle kind) s idle = ground arith
act-IsIdle c (Action.grant_credit call_id additional) s idle = ground arith
act-IsIdle c (Action.note_lossy_drops call_id dropped) s idle = ground arith
act-IsIdle c (Action.open_stream call_id credit) s idle = ground arith
act-IsIdle c (Action.stream_item call_id class more payload) s idle = ground arith

run-IsIdle :
    (c : Codec) (actions : List Action) (s : HostSession) → IsIdle s → IsIdle (run c actions s)
unfolding run
run-IsIdle c [] s idle = idle
run-IsIdle c (action ∷ actions) s idle =
    run-IsIdle c actions (act c action s) (act-IsIdle c action s idle)

pub run-new-IsIdle :
    (c : Codec) (config : SessionConfig) (actions : List Action)
    → IsIdle (run c actions (new config))
unfolding new
run-new-IsIdle c config actions = run-IsIdle c actions (new config) (λ off. record {
  no_host_calls = refl;
  no_worker_calls = refl;
  no_handles = refl;
  no_releases = refl;
})

-- In a closed session, every input and every call of the interface leaves all but the clock as it
-- was.
pub act-closed :
    (c : Codec) (action : Action) (s : HostSession)
    → is_closed s.phase ≡ true
    → act c action s ≡ record s { now_ms = (act c action s).now_ms }
unfolding act Machine.feed end_of_input tick call_worker cancel reply_to_worker
    mint_capability_handle offer_artifact release_worker_handle grant_credit note_lossy_drops
    open_stream stream_item
act-closed c (Action.feed bytes) s closed = ground arith
act-closed c Action.end_of_input s closed = ground arith
act-closed c (Action.tick now_ms) s closed = ground arith
act-closed c (Action.call_worker method payload deadline_ms stream) s closed = ground arith
act-closed c (Action.cancel call_id target) s closed = ground arith
act-closed c (Action.reply_to_worker call_id outcome) s closed = ground arith
act-closed c (Action.mint_capability_handle minted_for) s closed = ground arith
act-closed c (Action.offer_artifact minted_for bytes media_type) s closed = ground arith
act-closed c (Action.release_worker_handle handle kind) s closed = ground arith
act-closed c (Action.grant_credit call_id additional) s closed = ground arith
act-closed c (Action.note_lossy_drops call_id dropped) s closed = ground arith
act-closed c (Action.open_stream call_id credit) s closed = ground arith
act-closed c (Action.stream_item call_id class more payload) s closed = ground arith

-- Over every history of fewer than 2 ^ 64 - 1 inputs and calls of the interface, from a new
-- session: when the session is closed, no call is in flight in either direction, no handle is held,
-- no release waits, and each host call that was ever started has exactly one terminal among the
-- events.
pub run-closed :
    (c : Codec) (config : SessionConfig) (actions : List Action) (id : CallId)
    → length actions + 1 < 2 ^ 64
    → is_closed (run c actions (new config)).phase ≡ true
    → let s = run c actions (new config) in IsEmpty s × (terminals id s.events ≡ started id s)
unfolding new contains
run-closed c config actions id room closed =
    let t = run c actions (new config) in
    let empty = run-new-IsIdle c config actions (closed-is-inactive t closed) in
    (empty, ground (arith, run-terminals c config actions id room, empty.no_host_calls))
  where
    closed-is-inactive : (t : HostSession) → is_closed t.phase ≡ true → is_active t.phase ≡ false
    closed-is-inactive t h = ground arith
