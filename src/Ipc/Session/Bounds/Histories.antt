-- ===== src/Ipc/Session/Bounds/Histories.antt =====
-- The ceilings of a session, and the budget of its correlation memory, over any history.
use yet_another_harness.Prelude.{ℕ, ◌+◌, ◌*◌, ◌≤◌, ◌≡◌, List, [], ◌∷◌, arith, some}
use yet_another_harness.Ipc.Session.State.{
  Codec, HostSession, SessionConfig, new, retired_operations,
}
use yet_another_harness.Ipc.Session.Machine.{on_frame, feed, end_of_input, tick}
use yet_another_harness.Ipc.Session.Cases.{feed_keeps}
use yet_another_harness.Ipc.Session.Actions.{Action, act, run}
use yet_another_harness.Ipc.Session.Bounds.{
  AreWords, IsBounded, Shrinks, Shrinks-Steps, Shrinks-refl, IsReckoned, Steps-IsReckoned,
}
use yet_another_harness.Ipc.Session.Bounds.Ends.{fatal-Shrinks, expire_deadlines-Shrinks}
use yet_another_harness.Ipc.Session.Bounds.Inputs.{on_frame-Steps}
use yet_another_harness.Ipc.Session.Bounds.Interface.{
  call_worker-Steps, cancel-Steps, reply_to_worker-Steps, mint-Steps, offer-Steps,
  release_worker_handle-Steps, grant_credit-Steps, note_lossy_drops-Steps, open_stream-Steps,
  stream_item-Steps,
}

on_frame-IsReckoned :
    {config : SessionConfig} (c : Codec) (raw : List ℕ) (s : HostSession)
    → IsReckoned config s
    → IsReckoned config (on_frame c raw s)
on_frame-IsReckoned c raw s r = Steps-IsReckoned r (on_frame-Steps c raw s r.bounded)

Shrinks-IsReckoned :
    {config : SessionConfig} {s t : HostSession}
    → IsReckoned config s
    → Shrinks s t
    → IsReckoned config t
Shrinks-IsReckoned r h = Steps-IsReckoned r (Shrinks-Steps r.bounded h)

feed-IsReckoned :
    {config : SessionConfig} (c : Codec) (bytes : List ℕ) (s : HostSession)
    → IsReckoned config s
    → IsReckoned config (feed c bytes s)
unfolding retired_operations
feed-IsReckoned {config} c bytes =
    feed_keeps (IsReckoned config) c
      (λ d s r. record { config_same = r.config_same; bounded = ground arith; within = r.within })
      (λ kind detail s r. Shrinks-IsReckoned r (fatal-Shrinks kind detail s))
      (on_frame-IsReckoned c) bytes

end_of_input-Shrinks : (s : HostSession) → Shrinks s (end_of_input s)
unfolding end_of_input
end_of_input-Shrinks s = grind (arith, fatal-Shrinks, Shrinks-refl)

tick-IsReckoned :
    {config : SessionConfig} (now_ms : ℕ) (s : HostSession)
    → IsReckoned config s
    → IsReckoned config (tick now_ms s)
unfolding tick retired_operations
tick-IsReckoned now_ms s r = grind (arith, expire_deadlines-Shrinks, Shrinks-IsReckoned)

act-IsReckoned :
    {config : SessionConfig} (c : Codec) (action : Action) (s : HostSession)
    → IsReckoned config s
    → IsReckoned config (act c action s)
unfolding act
act-IsReckoned c (Action.feed bytes) s r = feed-IsReckoned c bytes s r
act-IsReckoned c Action.end_of_input s r = Shrinks-IsReckoned r (end_of_input-Shrinks s)
act-IsReckoned c (Action.tick now_ms) s r = tick-IsReckoned now_ms s r
act-IsReckoned c (Action.call_worker method payload deadline_ms stream) s r =
    Steps-IsReckoned r (call_worker-Steps c method payload deadline_ms stream s r.bounded)
act-IsReckoned c (Action.cancel call_id target) s r =
    Steps-IsReckoned r (cancel-Steps call_id target s r.bounded)
act-IsReckoned c (Action.reply_to_worker call_id outcome) s r =
    Steps-IsReckoned r (reply_to_worker-Steps c call_id outcome s r.bounded)
act-IsReckoned c (Action.mint_capability_handle minted_for) s r =
    Steps-IsReckoned r (mint-Steps minted_for s r.bounded)
act-IsReckoned c (Action.offer_artifact minted_for bytes media_type) s r =
    Steps-IsReckoned r (offer-Steps c minted_for bytes media_type s r.bounded)
act-IsReckoned c (Action.release_worker_handle handle kind) s r =
    Steps-IsReckoned r (release_worker_handle-Steps handle kind s r.bounded)
act-IsReckoned c (Action.grant_credit call_id additional) s r =
    Steps-IsReckoned r (grant_credit-Steps call_id additional s r.bounded)
act-IsReckoned c (Action.note_lossy_drops call_id dropped) s r =
    Steps-IsReckoned r (note_lossy_drops-Steps call_id dropped s r.bounded)
act-IsReckoned c (Action.open_stream call_id credit) s r =
    Steps-IsReckoned r (open_stream-Steps call_id credit s r.bounded)
act-IsReckoned c (Action.stream_item call_id class more payload) s r =
    Steps-IsReckoned r (stream_item-Steps c call_id class more payload s r.bounded)

run-IsReckoned :
    {config : SessionConfig} (c : Codec) (actions : List Action) (s : HostSession)
    → IsReckoned config s
    → IsReckoned config (run c actions s)
unfolding run
run-IsReckoned c [] s r = r
run-IsReckoned c (action ∷ actions) s r =
    run-IsReckoned c actions (act c action s) (act-IsReckoned c action s r)

new-IsReckoned :
    (config : SessionConfig) → AreWords config.ceilings → IsReckoned config (new config)
unfolding new retired_operations
new-IsReckoned config words = ground arith

-- Over every history of inputs and calls of the interface, from a new session whose ceilings are
-- 32-bit words: the calls in flight, in both directions, the handles that the worker holds with
-- their gauge, and the releases that wait for the worker are within the ceilings.
pub run-IsBounded :
    (c : Codec) (config : SessionConfig) (actions : List Action)
    → AreWords config.ceilings
    → let s = run c actions (new config) in (s.config ≡ config) × IsBounded s
run-IsBounded c config actions words =
    let r = run-IsReckoned c actions (new config) (new-IsReckoned config words) in
    (r.config_same, r.bounded)

-- Over the same histories, with a budget of retired operations: the correlation entries that the
-- session holds never exceed the budget by more than one filling of its tables, which is the
-- calls of the worker, twice the calls of the host and twice the handles that its ceilings admit.
pub run-retired_operations :
    (c : Codec) (config : SessionConfig) (actions : List Action) (budget : ℕ)
    → AreWords config.ceilings
    → config.retired_operation_budget ≡ some budget
    → retired_operations (run c actions (new config))
      ≤ budget
        + config.ceilings.worker_calls_in_flight
        + 2 * config.ceilings.host_calls_in_flight
        + 2 * config.ceilings.live_handles
run-retired_operations c config actions budget words given =
    let r = run-IsReckoned c actions (new config) (new-IsReckoned config words) in
    omega (arith, r.within budget given)
