-- ===== src/Ipc/Session/Actions.antt =====
-- What can happen to a session of crates/yah-plugin-ipc/src/session: an input from the transport or
-- the clock, or a call of the embedding host's interface. The two drains are left out, so that the
-- outbox and the events hold all that the session ever said.
use yet_another_harness.Prelude.{ℕ, Bool, List, [], ◌∷◌, Option, Text}
use yet_another_harness.Ipc.Types.{
  CallId, HandleId, HandleKind, CancelTarget, StreamClass, Outcome, Value,
}
use yet_another_harness.Ipc.Session.State.{Codec, HostSession}
use yet_another_harness.Ipc.Session.Handles
use yet_another_harness.Ipc.Session.Calls
use yet_another_harness.Ipc.Session.Replies
use yet_another_harness.Ipc.Session.Streaming
use yet_another_harness.Ipc.Session.Release
use yet_another_harness.Ipc.Session.Machine

pub data Action : Type 0 where
  feed : List ℕ → Action
  end_of_input : Action
  tick : ℕ → Action
  call_worker : Text → Value → Option ℕ → Bool → Action
  cancel : CallId → CancelTarget → Action
  reply_to_worker : CallId → Outcome → Action
  mint_capability_handle : CallId → Action
  offer_artifact : CallId → List ℕ → Text → Action
  release_worker_handle : HandleId → HandleKind → Action
  grant_credit : CallId → ℕ → Action
  note_lossy_drops : CallId → ℕ → Action
  open_stream : CallId → ℕ → Action
  stream_item : CallId → StreamClass → Bool → Value → Action

unfoldable pub act : Codec → Action → HostSession → HostSession
act c (feed bytes) s = Machine.feed c bytes s
act c end_of_input s = Machine.end_of_input s
act c (tick now_ms) s = Machine.tick now_ms s
act c (call_worker method payload deadline_ms stream) s =
    (Calls.call_worker c method payload deadline_ms stream s).0
act c (cancel call_id target) s = (Replies.cancel call_id target s).0
act c (reply_to_worker call_id outcome) s = (Calls.reply_to_worker c call_id outcome s).0
act c (mint_capability_handle minted_for) s = (Handles.mint_capability_handle minted_for s).0
act c (offer_artifact minted_for bytes media_type) s =
    (Handles.offer_artifact c minted_for bytes media_type s).0
act c (release_worker_handle handle kind) s = (Release.release_worker_handle handle kind s).0
act c (grant_credit call_id additional) s = (Streaming.grant_credit call_id additional s).0
act c (note_lossy_drops call_id dropped) s = (Streaming.note_lossy_drops call_id dropped s).0
act c (open_stream call_id credit) s = (Streaming.open_stream call_id credit s).0
act c (stream_item call_id class more payload) s =
    (Streaming.stream_item c call_id class more payload s).0

unfoldable pub run : Codec → List Action → HostSession → HostSession
run c [] s = s
run c (action ∷ actions) s = run c actions (act c action s)
