-- ===== src/Ipc/Session/Refusals.antt =====
-- Refusals by the embedding host's interface of crates/yah-plugin-ipc/src/session: an `Err` leaves
-- the session as it was.
use yet_another_harness.Prelude.{◌≡◌, Option, some, none, Result, ok, err, arith}
use yet_another_harness.Ipc.Session.State.{Codec, HostSession, AppError}
use yet_another_harness.Ipc.Session.Handles.{mint_capability_handle, offer_artifact, insert_handle}
use yet_another_harness.Ipc.Session.Calls.{call_worker, reply_to_worker}
use yet_another_harness.Ipc.Session.Replies.{cancel}
use yet_another_harness.Ipc.Session.Streaming.{
  grant_credit, note_lossy_drops, open_stream, stream_item,
}
use yet_another_harness.Ipc.Session.Release.{release_worker_handle}
use yet_another_harness.Ipc.Session.Actions.{Action, act}

abbrev error_of {ℓ} : {A : Type ℓ} → HostSession × Result A AppError → Option AppError
error_of (s, err e) = some e
error_of (s, ok a) = none

-- The error that the interface returns for an action. An input of the transport or of the clock
-- returns none.
unfoldable pub error_returned : Codec → Action → HostSession → Option AppError
error_returned c (Action.feed bytes) s = none
error_returned c Action.end_of_input s = none
error_returned c (Action.tick now_ms) s = none
error_returned c (Action.call_worker method payload deadline_ms stream) s =
    error_of (call_worker c method payload deadline_ms stream s)
error_returned c (Action.cancel call_id target) s = error_of (cancel call_id target s)
error_returned c (Action.reply_to_worker call_id outcome) s =
    error_of (reply_to_worker c call_id outcome s)
error_returned c (Action.mint_capability_handle minted_for) s =
    error_of (mint_capability_handle minted_for s)
error_returned c (Action.offer_artifact minted_for bytes media_type) s =
    error_of (offer_artifact c minted_for bytes media_type s)
error_returned c (Action.release_worker_handle handle kind) s =
    error_of (release_worker_handle handle kind s)
error_returned c (Action.grant_credit call_id additional) s =
    error_of (grant_credit call_id additional s)
error_returned c (Action.note_lossy_drops call_id dropped) s =
    error_of (note_lossy_drops call_id dropped s)
error_returned c (Action.open_stream call_id credit) s = error_of (open_stream call_id credit s)
error_returned c (Action.stream_item call_id class more payload) s =
    error_of (stream_item c call_id class more payload s)

-- Whatever the interface refuses, it refuses before it changes anything.
pub act-refused :
    (c : Codec) (action : Action) (s : HostSession) (e : AppError)
    → error_returned c action s ≡ some e
    → act c action s ≡ s
unfolding act error_returned call_worker cancel reply_to_worker mint_capability_handle
    offer_artifact insert_handle release_worker_handle grant_credit note_lossy_drops open_stream
    stream_item
act-refused c (Action.feed bytes) s e h = cc
act-refused c Action.end_of_input s e h = cc
act-refused c (Action.tick now_ms) s e h = cc
act-refused c (Action.call_worker method payload deadline_ms stream) s e h = ground arith
act-refused c (Action.cancel call_id target) s e h = ground arith
act-refused c (Action.reply_to_worker call_id outcome) s e h = ground arith
act-refused c (Action.mint_capability_handle minted_for) s e h = ground arith
act-refused c (Action.offer_artifact minted_for bytes media_type) s e h = ground arith
act-refused c (Action.release_worker_handle handle kind) s e h = ground arith
act-refused c (Action.grant_credit call_id additional) s e h = ground arith
act-refused c (Action.note_lossy_drops call_id dropped) s e h = ground arith
act-refused c (Action.open_stream call_id credit) s e h = ground arith
act-refused c (Action.stream_item call_id class more payload) s e h = ground arith
