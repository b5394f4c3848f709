-- ===== src/Ipc/Session/Settlement/Ledger.antt =====
-- The ledger of host calls over any history of a session.
use yet_another_harness.Prelude.{
  ℕ, ◌+◌, ◌^◌, ◌≤◌, ◌<◌, ◌≡◌, Bool, List, [], ◌∷◌, Option, arith, ◌&&◌, leb, ltb, if◌then◌else◌,
  length, Text,
}
use yet_another_harness.Prelude.Map.{contains, contains-insert, contains-lookup}
use yet_another_harness.Ipc.Types.{
  CallId, HandleId, HandleKind, CancelTarget, StreamClass, Outcome, Value,
}
use yet_another_harness.Ipc.Session.State.{Codec, HostSession, HostCall, SessionConfig, new}
use yet_another_harness.Ipc.Session.Handles.{mint_capability_handle, offer_artifact}
use yet_another_harness.Ipc.Session.Calls.{call_worker, finish_reply, reply_to_worker}
use yet_another_harness.Ipc.Session.Replies.{cancel}
use yet_another_harness.Ipc.Session.Streaming.{
  grant_credit, note_lossy_drops, open_stream, stream_item,
}
use yet_another_harness.Ipc.Session.Release.{ask_release, release_worker_handle}
use yet_another_harness.Ipc.Session.Actions.{Action, act, run}
use yet_another_harness.Ipc.Session.Settlement.{Keeps, owed, terminals}
use yet_another_harness.Ipc.Session.Settlement.Ends.{reclaim_handles-Keeps}
use yet_another_harness.Ipc.Session.Settlement.Inputs.{feed-Keeps, end_of_input-Keeps, tick-Keeps}

module _ (id : CallId) where
  cancel-Keeps :
      (call_id : CallId) (target : CancelTarget) (s : HostSession)
      → Keeps id s (cancel call_id target s).0
  unfolding cancel
  cancel-Keeps call_id target s =
      grind (arith, contains-lookup call_id s.host_calls, contains-insert {V = HostCall} call_id id)

  grant_credit-Keeps :
      (call_id : CallId) (additional : ℕ) (s : HostSession)
      → Keeps id s (grant_credit call_id additional s).0
  unfolding grant_credit
  grant_credit-Keeps call_id additional s =
      grind (arith, contains-lookup call_id s.host_calls, contains-insert {V = HostCall} call_id id)

  reply_to_worker-Keeps :
      (c : Codec) (call_id : CallId) (outcome : Outcome) (s : HostSession)
      → Keeps id s (reply_to_worker c call_id outcome s).0
  unfolding reply_to_worker finish_reply
  reply_to_worker-Keeps c call_id outcome s = grind (arith, reclaim_handles-Keeps id)

  mint-Keeps :
      (minted_for : CallId) (s : HostSession) → Keeps id s (mint_capability_handle minted_for s).0
  unfolding mint_capability_handle
  mint-Keeps minted_for s = ground arith

  offer-Keeps :
      (c : Codec) (minted_for : CallId) (bytes : List ℕ) (media_type : Text) (s : HostSession)
      → Keeps id s (offer_artifact c minted_for bytes media_type s).0
  unfolding offer_artifact
  offer-Keeps c minted_for bytes media_type s = ground arith

  release_worker_handle-Keeps :
      (handle : HandleId) (kind : HandleKind) (s : HostSession)
      → Keeps id s (release_worker_handle handle kind s).0
  unfolding release_worker_handle ask_release
  release_worker_handle-Keeps handle kind s = ground arith

  note_lossy_drops-Keeps :
      (call_id : CallId) (dropped : ℕ) (s : HostSession)
      → Keeps id s (note_lossy_drops call_id dropped s).0
  unfolding note_lossy_drops
  note_lossy_drops-Keeps call_id dropped s = ground arith

  open_stream-Keeps :
      (call_id : CallId) (credit : ℕ) (s : HostSession)
      → Keeps id s (open_stream call_id credit s).0
  unfolding open_stream
  open_stream-Keeps call_id credit s = ground arith

  stream_item-Keeps :
      (c : Codec) (call_id : CallId) (class : StreamClass) (more : Bool) (payload : Value)
      (s : HostSession)
      → Keeps id s (stream_item c call_id class more payload s).0
  unfolding stream_item
  stream_item-Keeps c call_id class more payload s = ground arith

-- One for an id that `call_worker` has handed out, else none.
abbrev pub started : CallId → HostSession → ℕ
started id s = if leb 1 id && ltb id s.next_host_call then 1 else 0

abbrev pub Ledger : HostSession → Type 0
Ledger s = (1 ≤ s.next_host_call) × ((id : CallId) → owed id s ≡ started id s)

-- A step that keeps the ledger, and hands out one id at most.
abbrev Books : HostSession → HostSession → Type 0
Books s t = (Ledger s → Ledger t) × (t.next_host_call ≤ s.next_host_call + 1)

Keeps-Books : (s t : HostSession) → ((id : CallId) → Keeps id s t) → Books s t
Keeps-Books s t keeps = (
  λ ledger. (omega (arith, keeps 0, ledger.0), λ id. ground (arith, keeps id, ledger.1 id)),
  omega (arith, keeps 0),
)

call_worker-Ledger :
    (c : Codec) (method : Text) (payload : Value) (deadline_ms : Option ℕ) (stream : Bool)
    (s : HostSession)
    → s.next_host_call + 1 < 2 ^ 64
    → Ledger s
    → Ledger (call_worker c method payload deadline_ms stream s).0
unfolding call_worker
call_worker-Ledger c method payload deadline_ms stream s room ledger = (
  ground arith,
  λ id. grind (arith, ledger.1 id, contains-insert {V = HostCall} s.next_host_call id),
)

call_worker-next :
    (c : Codec) (method : Text) (payload : Value) (deadline_ms : Option ℕ) (stream : Bool)
    (s : HostSession)
    → s.next_host_call + 1 < 2 ^ 64
    → (call_worker c method payload deadline_ms stream s).0.next_host_call ≤ s.next_host_call + 1
unfolding call_worker
call_worker-next c method payload deadline_ms stream s room = ground arith

act-Books :
    (c : Codec) (action : Action) (s : HostSession)
    → s.next_host_call + 1 < 2 ^ 64
    → Books s (act c action s)
unfolding act
act-Books c (Action.feed bytes) s room = Keeps-Books s _ (λ id. feed-Keeps id c bytes s)
act-Books c Action.end_of_input s room = Keeps-Books s _ (λ id. end_of_input-Keeps id s)
act-Books c (Action.tick now_ms) s room = Keeps-Books s _ (λ id. tick-Keeps id now_ms s)
act-Books c (Action.call_worker method payload deadline_ms stream) s room = (
  call_worker-Ledger c method payload deadline_ms stream s room,
  call_worker-next c method payload deadline_ms stream s room,
)
act-Books c (Action.cancel call_id target) s room =
    Keeps-Books s _ (λ id. cancel-Keeps id call_id target s)
act-Books c (Action.reply_to_worker call_id outcome) s room =
    Keeps-Books s _ (λ id. reply_to_worker-Keeps id c call_id outcome s)
act-Books c (Action.mint_capability_handle minted_for) s room =
    Keeps-Books s _ (λ id. mint-Keeps id minted_for s)
act-Books c (Action.offer_artifact minted_for bytes media_type) s room =
    Keeps-Books s _ (λ id. offer-Keeps id c minted_for bytes media_type s)
act-Books c (Action.release_worker_handle handle kind) s room =
    Keeps-Books s _ (λ id. release_worker_handle-Keeps id handle kind s)
act-Books c (Action.grant_credit call_id additional) s room =
    Keeps-Books s _ (λ id. grant_credit-Keeps id call_id additional s)
act-Books c (Action.note_lossy_drops call_id dropped) s room =
    Keeps-Books s _ (λ id. note_lossy_drops-Keeps id call_id dropped s)
act-Books c (Action.open_stream call_id credit) s room =
    Keeps-Books s _ (λ id. open_stream-Keeps id call_id credit s)
act-Books c (Action.stream_item call_id class more payload) s room =
    Keeps-Books s _ (λ id. stream_item-Keeps id c call_id class more payload s)

run-Ledger :
    (c : Codec) (actions : List Action) (s : HostSession)
    → s.next_host_call + length actions < 2 ^ 64
    → Ledger s
    → Ledger (run c actions s)
unfolding run
run-Ledger c [] s room ledger = ledger
run-Ledger c (action ∷ actions) s room ledger =
    let (books, next) = act-Books c action s (omega arith) in
    run-Ledger c actions (act c action s) (omega arith) (books ledger)

new-Ledger : (config : SessionConfig) → Ledger (new config)
unfolding new contains
new-Ledger config = (omega arith, λ id. ground arith)

-- Over every history of fewer than 2 ^ 64 - 1 inputs and calls of the interface, from a new
-- session: each host call id that was handed out is owed exactly one terminal, so that the events
-- hold none if the call is in flight and one if it is not, and an id that was not handed out has
-- none.
pub run-terminals :
    (c : Codec) (config : SessionConfig) (actions : List Action) (id : CallId)
    → length actions + 1 < 2 ^ 64
    → let s = run c actions (new config) in
      terminals id s.events + (if contains id s.host_calls then 1 else 0) ≡ started id s
run-terminals c config actions id room =
    (run-Ledger c actions (new config) (unfold new in omega arith) (new-Ledger config)).1 id
