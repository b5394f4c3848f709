-- ===== src/Ipc/Session/Bounds/Interface.antt =====
-- Every call of the embedding host's interface keeps a session within its ceilings.
use yet_another_harness.Prelude.{ℕ, ◌≡◌, Bool, true, false, ltb, List, Option, arith, length, Text}
use yet_another_harness.Prelude.Map.{
  contains, length-insert, length-remove_of_contains, contains-lookup,
}
use yet_another_harness.Ipc.Types.{
  CallId, HandleId, HandleKind, CancelTarget, StreamClass, Outcome, Value,
}
use yet_another_harness.Ipc.Session.State.{
  Codec, HostSession, HostCall, WorkerCall, Handle, retired_operations, budget_full, as_u32,
}
use yet_another_harness.Ipc.Session.Handles.{mint_capability_handle, offer_artifact}
use yet_another_harness.Ipc.Session.Calls.{call_worker, finish_reply, reply_to_worker}
use yet_another_harness.Ipc.Session.Replies.{cancel}
use yet_another_harness.Ipc.Session.Streaming.{
  grant_credit, note_lossy_drops, open_stream, stream_item,
}
use yet_another_harness.Ipc.Session.Release.{ask_release, release_worker_handle}
use yet_another_harness.Ipc.Session.Cases.{reply_to_worker_cases, release_worker_handle_cases}
use yet_another_harness.Ipc.Session.Bounds.{IsBounded, Shrinks, Steps, Shrinks-Steps, Shrinks-refl}
use yet_another_harness.Ipc.Session.Bounds.Ends.{reclaim_handles-Shrinks}

pub call_worker-Steps :
    (c : Codec) (method : Text) (payload : Value) (deadline_ms : Option ℕ) (stream : Bool)
    (s : HostSession)
    → IsBounded s
    → Steps s (call_worker c method payload deadline_ms stream s).0
unfolding call_worker retired_operations
call_worker-Steps c method payload deadline_ms stream s b =
    grind (arith, length-insert {V = HostCall} s.next_host_call)

pub cancel-Steps :
    (call_id : CallId) (target : CancelTarget) (s : HostSession)
    → IsBounded s
    → Steps s (cancel call_id target s).0
unfolding cancel retired_operations
cancel-Steps call_id target s b =
    grind (arith, contains-lookup call_id s.host_calls, length-insert {V = HostCall} call_id)

finish_reply-Shrinks :
    (call_id : CallId) (state : WorkerCall) (outcome : Outcome) (s : HostSession)
    → contains call_id s.worker_calls ≡ true
    → Shrinks s (finish_reply call_id state outcome s)
unfolding finish_reply retired_operations
finish_reply-Shrinks call_id state outcome s live = grind (
  arith,
  reclaim_handles-Shrinks,
  length-remove_of_contains call_id s.worker_calls,
  length-insert call_id tt s.retired_worker_calls,
)

pub reply_to_worker-Steps :
    (c : Codec) (call_id : CallId) (outcome : Outcome) (s : HostSession)
    → IsBounded s
    → Steps s (reply_to_worker c call_id outcome s).0
reply_to_worker-Steps c call_id outcome s b =
    reply_to_worker_cases (Steps s) c call_id outcome s (Shrinks-Steps b (Shrinks-refl s))
      λ state sent live. Shrinks-Steps b (finish_reply-Shrinks call_id state sent s live)

pub mint-Steps :
    (minted_for : CallId) (s : HostSession)
    → IsBounded s
    → Steps s (mint_capability_handle minted_for s).0
unfolding mint_capability_handle retired_operations
mint-Steps minted_for s b = grind (
  arith,
  contains-lookup minted_for s.worker_calls,
  length-insert {V = WorkerCall} minted_for,
  length-insert {V = Handle} s.next_handle,
)

pub offer-Steps :
    (c : Codec) (minted_for : CallId) (bytes : List ℕ) (media_type : Text) (s : HostSession)
    → IsBounded s
    → Steps s (offer_artifact c minted_for bytes media_type s).0
unfolding offer_artifact retired_operations
offer-Steps c minted_for bytes media_type s b = grind (
  arith,
  contains-lookup minted_for s.worker_calls,
  length-insert {V = WorkerCall} minted_for,
  length-insert {V = Handle} s.next_handle,
)

ask_release-Steps :
    (handle : HandleId) (kind : HandleKind) (s : HostSession)
    → IsBounded s
    → budget_full s ≡ false
    → ltb (as_u32 (length s.pending_worker_releases)) s.config.ceilings.live_handles ≡ true
    → Steps s (ask_release handle kind s)
unfolding ask_release retired_operations
ask_release-Steps handle kind s b room below =
    ground (arith, length-insert handle kind s.pending_worker_releases)

pub release_worker_handle-Steps :
    (handle : HandleId) (kind : HandleKind) (s : HostSession)
    → IsBounded s
    → Steps s (release_worker_handle handle kind s).0
release_worker_handle-Steps handle kind s b =
    release_worker_handle_cases (Steps s) handle kind s (Shrinks-Steps b (Shrinks-refl s))
      (λ room below. ask_release-Steps handle kind s b room below)

pub grant_credit-Steps :
    (call_id : CallId) (additional : ℕ) (s : HostSession)
    → IsBounded s
    → Steps s (grant_credit call_id additional s).0
unfolding grant_credit retired_operations
grant_credit-Steps call_id additional s b =
    grind (arith, contains-lookup call_id s.host_calls, length-insert {V = HostCall} call_id)

pub note_lossy_drops-Steps :
    (call_id : CallId) (dropped : ℕ) (s : HostSession)
    → IsBounded s
    → Steps s (note_lossy_drops call_id dropped s).0
unfolding note_lossy_drops retired_operations
note_lossy_drops-Steps call_id dropped s b =
    grind (arith, contains-lookup call_id s.worker_calls, length-insert {V = WorkerCall} call_id)

pub open_stream-Steps :
    (call_id : CallId) (credit : ℕ) (s : HostSession)
    → IsBounded s
    → Steps s (open_stream call_id credit s).0
unfolding open_stream retired_operations
open_stream-Steps call_id credit s b =
    grind (arith, contains-lookup call_id s.worker_calls, length-insert {V = WorkerCall} call_id)

pub stream_item-Steps :
    (c : Codec) (call_id : CallId) (class : StreamClass) (more : Bool) (payload : Value)
    (s : HostSession)
    → IsBounded s
    → Steps s (stream_item c call_id class more payload s).0
unfolding stream_item retired_operations
stream_item-Steps c call_id class more payload s b =
    grind (arith, contains-lookup call_id s.worker_calls, length-insert {V = WorkerCall} call_id)
