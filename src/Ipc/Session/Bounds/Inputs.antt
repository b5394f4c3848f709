-- ===== src/Ipc/Session/Bounds/Inputs.antt =====
-- Every input of a session keeps it within its ceilings.
use yet_another_harness.Prelude.{
  ℕ, suc, ◌≡◌, ◌≤◌, true, false, List, arith, leb, length, Text, text, if◌then◌else◌,
}
use yet_another_harness.Prelude.Map.{
  contains, length-insert, length-remove_of_contains, contains-lookup, contains_of_lookup,
}
use yet_another_harness.Ipc.Types.{
  CallId, HandleId, HandleKind, WireErrorKind, Outcome, ArtifactOffer, StreamData, Call,
  WorkerMessage, CancelTarget,
}
use yet_another_harness.Ipc.Session.State.{
  Codec, HostSession, HostCall, WorkerCall, retired_operations, budget_full, as_u32,
}
use yet_another_harness.Ipc.Session.Settle.{fatal}
use yet_another_harness.Ipc.Session.Refuse.{
  push_call_refusal, refuse_worker_call, refuse_worker_call_unspent,
}
use yet_another_harness.Ipc.Session.Reads.{serve_artifact_read}
use yet_another_harness.Ipc.Session.Calls.{on_worker_call, deliver_call}
use yet_another_harness.Ipc.Session.Replies.{
  on_late_reply, settle_reply, on_live_reply, on_worker_reply, on_worker_cancel, remember_offer,
}
use yet_another_harness.Ipc.Session.Streams.{on_stream_open, accept_item, on_stream_data, on_credit}
use yet_another_harness.Ipc.Session.Release.{on_release, on_release_ack}
use yet_another_harness.Ipc.Session.Negotiate.{
  on_pre_negotiation, on_hello, accept_hello, refuse_hello,
}
use yet_another_harness.Ipc.Session.Machine.{dispatch, on_active, on_frame}
use yet_another_harness.Ipc.Session.Cases.{
  on_worker_call_cases, on_live_reply-ok_cases, on_stream_data_cases,
}
use yet_another_harness.Ipc.Session.Bounds.{
  load, IsBounded, Shrinks, Steps, Shrinks-Steps, Shrinks-refl,
}
use yet_another_harness.Ipc.Session.Bounds.Ends.{
  fatal-Shrinks, drop_handle-Shrinks, on_goodbye-Shrinks,
}

fatal-Steps :
    (kind : WireErrorKind) (detail : Text) (s : HostSession)
    → IsBounded s
    → Steps s (fatal kind detail s)
fatal-Steps kind detail s b = Shrinks-Steps b (fatal-Shrinks kind detail s)

-- A refusal spends one id.
refuse_worker_call-Steps :
    (call_id : CallId) (kind : WireErrorKind) (s : HostSession)
    → IsBounded s
    → budget_full s ≡ false
    → Steps s (refuse_worker_call call_id kind s)
unfolding refuse_worker_call push_call_refusal retired_operations
refuse_worker_call-Steps call_id kind s b room =
    ground (arith, length-insert call_id tt s.retired_worker_calls)

serve_artifact_read-Steps :
    (c : Codec) (request : Call) (s : HostSession)
    → IsBounded s
    → budget_full s ≡ false
    → Steps s (serve_artifact_read c request s)
unfolding serve_artifact_read retired_operations
serve_artifact_read-Steps c request s b room =
    grind (arith, refuse_worker_call-Steps, length-insert request.call_id tt s.retired_worker_calls)

refuse_unspent-Shrinks :
    (call_id : CallId) (s : HostSession) → Shrinks s (refuse_worker_call_unspent call_id s)
unfolding refuse_worker_call_unspent push_call_refusal retired_operations
refuse_unspent-Shrinks call_id s = ground arith

deliver_call-Steps :
    (request : Call) (s : HostSession)
    → IsBounded s
    → budget_full s ≡ false
    → leb s.config.ceilings.worker_calls_in_flight (as_u32 (length s.worker_calls)) ≡ false
    → Steps s (deliver_call request s)
unfolding deliver_call retired_operations
deliver_call-Steps request s b room below =
    grind (arith, length-insert {V = WorkerCall} request.call_id)

on_worker_call-Steps :
    (c : Codec) (request : Call) (s : HostSession)
    → IsBounded s
    → Steps s (on_worker_call c request s)
on_worker_call-Steps c request s b =
    on_worker_call_cases (Steps s) c request s (fatal-Steps _ _ s b)
      (Shrinks-Steps b (refuse_unspent-Shrinks request.call_id s))
      (λ room. refuse_worker_call-Steps _ _ s b room)
      (λ room. refuse_worker_call-Steps _ _ s b room)
      (λ room. serve_artifact_read-Steps c request s b room)
      (λ fresh room below. deliver_call-Steps request s b room below)

on_late_reply-Steps :
    (outcome : Outcome) (s : HostSession) → IsBounded s → Steps s (on_late_reply outcome s)
unfolding on_late_reply retired_operations
on_late_reply-Steps (Outcome.spilled offer) s b =
    grind
      (arith, fatal-Steps, length-insert offer.handle HandleKind.artifact s.offered_worker_handles)
on_late_reply-Steps _ s b = Shrinks-Steps b (Shrinks-refl s)

-- A terminal takes its call off the table and spends its id.
settle_reply-Shrinks :
    (call_id : CallId) (outcome : Outcome) (s : HostSession)
    → contains call_id s.host_calls ≡ true
    → suc (load (settle_reply call_id outcome s)) ≤ load s
      × Shrinks s (settle_reply call_id outcome s)
unfolding settle_reply retired_operations
settle_reply-Shrinks call_id outcome s live = ground (
  arith,
  length-remove_of_contains call_id s.host_calls,
  length-insert call_id tt s.retired_host_calls,
)

-- A remembered offer changes one table alone, and adds nothing if it is there already.
remember_offer-load :
    (offer : ArtifactOffer) (s : HostSession)
    → load (remember_offer offer s)
      ≡ (if contains offer.handle s.offered_worker_handles then load s else suc (load s))
unfolding remember_offer retired_operations
remember_offer-load offer s =
    ground (arith, length-insert offer.handle HandleKind.artifact s.offered_worker_handles)

on_live_reply-Steps :
    (c : Codec) (call_id : CallId) (outcome : Outcome) (s : HostSession)
    → IsBounded s
    → contains call_id s.host_calls ≡ true
    → Steps s (on_live_reply c call_id outcome s)
unfolding on_live_reply
on_live_reply-Steps c call_id (Outcome.ok result) s b live =
    on_live_reply-ok_cases (Steps s) c call_id result s (fatal-Steps _ _ s b)
      (Shrinks-Steps b (settle_reply-Shrinks call_id _ s live).1)
on_live_reply-Steps c call_id (Outcome.spilled offer) s b live =
    let t = remember_offer offer s in
    let settled =
      settle_reply-Shrinks call_id (Outcome.spilled offer) t (unfold remember_offer in live) in
    grind (
      arith,
      fatal-Steps,
      fatal-Shrinks WireErrorKind.unknown_handle (text "spilled offer reuses a worker handle id") t,
      settled,
      remember_offer-load offer s,
    )
on_live_reply-Steps c call_id _ s b live = Shrinks-Steps b (settle_reply-Shrinks call_id _ s live).1

on_worker_reply-Steps :
    (c : Codec) (call_id : CallId) (outcome : Outcome) (s : HostSession)
    → IsBounded s
    → Steps s (on_worker_reply c call_id outcome s)
unfolding on_worker_reply
on_worker_reply-Steps c call_id outcome s b =
    grind (arith, fatal-Steps, on_live_reply-Steps, on_late_reply-Steps)

on_worker_cancel-Steps :
    (call_id : CallId) (target : CancelTarget) (s : HostSession)
    → IsBounded s
    → Steps s (on_worker_cancel call_id target s)
unfolding on_worker_cancel retired_operations
on_worker_cancel-Steps call_id target s b = ground arith

on_stream_open-Steps :
    (call_id : CallId) (credit : ℕ) (s : HostSession)
    → IsBounded s
    → Steps s (on_stream_open call_id credit s)
unfolding on_stream_open retired_operations
on_stream_open-Steps call_id credit s b =
    grind (
      arith,
      fatal-Steps,
      contains-lookup call_id s.host_calls,
      length-insert {V = HostCall} call_id,
    )

accept_item-Steps :
    (item : StreamData) (credit_left : ℕ) (state : HostCall) (s : HostSession)
    → IsBounded s
    → contains item.call_id s.host_calls ≡ true
    → Steps s (accept_item item credit_left state s)
unfolding accept_item retired_operations
accept_item-Steps item credit_left state s b live =
    grind (arith, length-insert {V = HostCall} item.call_id)

on_stream_data-Steps :
    (c : Codec) (item : StreamData) (s : HostSession)
    → IsBounded s
    → Steps s (on_stream_data c item s)
on_stream_data-Steps c item s b =
    on_stream_data_cases (Steps s) c item s (λ kind detail. fatal-Steps kind detail s b)
      (Shrinks-Steps b (Shrinks-refl s))
      (λ state left h. accept_item-Steps item left state s b (contains_of_lookup _ _ h))

on_credit-Steps :
    (call_id : CallId) (additional : ℕ) (s : HostSession)
    → IsBounded s
    → Steps s (on_credit call_id additional s)
unfolding on_credit retired_operations
on_credit-Steps call_id additional s b = grind (
  arith,
  fatal-Steps,
  contains-lookup call_id s.worker_calls,
  length-insert {V = WorkerCall} call_id,
)

on_release-Steps :
    (handle : HandleId) (kind : HandleKind) (s : HostSession)
    → IsBounded s
    → Steps s (on_release handle kind s)
unfolding on_release retired_operations
on_release-Steps handle kind s b = grind (
  arith,
  fatal-Steps,
  drop_handle-Shrinks handle true s,
  contains-lookup handle s.reclaimed_handles,
  length-remove_of_contains handle s.reclaimed_handles,
  length-insert handle tt s.retired_handles,
)

on_release_ack-Steps :
    (handle : HandleId) (kind : HandleKind) (s : HostSession)
    → IsBounded s
    → Steps s (on_release_ack handle kind s)
unfolding on_release_ack retired_operations
on_release_ack-Steps handle kind s b = grind (
  arith,
  fatal-Steps,
  contains-lookup handle s.pending_worker_releases,
  length-remove_of_contains handle s.pending_worker_releases,
  length-insert handle tt s.retired_worker_handles,
)

on_pre_negotiation-Steps :
    (c : Codec) (message : WorkerMessage) (s : HostSession)
    → IsBounded s
    → Steps s (on_pre_negotiation c message s)
unfolding on_pre_negotiation on_hello accept_hello refuse_hello retired_operations
on_pre_negotiation-Steps c message s b = ground arith

dispatch-Steps :
    (c : Codec) (message : WorkerMessage) (s : HostSession)
    → IsBounded s
    → Steps s (dispatch c message s)
unfolding dispatch
dispatch-Steps c (WorkerMessage.hello h) s b = fatal-Steps _ _ s b
dispatch-Steps c (WorkerMessage.call request) s b = on_worker_call-Steps c request s b
dispatch-Steps c (WorkerMessage.reply call_id outcome) s b =
    on_worker_reply-Steps c call_id outcome s b
dispatch-Steps c (WorkerMessage.stream_open call_id credit) s b =
    on_stream_open-Steps call_id credit s b
dispatch-Steps c (WorkerMessage.stream_data item) s b = on_stream_data-Steps c item s b
dispatch-Steps c (WorkerMessage.credit call_id additional) s b =
    on_credit-Steps call_id additional s b
dispatch-Steps c (WorkerMessage.cancel call_id target) s b =
    on_worker_cancel-Steps call_id target s b
dispatch-Steps c (WorkerMessage.release handle kind) s b = on_release-Steps handle kind s b
dispatch-Steps c (WorkerMessage.release_ack handle kind) s b = on_release_ack-Steps handle kind s b
dispatch-Steps c (WorkerMessage.goodbye reason) s b = Shrinks-Steps b (on_goodbye-Shrinks reason s)

pub on_frame-Steps :
    (c : Codec) (raw : List ℕ) (s : HostSession) → IsBounded s → Steps s (on_frame c raw s)
unfolding on_frame on_active
on_frame-Steps c raw s b =
    grind
      (arith, fatal-Steps, dispatch-Steps, on_pre_negotiation-Steps, Shrinks-refl, Shrinks-Steps)
