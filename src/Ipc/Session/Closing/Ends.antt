-- ===== src/Ipc/Session/Closing/Ends.antt =====
-- A failure and a goodbye empty the tables of a session.
use yet_another_harness.Prelude.{
  ◌≡◌, refl, ◌∙◌, Bool-cases, inl, inr, Bool, true, false, List, [], ◌∷◌, arith, Text, mem_nat,
}
use yet_another_harness.Prelude.Map.{Map, contains, keys, contains-remove, contains-lookup}
use yet_another_harness.Ipc.Types.{CallId, HandleId, WireErrorKind, HostMessage, CancelTarget}
use yet_another_harness.Ipc.Session.State.{HostSession, worker_goodbye, push_event, push_outbox}
use yet_another_harness.Ipc.Session.Settle.{
  push_reclaimed, settle_host_call_locally, settle_all, drop_handle, reclaim_each, reclaim_handles,
  reclaim_all_handles, expired, tear_down, fatal, on_goodbye, expire_each, expire_deadlines,
}
use yet_another_harness.Ipc.Session.Closing.{IsEmpty, IsIdle, Stays, Stays-trans, Rests}

contains-keys : {V : Type 0} (m : Map V) (k : CallId) → contains k m ≡ mem_nat k (keys m)
unfolding contains keys
contains-keys [] k = refl
contains-keys ((j, v) ∷ m) k = ground (arith, contains-keys m k)

nothing_contained : {V : Type 0} (m : Map V) → ((k : CallId) → contains k m ≡ false) → m ≡ []
unfolding contains
nothing_contained [] none_in = refl
nothing_contained ((j, v) ∷ m) none_in = ground (arith, none_in j)

-- What settling calls leaves of the session.
record Settled (calls : List CallId) (s t : HostSession) : Type 0 where
  stays : Stays s t
  handles_same : t.handles ≡ s.handles
  left :
      (id : CallId)
      → contains id t.host_calls ≡ true
      → (contains id s.host_calls ≡ true) × (mem_nat id calls ≡ false)

settle_all-Settled :
    (calls : List CallId) (error : WireErrorKind) (reconcile : Bool) (s : HostSession)
    → Settled calls s (settle_all calls error reconcile s)
unfolding settle_all settle_host_call_locally
settle_all-Settled [] error reconcile s = ground arith
settle_all-Settled (call_id ∷ calls) error reconcile s =
    let t = settle_host_call_locally call_id error reconcile s in
    let rest = settle_all-Settled calls error reconcile t in
    record {
      stays = ground (arith, rest.stays);
      handles_same = ground (arith, rest.handles_same);
      left = λ id live. ground (arith, rest.left id live, contains-remove call_id id s.host_calls);
    }

-- What reclaiming handles leaves of the session.
record Reclaimed (handles : List HandleId) (s t : HostSession) : Type 0 where
  stays : Stays s t
  calls_same : t.host_calls ≡ s.host_calls
  left :
      (id : HandleId)
      → contains id t.handles ≡ true
      → (contains id s.handles ≡ true) × (mem_nat id handles ≡ false)

drop_handle-Reclaimed :
    (handle : HandleId) (released : Bool) (s : HostSession)
    → Reclaimed (handle ∷ []) s (drop_handle handle released s)
unfolding drop_handle
drop_handle-Reclaimed handle released s = record {
  stays = ground arith;
  calls_same = ground arith;
  left =
      λ id live. ground (arith, contains-remove handle id s.handles, contains-lookup id s.handles);
}

pub drop_handle-Stays :
    (handle : HandleId) (released : Bool) (s : HostSession)
    → Stays s (drop_handle handle released s)
drop_handle-Stays handle released s = (drop_handle-Reclaimed handle released s).stays

reclaim_each-Reclaimed :
    (handles : List HandleId) (s : HostSession) → Reclaimed handles s (reclaim_each handles s).0
unfolding reclaim_each
reclaim_each-Reclaimed [] s = ground arith
reclaim_each-Reclaimed (handle ∷ handles) s = elim (Bool-cases (contains handle s.handles)) [
  | inl held ↦
      let t = drop_handle handle false s in
      let first = drop_handle-Reclaimed handle false s in
      let rest = reclaim_each-Reclaimed handles t in
      rw held (record {
        stays = Stays-trans first.stays rest.stays;
        calls_same = ground (arith, first.calls_same, rest.calls_same);
        left = λ id live. ground (arith, rest.left id live, first.left id);
      })
  | inr other ↦
      let rest = reclaim_each-Reclaimed handles s in
      rw other (record {
        stays = rest.stays;
        calls_same = rest.calls_same;
        left = λ id live. ground (arith, rest.left id live, other);
      })
]

reclaim_handles-Reclaimed :
    (handles : List HandleId) (s : HostSession) → Reclaimed handles s (reclaim_handles handles s)
unfolding reclaim_handles
reclaim_handles-Reclaimed handles s =
    pushed (reclaim_each handles s) (reclaim_each-Reclaimed handles s)
  where
    pushed :
        (r : HostSession × List HandleId)
        → Reclaimed handles s r.0
        → Reclaimed handles s (push_reclaimed r)
    pushed (t, []) h = h
    pushed (t, handle ∷ rest) h = ground (arith, h.stays, h.calls_same, h.left)

pub reclaim_handles-Stays :
    (handles : List HandleId) (s : HostSession) → Stays s (reclaim_handles handles s)
reclaim_handles-Stays handles s = (reclaim_handles-Reclaimed handles s).stays

-- Whatever was in the tables, nothing is left.
pub tear_down-empties :
    (error : WireErrorKind) (reconcile : Bool) (s : HostSession)
    → IsEmpty (tear_down error reconcile s) × Stays s (tear_down error reconcile s)
unfolding tear_down reclaim_all_handles
tear_down-empties error reconcile s =
    let t = settle_all (keys s.host_calls) error reconcile s in
    let settled = settle_all-Settled (keys s.host_calls) error reconcile s in
    let reclaimed = reclaim_handles-Reclaimed (keys t.handles) t in
    let stays = Stays-trans settled.stays reclaimed.stays in
    (
      record {
        no_host_calls =
            reclaimed.calls_same
            ∙ nothing_contained t.host_calls
                (λ id. ground (arith, settled.left id, contains-keys s.host_calls id));
        no_worker_calls = refl;
        no_handles =
            nothing_contained _
              (λ id. ground (arith, reclaimed.left id, contains-keys t.handles id));
        no_releases = refl;
      },
      record { phase_same = stays.phase_same; decoder_same = stays.decoder_same },
    )

pub fatal-Rests :
    (kind : WireErrorKind) (detail : Text) (s : HostSession)
    → IsIdle s
    → Rests s (fatal kind detail s)
unfolding fatal
fatal-Rests kind detail s idle =
    let (empty, stays) = tear_down-empties WireErrorKind.outcome_unknown true s in
    ground (arith, empty, stays)

pub on_goodbye-Rests : (reason : Text) (s : HostSession) → Rests s (on_goodbye reason s)
unfolding on_goodbye
on_goodbye-Rests reason s =
    let (empty, stays) =
      tear_down-empties WireErrorKind.cancelled false (push_event (worker_goodbye reason) s) in
    ground (arith, empty, stays)

expire_each-Stays : (calls : List CallId) (s : HostSession) → Stays s (expire_each calls s)
unfolding expire_each settle_host_call_locally
expire_each-Stays [] s = ground arith
expire_each-Stays (call_id ∷ calls) s =
    let t = push_outbox (HostMessage.cancel call_id CancelTarget.call) s in
    let rest =
      expire_each-Stays calls
        (settle_host_call_locally call_id WireErrorKind.deadline_exceeded true t) in
    ground (arith, rest)

pub expire_deadlines-Stays : (s : HostSession) → Stays s (expire_deadlines s)
unfolding expire_deadlines
expire_deadlines-Stays s = expire_each-Stays (expired s.now_ms s.host_calls) s
