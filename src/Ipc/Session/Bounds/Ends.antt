-- ===== src/Ipc/Session/Bounds/Ends.antt =====
-- Ends of calls and handles only shrink the tables.
use yet_another_harness.Prelude.{
  Bool-cases, inl, inr, Bool, true, false, List, [], ◌∷◌, arith, Text,
}
use yet_another_harness.Prelude.Map.{
  contains, keys, length-insert, length-remove_of_contains, contains-lookup,
}
use yet_another_harness.Ipc.Types.{
  CallId, HandleId, HandleKind, WireErrorKind, HostMessage, CancelTarget,
}
use yet_another_harness.Ipc.Session.State.{
  HostSession, worker_goodbye, push_event, push_outbox, retired_operations,
}
use yet_another_harness.Ipc.Session.Settle.{
  settle_host_call_locally, settle_all, drop_handle, reclaim_each, push_reclaimed, reclaim_handles,
  reclaim_all_handles, tear_down, fatal, on_goodbye, expired, expire_each, expire_deadlines,
}
use yet_another_harness.Ipc.Session.Bounds.{Shrinks, Shrinks-refl, Shrinks-trans}

pub settle-Shrinks :
    (call_id : CallId) (error : WireErrorKind) (reconcile : Bool) (s : HostSession)
    → Shrinks s (settle_host_call_locally call_id error reconcile s)
unfolding settle_host_call_locally retired_operations
settle-Shrinks call_id error reconcile s = ground (
  arith,
  length-remove_of_contains call_id s.host_calls,
  length-insert call_id tt s.retired_host_calls,
)

settle_all-Shrinks :
    (calls : List CallId) (error : WireErrorKind) (reconcile : Bool) (s : HostSession)
    → Shrinks s (settle_all calls error reconcile s)
unfolding settle_all
settle_all-Shrinks [] error reconcile s = Shrinks-refl s
settle_all-Shrinks (call_id ∷ calls) error reconcile s =
    Shrinks-trans (settle-Shrinks call_id error reconcile s)
      (settle_all-Shrinks calls error reconcile _)

pub drop_handle-Shrinks :
    (handle : HandleId) (released : Bool) (s : HostSession)
    → Shrinks s (drop_handle handle released s)
unfolding drop_handle retired_operations
drop_handle-Shrinks handle released s = grind (
  arith,
  length-remove_of_contains handle s.handles,
  contains-lookup handle s.handles,
  length-insert handle tt s.retired_handles,
  length-insert {V = HandleKind} handle,
)

reclaim_each-Shrinks :
    (handles : List HandleId) (s : HostSession) → Shrinks s (reclaim_each handles s).0
unfolding reclaim_each
reclaim_each-Shrinks [] s = Shrinks-refl s
reclaim_each-Shrinks (handle ∷ handles) s = elim (Bool-cases (contains handle s.handles)) [
  | inl held ↦
      rw held (Shrinks-trans (drop_handle-Shrinks handle false s) (reclaim_each-Shrinks handles _))
  | inr other ↦ rw other (reclaim_each-Shrinks handles s)
]

pub reclaim_handles-Shrinks :
    (handles : List HandleId) (s : HostSession) → Shrinks s (reclaim_handles handles s)
unfolding reclaim_handles retired_operations
reclaim_handles-Shrinks handles s =
    Shrinks-trans (reclaim_each-Shrinks handles s) (pushed (reclaim_each handles s))
  where
    pushed : (r : HostSession × List HandleId) → Shrinks r.0 (push_reclaimed r)
    pushed (t, []) = Shrinks-refl t
    pushed (t, handle ∷ rest) = ground arith

pub tear_down-Shrinks :
    (error : WireErrorKind) (reconcile : Bool) (s : HostSession)
    → Shrinks s (tear_down error reconcile s)
unfolding tear_down reclaim_all_handles retired_operations
tear_down-Shrinks error reconcile s =
    let t = settle_all (keys s.host_calls) error reconcile s in
    let settled = settle_all-Shrinks (keys s.host_calls) error reconcile s in
    let reclaimed = reclaim_handles-Shrinks (keys t.handles) t in
    ground (arith, Shrinks-trans settled reclaimed)

pub fatal-Shrinks :
    (kind : WireErrorKind) (detail : Text) (s : HostSession) → Shrinks s (fatal kind detail s)
unfolding fatal retired_operations
fatal-Shrinks kind detail s =
    ground (arith, tear_down-Shrinks WireErrorKind.outcome_unknown true s, Shrinks-refl s)

pub on_goodbye-Shrinks : (reason : Text) (s : HostSession) → Shrinks s (on_goodbye reason s)
unfolding on_goodbye retired_operations
on_goodbye-Shrinks reason s =
    ground (
      arith,
      tear_down-Shrinks WireErrorKind.cancelled false (push_event (worker_goodbye reason) s),
    )

expire_each-Shrinks : (calls : List CallId) (s : HostSession) → Shrinks s (expire_each calls s)
unfolding expire_each retired_operations
expire_each-Shrinks [] s = Shrinks-refl s
expire_each-Shrinks (call_id ∷ calls) s =
    let t = push_outbox (HostMessage.cancel call_id CancelTarget.call) s in
    let k =
      Shrinks-trans (settle-Shrinks call_id WireErrorKind.deadline_exceeded true t)
        (expire_each-Shrinks calls _) in
    ground arith

pub expire_deadlines-Shrinks : (s : HostSession) → Shrinks s (expire_deadlines s)
unfolding expire_deadlines
expire_deadlines-Shrinks s = expire_each-Shrinks (expired s.now_ms s.host_calls) s
