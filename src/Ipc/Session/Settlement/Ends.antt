-- ===== src/Ipc/Session/Settlement/Ends.antt =====
-- Ends of calls without the worker's terminal keep what is owed.
use yet_another_harness.Prelude.{
  ◌≡◌, refl, Bool-cases, inl, inr, Bool, true, false, List, [], ◌∷◌, arith, Text,
}
use yet_another_harness.Prelude.Map.{contains, keys, contains-remove}
use yet_another_harness.Ipc.Types.{CallId, HandleId, WireErrorKind, HostMessage, CancelTarget}
use yet_another_harness.Ipc.Session.State.{
  clip_detail, handles_reclaimed, HostSession, SessionEvent, host_call_lost, worker_goodbye,
  push_event, push_outbox,
}
use yet_another_harness.Ipc.Session.Settle.{
  push_reclaimed, settle_host_call_locally, settle_all, drop_handle, reclaim_each, reclaim_handles,
  reclaim_all_handles, expired, tear_down, fatal, on_goodbye, expire_each, expire_deadlines,
}
use yet_another_harness.Ipc.Session.Settlement.{
  Keeps, Keeps-refl, Keeps-trans, is_terminal, terminals-append,
}

module _ (id : CallId) where
  -- Events that are no terminal of the call, and a table that answers alike, keep what is owed.
  pub push-Keeps :
      (event : SessionEvent) (s : HostSession)
      → is_terminal id event ≡ 0
      → Keeps id s (push_event event s)
  push-Keeps event s h = ground (arith, terminals-append id s.events (event ∷ []))

  pub settle-Keeps :
      (call_id : CallId) (error : WireErrorKind) (reconcile : Bool) (s : HostSession)
      → Keeps id s (settle_host_call_locally call_id error reconcile s)
  unfolding settle_host_call_locally
  settle-Keeps call_id error reconcile s = ground (
    arith,
    contains-remove call_id id s.host_calls,
    terminals-append id s.events (host_call_lost call_id error reconcile ∷ []),
  )

  pub settle_all-Keeps :
      (calls : List CallId) (error : WireErrorKind) (reconcile : Bool) (s : HostSession)
      → Keeps id s (settle_all calls error reconcile s)
  unfolding settle_all
  settle_all-Keeps [] error reconcile s = Keeps-refl id s
  settle_all-Keeps (call_id ∷ calls) error reconcile s =
      Keeps-trans id (settle-Keeps call_id error reconcile s)
        (settle_all-Keeps calls error reconcile _)

  pub drop_handle-Keeps :
      (handle : HandleId) (released : Bool) (s : HostSession)
      → Keeps id s (drop_handle handle released s)
  unfolding drop_handle
  drop_handle-Keeps handle released s = ground arith

  reclaim_each-Keeps :
      (handles : List HandleId) (s : HostSession) → Keeps id s (reclaim_each handles s).0
  unfolding reclaim_each
  reclaim_each-Keeps [] s = Keeps-refl id s
  reclaim_each-Keeps (handle ∷ handles) s = elim (Bool-cases (contains handle s.handles)) [
    | inl held ↦
        rw held (Keeps-trans id (drop_handle-Keeps handle false s) (reclaim_each-Keeps handles _))
    | inr other ↦ rw other (reclaim_each-Keeps handles s)
  ]

  push_reclaimed-Keeps : (r : HostSession × List HandleId) → Keeps id r.0 (push_reclaimed r)
  push_reclaimed-Keeps (s, []) = Keeps-refl id s
  push_reclaimed-Keeps (s, handle ∷ handles) =
      push-Keeps (handles_reclaimed (handle ∷ handles)) s refl

  pub reclaim_handles-Keeps :
      (handles : List HandleId) (s : HostSession) → Keeps id s (reclaim_handles handles s)
  unfolding reclaim_handles
  reclaim_handles-Keeps handles s =
      Keeps-trans id (reclaim_each-Keeps handles s) (push_reclaimed-Keeps (reclaim_each handles s))

  tear_down-Keeps :
      (error : WireErrorKind) (reconcile : Bool) (s : HostSession)
      → Keeps id s (tear_down error reconcile s)
  unfolding tear_down reclaim_all_handles
  tear_down-Keeps error reconcile s =
      let k =
        Keeps-trans id (settle_all-Keeps (keys s.host_calls) error reconcile s)
          (reclaim_handles-Keeps _ _) in
      record { owed_same = k.owed_same; next_same = k.next_same; config_same = k.config_same }

  pub fatal-Keeps :
      (kind : WireErrorKind) (detail : Text) (s : HostSession) → Keeps id s (fatal kind detail s)
  unfolding fatal
  fatal-Keeps kind detail s = ground (
    arith,
    tear_down-Keeps WireErrorKind.outcome_unknown true s,
    terminals-append id (tear_down WireErrorKind.outcome_unknown true s).events
        (SessionEvent.fatal kind (clip_detail detail) ∷ []),
  )

  pub on_goodbye-Keeps : (reason : Text) (s : HostSession) → Keeps id s (on_goodbye reason s)
  unfolding on_goodbye
  on_goodbye-Keeps reason s =
      let k =
        Keeps-trans id (push-Keeps (worker_goodbye reason) s refl)
          (tear_down-Keeps WireErrorKind.cancelled false _) in
      record { owed_same = k.owed_same; next_same = k.next_same; config_same = k.config_same }

  expire_each-Keeps : (calls : List CallId) (s : HostSession) → Keeps id s (expire_each calls s)
  unfolding expire_each
  expire_each-Keeps [] s = Keeps-refl id s
  expire_each-Keeps (call_id ∷ calls) s =
      let k =
        Keeps-trans id
          (settle-Keeps call_id WireErrorKind.deadline_exceeded true
            (push_outbox (HostMessage.cancel call_id CancelTarget.call) s))
          (expire_each-Keeps calls _) in
      record { owed_same = k.owed_same; next_same = k.next_same; config_same = k.config_same }

  pub expire_deadlines-Keeps : (s : HostSession) → Keeps id s (expire_deadlines s)
  unfolding expire_deadlines
  expire_deadlines-Keeps s = expire_each-Keeps (expired s.now_ms s.host_calls) s
