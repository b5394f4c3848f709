-- ===== src/Ipc/Session/Delivery/Ends.antt =====
-- Ends of calls and handles deliver nothing.
use yet_another_harness.Prelude.{
  ◌≡◌, refl, Bool-cases, inl, inr, Bool, true, false, List, [], ◌∷◌, arith, Text,
}
use yet_another_harness.Prelude.Map.{contains, keys}
use yet_another_harness.Ipc.Types.{CallId, HandleId, WireErrorKind, HostMessage, CancelTarget}
use yet_another_harness.Ipc.Session.State.{
  clip_detail, handles_reclaimed, HostSession, SessionEvent, host_call_lost, worker_goodbye,
  push_event, push_outbox,
}
use yet_another_harness.Ipc.Session.Settle.{
  push_reclaimed, settle_host_call_locally, settle_all, drop_handle, reclaim_each, reclaim_handles,
  reclaim_all_handles, expired, tear_down, fatal, on_goodbye, expire_each, expire_deadlines,
}
use yet_another_harness.Ipc.Session.Delivery.{
  Quiet, Quiet-refl, Quiet-trans, is_delivery, deliveries, deliveries-append,
}

module _ (id : CallId) where
  pub push-Quiet :
      (event : SessionEvent) (s : HostSession)
      → is_delivery id event ≡ 0
      → Quiet id s (push_event event s)
  push-Quiet event s h = ground (arith, deliveries-append id s.events (event ∷ []))

  pub settle-Quiet :
      (call_id : CallId) (error : WireErrorKind) (reconcile : Bool) (s : HostSession)
      → Quiet id s (settle_host_call_locally call_id error reconcile s)
  unfolding settle_host_call_locally
  settle-Quiet call_id error reconcile s =
      ground (arith, deliveries-append id s.events (host_call_lost call_id error reconcile ∷ []))

  settle_all-Quiet :
      (calls : List CallId) (error : WireErrorKind) (reconcile : Bool) (s : HostSession)
      → Quiet id s (settle_all calls error reconcile s)
  unfolding settle_all
  settle_all-Quiet [] error reconcile s = Quiet-refl id s
  settle_all-Quiet (call_id ∷ calls) error reconcile s =
      Quiet-trans id (settle-Quiet call_id error reconcile s)
        (settle_all-Quiet calls error reconcile _)

  pub drop_handle-Quiet :
      (handle : HandleId) (released : Bool) (s : HostSession)
      → Quiet id s (drop_handle handle released s)
  unfolding drop_handle
  drop_handle-Quiet handle released s = ground arith

  reclaim_each-Quiet :
      (handles : List HandleId) (s : HostSession) → Quiet id s (reclaim_each handles s).0
  unfolding reclaim_each
  reclaim_each-Quiet [] s = Quiet-refl id s
  reclaim_each-Quiet (handle ∷ handles) s = elim (Bool-cases (contains handle s.handles)) [
    | inl held ↦
        rw held (Quiet-trans id (drop_handle-Quiet handle false s) (reclaim_each-Quiet handles _))
    | inr other ↦ rw other (reclaim_each-Quiet handles s)
  ]

  pub reclaim_handles-Quiet :
      (handles : List HandleId) (s : HostSession) → Quiet id s (reclaim_handles handles s)
  unfolding reclaim_handles
  reclaim_handles-Quiet handles s =
      Quiet-trans id (reclaim_each-Quiet handles s) (pushed (reclaim_each handles s))
    where
      pushed : (r : HostSession × List HandleId) → Quiet id r.0 (push_reclaimed r)
      pushed (t, []) = Quiet-refl id t
      pushed (t, handle ∷ rest) = push-Quiet (handles_reclaimed (handle ∷ rest)) t refl

  tear_down-deliveries :
      (error : WireErrorKind) (reconcile : Bool) (s : HostSession)
      → deliveries id (tear_down error reconcile s).events ≡ deliveries id s.events
  unfolding tear_down reclaim_all_handles
  tear_down-deliveries error reconcile s =
      (Quiet-trans id (settle_all-Quiet (keys s.host_calls) error reconcile s)
        (reclaim_handles-Quiet _ _)).same

  -- A failure closes the session, which spends every id.
  pub fatal-Quiet :
      (kind : WireErrorKind) (detail : Text) (s : HostSession) → Quiet id s (fatal kind detail s)
  unfolding fatal
  fatal-Quiet kind detail s = ground (
    arith,
    tear_down-deliveries WireErrorKind.outcome_unknown true s,
    deliveries-append id (tear_down WireErrorKind.outcome_unknown true s).events
        (SessionEvent.fatal kind (clip_detail detail) ∷ []),
  )

  pub on_goodbye-Quiet : (reason : Text) (s : HostSession) → Quiet id s (on_goodbye reason s)
  unfolding on_goodbye
  on_goodbye-Quiet reason s = ground (
    arith,
    tear_down-deliveries WireErrorKind.cancelled false (push_event (worker_goodbye reason) s),
    deliveries-append id s.events (worker_goodbye reason ∷ []),
  )

  expire_each-Quiet : (calls : List CallId) (s : HostSession) → Quiet id s (expire_each calls s)
  unfolding expire_each
  expire_each-Quiet [] s = Quiet-refl id s
  expire_each-Quiet (call_id ∷ calls) s =
      let k =
        Quiet-trans id
          (settle-Quiet call_id WireErrorKind.deadline_exceeded true
            (push_outbox (HostMessage.cancel call_id CancelTarget.call) s))
          (expire_each-Quiet calls _) in
      record { same = k.same; spent = k.spent }

  pub expire_deadlines-Quiet : (s : HostSession) → Quiet id s (expire_deadlines s)
  unfolding expire_deadlines
  expire_deadlines-Quiet s = expire_each-Quiet (expired s.now_ms s.host_calls) s
