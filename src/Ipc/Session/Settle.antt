-- ===== src/Ipc/Session/Settle.antt =====
-- crates/yah-plugin-ipc/src/session: how calls and handles end without a frame of the worker, in
-- mod.rs (`fatal`, `on_goodbye`), calls.rs (`settle_host_call_locally`, `expire_deadlines`) and
-- handles.rs (`drop_handle`, `reclaim_handles`).
use yet_another_harness.Prelude.{
  ℕ, ◌-◌, Bool, true, false, List, [], ◌∷◌, none, some, leb, if◌then◌else◌, Text,
}
use yet_another_harness.Prelude.Map.{Map, lookup, contains, insert, remove, keys}
use yet_another_harness.Ipc.Types.{CallId, HandleId, WireErrorKind, HostMessage, CancelTarget}
use yet_another_harness.Ipc.Session.State.{
  HostSession, HostCall, SessionEvent, closed, push_event, push_outbox, is_active, is_closed,
  clip_detail, bounded_reason,
}

unfoldable pub settle_host_call_locally : CallId → WireErrorKind → Bool → HostSession → HostSession
settle_host_call_locally call_id error reconcile s =
    if contains call_id s.host_calls
    then push_event (SessionEvent.host_call_lost call_id error reconcile) (record s {
      host_calls = remove call_id s.host_calls;
      retired_host_calls = insert call_id tt s.retired_host_calls;
    })
    else s

-- `for call_id in in_flight { self.settle_host_call_locally(call_id, error, reconcile) }`
unfoldable pub settle_all : List CallId → WireErrorKind → Bool → HostSession → HostSession
settle_all [] error reconcile s = s
settle_all (call_id ∷ in_flight) error reconcile s =
    settle_all in_flight error reconcile (settle_host_call_locally call_id error reconcile s)

-- `live_handle_count -= 1` is on a positive count (`Gauge`), so that truncated `-` is exact.
unfoldable pub drop_handle : HandleId → Bool → HostSession → HostSession
drop_handle handle released s = elim (lookup handle s.handles) [
  | none ↦ s
  | some entry ↦
      let t = record s {
        handles = remove handle s.handles;
        live_handle_count = s.live_handle_count - 1;
      } in
      if released
      then record t { retired_handles = insert handle tt t.retired_handles }
      else record t { reclaimed_handles = insert handle entry.kind t.reclaimed_handles }
]

-- The loop of `reclaim_handles`: the session, and the handles that it held.
unfoldable pub reclaim_each : List HandleId → HostSession → HostSession × List HandleId
reclaim_each [] s = (s, [])
reclaim_each (handle ∷ handles) s =
    let held = contains handle s.handles in
    let (t, reclaimed) = reclaim_each handles (if held then drop_handle handle false s else s) in
    (t, if held then handle ∷ reclaimed else reclaimed)

abbrev pub push_reclaimed : HostSession × List HandleId → HostSession
push_reclaimed (s, []) = s
push_reclaimed (s, handle ∷ handles) =
    push_event (SessionEvent.handles_reclaimed (handle ∷ handles)) s

unfoldable pub reclaim_handles : List HandleId → HostSession → HostSession
reclaim_handles handles s = push_reclaimed (reclaim_each handles s)

unfoldable pub reclaim_all_handles : HostSession → HostSession
reclaim_all_handles s = reclaim_handles (keys s.handles) s

-- What `fatal` and `on_goodbye` clear.
abbrev pub clear_tables : HostSession → HostSession
clear_tables s = record s {
  pending_worker_releases = [];
  reclaimed_handles = [];
  worker_calls = [];
}

abbrev pub close : HostSession → HostSession
close s = record s { phase = closed }

-- The shared part of the two: every call in flight is settled, and the tables are emptied.
unfoldable pub tear_down : WireErrorKind → Bool → HostSession → HostSession
tear_down error reconcile s =
    clear_tables (reclaim_all_handles (settle_all (keys s.host_calls) error reconcile s))

abbrev pub say_goodbye : WireErrorKind → HostSession → HostSession
say_goodbye kind s =
    if is_active s.phase then push_outbox (HostMessage.goodbye (bounded_reason kind)) s else s

unfoldable pub fatal : WireErrorKind → Text → HostSession → HostSession
fatal kind detail s =
    if is_closed s.phase
    then s
    else push_event (SessionEvent.fatal kind (clip_detail detail))
        (close (say_goodbye kind (tear_down WireErrorKind.outcome_unknown true s)))

unfoldable pub on_goodbye : Text → HostSession → HostSession
on_goodbye reason s =
    close
      (tear_down WireErrorKind.cancelled false (push_event (SessionEvent.worker_goodbye reason) s))

-- The calls whose deadline is reached.
unfoldable pub expired : ℕ → Map HostCall → List CallId
expired now [] = []
expired now ((call_id, state) ∷ calls) =
    let later = expired now calls in
    elim state.deadline_at [
      | none ↦ later
      | some at ↦ if leb at now then call_id ∷ later else later
    ]

unfoldable pub expire_each : List CallId → HostSession → HostSession
expire_each [] s = s
expire_each (call_id ∷ calls) s = expire_each calls (
    settle_host_call_locally call_id WireErrorKind.deadline_exceeded true
      (push_outbox (HostMessage.cancel call_id CancelTarget.call) s))

unfoldable pub expire_deadlines : HostSession → HostSession
expire_deadlines s = expire_each (expired s.now_ms s.host_calls) s
