-- ===== src/Ipc/Session/Release.antt =====
-- Releases, in both directions, of crates/yah-plugin-ipc/src/session/handles.rs.
use yet_another_harness.Prelude.{
  true, not, none, some, Result, ok, ◌>>=◌, ◌>>◌, guard, or_fail, ltb, if◌then◌else◌, length, text,
}
use yet_another_harness.Prelude.Map.{lookup, contains, insert, remove}
use yet_another_harness.Ipc.Types.{HandleId, WireErrorKind, HandleKind, kind_eq, HostMessage}
use yet_another_harness.Ipc.Session.State.{
  HostSession, SessionEvent, AppError, not_active, handle_ceiling, invalid_field, release_pending,
  already_released, unknown_worker_handle, session_retired, push_event, push_outbox, is_active,
  as_u32, budget_full,
}
use yet_another_harness.Ipc.Session.Settle.{fatal, drop_handle}
use yet_another_harness.Ipc.Session.Handles.{admit, id_ok}

-- The acknowledgement of a release for a handle that the host reclaimed.
unfoldable pub release_reclaimed : HandleId → HandleKind → HostSession → HostSession
release_reclaimed handle held s = push_outbox (HostMessage.release_ack handle held) (record s {
  reclaimed_handles = remove handle s.reclaimed_handles;
  retired_handles = insert handle tt s.retired_handles;
})

unfoldable pub on_release : HandleId → HandleKind → HostSession → HostSession
unfolding release_reclaimed
on_release handle kind s = elim (lookup handle s.handles) [
  | none ↦ elim (lookup handle s.reclaimed_handles) [
    | some held ↦
        if kind_eq held kind
        then release_reclaimed handle held s
        else fatal WireErrorKind.unknown_handle (text "release with the wrong kind") s
    | none ↦
        fatal WireErrorKind.unknown_handle
          (if contains handle s.retired_handles
            then text "release of a handle already released"
            else text "release of a handle never held")
          s
  ]
  | some entry ↦
      if kind_eq entry.kind kind
      then push_event (SessionEvent.handle_released handle entry.kind)
          (push_outbox (HostMessage.release_ack handle entry.kind) (drop_handle handle true s))
      else fatal WireErrorKind.unknown_handle (text "release with the wrong kind") s
]

-- The part of `release_worker_handle` behind its checks.
unfoldable pub ask_release : HandleId → HandleKind → HostSession → HostSession
ask_release handle kind s =
    push_outbox (HostMessage.release handle kind)
      (record s { pending_worker_releases = insert handle kind s.pending_worker_releases })

unfoldable pub release_worker_handle :
    HandleId → HandleKind → HostSession → HostSession × Result (Unit {0}) AppError
release_worker_handle handle kind s = admit s checked λ _. (ask_release handle kind s, ok tt)
  where
    checked : Result (Unit {0}) AppError
    checked = do
      guard (is_active s.phase) not_active
      guard (id_ok handle) (invalid_field (text "handle id outside wire range"))
      offered ← or_fail (lookup handle s.offered_worker_handles) unknown_worker_handle
      guard (kind_eq offered kind) (invalid_field (text "release with the wrong kind"))
      guard (not (contains handle s.retired_worker_handles)) already_released
      guard (not (contains handle s.pending_worker_releases)) release_pending
      guard (not (budget_full s)) session_retired
      guard (ltb (as_u32 (length s.pending_worker_releases)) s.config.ceilings.live_handles)
          handle_ceiling

unfoldable pub on_release_ack : HandleId → HandleKind → HostSession → HostSession
on_release_ack handle kind s = elim (lookup handle s.pending_worker_releases) [
  | none ↦ fatal WireErrorKind.unknown_handle (text "unsolicited release-ack") s
  | some asked ↦
      if kind_eq asked kind
      then push_event (SessionEvent.worker_handle_released handle asked) (record s {
        pending_worker_releases = remove handle s.pending_worker_releases;
        retired_worker_handles = insert handle tt s.retired_worker_handles;
      })
      else fatal WireErrorKind.unknown_handle (text "release-ack with the wrong kind") s
]
