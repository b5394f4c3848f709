-- ===== src/Ipc/Session/Handles.antt =====
-- crates/yah-plugin-ipc/src/session/handles.rs: minting handles and offering
-- artifacts.
use yet_another_harness.Prelude.{
  ℕ, ◌+◌, Bool, ◌&&◌, not, List, [], ◌∷◌, ◌++◌, Option, none, some, Result, ok, err, ◌>>=◌, ◌>>◌,
  guard, or_fail, leb, ◌==◌, if◌then◌else◌, length, Text, text,
}
use yet_another_harness.Prelude.Map.{lookup, insert}
use yet_another_harness.Ipc.Types.{
  CallId, HandleId, HandleKind, capability, artifact, ArtifactOffer, max_wire_id,
  max_media_type_chars,
}
use yet_another_harness.Ipc.Session.State.{
  Codec, HostSession, WorkerCall, ArtifactBytes, AppError, not_active, unknown_call, handle_ceiling,
  invalid_field, session_retired, is_active, add_u64, budget_full,
}
use yet_another_harness.Ipc.Session.Reads.{hex}

-- A method of the application's interface: on `Err` it returns before it changes the session.
abbrev pub admit {ℓ κ} :
    {A : Type ℓ} {B : Type κ}
    → HostSession
    → Result A AppError
    → (A → HostSession × Result B AppError)
    → HostSession × Result B AppError
admit s (err e) run = (s, err e)
admit s (ok a) run = run a

-- `?` on the result of a method that has run.
abbrev pub and_then {ℓ κ} :
    {A : Type ℓ} {B : Type κ}
    → HostSession × Result A AppError
    → (HostSession → A → HostSession × Result B AppError)
    → HostSession × Result B AppError
and_then (s, err e) run = (s, err e)
and_then (s, ok a) run = run s a

abbrev pub id_ok : ℕ → Bool
id_ok id = leb 1 id && leb id max_wire_id

abbrev pub bounded_chars : ℕ → Text → Bool
bounded_chars bound t = not (length t == 0) && leb (length t) bound

unfoldable pub insert_handle :
    HandleKind → Option ArtifactBytes → HostSession → HostSession × Result HandleId AppError
insert_handle kind held s =
    if leb s.config.ceilings.live_handles s.live_handle_count then (s, err handle_ceiling) else (
      record s {
        handles = insert s.next_handle (record { kind = kind; artifact = held }) s.handles;
        next_handle = add_u64 s.next_handle 1;
        live_handle_count = s.live_handle_count + 1;
      },
      ok s.next_handle,
    )

-- `self.worker_calls.get_mut(&minted_for)….minted.push(handle)`
unfoldable pub push_minted : CallId → WorkerCall → HandleId → HostSession → HostSession
push_minted minted_for state handle s = record s {
  worker_calls =
      insert minted_for (record state { minted = state.minted ++ handle ∷ [] }) s.worker_calls;
}

unfoldable pub mint_capability_handle :
    CallId → HostSession → HostSession × Result HandleId AppError
unfolding insert_handle push_minted
mint_capability_handle minted_for s = admit s checked λ state.
    and_then (insert_handle capability none s)
      λ t handle. (push_minted minted_for state handle t, ok handle)
  where
    checked : Result WorkerCall AppError
    checked = do
      guard (is_active s.phase) not_active
      state ← or_fail (lookup minted_for s.worker_calls) unknown_call
      guard (not (budget_full s)) session_retired
      ok state

unfoldable pub offer_artifact :
    Codec → CallId → List ℕ → Text → HostSession → HostSession × Result ArtifactOffer AppError
unfolding insert_handle push_minted
offer_artifact c minted_for bytes media_type s = admit s checked λ state.
    let digest = hex (c.blake3 bytes) in
    let held : ArtifactBytes = record {
      bytes = bytes;
      media_type = media_type;
      digest_blake3 = digest;
    } in
    and_then (insert_handle artifact (some held) s) λ t handle. (
      push_minted minted_for state handle t,
      ok (record {
        handle = handle;
        bytes = length bytes;
        media_type = media_type;
        digest_blake3 = digest;
      }),
    )
  where
    checked : Result WorkerCall AppError
    checked = do
      guard (is_active s.phase) not_active
      state ← or_fail (lookup minted_for s.worker_calls) unknown_call
      guard (not (length bytes == 0)) (invalid_field (text "spilled artifact of zero bytes"))
      guard (bounded_chars max_media_type_chars media_type)
          (invalid_field (text "media type outside its length bound"))
      guard (not (budget_full s)) session_retired
      ok state
