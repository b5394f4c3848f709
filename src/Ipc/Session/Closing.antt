-- ===== src/Ipc/Session/Closing.antt =====
-- The end of a session of crates/yah-plugin-ipc/src/session: nothing is left in a session that is
-- not active.
pub mod Ends
pub mod Inputs
pub mod Histories
use yet_another_harness.Prelude.{◌≡◌, refl, ◌∙◌, false, []}
use yet_another_harness.Ipc.Session.State.{HostSession, is_active}

-- No call is in flight in either direction, no handle is held, and no release waits.
pub record IsEmpty (s : HostSession) : Type 0 where
  pub no_host_calls : s.host_calls ≡ []
  pub no_worker_calls : s.worker_calls ≡ []
  pub no_handles : s.handles ≡ []
  pub no_releases : s.pending_worker_releases ≡ []

-- A session that is not active is empty.
abbrev pub IsIdle : HostSession → Type 0
IsIdle s = is_active s.phase ≡ false → IsEmpty s

-- A step that leaves the phase and the decoder alone.
pub record Stays (s t : HostSession) : Type 0 where
  pub phase_same : t.phase ≡ s.phase
  pub decoder_same : t.decoder ≡ s.decoder

pub Stays-trans : {s t u : HostSession} → Stays s t → Stays t u → Stays s u
Stays-trans h k = record {
  phase_same = k.phase_same ∙ h.phase_same;
  decoder_same = k.decoder_same ∙ h.decoder_same;
}

-- A step that leaves the decoder alone, and nothing in the session unless it is active.
pub record Rests (s t : HostSession) : Type 0 where
  pub idle : IsIdle t
  pub decoder_same : t.decoder ≡ s.decoder
