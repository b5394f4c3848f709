-- ===== src/Ipc/Session/Bounds.antt =====
-- The ceilings of a session of crates/yah-plugin-ipc/src/session, and the budget of its correlation
-- memory, as measures of its tables.
pub mod Ends
pub mod Inputs
pub mod Interface
pub mod Histories
use yet_another_harness.Prelude.{
  ℕ, ◌+◌, ◌*◌, ◌^◌, ◌≤◌, ◌<◌, ◌≡◌, ◌∙◌, refl, ap, sym, arith, some, length, false, suc, ◌⊎◌,
}
use yet_another_harness.Ipc.Types.{Ceilings}
use yet_another_harness.Ipc.Session.State.{
  HostSession, SessionConfig, retired_operations, budget_full,
}

-- The correlation entries that a session holds, and those that what is in flight can still add.
abbrev pub load : HostSession → ℕ
load s =
    retired_operations s
    + length s.worker_calls
    + 2 * length s.host_calls
    + length s.handles
    + length s.pending_worker_releases

-- The ceilings are `u32` values.
pub record AreWords (c : Ceilings) : Type 0 where
  pub host_word : c.host_calls_in_flight < 2 ^ 32
  pub worker_word : c.worker_calls_in_flight < 2 ^ 32
  pub handle_word : c.live_handles < 2 ^ 32

-- Every table is within its ceiling.
pub record IsBounded (s : HostSession) : Type 0 where
  pub words : AreWords s.config.ceilings
  pub workers : length s.worker_calls ≤ s.config.ceilings.worker_calls_in_flight
  pub hosts : length s.host_calls ≤ s.config.ceilings.host_calls_in_flight
  pub held : length s.handles ≤ s.live_handle_count
  pub gauge : s.live_handle_count ≤ s.config.ceilings.live_handles
  pub pending : length s.pending_worker_releases ≤ s.config.ceilings.live_handles

-- A step that only ends things: no table grows, and an entry that leaves a table adds no more to
-- the correlation memory than it was reckoned for.
pub record Shrinks (s t : HostSession) : Type 0 where
  pub workers : length t.worker_calls ≤ length s.worker_calls
  pub hosts : length t.host_calls ≤ length s.host_calls
  pub held : length t.handles + s.live_handle_count ≤ length s.handles + t.live_handle_count
  pub gauge : t.live_handle_count ≤ s.live_handle_count
  pub pending : length t.pending_worker_releases ≤ length s.pending_worker_releases
  pub load_falls : load t ≤ load s
  pub config_same : t.config ≡ s.config

pub Shrinks-refl : (s : HostSession) → Shrinks s s
Shrinks-refl s = ground arith

pub Shrinks-trans : {s t u : HostSession} → Shrinks s t → Shrinks t u → Shrinks s u
Shrinks-trans h k = record {
  workers = omega arith;
  hosts = omega arith;
  held = omega arith;
  gauge = omega arith;
  pending = omega arith;
  load_falls = omega arith;
  config_same = k.config_same ∙ h.config_same;
}

-- A step of a bounded session: it stays bounded, and it either adds nothing to the load, or it is
-- an admission below the budget that adds one correlation entry at most.
pub record Steps (s t : HostSession) : Type 0 where
  pub bounded : IsBounded t
  pub config_same : t.config ≡ s.config
  pub reckoned :
      (load t ≤ load s)
      ⊎ ((budget_full s ≡ false) × (retired_operations t ≤ suc (retired_operations s)))

pub Shrinks-Steps : {s t : HostSession} → IsBounded s → Shrinks s t → Steps s t
Shrinks-Steps b h = ground arith

pub Shrinks-IsBounded : {s t : HostSession} → Shrinks s t → IsBounded s → IsBounded t
Shrinks-IsBounded h b = ground arith

-- A bounded session of a configuration, whose load is within its budget and one filling of its
-- tables. Without a budget there is no bound on the load.
pub record IsReckoned (config : SessionConfig) (s : HostSession) : Type 0 where
  pub config_same : s.config ≡ config
  pub bounded : IsBounded s
  pub within :
      (budget : ℕ)
      → config.retired_operation_budget ≡ some budget
      → load s
        ≤ budget
          + config.ceilings.worker_calls_in_flight
          + 2 * config.ceilings.host_calls_in_flight
          + 2 * config.ceilings.live_handles

below_budget :
    (budget : ℕ) (s : HostSession)
    → s.config.retired_operation_budget ≡ some budget
    → budget_full s ≡ false
    → retired_operations s < budget
unfolding budget_full
below_budget budget s given room = ground arith

pub Steps-IsReckoned :
    {config : SessionConfig} {s t : HostSession}
    → IsReckoned config s
    → Steps s t
    → IsReckoned config t
Steps-IsReckoned {config} {s} {t} r h = record {
  config_same = h.config_same ∙ r.config_same;
  bounded = h.bounded;
  within = λ budget given. within_budget budget given;
}
  where
    within_budget :
        (budget : ℕ)
        → config.retired_operation_budget ≡ some budget
        → load t
          ≤ budget
            + config.ceilings.worker_calls_in_flight
            + 2 * config.ceilings.host_calls_in_flight
            + 2 * config.ceilings.live_handles
    within_budget budget given = ground (
      arith,
      r.within budget given,
      below_budget budget s (rw r.config_same given),
      h.config_same,
      r.config_same,
    )
