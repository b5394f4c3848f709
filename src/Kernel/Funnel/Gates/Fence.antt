-- ===== src/Kernel/Funnel/Gates/Fence.antt =====
-- The fence of crates/yah-kernel/src/funnel/validate.rs and store/mod.rs, axis by axis.
use yet_another_harness.Prelude.{
  ℕ, ◌≡◌, ◌↔◌, Bool, true, ◌&&◌, some, Text, text_eq, text_eq_sound, text_eq_refl, ◌==◌, arith, ok,
}
use yet_another_harness.Kernel.Funnel.Command.{Command, AttemptTokenClaims}
use yet_another_harness.Kernel.Funnel.PreRead.{PreRead}
use yet_another_harness.Kernel.Funnel.State.{UnitNode, LeaseNode}
use yet_another_harness.Kernel.Funnel.Gates.{
  is_agent, envelope_epoch_ok, active, check_holder_fence, holder_gate,
}

-- The claims are those of the unit and of its lease.
abbrev pub is_current : ℕ → AttemptTokenClaims → UnitNode → LeaseNode → Bool
is_current epoch claims unit lease =
    (claims.authority_epoch == epoch)
    && (claims.attempt_epoch == unit.current_attempt_epoch)
    && (claims.stamp == unit.stamp)
    && text_eq lease.status active
    && text_eq lease.holder_id claims.holder_id

-- What the envelope of a holder must say.
abbrev pub is_holder_of : ℕ → Command → AttemptTokenClaims → Text → Bool
is_holder_of epoch cmd claims unit_id =
    is_agent cmd.principal_kind
    && envelope_epoch_ok epoch cmd.authority_epoch
    && text_eq claims.unit_id unit_id
    && text_eq cmd.principal_id claims.holder_id

-- For a unit that was read with its lease, a holder command passes the gate exactly when it is its
-- agent's under the token's own name, for the token's unit, and the token agrees with the authority
-- epoch, the attempt epoch, the stamp and the active lease's holder.
pub holder_gate_lem :
    (epoch : ℕ) (cmd : Command) (pre : PreRead) (unit_id : Text) (claims : AttemptTokenClaims)
    (unit : UnitNode) (lease : LeaseNode)
    → cmd.attempt_token ≡ some claims
    → pre.for_unit ≡ some unit_id
    → pre.unit ≡ some unit
    → pre.lease ≡ some lease
    → (holder_gate epoch cmd pre unit_id ≡ ok claims)
      ↔ ((is_holder_of epoch cmd claims unit_id && is_current epoch claims unit lease) ≡ true)
unfolding holder_gate check_holder_fence
holder_gate_lem epoch cmd pre unit_id claims unit lease token for_unit has_unit has_lease = ground (
  arith,
  token,
  for_unit,
  has_unit,
  has_lease,
  text_eq_sound claims.unit_id unit_id,
  text_eq_refl unit_id,
)
