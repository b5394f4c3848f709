-- ===== src/Kernel/Funnel/Gates.antt =====
-- The authorization classes of crates/yah-kernel/src/funnel/validate.rs and effects.rs, and
-- `check_holder_fence` of store/mod.rs.
pub mod Fence
use yet_another_harness.Prelude.{
  ℕ, Bool, true, false, ◌&&◌, not, Option, none, some, Text, text, text_eq, ◌==◌, if◌then◌else◌,
  Result, ok, err, guard, or_fail, ◌>>◌, ◌>>=◌, is_none, ◌>>?◌,
}
use yet_another_harness.Kernel.Error.{ErrorKind, Rejection, durable, transient}
use yet_another_harness.Kernel.Funnel.Command.{Command, PrincipalKind, AttemptTokenClaims}
use yet_another_harness.Kernel.Funnel.State.{UnitNode, LeaseNode}
use yet_another_harness.Kernel.Funnel.PreRead.{PreRead}

abbrev pub is_daemon : PrincipalKind → Bool
is_daemon kind = elim kind [ PrincipalKind.daemon ↦ true | _ ↦ false ]

abbrev pub is_agent : PrincipalKind → Bool
is_agent kind = elim kind [ PrincipalKind.agent ↦ true | _ ↦ false ]

unfoldable pub authority_gate : ℕ → Command → Result (Unit {0}) Rejection
authority_gate current cmd = do
  guard (is_daemon cmd.principal_kind) (durable ErrorKind.invalid_request)
  guard (is_none cmd.attempt_token) (durable ErrorKind.invalid_request)
  epoch ← or_fail cmd.authority_epoch (durable ErrorKind.invalid_request)
  guard (epoch == current) (transient ErrorKind.fence_rejected)

-- The seam answers only for the unit that it was read for.
abbrev pub unit_fence : PreRead → Text → Option UnitNode
unit_fence pre unit_id = pre.for_unit >>? λ id. if text_eq id unit_id then pre.unit else none

abbrev pub lease_fence : PreRead → Text → Option LeaseNode
lease_fence pre unit_id = pre.for_unit >>? λ id. if text_eq id unit_id then pre.lease else none

abbrev pub active : Text
active = text "active"

unfoldable pub check_holder_fence : ℕ → PreRead → AttemptTokenClaims → Result (Unit {0}) Rejection
check_holder_fence current pre claims = do
  guard (claims.authority_epoch == current) (durable ErrorKind.fence_rejected)
  unit ← or_fail (unit_fence pre claims.unit_id) (transient ErrorKind.not_found)
  guard (claims.attempt_epoch == unit.current_attempt_epoch) (durable ErrorKind.fence_rejected)
  guard (claims.stamp == unit.stamp) (durable ErrorKind.fence_rejected)
  lease ← or_fail (lease_fence pre claims.unit_id) (transient ErrorKind.not_found)
  guard (text_eq lease.status active) (durable ErrorKind.fence_rejected)
  guard (text_eq lease.holder_id claims.holder_id) (durable ErrorKind.fence_rejected)

-- The epoch of the envelope, when it has one.
abbrev pub envelope_epoch_ok : ℕ → Option ℕ → Bool
envelope_epoch_ok current none = true
envelope_epoch_ok current (some epoch) = epoch == current

unfoldable pub holder_gate : ℕ → Command → PreRead → Text → Result AttemptTokenClaims Rejection
holder_gate current cmd pre unit_id = do
  guard (is_agent cmd.principal_kind) (durable ErrorKind.invalid_request)
  token ← or_fail cmd.attempt_token (durable ErrorKind.invalid_request)
  guard (envelope_epoch_ok current cmd.authority_epoch) (transient ErrorKind.fence_rejected)
  guard (text_eq token.unit_id unit_id) (transient ErrorKind.fence_rejected)
  guard (text_eq cmd.principal_id token.holder_id) (durable ErrorKind.unauthorized)
  check_holder_fence current pre token
  ok token

-- `expected_version_ok`, and `expected_effect_version`.
unfoldable pub expected_version_ok : Command → ℕ → Result (Unit {0}) Rejection
expected_version_ok cmd actual = do
  expected ← or_fail cmd.expected_version (durable ErrorKind.invalid_request)
  guard (expected == actual) (transient ErrorKind.version_conflict)
