-- ===== src/Kernel/Funnel/Replay.antt =====
-- The answer to a retry, of crates/yah-kernel/src/funnel/replay.rs, and the wire names of the kinds of
-- error. The detail of a stored rejection is left out.
use yet_another_harness.Prelude.{
  true, false, ◌&&◌, not, Option, none, some, [], ◌∷◌, Text, text, text_eq, ◌==◌, if◌then◌else◌,
  ◌>>?◌,
}
use yet_another_harness.Ipc.Types.{Value, Members, object, string, member, end}
use yet_another_harness.Kernel.Error.{ErrorKind}
use yet_another_harness.Kernel.Funnel.Command.{Command, Submission, principal_wire, method_wire}
use yet_another_harness.Kernel.Funnel.State.{ReceiptNode, json}
use yet_another_harness.Kernel.Funnel.Receipt.{current_receipt_version}

abbrev pub error_wire : ErrorKind → Text
error_wire ErrorKind.invalid_request = text "invalid_request"
error_wire ErrorKind.unauthenticated = text "unauthenticated"
error_wire ErrorKind.unauthorized = text "unauthorized"
error_wire ErrorKind.not_found = text "not_found"
error_wire ErrorKind.version_conflict = text "version_conflict"
error_wire ErrorKind.idempotency_conflict = text "idempotency_conflict"
error_wire ErrorKind.fence_rejected = text "fence_rejected"
error_wire ErrorKind.journal_immutable = text "journal_immutable"
error_wire ErrorKind.policy_denied = text "policy_denied"
error_wire ErrorKind.capability_unsupported = text "capability_unsupported"
error_wire ErrorKind.approval_required = text "approval_required"
error_wire ErrorKind.resource_exhausted = text "resource_exhausted"
error_wire ErrorKind.payload_too_large = text "payload_too_large"
error_wire ErrorKind.cursor_expired = text "cursor_expired"
error_wire ErrorKind.slow_consumer = text "slow_consumer"
error_wire ErrorKind.cancelled = text "cancelled"
error_wire ErrorKind.deadline_exceeded = text "deadline_exceeded"
error_wire ErrorKind.unavailable = text "unavailable"
error_wire ErrorKind.outcome_unknown = text "outcome_unknown"
error_wire ErrorKind.internal = text "internal"

-- `serde_json::from_value` of a kind.
unfoldable pub error_from_wire : Text → Option ErrorKind
error_from_wire w =
    if text_eq w (text "invalid_request")
    then some ErrorKind.invalid_request
    else if text_eq w (text "unauthenticated")
    then some ErrorKind.unauthenticated
    else if text_eq w (text "unauthorized")
    then some ErrorKind.unauthorized
    else if text_eq w (text "not_found")
    then some ErrorKind.not_found
    else if text_eq w (text "version_conflict")
    then some ErrorKind.version_conflict
    else if text_eq w (text "idempotency_conflict")
    then some ErrorKind.idempotency_conflict
    else if text_eq w (text "fence_rejected")
    then some ErrorKind.fence_rejected
    else if text_eq w (text "journal_immutable")
    then some ErrorKind.journal_immutable
    else if text_eq w (text "policy_denied")
    then some ErrorKind.policy_denied
    else if text_eq w (text "capability_unsupported")
    then some ErrorKind.capability_unsupported
    else if text_eq w (text "approval_required")
    then some ErrorKind.approval_required
    else if text_eq w (text "resource_exhausted")
    then some ErrorKind.resource_exhausted
    else if text_eq w (text "payload_too_large")
    then some ErrorKind.payload_too_large
    else if text_eq w (text "cursor_expired")
    then some ErrorKind.cursor_expired
    else if text_eq w (text "slow_consumer")
    then some ErrorKind.slow_consumer
    else if text_eq w (text "cancelled")
    then some ErrorKind.cancelled
    else if text_eq w (text "deadline_exceeded")
    then some ErrorKind.deadline_exceeded
    else if text_eq w (text "unavailable")
    then some ErrorKind.unavailable
    else if text_eq w (text "outcome_unknown")
    then some ErrorKind.outcome_unknown
    else if text_eq w (text "internal")
    then some ErrorKind.internal
    else none

-- `Value::get` of an object.
unfoldable pub field : Text → Value → Option Value
field name (object fields) = among fields
  where
    among : Members → Option Value
    among end = none
    among (member key value rest) = if text_eq key name then some value else among rest
field name _ = none

abbrev pub as_text : Value → Option Text
as_text (string t) = some t
as_text _ = none

abbrev pub error_result : ErrorKind → Value
error_result kind = json ((text "error_kind", string (error_wire kind)) ∷ [])

abbrev pub kind_or_internal : Option ErrorKind → ErrorKind
kind_or_internal none = ErrorKind.internal
kind_or_internal (some kind) = kind

unfoldable pub stored_kind : Value → ErrorKind
stored_kind result =
    kind_or_internal (field (text "error_kind") result >>? as_text >>? error_from_wire)

abbrev pub completed_status : Text
completed_status = text "completed"

unfoldable pub stored_answer : ReceiptNode → Submission
stored_answer stored = elim stored.result [
  | none ↦ Submission.rejected ErrorKind.internal false
  | some result ↦
      if text_eq stored.status completed_status
      then Submission.replayed result
      else Submission.rejected (stored_kind result) true
]

unfoldable pub replay_stored : Command → ReceiptNode → Submission
replay_stored cmd stored =
    if not (text_eq stored.request_digest cmd.request_digest)
    then Submission.rejected ErrorKind.idempotency_conflict false
    else if not (text_eq stored.command_type (method_wire cmd.method))
    then Submission.rejected ErrorKind.idempotency_conflict false
    else if not (stored.receipt_version == current_receipt_version)
    then Submission.rejected ErrorKind.internal false
    else if not (
        text_eq stored.principal_kind (principal_wire cmd.principal_kind)
        && text_eq stored.principal_id cmd.principal_id)
    then Submission.rejected ErrorKind.unauthorized false
    else stored_answer stored
