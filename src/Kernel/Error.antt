-- ===== src/Kernel/Error.antt =====
-- crates/yah-kernel/src/error.rs, and `Rejection` of funnel/mod.rs. The diagnostic text of a
-- rejection is left out: clients branch only on its kind.
use yet_another_harness.Prelude.{Bool, true, false}

pub data ErrorKind : Type 0 where
  invalid_request : ErrorKind
  unauthenticated : ErrorKind
  unauthorized : ErrorKind
  not_found : ErrorKind
  version_conflict : ErrorKind
  idempotency_conflict : ErrorKind
  fence_rejected : ErrorKind
  journal_immutable : ErrorKind
  policy_denied : ErrorKind
  capability_unsupported : ErrorKind
  approval_required : ErrorKind
  resource_exhausted : ErrorKind
  payload_too_large : ErrorKind
  cursor_expired : ErrorKind
  slow_consumer : ErrorKind
  cancelled : ErrorKind
  deadline_exceeded : ErrorKind
  unavailable : ErrorKind
  outcome_unknown : ErrorKind
  internal : ErrorKind

abbrev pub retryable : ErrorKind → Bool
retryable kind = elim kind [
  | ErrorKind.version_conflict ↦ true
  | ErrorKind.approval_required ↦ true
  | ErrorKind.resource_exhausted ↦ true
  | ErrorKind.deadline_exceeded ↦ true
  | ErrorKind.unavailable ↦ true
  | _ ↦ false
]

abbrev pub reconcile_required : ErrorKind → Bool
reconcile_required kind = elim kind [ ErrorKind.outcome_unknown ↦ true | _ ↦ false ]

-- The kind, and whether the rejection leaves a receipt.
pub record Rejection : Type 0 where
  pub kind : ErrorKind
  pub persist : Bool

-- `(kind, detail, true)`, `(kind, detail, false)`
abbrev pub durable : ErrorKind → Rejection
durable kind = record { kind = kind; persist = true }

abbrev pub transient : ErrorKind → Rejection
transient kind = record { kind = kind; persist = false }
