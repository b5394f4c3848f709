-- ===== src/Ipc/Session/Refuse.antt =====
-- The refusals of worker calls in crates/yah-plugin-ipc/src/session/calls.rs.
use yet_another_harness.Prelude.{Bool, true, false}
use yet_another_harness.Prelude.Map.{insert}
use yet_another_harness.Ipc.Types.{CallId, WireErrorKind, Outcome, HostMessage, WireError}
use yet_another_harness.Ipc.Session.State.{
  HostSession, SessionEvent, push_event, push_outbox, kind_name,
}

-- `push_call_refusal`, and the two refusals of calls.rs that end in it.
unfoldable pub push_call_refusal : CallId → WireErrorKind → Bool → HostSession → HostSession
push_call_refusal call_id kind retryable s =
    push_event (SessionEvent.call_refused call_id kind)
      (push_outbox (HostMessage.reply call_id (Outcome.err error)) s)
  where
    error : WireError
    error = record {
      kind = kind;
      message = kind_name kind;
      retryable = retryable;
      reconcile_required = false;
    }

abbrev is_resource_exhausted : WireErrorKind → Bool
is_resource_exhausted WireErrorKind.resource_exhausted = true
is_resource_exhausted _ = false

unfoldable pub refuse_worker_call : CallId → WireErrorKind → HostSession → HostSession
refuse_worker_call call_id kind s =
    push_call_refusal call_id kind (is_resource_exhausted kind)
      (record s { retired_worker_calls = insert call_id tt s.retired_worker_calls })

unfoldable pub refuse_worker_call_unspent : CallId → HostSession → HostSession
refuse_worker_call_unspent call_id =
    push_call_refusal call_id WireErrorKind.resource_exhausted false
