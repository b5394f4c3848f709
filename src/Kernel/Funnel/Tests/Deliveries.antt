-- ===== src/Kernel/Funnel/Tests/Deliveries.antt =====
-- Two deliveries of one request of crates/yah-kernel/src/funnel/cancel.rs.
use yet_another_harness.Prelude.{ℕ, refl, false, none, some, [], ◌∷◌, Text, text, text_ltb}
use yet_another_harness.Kernel.Cancel.{
  CancelKind, CancelReason, CancelPolicy, CancelStatus, Attachment, DeliveryOutcome,
}
use yet_another_harness.Kernel.Cancel.Scope.{
  ScopeMember, CancelScope, CancelRequest, member_row, binary_search,
}
use yet_another_harness.Kernel.Ids.{
  mint, display, uuid_try_from, hyphenated, hex_pad, hex_char, from_str_radix, from_hex, hex_value,
}
use yet_another_harness.Kernel.Funnel.Command.{Command, Method}
use yet_another_harness.Kernel.Funnel.State.{CancelDeliveryPlan, Accepted, increment}
use yet_another_harness.Kernel.Funnel.PreRead.{
  PreRead, CancelPreRead, RequestData, pre_read, cancel_pre_read,
}
use yet_another_harness.Kernel.Funnel.Gates.{authority_gate}
use yet_another_harness.Kernel.Funnel.Cancel.{
  validate_record_delivery, observation_is_valid, park_plan, accept_delivery,
}
use yet_another_harness.Kernel.Funnel.Cancel.Deliveries.{
  Deliveries, deliver, none_left, CountsFrom, Deliveries-CountsFrom, written_delivery,
}
use yet_another_harness.Kernel.Funnel.Tests.{fresh, outside, by_daemon, empty_graph}
use yet_another_harness.Kernel.Funnel.Tests.Units.{accepted}

abbrev member : Text → ℕ → ScopeMember
member id index = record {
  member_kind = CancelKind.execution_unit;
  member_id = id;
  attachment = Attachment.attached;
  order_index = index;
}

abbrev scope : CancelScope
scope = record {
  root_kind = CancelKind.run;
  root_id = text "r";
  members = member (text "a") 0 ∷ member (text "b") 1 ∷ [];
}

abbrev request : CancelRequest
request = record {
  cancel_request_id = 7;
  reason = CancelReason.owner_request;
  policy = CancelPolicy.attached_cascade;
  scope = scope;
  status = CancelStatus.requested;
  requested_at = 3;
  requested_by_kind = text "daemon";
}

abbrev at_version : ℕ → RequestData
at_version version = record { version = version; request_record = request }

-- What is read before a delivery, with the request at the given version.
abbrev seen : ℕ → CancelPreRead
seen version = record {
  admission_blockers = [];
  member_links = [];
  request = some (at_version version);
  deliveries = [];
  delivery_exists = false;
  effect_row = none;
  root_attempt = none;
  root_terminal = none;
}

abbrev request_id : Text
request_id = display (mint 5 7)

abbrev delivering : Text → Command
delivering id =
    by_daemon (text "c1")
      (Method.cancel_record_delivery request_id id 4 (some 5) DeliveryOutcome.observed_stopped)

abbrev before : Text → ℕ → PreRead
before id version = record (pre_read outside.blake3 empty_graph (delivering id)) {
  cancel = some (seen version);
}

abbrev nowhere : CancelDeliveryPlan
nowhere = record {
  delivery_key = text "";
  request_id = text "";
  request_version_after = 0;
  request_status_after = text "";
  request_record_after = request;
  member_id = text "";
  member_kind = text "";
  order_index = 0;
  outcome = text "";
  park_effect = none;
}

abbrev answer : Text → ℕ → Accepted
answer id version = accepted (
    validate_record_delivery fresh (delivering id) (before id version) request_id id 4 (some 5)
      DeliveryOutcome.observed_stopped)

abbrev written : Text → ℕ → CancelDeliveryPlan
written id version = elim (written_delivery (answer id version).plan) [
  | some d ↦ d
  | none ↦ nowhere
]

both_delivered : Deliveries request_id 1 (0 ∷ 1 ∷ [])
unfolding validate_record_delivery authority_gate member_row observation_is_valid increment
    uuid_try_from pre_read cancel_pre_read text binary_search text_ltb park_plan display hyphenated
    hex_pad hex_char mint from_str_radix from_hex hex_value accept_delivery
both_delivered =
    deliver fresh (delivering (text "a")) (before (text "a") 1) (seen 1) (at_version 1) (text "a") 4
      (some 5) DeliveryOutcome.observed_stopped (answer (text "a") 1) (written (text "a") 1) refl
      refl refl refl
      (deliver fresh (delivering (text "b")) (before (text "b") 2) (seen 2) (at_version 2)
        (text "b") 4 (some 5) DeliveryOutcome.observed_stopped (answer (text "b") 2)
        (written (text "b") 2) refl refl refl refl none_left)

Deliveries-CountsFrom_example : CountsFrom 0 (0 ∷ 1 ∷ [])
Deliveries-CountsFrom_example = Deliveries-CountsFrom request_id 1 (0 ∷ 1 ∷ []) both_delivered
