-- ===== src/Kernel/Tests.antt =====
-- Effects, scopes and ids of crates/yah-kernel/src, on small inputs.
use yet_another_harness.Prelude.{
  ℕ, ◌≡◌, ◌↔◌, refl, true, false, none, some, List, [], ◌∷◌, Text, text, text_ltb, ok, err, Perm,
  map, byte_length, arith,
}
use yet_another_harness.Kernel.Ids.{valid_wire_identifier, display, uuid_try_from, mint}
use yet_another_harness.Kernel.Ids.Roundtrip.{uuid_try_from-display}
use yet_another_harness.Kernel.Effect.{
  EffectIntent, EffectState, EffectTerminal, EffectError, RetryClass, ReversibilityClass,
  TargetEnumeration, TargetObservation, TargetState, settle,
}
use yet_another_harness.Kernel.Effect.Settlement.{settle_lem, settle-settle, IsHonest}
use yet_another_harness.Kernel.Cancel.{CancelKind, Attachment, CancelStatus, DeliveryOutcome}
use yet_another_harness.Kernel.Cancel.Scope.{
  MemberInput, ScopeMember, CancelScope, freeze, check_under_root, check_distinct, sort_members,
  insert_member, number, in_order, validate_scope, member_row,
}
use yet_another_harness.Kernel.Cancel.Freeze.{validate_scope-freeze, freeze-Perm, proposal}
use yet_another_harness.Kernel.Cancel.Lookup.{find_row}
use yet_another_harness.Kernel.Cancel.Members.{member_row-find_row, has_id}
use yet_another_harness.Kernel.Funnel.CancelRules.{DeliverySummary, request_status_after}
use yet_another_harness.Kernel.Funnel.CancelRules.Status.{request_status_after-settled, AreAnswered}

abbrev pub target : TargetObservation
target = record {
  target_id = text "t";
  expected_digest = some (text "new");
  pre_digest = some (text "old");
  observed_digest = none;
  state = TargetState.unknown;
  observed_at = none;
}

-- A dispatched effect with one declared target.
abbrev pub effect : EffectIntent
effect = record {
  effect_intent_id = 7;
  version = 2;
  unit_id = text "u";
  attempt_epoch = 0;
  stamp = 3;
  authority_epoch = 1;
  adapter_id = text "a";
  adapter_version = text "1";
  operation_key = text "k";
  logical_operation_id = 9;
  request_digest = text "d";
  retry_class = RetryClass.query_then_retry;
  reversibility_class = ReversibilityClass.irreversible;
  approval_ref = some 11;
  policy_snapshot_digest = text "d";
  state = EffectState.dispatched;
  terminal = none;
  target_enumeration = TargetEnumeration.declared;
  targets = target ∷ [];
  decomposable = false;
  parent_effect_intent_id = none;
  compensation_intent_id = none;
  dispatched_at = some 4;
  settled_at = none;
  next_reconcile_at = none;
}

settle_lem_example :
    ((settle EffectTerminal.failed effect).1 ≡ ok tt)
    ↔ ((effect.terminal ≡ none) × IsHonest EffectTerminal.failed effect.targets)
settle_lem_example = settle_lem EffectTerminal.failed effect

settle-settle_example : settle EffectTerminal.succeeded (settle EffectTerminal.unknown effect).0 ≡ (
  (settle EffectTerminal.unknown effect).0,
  err (EffectError.terminal_already_set EffectTerminal.unknown),
)
unfolding settle
settle-settle_example = settle-settle EffectTerminal.unknown EffectTerminal.succeeded effect refl

abbrev member : CancelKind → Text → MemberInput
member kind id = record { member_kind = kind; member_id = id; attachment = Attachment.attached }

abbrev proposed : List MemberInput
proposed =
    member CancelKind.attempt (text "a")
    ∷ member CancelKind.effect_intent (text "f")
    ∷ member CancelKind.effect_intent (text "e")
    ∷ []

abbrev row : CancelKind → Text → ℕ → ScopeMember
row kind id index = record {
  member_kind = kind;
  member_id = id;
  attachment = Attachment.attached;
  order_index = index;
}

-- What was proposed, the effects first and then by id.
abbrev scope : CancelScope
scope = record {
  root_kind = CancelKind.execution_unit;
  root_id = text "u";
  members =
      row CancelKind.effect_intent (text "e") 0
      ∷ row CancelKind.effect_intent (text "f") 1
      ∷ row CancelKind.attempt (text "a") 2
      ∷ [];
}

validate_scope-freeze_example : validate_scope scope ≡ true
unfolding freeze check_under_root check_distinct valid_wire_identifier text number sort_members
    insert_member text_ltb
validate_scope-freeze_example =
    validate_scope-freeze CancelKind.execution_unit (text "u") proposed scope refl refl refl

freeze-Perm_example : Perm (map proposal scope.members) proposed
unfolding freeze check_under_root check_distinct text number sort_members insert_member text_ltb
freeze-Perm_example = freeze-Perm CancelKind.execution_unit (text "u") proposed scope refl

member_row-find_row_example :
    member_row scope (text "a") ≡ find_row (has_id (text "a")) scope.members
unfolding in_order text_ltb text
member_row-find_row_example = member_row-find_row scope (text "a") refl

abbrev deliveries : List DeliverySummary
deliveries =
    record { member_id = text "e"; outcome = DeliveryOutcome.observed_stopped }
    ∷ record { member_id = text "f"; outcome = DeliveryOutcome.unresponsive }
    ∷ []

request_status_after-settled_example :
    (request_status_after scope deliveries ≡ CancelStatus.settled)
    ↔ AreAnswered deliveries scope.members
request_status_after-settled_example = request_status_after-settled scope deliveries

uuid_try_from-display_example :
    (byte_length (display (mint 5 7)) ≡ 36) × (uuid_try_from (display (mint 5 7)) ≡ some (mint 5 7))
unfolding mint
uuid_try_from-display_example = uuid_try_from-display (mint 5 7) (omega arith)
