-- ===== src/Kernel/Funnel/Receipt.antt =====
-- crates/yah-kernel/src/funnel/receipt.rs and replay.rs: the address of a command, its receipt, and
-- the answer to a retry.
use yet_another_harness.Prelude.{
  ℕ, Bool, true, false, ◌&&◌, ◌||◌, not, Option, none, some, ◌∷◌, ◌++◌, Text, text_eq, all,
}
use yet_another_harness.Ipc.Types.{Value}
use yet_another_harness.Kernel.Ids.{is_digest, valid_wire_identifier}
use yet_another_harness.Kernel.Cancel.Scope.{MemberInput}
use yet_another_harness.Kernel.Funnel.Command.{
  Command, Method, ScopeKind, principal_wire, scope_wire, method_wire,
}
use yet_another_harness.Kernel.Funnel.State.{ReceiptNode}

abbrev pub valid_option : Option Text → Bool
valid_option none = true
valid_option (some id) = valid_wire_identifier id

abbrev pub member_id_valid : MemberInput → Bool
member_id_valid m = valid_wire_identifier m.member_id

unfoldable pub method_identifiers_are_valid : Method → Bool
method_identifiers_are_valid (Method.run_open run_id goal) =
    valid_wire_identifier run_id && valid_wire_identifier goal
method_identifiers_are_valid (Method.run_close run_id outcome) = valid_wire_identifier run_id
method_identifiers_are_valid (Method.work_item_create id digest scope) = valid_wire_identifier id
method_identifiers_are_valid (Method.unit_admit unit_id work_item_id run_id) =
    valid_wire_identifier unit_id
    && valid_wire_identifier work_item_id
    && valid_wire_identifier run_id
method_identifiers_are_valid (Method.unit_dispatch unit_id holder_id) =
    valid_wire_identifier unit_id && valid_wire_identifier holder_id
method_identifiers_are_valid (Method.progress_report unit_id) = valid_wire_identifier unit_id
method_identifiers_are_valid (Method.stamp_bump unit_id) = valid_wire_identifier unit_id
method_identifiers_are_valid (Method.token_reissue unit_id) = valid_wire_identifier unit_id
method_identifiers_are_valid (Method.effect_prepare unit_id spec) =
    valid_wire_identifier unit_id && valid_wire_identifier spec.adapter_id
method_identifiers_are_valid (Method.effect_dispatch unit_id key) =
    valid_wire_identifier unit_id && is_digest key
method_identifiers_are_valid (Method.effect_record_dispatched unit_id key at) =
    valid_wire_identifier unit_id && is_digest key
method_identifiers_are_valid (Method.effect_settle unit_id key terminal targets evidence at) =
    valid_wire_identifier unit_id && is_digest key
method_identifiers_are_valid (Method.effect_park_reconciling unit_id key at) =
    valid_wire_identifier unit_id && is_digest key
method_identifiers_are_valid (Method.cancel_request kind root_id reason policy proposed) =
    valid_wire_identifier root_id && all member_id_valid proposed
method_identifiers_are_valid (Method.cancel_record_delivery id member_id at observed outcome) =
    valid_wire_identifier id && valid_wire_identifier member_id

unfoldable pub identifiers_are_valid : Command → Bool
identifiers_are_valid cmd =
    valid_wire_identifier cmd.scope_id
    && valid_wire_identifier cmd.command_id
    && valid_wire_identifier cmd.principal_id
    && valid_option cmd.causation_id
    && valid_option cmd.correlation_id
    && method_identifiers_are_valid cmd.method

abbrev pub is_global : ScopeKind → Bool
is_global kind = elim kind [ ScopeKind.global ↦ true | _ ↦ false ]

abbrev pub is_project : ScopeKind → Bool
is_project kind = elim kind [ ScopeKind.project ↦ true | _ ↦ false ]

abbrev pub is_run : ScopeKind → Bool
is_run kind = elim kind [ ScopeKind.run ↦ true | _ ↦ false ]

abbrev pub is_unit : ScopeKind → Bool
is_unit kind = elim kind [ ScopeKind.unit ↦ true | _ ↦ false ]

unfoldable pub project_scope_is_valid : Command → Text → Bool
project_scope_is_valid cmd project_id =
    not (is_project cmd.scope_kind) || text_eq cmd.scope_id project_id

unfoldable pub scope_fits : Command → Bool
scope_fits cmd = by_method cmd.method
  where
    at_unit : Text → Bool
    at_unit unit_id = is_unit cmd.scope_kind && text_eq cmd.scope_id unit_id

    at_run : Text → Bool
    at_run run_id = is_run cmd.scope_kind && text_eq cmd.scope_id run_id

    by_method : Method → Bool
    by_method (Method.run_open run_id goal) = is_global cmd.scope_kind || at_run run_id
    by_method (Method.run_close run_id outcome) = is_global cmd.scope_kind || at_run run_id
    by_method (Method.work_item_create id digest scope) =
        is_global cmd.scope_kind || is_project cmd.scope_kind
    by_method (Method.progress_report unit_id) = at_unit unit_id
    by_method (Method.token_reissue unit_id) = at_unit unit_id
    by_method (Method.effect_prepare unit_id spec) = at_unit unit_id
    by_method (Method.effect_dispatch unit_id key) = at_unit unit_id
    by_method (Method.effect_record_dispatched unit_id key at) = at_unit unit_id
    by_method (Method.unit_admit unit_id work_item_id run_id) =
        is_global cmd.scope_kind || at_unit unit_id
    by_method (Method.unit_dispatch unit_id holder_id) = is_global cmd.scope_kind || at_unit unit_id
    by_method (Method.stamp_bump unit_id) = is_global cmd.scope_kind || at_unit unit_id
    by_method (Method.effect_settle unit_id key terminal targets evidence at) =
        is_global cmd.scope_kind || at_unit unit_id
    by_method (Method.effect_park_reconciling unit_id key at) =
        is_global cmd.scope_kind || at_unit unit_id
    by_method (Method.cancel_request kind root_id reason policy proposed) = is_global cmd.scope_kind
    by_method (Method.cancel_record_delivery id member_id at observed outcome) =
        is_global cmd.scope_kind

unfoldable pub address_is_valid : Command → Text → Bool
address_is_valid cmd project_id =
    identifiers_are_valid cmd && project_scope_is_valid cmd project_id && scope_fits cmd

-- `format!("{}/{}/{}", ...)`
unfoldable pub receipt_key : Command → Text
receipt_key cmd = scope_wire cmd.scope_kind ++ (47 ∷ (cmd.scope_id ++ (47 ∷ cmd.command_id)))

abbrev pub current_receipt_version : ℕ
current_receipt_version = 1

-- `receipt::properties`
unfoldable pub receipt : Command → Text → Value → Option (ℕ × ℕ) → ReceiptNode
receipt cmd status result cursors = record {
  command_type = method_wire cmd.method;
  receipt_version = current_receipt_version;
  request_digest = cmd.request_digest;
  principal_kind = principal_wire cmd.principal_kind;
  principal_id = cmd.principal_id;
  status = status;
  result = some result;
  cursors = cursors;
}
