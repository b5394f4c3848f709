-- ===== src/Kernel/Funnel/Command.antt =====
-- crates/yah-kernel/src/funnel/command.rs: the envelope and the methods that the funnel accepts.
use yet_another_harness.Prelude.{ℕ, Option, none, some, List, Text, text, Bool}
use yet_another_harness.Ipc.Types.{Value}
use yet_another_harness.Kernel.Error.{ErrorKind}
use yet_another_harness.Kernel.Ids.{Uuid7}
use yet_another_harness.Kernel.Effect.{
  EffectTerminal, TargetObservation, RetryClass, ReversibilityClass, TargetEnumeration,
}
use yet_another_harness.Kernel.Cancel.{CancelKind, CancelReason, CancelPolicy, DeliveryOutcome}
use yet_another_harness.Kernel.Cancel.Scope.{MemberInput}
use yet_another_harness.Kernel.Funnel.EffectRules.{SettleEvidence}

pub data PrincipalKind : Type 0 where
  owner : PrincipalKind
  delegate_human : PrincipalKind
  agent : PrincipalKind
  daemon : PrincipalKind

abbrev pub principal_wire : PrincipalKind → Text
principal_wire PrincipalKind.owner = text "owner"
principal_wire PrincipalKind.delegate_human = text "delegate_human"
principal_wire PrincipalKind.agent = text "agent"
principal_wire PrincipalKind.daemon = text "daemon"

pub data RunOutcome : Type 0 where
  closed_success : RunOutcome
  closed_failure : RunOutcome
  cancelled : RunOutcome

abbrev pub outcome_wire : RunOutcome → Text
outcome_wire RunOutcome.closed_success = text "closed_success"
outcome_wire RunOutcome.closed_failure = text "closed_failure"
outcome_wire RunOutcome.cancelled = text "cancelled"

pub data ScopeKind : Type 0 where
  global : ScopeKind
  project : ScopeKind
  run : ScopeKind
  unit : ScopeKind

abbrev pub scope_wire : ScopeKind → Text
scope_wire ScopeKind.global = text "global"
scope_wire ScopeKind.project = text "project"
scope_wire ScopeKind.run = text "run"
scope_wire ScopeKind.unit = text "unit"

pub record AttemptTokenClaims : Type 0 where
  pub unit_id : Text
  pub attempt_epoch : ℕ
  pub stamp : ℕ
  pub authority_epoch : ℕ
  pub holder_id : Text
  pub nonce : Text

pub record EffectSpec : Type 0 where
  pub logical_operation_id : Uuid7
  pub request_digest : Text
  pub adapter_id : Text
  pub adapter_version : Text
  pub retry_class : RetryClass
  pub reversibility_class : ReversibilityClass
  pub target_enumeration : TargetEnumeration
  pub approval_ref : Option Uuid7
  pub policy_snapshot_digest : Text
  pub declared_targets : List TargetObservation
  pub decomposable : Bool
  pub compensation_intent_id : Option Uuid7

pub data Method : Type 0 where
  run_open : (run_id goal_work_item_id : Text) → Method
  run_close : (run_id : Text) → RunOutcome → Method
  work_item_create :
      (work_item_id acceptance_contract_digest : Text) → (declared_write_scope : List Text) → Method
  unit_admit : (unit_id work_item_id run_id : Text) → Method
  unit_dispatch : (unit_id holder_id : Text) → Method
  progress_report : (unit_id : Text) → Method
  stamp_bump : (unit_id : Text) → Method
  token_reissue : (unit_id : Text) → Method
  effect_prepare : (unit_id : Text) → EffectSpec → Method
  effect_dispatch : (unit_id operation_key : Text) → Method
  effect_record_dispatched : (unit_id operation_key : Text) (dispatched_at : ℕ) → Method
  effect_settle :
      (unit_id operation_key : Text)
      → EffectTerminal
      → (targets : List TargetObservation) → SettleEvidence
      → (settled_at : ℕ) → Method
  effect_park_reconciling : (unit_id operation_key : Text) (next_reconcile_at : ℕ) → Method
  cancel_request :
      (root_kind : CancelKind) (root_id : Text)
      → CancelReason
      → CancelPolicy
      → (proposed : List MemberInput) → Method
  cancel_record_delivery :
      (cancel_request_id member_id : Text) (delivered_at : ℕ) (observed_at : Option ℕ)
      → DeliveryOutcome
      → Method

abbrev pub method_wire : Method → Text
method_wire (Method.run_open run_id goal) = text "run.open"
method_wire (Method.run_close run_id outcome) = text "run.close"
method_wire (Method.work_item_create id digest scope) = text "work_item.create"
method_wire (Method.unit_admit unit_id work_item_id run_id) = text "unit.admit"
method_wire (Method.unit_dispatch unit_id holder_id) = text "unit.dispatch"
method_wire (Method.progress_report unit_id) = text "unit.progress_report"
method_wire (Method.stamp_bump unit_id) = text "unit.stamp_bump"
method_wire (Method.token_reissue unit_id) = text "token.reissue"
method_wire (Method.effect_prepare unit_id spec) = text "effect.prepare"
method_wire (Method.effect_dispatch unit_id key) = text "effect.dispatch"
method_wire (Method.effect_record_dispatched unit_id key at) = text "effect.record_dispatched"
method_wire (Method.effect_settle unit_id key terminal targets evidence at) = text "effect.settle"
method_wire (Method.effect_park_reconciling unit_id key at) = text "effect.park_reconciling"
method_wire (Method.cancel_request kind id reason policy proposed) = text "cancel.request"
method_wire (Method.cancel_record_delivery id member at observed outcome) =
    text "cancel.record_delivery"

abbrev pub method_unit_id : Method → Option Text
method_unit_id (Method.run_open run_id goal) = none
method_unit_id (Method.run_close run_id outcome) = none
method_unit_id (Method.work_item_create id digest scope) = none
method_unit_id (Method.unit_admit unit_id work_item_id run_id) = some unit_id
method_unit_id (Method.unit_dispatch unit_id holder_id) = some unit_id
method_unit_id (Method.progress_report unit_id) = some unit_id
method_unit_id (Method.stamp_bump unit_id) = some unit_id
method_unit_id (Method.token_reissue unit_id) = some unit_id
method_unit_id (Method.effect_prepare unit_id spec) = some unit_id
method_unit_id (Method.effect_dispatch unit_id key) = some unit_id
method_unit_id (Method.effect_record_dispatched unit_id key at) = some unit_id
method_unit_id (Method.effect_settle unit_id key terminal targets evidence at) = some unit_id
method_unit_id (Method.effect_park_reconciling unit_id key at) = some unit_id
method_unit_id (Method.cancel_request kind id reason policy proposed) = none
method_unit_id (Method.cancel_record_delivery id member at observed outcome) = none

abbrev pub method_operation_key : Method → Option Text
method_operation_key (Method.effect_dispatch unit_id key) = some key
method_operation_key (Method.effect_record_dispatched unit_id key at) = some key
method_operation_key (Method.effect_settle unit_id key terminal targets evidence at) = some key
method_operation_key (Method.effect_park_reconciling unit_id key at) = some key
method_operation_key _ = none

pub record Command : Type 0 where
  pub command_id : Text
  pub scope_kind : ScopeKind
  pub scope_id : Text
  pub request_digest : Text
  pub expected_version : Option ℕ
  pub principal_kind : PrincipalKind
  pub principal_id : Text
  pub authority_epoch : Option ℕ
  pub attempt_token : Option AttemptTokenClaims
  pub causation_id : Option Text
  pub correlation_id : Option Text
  pub method : Method

-- The answer, without the diagnostic text of a rejection.
pub data Submission : Type 0 where
  completed : (result : Value) → Submission
  replayed : (result : Value) → Submission
  rejected : ErrorKind → (replayed : Bool) → Submission
