-- ===== src/Kernel/Funnel/Prepare.antt =====
-- `validate_prepare` of crates/yah-kernel/src/funnel/effects.rs. A derived `PartialEq` is a test here.
pub mod Again
use yet_another_harness.Prelude.{
  Bool, true, false, ◌&&◌, not, Option, none, some, List, [], ◌∷◌, Text, text, text_eq, length,
  ◌==◌, Result, ok, guard, or_fail, ◌>>◌, ◌>>=◌,
}
use yet_another_harness.Ipc.Types.{string, bool}
use yet_another_harness.Kernel.Error.{ErrorKind, Rejection, durable, transient}
use yet_another_harness.Kernel.Ids.{Uuid7, display}
use yet_another_harness.Kernel.Effect.{
  EffectIntent, EffectState, TargetEnumeration, RetryClass, ReversibilityClass, TargetObservation,
}
use yet_another_harness.Kernel.Funnel.EffectRules.{check_target_list, declared_at_prepare}
use yet_another_harness.Kernel.Funnel.Command.{Command, EffectSpec, AttemptTokenClaims}
use yet_another_harness.Kernel.Funnel.State.{
  Funnel, EffectNode, Plan, Accepted, minted, json, json_uint,
}
use yet_another_harness.Kernel.Funnel.PreRead.{PreRead}
use yet_another_harness.Kernel.Funnel.Gates.{holder_gate}
use yet_another_harness.Kernel.Funnel.Effects.{
  is_empty, unbarred, retry_wire, reversibility_wire, enumeration_wire,
}

abbrev pub uuid_option_eq : Option Uuid7 → Option Uuid7 → Bool
uuid_option_eq none none = true
uuid_option_eq none (some b) = false
uuid_option_eq (some a) none = false
uuid_option_eq (some a) (some b) = a == b

abbrev pub text_option_eq : Option Text → Option Text → Bool
text_option_eq none none = true
text_option_eq none (some b) = false
text_option_eq (some a) none = false
text_option_eq (some a) (some b) = text_eq a b

abbrev pub bool_eq : Bool → Bool → Bool
bool_eq true b = b
bool_eq false b = not b

abbrev pub retry_eq : RetryClass → RetryClass → Bool
retry_eq RetryClass.safe_idempotent b = elim b [ RetryClass.safe_idempotent ↦ true | _ ↦ false ]
retry_eq RetryClass.safe_with_operation_key b = elim b [
  | RetryClass.safe_with_operation_key ↦ true
  | _ ↦ false
]
retry_eq RetryClass.query_then_retry b = elim b [ RetryClass.query_then_retry ↦ true | _ ↦ false ]
retry_eq RetryClass.no_retry b = elim b [ RetryClass.no_retry ↦ true | _ ↦ false ]

abbrev pub reversibility_eq : ReversibilityClass → ReversibilityClass → Bool
reversibility_eq ReversibilityClass.bufferable b = elim b [
  | ReversibilityClass.bufferable ↦ true
  | _ ↦ false
]
reversibility_eq ReversibilityClass.reversible_external b = elim b [
  | ReversibilityClass.reversible_external ↦ true
  | _ ↦ false
]
reversibility_eq ReversibilityClass.irreversible b = elim b [
  | ReversibilityClass.irreversible ↦ true
  | _ ↦ false
]

abbrev pub enumeration_eq : TargetEnumeration → TargetEnumeration → Bool
enumeration_eq TargetEnumeration.declared b = elim b [
  | TargetEnumeration.declared ↦ true
  | _ ↦ false
]
enumeration_eq TargetEnumeration.post_hoc b = elim b [
  | TargetEnumeration.post_hoc ↦ true
  | _ ↦ false
]

-- `zip` and `all`, over the declared identity of the targets.
unfoldable pub targets_agree : List TargetObservation → List TargetObservation → Bool
targets_agree [] bs = true
targets_agree (a ∷ as') [] = true
targets_agree (a ∷ as') (b ∷ bs) =
    text_eq a.target_id b.target_id
    && text_option_eq a.expected_digest b.expected_digest
    && text_option_eq a.pre_digest b.pre_digest
    && targets_agree as' bs

unfoldable pub declared_same : EffectIntent → EffectSpec → Bool
declared_same intent spec =
    enumeration_eq intent.target_enumeration spec.target_enumeration
    && (length intent.targets == length spec.declared_targets)
    && targets_agree intent.targets (declared_at_prepare spec.declared_targets)

-- The spec agrees with the intent on every declared axis.
unfoldable pub agrees : EffectIntent → EffectSpec → Bool
agrees intent spec =
    text_eq intent.adapter_id spec.adapter_id
    && text_eq intent.adapter_version spec.adapter_version
    && retry_eq intent.retry_class spec.retry_class
    && reversibility_eq intent.reversibility_class spec.reversibility_class
    && text_eq intent.policy_snapshot_digest spec.policy_snapshot_digest
    && bool_eq intent.decomposable spec.decomposable
    && uuid_option_eq intent.compensation_intent_id spec.compensation_intent_id
    && uuid_option_eq intent.approval_ref spec.approval_ref
    && declared_same intent spec

-- The declaration matches the payload: `declared` with targets, `post_hoc` without.
abbrev pub enumeration_ok : EffectSpec → Bool
enumeration_ok spec = elim spec.target_enumeration [
  | TargetEnumeration.declared ↦ not (is_empty spec.declared_targets)
  | TargetEnumeration.post_hoc ↦ is_empty spec.declared_targets
]

unfoldable pub new_intent : Uuid7 → Text → AttemptTokenClaims → EffectSpec → Text → EffectIntent
new_intent id unit_id token spec key = record {
  effect_intent_id = id;
  version = 1;
  unit_id = unit_id;
  attempt_epoch = token.attempt_epoch;
  stamp = token.stamp;
  authority_epoch = token.authority_epoch;
  adapter_id = spec.adapter_id;
  adapter_version = spec.adapter_version;
  operation_key = key;
  logical_operation_id = spec.logical_operation_id;
  request_digest = spec.request_digest;
  retry_class = spec.retry_class;
  reversibility_class = spec.reversibility_class;
  approval_ref = spec.approval_ref;
  policy_snapshot_digest = spec.policy_snapshot_digest;
  state = EffectState.prepared;
  terminal = none;
  target_enumeration = spec.target_enumeration;
  targets = declared_at_prepare spec.declared_targets;
  decomposable = spec.decomposable;
  parent_effect_intent_id = none;
  compensation_intent_id = spec.compensation_intent_id;
  dispatched_at = none;
  settled_at = none;
  next_reconcile_at = none;
}

-- Preparing an operation again returns its intent.
unfoldable pub accept_existing : Text → Text → EffectSpec → EffectNode → Result Accepted Rejection
accept_existing unit_id key spec existing = do
  intent ← or_fail existing.intent_record (transient ErrorKind.internal)
  guard (text_eq intent.unit_id unit_id) (durable ErrorKind.invalid_request)
  guard (agrees intent spec) (durable ErrorKind.invalid_request)
  ok (record {
    plan = Plan.nothing;
    events = [];
    result = json (
        (text "operation_key", string key)
        ∷ (text "effect_intent_id", string (display intent.effect_intent_id))
        ∷ (text "version", json_uint intent.version)
        ∷ (text "existing", bool true)
        ∷ []);
    mints = 0;
  })

unfoldable pub accept_new : Funnel → Text → Text → AttemptTokenClaims → EffectSpec → Accepted
accept_new f unit_id key token spec = record {
  plan =
      Plan.create_effect key (display (minted f 0)) unit_id token.attempt_epoch
        (new_intent (minted f 0) unit_id token spec key);
  events =
      record {
        aggregate_kind = text "effect";
        aggregate_id = display (minted f 0);
        aggregate_version = 1;
        event_kind = text "effect.prepared";
        payload = json (
            (text "effect_intent_id", string (display (minted f 0)))
            ∷ (text "adapter_id", string spec.adapter_id)
            ∷ (text "retry_class", string (retry_wire spec.retry_class))
            ∷ (text "reversibility_class", string (reversibility_wire spec.reversibility_class))
            ∷ (text "target_enumeration", string (enumeration_wire spec.target_enumeration))
            ∷ []);
      }
      ∷ [];
  result = json (
      (text "operation_key", string key)
      ∷ (text "effect_intent_id", string (display (minted f 0)))
      ∷ (text "version", json_uint 1)
      ∷ (text "existing", bool false)
      ∷ []);
  mints = 1;
}

-- The key is derived when the unit is there, which the fence has seen; the code panics without it.
unfoldable pub validate_prepare :
    Funnel → Command → PreRead → Text → EffectSpec → Result Accepted Rejection
validate_prepare f cmd pre unit_id spec = do
  token ← holder_gate f.authority_epoch cmd pre unit_id
  guard (unbarred pre) (durable ErrorKind.invalid_request)
  check_target_list spec.declared_targets
  guard (enumeration_ok spec) (durable ErrorKind.invalid_request)
  key ← or_fail pre.effect_key (transient ErrorKind.internal)
  elim pre.effect [
    | some existing ↦ accept_existing unit_id key spec existing
    | none ↦ ok (accept_new f unit_id key token spec)
  ]
