-- ===== src/Kernel/Funnel/Prepare/Again.antt =====
-- An operation that is prepared twice, of crates/yah-kernel/src/funnel/effects.rs.
use yet_another_harness.Prelude.{
  ℕ, ◌+◌, ◌≡◌, refl, true, false, Bool, Option, none, some, List, [], ◌∷◌, Text, text, sym, ap,
  text_eq_refl, length, map, ◌∙◌, ok, err, Result, arith,
}
use yet_another_harness.Prelude.Table.{read, read-write}
use yet_another_harness.Ipc.Types.{string, bool}
use yet_another_harness.Kernel.Error.{Rejection}
use yet_another_harness.Kernel.Ids.{Uuid7, display}
use yet_another_harness.Kernel.Effect.{
  Hasher, RetryClass, ReversibilityClass, TargetEnumeration, TargetObservation, EffectIntent,
  EffectState,
}
use yet_another_harness.Kernel.Funnel.EffectRules.{
  declared_at_prepare, sorted_by_target_id, insert_target, unobserved, check_target_list,
  state_wire,
}
use yet_another_harness.Kernel.Funnel.Command.{Command, Method, EffectSpec, AttemptTokenClaims}
use yet_another_harness.Kernel.Funnel.State.{
  Graph, Funnel, EffectNode, Plan, Accepted, minted, json, json_uint,
}
use yet_another_harness.Kernel.Funnel.PreRead.{PreRead, pre_read}
use yet_another_harness.Kernel.Funnel.Gates.{holder_gate}
use yet_another_harness.Kernel.Funnel.Effects.{unbarred}
use yet_another_harness.Kernel.Funnel.Apply.{apply_plan}
use yet_another_harness.Kernel.Funnel.Prepare.{
  validate_prepare, enumeration_ok, accept_existing, accept_new, agrees, declared_same,
  targets_agree, new_intent, uuid_option_eq, text_option_eq, bool_eq, retry_eq, reversibility_eq,
  enumeration_eq,
}

text_option_eq_refl : (a : Option Text) → text_option_eq a a ≡ true
text_option_eq_refl none = refl
text_option_eq_refl (some t) = text_eq_refl t

targets_agree_refl : (ts : List TargetObservation) → targets_agree ts ts ≡ true
unfolding targets_agree
targets_agree_refl [] = refl
targets_agree_refl (t ∷ ts) = ground (
  arith,
  text_eq_refl t.target_id,
  text_option_eq_refl t.expected_digest,
  text_option_eq_refl t.pre_digest,
  targets_agree_refl ts,
)

length-insert_target :
    (t : TargetObservation) (ts : List TargetObservation)
    → length (insert_target t ts) ≡ length ts + 1
unfolding insert_target
length-insert_target t [] = refl
length-insert_target t (u ∷ us) = ground (arith, length-insert_target t us)

length-sorted_by_target_id :
    (ts : List TargetObservation) → length (sorted_by_target_id ts) ≡ length ts
unfolding sorted_by_target_id
length-sorted_by_target_id [] = refl
length-sorted_by_target_id (t ∷ ts) =
    ground (arith, length-insert_target t (sorted_by_target_id ts), length-sorted_by_target_id ts)

length-map-unobserved : (ts : List TargetObservation) → length (map unobserved ts) ≡ length ts
length-map-unobserved [] = refl
length-map-unobserved (t ∷ ts) = ground (arith, length-map-unobserved ts)

length-declared_at_prepare :
    (ts : List TargetObservation) → length (declared_at_prepare ts) ≡ length ts
unfolding declared_at_prepare
length-declared_at_prepare ts =
    length-sorted_by_target_id (map unobserved ts) ∙ length-map-unobserved ts

retry_eq_refl : (c : RetryClass) → retry_eq c c ≡ true
retry_eq_refl c = ground arith

reversibility_eq_refl : (c : ReversibilityClass) → reversibility_eq c c ≡ true
reversibility_eq_refl c = ground arith

enumeration_eq_refl : (e : TargetEnumeration) → enumeration_eq e e ≡ true
enumeration_eq_refl e = ground arith

bool_eq_refl : (b : Bool) → bool_eq b b ≡ true
bool_eq_refl true = refl
bool_eq_refl false = refl

uuid_option_eq_refl : (a : Option Uuid7) → uuid_option_eq a a ≡ true
uuid_option_eq_refl a = ground arith

-- A new intent agrees with the spec that it is made of.
agrees-new_intent :
    (id : Uuid7) (unit_id key : Text) (claims : AttemptTokenClaims) (spec : EffectSpec)
    → agrees (new_intent id unit_id claims spec key) spec ≡ true
unfolding agrees new_intent declared_same
agrees-new_intent id unit_id key claims spec = ground (
  arith,
  text_eq_refl spec.adapter_id,
  text_eq_refl spec.adapter_version,
  retry_eq_refl spec.retry_class,
  reversibility_eq_refl spec.reversibility_class,
  text_eq_refl spec.policy_snapshot_digest,
  bool_eq_refl spec.decomposable,
  uuid_option_eq_refl spec.compensation_intent_id,
  uuid_option_eq_refl spec.approval_ref,
  enumeration_eq_refl spec.target_enumeration,
  length-declared_at_prepare spec.declared_targets,
  targets_agree_refl (declared_at_prepare spec.declared_targets),
)

-- The row that the plan of a new effect writes.
abbrev new_row : Text → Uuid7 → EffectIntent → ℕ → EffectNode
new_row unit_id id intent epoch = record {
  effect_intent_id = display id;
  unit_id = unit_id;
  attempt_epoch = epoch;
  version = 1;
  state = state_wire EffectState.prepared;
  terminal = none;
  intent_record = some intent;
}

-- The answer to a preparation of the intent that is there: nothing is written and nothing minted.
abbrev pub already_prepared : Text → Uuid7 → Accepted
already_prepared key id = record {
  plan = Plan.nothing;
  events = [];
  result = json (
      (text "operation_key", string key)
      ∷ (text "effect_intent_id", string (display id))
      ∷ (text "version", json_uint 1)
      ∷ (text "existing", bool true)
      ∷ []);
  mints = 0;
}

accept_existing-new :
    (unit_id key : Text) (id : Uuid7) (claims : AttemptTokenClaims) (epoch : ℕ) (spec : EffectSpec)
    → accept_existing unit_id key spec
        (new_row unit_id id (new_intent id unit_id claims spec key) epoch)
      ≡ ok (already_prepared key id)
unfolding accept_existing new_intent
accept_existing-new unit_id key id claims epoch spec =
    ground (arith, text_eq_refl unit_id, agrees-new_intent id unit_id key claims spec)

-- What an accepted first preparation has checked, and what it answers.
prepared_new :
    (f : Funnel) (cmd : Command) (pre : PreRead) (unit_id key : Text) (spec : EffectSpec)
    (a : Accepted)
    → pre.effect_key ≡ some key
    → pre.effect ≡ none
    → validate_prepare f cmd pre unit_id spec ≡ ok a
    → (claims : AttemptTokenClaims) × (check_target_list spec.declared_targets ≡ ok tt)
      × (enumeration_ok spec ≡ true)
      × (a ≡ accept_new f unit_id key claims spec)
unfolding validate_prepare
prepared_new f cmd pre unit_id key spec a keyed fresh h =
    by_gate (holder_gate f.authority_epoch cmd pre unit_id) refl
  where
    by_gate :
        (r : Result AttemptTokenClaims Rejection)
        → holder_gate f.authority_epoch cmd pre unit_id ≡ r
        → (claims : AttemptTokenClaims) × (check_target_list spec.declared_targets ≡ ok tt)
          × (enumeration_ok spec ≡ true)
          × (a ≡ accept_new f unit_id key claims spec)
    by_gate (ok claims) passed =
        let checks : (check_target_list spec.declared_targets ≡ ok tt)
            × (enumeration_ok spec ≡ true)
            × (accept_new f unit_id key claims spec ≡ a) =
          ground (arith, h, passed, keyed, fresh) in
        (claims, checks.0, checks.1, sym checks.2)
    by_gate (err e) failed = ground (arith, h, failed)

apply_new :
    (f : Funnel) (g after : Graph) (unit_id key : Text) (spec : EffectSpec)
    (claims : AttemptTokenClaims)
    → apply_plan g (accept_new f unit_id key claims spec).plan ≡ some after
    → (after.units ≡ g.units)
      × (read key after.effects
          ≡ some (
              new_row unit_id
                (minted f 0)
                (new_intent (minted f 0) unit_id claims spec key)
                claims.attempt_epoch))
unfolding apply_plan accept_new
apply_new f g after unit_id key spec claims applied =
    ground (arith, applied, read-write key key row g.effects, text_eq_refl key)
  where
    row : EffectNode
    row =
        new_row unit_id (minted f 0) (new_intent (minted f 0) unit_id claims spec key)
          claims.attempt_epoch

-- The operation key is derived of the unit's row and the spec.
effect_key-pre_read :
    (blake3 : Hasher) (g after : Graph) (cmd again : Command) (unit_id : Text) (spec : EffectSpec)
    → cmd.method ≡ Method.effect_prepare unit_id spec
    → again.method ≡ Method.effect_prepare unit_id spec
    → after.units ≡ g.units
    → (pre_read blake3 after again).effect_key ≡ (pre_read blake3 g cmd).effect_key
unfolding pre_read
effect_key-pre_read blake3 g after cmd again unit_id spec first second same =
    ground (arith, first, second, same)

effect-pre_read :
    (blake3 : Hasher) (g : Graph) (cmd : Command) (key : Text)
    → (pre_read blake3 g cmd).effect_key ≡ some key
    → (pre_read blake3 g cmd).effect ≡ read key g.effects
unfolding pre_read
effect-pre_read blake3 g cmd key keyed = ground (arith, keyed)

validate_prepare-existing :
    (f : Funnel) (cmd : Command) (pre : PreRead) (unit_id key : Text) (spec : EffectSpec)
    (claims : AttemptTokenClaims) (row : EffectNode)
    → holder_gate f.authority_epoch cmd pre unit_id ≡ ok claims
    → unbarred pre ≡ true
    → check_target_list spec.declared_targets ≡ ok tt
    → enumeration_ok spec ≡ true
    → pre.effect_key ≡ some key
    → pre.effect ≡ some row
    → validate_prepare f cmd pre unit_id spec ≡ accept_existing unit_id key spec row
unfolding validate_prepare
validate_prepare-existing f cmd pre unit_id key spec claims row passed clear listed declared keyed
      has =
    ground (arith, passed, clear, listed, declared, keyed, has)

-- Preparing an operation is idempotent: when a new effect was accepted and its plan applied, a
-- later `effect.prepare` of the same unit and spec, from a holder that passes the gate while no
-- cancellation bars the unit, answers with the id that was minted first, writes nothing and mints
-- nothing.
pub validate_prepare-validate_prepare :
    (blake3 : Hasher) (f : Funnel) (cmd : Command) (unit_id key : Text) (spec : EffectSpec)
    (a : Accepted) (g : Graph)
    → cmd.method ≡ Method.effect_prepare unit_id spec
    → (pre_read blake3 f.graph cmd).effect_key ≡ some key
    → (pre_read blake3 f.graph cmd).effect ≡ none
    → validate_prepare f cmd (pre_read blake3 f.graph cmd) unit_id spec ≡ ok a
    → apply_plan f.graph a.plan ≡ some g
    → (later : Funnel) (again : Command) (claims : AttemptTokenClaims)
    → again.method ≡ Method.effect_prepare unit_id spec
    → holder_gate later.authority_epoch again (pre_read blake3 g again) unit_id ≡ ok claims
    → unbarred (pre_read blake3 g again) ≡ true
    → validate_prepare later again (pre_read blake3 g again) unit_id spec
      ≡ ok (already_prepared key (minted f 0))
validate_prepare-validate_prepare blake3 f cmd unit_id key spec a g first keyed fresh h applied
      later again claims second passed clear =
    let (token, listed, declared, answer) =
      prepared_new f cmd (pre_read blake3 f.graph cmd) unit_id key spec a keyed fresh h in
    let after =
      apply_new f f.graph g unit_id key spec token
        (ap (λ b. apply_plan f.graph b.plan) (sym answer) ∙ applied) in
    let same_key =
      effect_key-pre_read blake3 f.graph g cmd again unit_id spec first second after.0 ∙ keyed in
    validate_prepare-existing later again (pre_read blake3 g again) unit_id key spec claims
      (new_row unit_id (minted f 0) (new_intent (minted f 0) unit_id token spec key)
        token.attempt_epoch)
      passed clear listed declared same_key (effect-pre_read blake3 g again key same_key ∙ after.1)
    ∙ accept_existing-new unit_id key (minted f 0) token token.attempt_epoch spec
