-- ===== src/Kernel/Funnel/Validate/Closing.antt =====
-- The close of a run, of crates/yah-kernel/src/funnel/validate.rs and run_rules.rs.
use yet_another_harness.Prelude.{
  ◌≡◌, refl, ap, true, false, Option, none, some, List, [], ◌∷◌, ◌++◌, Text, text, text_eq,
  mem_text, arith, ok,
}
use yet_another_harness.Prelude.Table.{Table, read}
use yet_another_harness.Kernel.Effect.{Hasher}
use yet_another_harness.Kernel.Cancel.{CancelKind}
use yet_another_harness.Kernel.Funnel.Command.{Command, Method, RunOutcome}
use yet_another_harness.Kernel.Funnel.State.{
  Graph, Funnel, UnitNode, AttemptNode, EffectNode, CancelRequestNode, Accepted,
}
use yet_another_harness.Kernel.Funnel.RunRules.{
  effect_blocks, units_of, effect_blockers, cancel_blocks, success_blockers, is_unsettled_in,
  kind_from_wire, root_run,
}
use yet_another_harness.Kernel.Funnel.PreRead.{PreRead, pre_read}
use yet_another_harness.Kernel.Funnel.Validate.{validate, validate_run_close}

-- The units of a run are those whose row names it.
mem_text-units_of :
    (run_id unit_id : Text) (units : Table UnitNode) (unit : UnitNode)
    → read unit_id units ≡ some unit
    → text_eq unit.run_id run_id ≡ true
    → mem_text unit_id (units_of run_id units) ≡ true
unfolding read units_of
mem_text-units_of run_id unit_id [] unit h k = cc
mem_text-units_of run_id unit_id ((j, row) ∷ units) unit h k =
    ground (arith, h, k, mem_text-units_of run_id unit_id units unit)

effect_blockers_clear :
    (units : List Text) (effects : Table EffectNode) (key : Text) (effect : EffectNode)
    → effect_blockers units effects ≡ []
    → read key effects ≡ some effect
    → mem_text effect.unit_id units ≡ true
    → effect_blocks effect.state effect.terminal ≡ false
unfolding effect_blockers read
effect_blockers_clear units [] key effect h k l = cc
effect_blockers_clear units ((j, row) ∷ effects) key effect h k l =
    ground (arith, h, k, l, effect_blockers_clear units effects key effect)

close_checks :
    (f : Funnel) (cmd : Command) (pre : PreRead) (run_id : Text) (outcome : RunOutcome)
    (a : Accepted)
    → validate_run_close f cmd pre run_id outcome ≡ ok a
    → pre.run_blockers ≡ []
unfolding validate_run_close
close_checks f cmd pre run_id outcome a h = ground (arith, h)

closed_blockers :
    (blake3 : Hasher) (f : Funnel) (cmd : Command) (run_id : Text) (a : Accepted)
    → cmd.method ≡ Method.run_close run_id RunOutcome.closed_success
    → validate f cmd (pre_read blake3 f.graph cmd) ≡ ok a
    → success_blockers f.graph run_id ≡ []
unfolding validate pre_read
closed_blockers blake3 f cmd run_id a method h = ground (
  arith,
  h,
  method,
  close_checks f cmd (pre_read blake3 f.graph cmd) run_id RunOutcome.closed_success a,
)

append_empty : (xs ys : List Text) → (xs ++ ys) ≡ [] → (xs ≡ []) × (ys ≡ [])
append_empty [] ys h = (refl, h)
append_empty (x ∷ xs) ys h = absurd (nonempty h)
  where
    nonempty : (x ∷ (xs ++ ys)) ≡ [] → ⊥
    nonempty e = cc

cancel_blocks_clear :
    (g : Graph) (run_id : Text) (requests : Table CancelRequestNode) (request_id : Text)
    (request : CancelRequestNode)
    → cancel_blocks g run_id requests ≡ []
    → read request_id requests ≡ some request
    → is_unsettled_in g run_id request ≡ false
unfolding cancel_blocks read
cancel_blocks_clear g run_id [] request_id request h k = cc
cancel_blocks_clear g run_id ((j, row) ∷ requests) request_id request h k =
    ground (arith, h, k, cancel_blocks_clear g run_id requests request_id request)

-- The row of an effect whose outcome is settled and proved.
abbrev pub IsProved : EffectNode → Type 0
IsProved effect =
    (text_eq effect.state (text "settled") ≡ true)
    × (terminal : Text) × (effect.terminal ≡ some terminal)
    × (text_eq terminal (text "unknown") ≡ false)

effect_blocks-IsProved :
    (effect : EffectNode) → effect_blocks effect.state effect.terminal ≡ false → IsProved effect
unfolding effect_blocks
effect_blocks-IsProved effect h = by_terminal effect.terminal refl
  where
    by_terminal : (o : Option Text) → effect.terminal ≡ o → IsProved effect
    by_terminal none e = absurd (ground (arith, h, e))
    by_terminal (some terminal) e =
        let facts : (text_eq effect.state (text "settled") ≡ true)
            × (text_eq terminal (text "unknown") ≡ false) =
          ground (arith, h, e) in
        (facts.0, terminal, e, facts.1)

-- A root in the run: the run, a unit of the run, an attempt of such a unit, or an effect of one.
pub data IsRooted (g : Graph) (run_id : Text) (request : CancelRequestNode) : Type 0 where
  at_run :
      request.root_kind ≡ text "run"
      → text_eq request.root_id run_id ≡ true
      → IsRooted g run_id request
  at_unit :
      (unit : UnitNode)
      → request.root_kind ≡ text "execution_unit"
      → read request.root_id g.units ≡ some unit
      → text_eq unit.run_id run_id ≡ true
      → IsRooted g run_id request
  at_attempt :
      (key : Text) (attempt : AttemptNode) (unit : UnitNode)
      → request.root_kind ≡ text "attempt"
      → read request.root_id g.attempt_ids ≡ some key
      → read key g.attempts ≡ some attempt
      → read attempt.unit_id g.units ≡ some unit
      → text_eq unit.run_id run_id ≡ true
      → IsRooted g run_id request
  at_effect :
      (key : Text) (effect : EffectNode) (unit : UnitNode)
      → request.root_kind ≡ text "effect_intent"
      → read request.root_id g.effect_intent_ids ≡ some key
      → read key g.effects ≡ some effect
      → read effect.unit_id g.units ≡ some unit
      → text_eq unit.run_id run_id ≡ true
      → IsRooted g run_id request

kind_from_run : kind_from_wire (text "run") ≡ some CancelKind.run
unfolding kind_from_wire text
kind_from_run = refl

kind_from_unit : kind_from_wire (text "execution_unit") ≡ some CancelKind.execution_unit
unfolding kind_from_wire text
kind_from_unit = refl

kind_from_attempt : kind_from_wire (text "attempt") ≡ some CancelKind.attempt
unfolding kind_from_wire text
kind_from_attempt = refl

kind_from_effect : kind_from_wire (text "effect_intent") ≡ some CancelKind.effect_intent
unfolding kind_from_wire text
kind_from_effect = refl

rooted_settled :
    (g : Graph) (run_id : Text) (request : CancelRequestNode)
    → IsRooted g run_id request
    → is_unsettled_in g run_id request ≡ false
    → text_eq request.status (text "settled") ≡ true
unfolding is_unsettled_in root_run
rooted_settled g run_id request (at_run kind own) h =
    ground (arith, h, own, ap kind_from_wire kind, kind_from_run)
rooted_settled g run_id request (at_unit unit kind reads own) h =
    ground (arith, h, own, ap kind_from_wire kind, kind_from_unit, reads)
rooted_settled g run_id request (at_attempt key attempt unit kind ids row owner own) h =
    ground (arith, h, own, ap kind_from_wire kind, kind_from_attempt, ids, row, owner)
rooted_settled g run_id request (at_effect key effect unit kind ids row owner own) h =
    ground (arith, h, own, ap kind_from_wire kind, kind_from_effect, ids, row, owner)

-- A run closes `success` only when every effect of each of its units has settled, with a terminal
-- other than `unknown`, and every cancellation rooted in the run, in one of its units, or in an
-- attempt or an effect of one, is settled.
pub closed_success_settled :
    (blake3 : Hasher) (f : Funnel) (cmd : Command) (run_id : Text) (a : Accepted)
    → cmd.method ≡ Method.run_close run_id RunOutcome.closed_success
    → validate f cmd (pre_read blake3 f.graph cmd) ≡ ok a
    → ((request_id : Text) (request : CancelRequestNode)
        → read request_id f.graph.cancel_requests ≡ some request
        → IsRooted f.graph run_id request
        → text_eq request.status (text "settled") ≡ true)
      × ((key : Text) (effect : EffectNode) (unit : UnitNode)
          → read key f.graph.effects ≡ some effect
          → read effect.unit_id f.graph.units ≡ some unit
          → text_eq unit.run_id run_id ≡ true
          → IsProved effect)
unfolding success_blockers
closed_success_settled blake3 f cmd run_id a method h =
    let units = units_of run_id f.graph.units in
    let parts =
      append_empty (effect_blockers units f.graph.effects)
        (cancel_blocks f.graph run_id f.graph.cancel_requests)
        (closed_blockers blake3 f cmd run_id a method h) in
    (
      λ request_id request reads rooted. rooted_settled f.graph run_id request rooted (
          cancel_blocks_clear f.graph run_id f.graph.cancel_requests request_id request parts.1
            reads),
      λ key effect unit reads owner own. effect_blocks-IsProved effect (
          effect_blockers_clear units f.graph.effects key effect parts.0 reads
            (mem_text-units_of run_id effect.unit_id f.graph.units unit owner own)),
    )
