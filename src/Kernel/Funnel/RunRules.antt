-- ===== src/Kernel/Funnel/RunRules.antt =====
-- crates/yah-kernel/src/funnel/run_rules.rs: the members that forbid closing a run `success`. A
-- blocker is its member; its reason is diagnostic.
use yet_another_harness.Prelude.{
  Bool, true, false, ◌&&◌, not, Option, none, some, List, [], ◌∷◌, ◌++◌, Text, text, text_eq,
  mem_text, if◌then◌else◌, ◌>>?◌,
}
use yet_another_harness.Prelude.Table.{Table, read}
use yet_another_harness.Kernel.Effect.{EffectState, EffectTerminal}
use yet_another_harness.Kernel.Cancel.{CancelKind}
use yet_another_harness.Kernel.Funnel.EffectRules.{state_wire, terminal_wire}
use yet_another_harness.Kernel.Funnel.State.{Graph, UnitNode, EffectNode, CancelRequestNode}

-- An effect that is not settled, or whose outcome was never proved.
unfoldable pub effect_blocks : Text → Option Text → Bool
effect_blocks state terminal =
    if text_eq state (state_wire EffectState.settled)
    then (elim terminal [ some t ↦ text_eq t (terminal_wire EffectTerminal.unknown) | none ↦ true ])
    else true

unfoldable pub kind_from_wire : Text → Option CancelKind
kind_from_wire wire =
    if text_eq wire (text "run")
    then some CancelKind.run
    else if text_eq wire (text "execution_unit")
    then some CancelKind.execution_unit
    else if text_eq wire (text "attempt")
    then some CancelKind.attempt
    else if text_eq wire (text "effect_intent")
    then some CancelKind.effect_intent
    else none

abbrev pub unit_run_id : Graph → Text → Option Text
unit_run_id g unit_id = read unit_id g.units >>? λ unit. some unit.run_id

-- The run that owns a root.
unfoldable pub root_run : Graph → CancelKind → Text → Option Text
root_run g CancelKind.run root_id = some root_id
root_run g CancelKind.execution_unit root_id = unit_run_id g root_id
root_run g CancelKind.attempt root_id = read root_id g.attempt_ids >>? λ key.
    read key g.attempts >>? λ attempt. unit_run_id g attempt.unit_id
root_run g CancelKind.effect_intent root_id = read root_id g.effect_intent_ids >>? λ key.
    read key g.effects >>? λ effect. unit_run_id g effect.unit_id

-- The units of a run.
unfoldable pub units_of : Text → Table UnitNode → List Text
units_of run_id [] = []
units_of run_id ((unit_id, unit) ∷ rest) =
    let others = units_of run_id rest in
    if text_eq unit.run_id run_id then unit_id ∷ others else others

unfoldable pub effect_blockers : List Text → Table EffectNode → List Text
effect_blockers units [] = []
effect_blockers units ((key, effect) ∷ rest) =
    let others = effect_blockers units rest in
    if mem_text effect.unit_id units && effect_blocks effect.state effect.terminal
    then key ∷ others
    else others

-- A request that is not settled, and resolves up to the run.
unfoldable pub is_unsettled_in : Graph → Text → CancelRequestNode → Bool
is_unsettled_in g run_id request =
    not (text_eq request.status (text "settled"))
    && (elim (kind_from_wire request.root_kind >>? λ kind. root_run g kind request.root_id) [
      | none ↦ false
      | some owner ↦ text_eq owner run_id
    ])

unfoldable pub cancel_blocks : Graph → Text → Table CancelRequestNode → List Text
cancel_blocks g run_id [] = []
cancel_blocks g run_id ((request_id, request) ∷ rest) =
    let others = cancel_blocks g run_id rest in
    if is_unsettled_in g run_id request then request_id ∷ others else others

unfoldable pub success_blockers : Graph → Text → List Text
success_blockers g run_id =
    effect_blockers (units_of run_id g.units) g.effects ++ cancel_blocks g run_id g.cancel_requests
