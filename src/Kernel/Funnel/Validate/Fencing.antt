-- ===== src/Kernel/Funnel/Validate/Fencing.antt =====
-- What invalidates a token, of crates/yah-kernel/src/funnel/validate.rs: a new attempt and a new stamp.
use yet_another_harness.Prelude.{
  ℕ, ◌+◌, ◌≤◌, ◌≡◌, ◌≢◌, sym, ap, ◌∙◌, ◌>>?◌, Option, none, some, Text, text, text_eq_refl, arith,
  ok,
}
use yet_another_harness.Prelude.Table.{Table, read, write, read-write}
use yet_another_harness.Kernel.Effect.{Hasher}
use yet_another_harness.Kernel.Funnel.Command.{Command, AttemptTokenClaims, method_unit_id}
use yet_another_harness.Kernel.Funnel.State.{Funnel, Graph, UnitNode, Accepted, Plan, increment}
use yet_another_harness.Kernel.Funnel.PreRead.{PreRead, pre_read}
use yet_another_harness.Kernel.Funnel.Gates.{check_holder_fence, holder_gate}
use yet_another_harness.Kernel.Funnel.Apply.{update, apply_plan, apply_dispatch}
use yet_another_harness.Kernel.Funnel.Validate.{validate_stamp_bump, validate_unit_dispatch}

-- The claims of a token are those of a unit, of its stamp and attempt.
claims_unit :
    (epoch : ℕ) (cmd : Command) (pre : PreRead) (unit_id : Text) (claims : AttemptTokenClaims)
    (unit : UnitNode)
    → pre.unit ≡ some unit
    → holder_gate epoch cmd pre unit_id ≡ ok claims
    → (claims.stamp ≡ unit.stamp) × (claims.attempt_epoch ≡ unit.current_attempt_epoch)
unfolding holder_gate check_holder_fence
claims_unit epoch cmd pre unit_id claims unit has h = ground (arith, has, h)

-- An updated row reads as it was changed.
read-update :
    (key : Text) (change : UnitNode → UnitNode) (t after : Table UnitNode)
    → update key (λ row. some (change row)) t ≡ some after
    → (row : UnitNode) × (read key after ≡ some (change row))
unfolding update
read-update key change t after h = by_row (read key t) h
  where
    same_key : (row : UnitNode) → read key (write key row t) ≡ some row
    same_key row = ground (arith, read-write key key row t, text_eq_refl key)

    by_row :
        (o : Option UnitNode)
        → (o >>? λ row. some (change row) >>? λ changed. some (write key changed t)) ≡ some after
        → (row : UnitNode) × (read key after ≡ some (change row))
    by_row none e = absurd (no_row e)
      where
        no_row : none ≡ some after → ⊥
        no_row d = cc
    by_row (some row) e = (row, ap (read key) (sym (some_inj e)) ∙ same_key (change row))
      where
        some_inj : {x y : Table UnitNode} → some x ≡ some y → x ≡ y
        some_inj d = cc

pre_read_unit :
    (blake3 : Hasher) (g : Graph) (cmd : Command) (unit_id : Text)
    → method_unit_id cmd.method ≡ some unit_id
    → (pre_read blake3 g cmd).unit ≡ read unit_id g.units
unfolding pre_read
pre_read_unit blake3 g cmd unit_id h = ground (arith, h)

-- The rows that the two plans write.
abbrev bump : ℕ → ℕ → UnitNode → UnitNode
bump version stamp unit = record unit { version = version; stamp = stamp }

abbrev reassign : ℕ → ℕ → UnitNode → UnitNode
reassign version epoch unit = record unit {
  version = version;
  current_attempt_epoch = epoch;
  status = text "dispatched";
}

bump_plan :
    (f : Funnel) (cmd : Command) (pre : PreRead) (unit_id : Text) (unit : UnitNode) (a : Accepted)
    → pre.unit ≡ some unit
    → validate_stamp_bump f cmd pre unit_id ≡ ok a
    → a.plan ≡ Plan.bump_unit unit_id (unit.version + 1) (some (unit.stamp + 1))
unfolding validate_stamp_bump increment
bump_plan f cmd pre unit_id unit a has h = ground (arith, has, h)

bump_applied :
    (g after : Graph) (unit_id : Text) (version stamp : ℕ)
    → apply_plan g (Plan.bump_unit unit_id version (some stamp)) ≡ some after
    → update unit_id (λ row. some (bump version stamp row)) g.units ≡ some after.units
unfolding apply_plan
bump_applied g after unit_id version stamp h = ground (arith, h)

-- A stamp bump kills every token that the unit has: once it is applied, no command of a holder
-- passes the gate of the unit with a token of the stamp that was read, or of an older one.
pub stamp_bump_fences :
    (f : Funnel) (cmd : Command) (pre : PreRead) (unit_id : Text) (unit : UnitNode) (a : Accepted)
    (g : Graph)
    → pre.unit ≡ some unit
    → validate_stamp_bump f cmd pre unit_id ≡ ok a
    → apply_plan f.graph a.plan ≡ some g
    → (blake3 : Hasher) (epoch : ℕ) (holder : Command) (claims : AttemptTokenClaims)
    → method_unit_id holder.method ≡ some unit_id
    → claims.stamp ≤ unit.stamp
    → holder_gate epoch holder (pre_read blake3 g holder) unit_id ≢ ok claims
stamp_bump_fences f cmd pre unit_id unit a g has h applied blake3 epoch holder claims target old
      passed =
    let planned = bump_plan f cmd pre unit_id unit a has h in
    let written =
      bump_applied f.graph g unit_id (unit.version + 1) (unit.stamp + 1)
        (ap (apply_plan f.graph) (sym planned) ∙ applied) in
    let now =
      read-update unit_id (bump (unit.version + 1) (unit.stamp + 1)) f.graph.units g.units
        written in
    let read_again = pre_read_unit blake3 g holder unit_id target ∙ now.1 in
    let agreed =
      claims_unit epoch holder (pre_read blake3 g holder) unit_id claims
        (bump (unit.version + 1) (unit.stamp + 1) now.0) read_again passed in
    omega (arith, agreed.0, old)

dispatch_plan :
    (f : Funnel) (cmd : Command) (pre : PreRead) (unit_id holder_id : Text) (unit : UnitNode)
    (a : Accepted) (g : Graph)
    → pre.unit ≡ some unit
    → validate_unit_dispatch f cmd pre unit_id holder_id ≡ ok a
    → apply_plan f.graph a.plan ≡ some g
    → update unit_id
        (λ row. some (reassign (unit.version + 1) (unit.current_attempt_epoch + 1) row))
        f.graph.units
      ≡ some g.units
unfolding validate_unit_dispatch increment apply_plan apply_dispatch
dispatch_plan f cmd pre unit_id holder_id unit a g has h applied = ground (arith, has, h, applied)

-- A new attempt kills every token of the earlier ones: once a dispatch of the unit is applied, no
-- command of a holder passes the gate of the unit with a token of the attempt that was current, or
-- of an older one.
pub dispatch_fences :
    (f : Funnel) (cmd : Command) (pre : PreRead) (unit_id holder_id : Text) (unit : UnitNode)
    (a : Accepted) (g : Graph)
    → pre.unit ≡ some unit
    → validate_unit_dispatch f cmd pre unit_id holder_id ≡ ok a
    → apply_plan f.graph a.plan ≡ some g
    → (blake3 : Hasher) (epoch : ℕ) (holder : Command) (claims : AttemptTokenClaims)
    → method_unit_id holder.method ≡ some unit_id
    → claims.attempt_epoch ≤ unit.current_attempt_epoch
    → holder_gate epoch holder (pre_read blake3 g holder) unit_id ≢ ok claims
dispatch_fences f cmd pre unit_id holder_id unit a g has h applied blake3 epoch holder claims target
      old passed =
    let change = reassign (unit.version + 1) (unit.current_attempt_epoch + 1) in
    let written = dispatch_plan f cmd pre unit_id holder_id unit a g has h applied in
    let now = read-update unit_id change f.graph.units g.units written in
    let read_again = pre_read_unit blake3 g holder unit_id target ∙ now.1 in
    let agreed =
      claims_unit epoch holder (pre_read blake3 g holder) unit_id claims (change now.0) read_again
        passed in
    omega (arith, agreed.1, old)
