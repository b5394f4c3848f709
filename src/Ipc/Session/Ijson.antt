-- ===== src/Ipc/Session/Ijson.antt =====
-- `value_within_ijson` of crates/yah-plugin-ipc/src/session/mod.rs.
use yet_another_harness.Prelude.{ℕ, ◌-◌, ◌^◌, Bool, true, ◌&&◌, leb}
use yet_another_harness.Ipc.Types.{
  Value, Items, Members, null, bool, number, string, array, object, nil, cons, end, member,
  unsigned, negative, float,
}

-- The greatest magnitude of an I-JSON safe integer: `SAFE_MAX`, and `-SAFE_MIN`.
abbrev pub safe_max : ℕ
safe_max = 2 ^ 53 - 1

-- A negative integer is held by its magnitude.
unfoldable mutual
  pub value_within_ijson : Value → Bool
  value_within_ijson null = true
  value_within_ijson (bool b) = true
  value_within_ijson (number (unsigned n)) = leb n safe_max
  value_within_ijson (number (negative n)) = leb n safe_max
  value_within_ijson (number (float bits)) = true
  value_within_ijson (string t) = true
  value_within_ijson (array items) = items_within_ijson items
  value_within_ijson (object members) = members_within_ijson members

  pub items_within_ijson : Items → Bool
  items_within_ijson nil = true
  items_within_ijson (cons v items) = value_within_ijson v && items_within_ijson items

  pub members_within_ijson : Members → Bool
  members_within_ijson end = true
  members_within_ijson (member name v members) =
      value_within_ijson v && members_within_ijson members
