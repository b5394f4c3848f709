-- ===== src/Kernel/Funnel/State.antt =====
-- The funnel's state, of crates/yah-kernel/src/funnel/mod.rs, funnel/lifecycle.rs and funnel/plan.rs.
-- The graph is a table of typed rows for each label, under the keys of the store's address book; a
-- node handle is the key of its row. A `record` column holds `none` where its JSON does not parse.
use yet_another_harness.Prelude.{
  ◌-◌, true, false, ℕ, zero, suc, ◌+◌, ◌*◌, ◌/◌, ◌%◌, ◌^◌, Bool, Option, none, some, List, [], ◌∷◌,
  ◌++◌, Text, ltb, leb, if◌then◌else◌, max,
}
use yet_another_harness.Prelude.Table.{Table}
use yet_another_harness.Ipc.Types.{Value, Members, object, number, unsigned, member, end}
use yet_another_harness.Kernel.Ids.{Uuid7, mint}
use yet_another_harness.Kernel.Effect.{EffectIntent}
use yet_another_harness.Kernel.Cancel.Scope.{CancelRequest}

pub record RunNode : Type 0 where
  pub version : ℕ
  pub status : Text
  pub goal_work_item_id : Text

pub record WorkItemNode : Type 0 where
  pub version : ℕ
  pub status : Text
  pub acceptance_contract_digest : Text
  pub declared_write_scope : List Text

pub record UnitNode : Type 0 where
  pub version : ℕ
  pub current_attempt_epoch : ℕ
  pub stamp : ℕ
  pub status : Text
  pub work_item_id : Text
  pub run_id : Text

pub record AttemptNode : Type 0 where
  pub attempt_id : Text
  pub unit_id : Text
  pub attempt_epoch : ℕ
  pub stamp : ℕ
  pub authority_epoch : ℕ
  pub holder_id : Text
  pub token_nonce : Text
  pub status : Text

pub record LeaseNode : Type 0 where
  pub attempt_epoch : ℕ
  pub holder_id : Text
  pub status : Text
  pub version : ℕ

pub record EffectNode : Type 0 where
  pub effect_intent_id : Text
  pub unit_id : Text
  pub attempt_epoch : ℕ
  pub version : ℕ
  pub state : Text
  pub terminal : Option Text
  pub intent_record : Option EffectIntent

pub record CancelRequestNode : Type 0 where
  pub version : ℕ
  pub root_kind : Text
  pub root_id : Text
  pub policy : Text
  pub reason : Text
  pub status : Text
  pub request_record : Option CancelRequest

pub record CancelDeliveryNode : Type 0 where
  pub cancel_request_id : Text
  pub member_id : Text
  pub member_kind : Text
  pub order_index : ℕ
  pub outcome : Text

pub record ReceiptNode : Type 0 where
  pub command_type : Text
  pub receipt_version : ℕ
  pub request_digest : Text
  pub principal_kind : Text
  pub principal_id : Text
  pub status : Text
  pub result : Option Value
  pub cursors : Option (ℕ × ℕ)

pub record EventNode : Type 0 where
  pub event_id : Text
  pub cursor : ℕ
  pub aggregate_kind : Text
  pub aggregate_id : Text
  pub aggregate_version : ℕ
  pub ordinal : ℕ
  pub event_kind : Text
  pub payload : Value
  pub receipt_key : Text
  pub command_id : Text
  pub actor_kind : Text
  pub actor_id : Text
  pub occurred_at_ms : ℕ
  pub causation_id : Option Text
  pub correlation_id : Option Text

-- What a transaction commits: the graph with its address book.
pub record Graph : Type 0 where
  pub runs : Table RunNode
  pub work_items : Table WorkItemNode
  pub units : Table UnitNode
  pub attempts : Table AttemptNode
  -- the key of the attempt of an id
  pub attempt_ids : Table Text
  pub leases : Table LeaseNode
  pub effects : Table EffectNode
  -- the operation key of the effect of an id
  pub effect_intent_ids : Table Text
  pub cancel_requests : Table CancelRequestNode
  -- the request that a root is cancelled by
  pub cancel_roots : Table Text
  pub cancel_deliveries : Table CancelDeliveryNode
  pub cancel_deliveries_by_request : Table (List Text)
  pub receipts : Table ReceiptNode
  pub events : List EventNode

-- `Store` and `Funnel`. The gate holds whether the funnel is poisoned.
pub record Funnel : Type 0 where
  pub graph : Graph
  pub authority_epoch : ℕ
  pub project_id : Text
  pub next_cursor : ℕ
  pub poisoned : Bool
  pub clock_ms : ℕ
  pub mint_seq : ℕ

-- `u64::checked_add(1)`
unfoldable pub increment : ℕ → Option ℕ
increment n = if ltb n (2 ^ 64 - 1) then some (n + 1) else none

-- The id that `mint_id` gives after the given number of others.
unfoldable pub minted : Funnel → ℕ → Uuid7
minted f count = mint f.clock_ms (f.authority_epoch * 2 ^ 64 + (f.mint_seq + count + 1))

abbrev pub max_wire_timestamp_ms : ℕ
max_wire_timestamp_ms = 253402300799999

-- `tick`: the clock never goes back.
unfoldable pub tick_clock : ℕ → Funnel → Funnel × Bool
tick_clock to_ms f =
    if leb to_ms max_wire_timestamp_ms
    then (record f { clock_ms = max f.clock_ms to_ms }, true)
    else (f, false)

-- `to_string` of a `u64`, on twenty digits.
unfoldable pub decimal_digits : ℕ → ℕ → Text
decimal_digits zero n = []
decimal_digits (suc fuel) n =
    let high = decimal_digits fuel (n / 10) in
    if ltb n 10 then (n + 48) ∷ [] else high ++ (n % 10 + 48) ∷ []

abbrev pub decimal : ℕ → Text
decimal n = decimal_digits 20 n

-- `format!("{unit_id}/{epoch}")`
unfoldable pub attempt_key : Text → ℕ → Text
attempt_key unit_id epoch = unit_id ++ 47 ∷ decimal epoch

-- `json!({ ... })`
abbrev pub json : List (Text × Value) → Value
json fields = object (members fields)
  where
    members : List (Text × Value) → Members
    members [] = end
    members ((key, value) ∷ rest) = member key value (members rest)

abbrev pub json_uint : ℕ → Value
json_uint n = number (unsigned n)

pub record EventDraft : Type 0 where
  pub aggregate_kind : Text
  pub aggregate_id : Text
  pub aggregate_version : ℕ
  pub event_kind : Text
  pub payload : Value

pub record EffectParkPlan : Type 0 where
  pub effect_key : Text
  pub effect_version : ℕ
  pub effect_record : EffectIntent

pub record CancelRequestPlan : Type 0 where
  pub request_id : Text
  pub root_kind : Text
  pub root_id : Text
  pub policy : Text
  pub reason : Text
  pub status : Text
  pub request_record : CancelRequest

pub record CancelDeliveryPlan : Type 0 where
  pub delivery_key : Text
  pub request_id : Text
  pub request_version_after : ℕ
  pub request_status_after : Text
  pub request_record_after : CancelRequest
  pub member_id : Text
  pub member_kind : Text
  pub order_index : ℕ
  pub outcome : Text
  pub park_effect : Option EffectParkPlan

-- What an accepted command will do.
pub data Plan : Type 0 where
  create_run : (run_id goal_work_item_id : Text) → Plan
  close_run : (run_id : Text) (new_version : ℕ) (status : Text) → Plan
  create_work_item :
      (work_item_id acceptance_contract_digest : Text) (declared_write_scope : List Text) → Plan
  create_unit : (unit_id work_item_id run_id : Text) → Plan
  dispatch :
      (unit_id : Text) (new_version new_epoch stamp authority_epoch : ℕ)
      (holder_id attempt_id token_nonce : Text) (existing_lease : Option ℕ)
      (prior_attempt : Option Text)
      → Plan
  bump_unit : (unit_id : Text) (new_version : ℕ) (new_stamp : Option ℕ) → Plan
  create_effect :
      (operation_key effect_intent_id unit_id : Text) (attempt_epoch : ℕ) → EffectIntent → Plan
  update_effect :
      (operation_key : Text) (new_version : ℕ) (state : Text) (terminal : Option Text)
      → EffectIntent
      → Plan
  create_cancel_request : CancelRequestPlan → Plan
  cancel_record_delivery : CancelDeliveryPlan → Plan
  nothing : Plan

-- The plan, the events and the result, and the number of ids minted for them.
pub record Accepted : Type 0 where
  pub plan : Plan
  pub events : List EventDraft
  pub result : Value
  pub mints : ℕ
