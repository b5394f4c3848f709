-- ===== src/Kernel/Funnel/Apply.antt =====
-- The mutation phase of `submit` in crates/yah-kernel/src/funnel/mod.rs and cancel.rs: a staged plan,
-- its events and its receipt, written into the graph. `none` is a staging error.
use yet_another_harness.Prelude.{ℕ, Option, none, some, List, [], ◌∷◌, ◌++◌, Text, text, ◌>>?◌}
use yet_another_harness.Prelude.Table.{Table, read, write}
use yet_another_harness.Kernel.Effect.{EffectState}
use yet_another_harness.Kernel.Funnel.EffectRules.{state_wire}
use yet_another_harness.Kernel.Funnel.State.{
  Graph, AttemptNode, LeaseNode, EffectNode, EffectParkPlan, CancelRequestPlan, CancelDeliveryPlan,
  Plan, increment, attempt_key,
}
use yet_another_harness.Kernel.Funnel.CancelRules.{root_key}

-- `update_node`, of a row that is there.
unfoldable pub update {ℓ} : {V : Type ℓ} → Text → (V → Option V) → Table V → Option (Table V)
update key change table =
    read key table >>? λ row. change row >>? λ changed. some (write key changed table)

-- The prior attempt of a unit, when it has one.
unfoldable pub supersede : Option Text → Table AttemptNode → Option (Table AttemptNode)
supersede none attempts = some attempts
supersede (some key) attempts =
    update key (λ attempt. some (record attempt { status = text "superseded" })) attempts

-- The single lease of a unit, over the version that was read.
unfoldable pub upsert_lease :
    Text → ℕ → Text → Option ℕ → Table LeaseNode → Option (Table LeaseNode)
upsert_lease unit_id epoch holder_id none leases = some (
    write unit_id
      (record { attempt_epoch = epoch; holder_id = holder_id; status = text "active"; version = 1 })
      leases)
upsert_lease unit_id epoch holder_id (some version) leases = increment version >>? λ new_version.
    update unit_id
      (λ lease. some (record lease {
        attempt_epoch = epoch;
        holder_id = holder_id;
        status = text "active";
        version = new_version;
      }))
      leases

unfoldable pub apply_dispatch :
    Graph
    → (unit_id : Text) (new_version new_epoch stamp authority_epoch : ℕ)
      (holder_id attempt_id token_nonce : Text) (existing_lease : Option ℕ)
      (prior_attempt : Option Text)
    → Option Graph
apply_dispatch g unit_id version epoch stamp authority_epoch holder_id attempt_id nonce lease
      prior =
    update unit_id
      (λ unit. some (record unit {
        version = version;
        current_attempt_epoch = epoch;
        status = text "dispatched";
      }))
      g.units
    >>? λ units. supersede prior g.attempts >>? λ attempts.
        upsert_lease unit_id epoch holder_id lease g.leases >>? λ leases. some (record g {
          units = units;
          attempts =
              write (attempt_key unit_id epoch)
                (record {
                  attempt_id = attempt_id;
                  unit_id = unit_id;
                  attempt_epoch = epoch;
                  stamp = stamp;
                  authority_epoch = authority_epoch;
                  holder_id = holder_id;
                  token_nonce = nonce;
                  status = text "active";
                })
                attempts;
          attempt_ids = write attempt_id (attempt_key unit_id epoch) g.attempt_ids;
          leases = leases;
        })

unfoldable pub apply_create_request : Graph → CancelRequestPlan → Graph
apply_create_request g p = record g {
  cancel_requests =
      write p.request_id
        (record {
          version = 1;
          root_kind = p.root_kind;
          root_id = p.root_id;
          policy = p.policy;
          reason = p.reason;
          status = p.status;
          request_record = some p.request_record;
        })
        g.cancel_requests;
  cancel_roots = write (root_key p.root_kind p.root_id) p.request_id g.cancel_roots;
}

abbrev pub keys_or_empty : Option (List Text) → List Text
keys_or_empty none = []
keys_or_empty (some keys) = keys

unfoldable pub apply_park : Option EffectParkPlan → Table EffectNode → Option (Table EffectNode)
apply_park none effects = some effects
apply_park (some park) effects =
    update park.effect_key
      (λ effect. some (record effect {
        version = park.effect_version;
        state = state_wire EffectState.reconciling;
        intent_record = some park.effect_record;
      }))
      effects

unfoldable pub apply_record_delivery : Graph → CancelDeliveryPlan → Option Graph
apply_record_delivery g p =
    update p.request_id
      (λ request. some (record request {
        version = p.request_version_after;
        status = p.request_status_after;
        request_record = some p.request_record_after;
      }))
      g.cancel_requests
    >>? λ requests. apply_park p.park_effect g.effects >>? λ effects. some (record g {
      cancel_requests = requests;
      effects = effects;
      cancel_deliveries =
          write p.delivery_key
            (record {
              cancel_request_id = p.request_id;
              member_id = p.member_id;
              member_kind = p.member_kind;
              order_index = p.order_index;
              outcome = p.outcome;
            })
            g.cancel_deliveries;
      cancel_deliveries_by_request =
          write p.request_id
            (keys_or_empty (read p.request_id g.cancel_deliveries_by_request)
              ++ p.delivery_key ∷ [])
            g.cancel_deliveries_by_request;
    })

abbrev pub or_same {ℓ} : {A : Type ℓ} → Option A → A → A
or_same none old = old
or_same (some new) old = new

-- A terminal column is set once, and otherwise left.
abbrev pub set_terminal : Option Text → Option Text → Option Text
set_terminal none old = old
set_terminal (some terminal) old = some terminal

unfoldable pub apply_plan : Graph → Plan → Option Graph
apply_plan g (Plan.create_run run_id goal) = some (record g {
  runs =
      write run_id (record { version = 1; status = text "open"; goal_work_item_id = goal }) g.runs;
})
apply_plan g (Plan.close_run run_id version status) =
    update run_id (λ run. some (record run { version = version; status = status })) g.runs
    >>? λ runs. some (record g { runs = runs })
apply_plan g (Plan.create_work_item id digest scope) = some (record g {
  work_items =
      write id
        (record {
          version = 1;
          status = text "ready";
          acceptance_contract_digest = digest;
          declared_write_scope = scope;
        })
        g.work_items;
})
apply_plan g (Plan.create_unit unit_id work_item_id run_id) = some (record g {
  units =
      write unit_id
        (record {
          version = 1;
          current_attempt_epoch = 0;
          stamp = 0;
          status = text "admitted";
          work_item_id = work_item_id;
          run_id = run_id;
        })
        g.units;
})
apply_plan g
      (Plan.dispatch unit_id version epoch stamp authority holder attempt_id nonce lease prior) =
    apply_dispatch g unit_id version epoch stamp authority holder attempt_id nonce lease prior
apply_plan g (Plan.bump_unit unit_id version stamp) =
    update unit_id
      (λ unit. some (record unit { version = version; stamp = or_same stamp unit.stamp })) g.units
    >>? λ units. some (record g { units = units })
apply_plan g (Plan.create_effect key effect_intent_id unit_id epoch intent) = some (record g {
  effects =
      write key
        (record {
          effect_intent_id = effect_intent_id;
          unit_id = unit_id;
          attempt_epoch = epoch;
          version = 1;
          state = state_wire EffectState.prepared;
          terminal = none;
          intent_record = some intent;
        })
        g.effects;
  effect_intent_ids = write effect_intent_id key g.effect_intent_ids;
})
apply_plan g (Plan.update_effect key version state terminal intent) =
    update key
      (λ effect. some (record effect {
        version = version;
        state = state;
        terminal = set_terminal terminal effect.terminal;
        intent_record = some intent;
      }))
      g.effects
    >>? λ effects. some (record g { effects = effects })
apply_plan g (Plan.create_cancel_request p) = some (apply_create_request g p)
apply_plan g (Plan.cancel_record_delivery p) = apply_record_delivery g p
apply_plan g Plan.nothing = some g
