-- ===== src/Kernel/Cancel.antt =====
-- crates/yah-kernel/src/cancel.rs: the frozen scope of a cancellation, its order, and the lookup of
-- a member. A `HashSet` of ids is the list of what was inserted.
pub mod Scope
pub mod Order
pub mod Freeze
pub mod Lookup
pub mod Members
use yet_another_harness.Prelude.{ℕ, Bool, true, false, Option, none, some, Text, ltb}
use yet_another_harness.Kernel.Ids.{Uuid7}

pub data CancelKind : Type 0 where
  run : CancelKind
  execution_unit : CancelKind
  attempt : CancelKind
  effect_intent : CancelKind

abbrev pub depth : CancelKind → ℕ
depth CancelKind.run = 0
depth CancelKind.execution_unit = 1
depth CancelKind.attempt = 2
depth CancelKind.effect_intent = 3

-- `CancelKind::contains`
abbrev pub owns : CancelKind → CancelKind → Bool
owns self other = ltb (depth self) (depth other)

-- The derived `PartialEq` of CancelKind.
abbrev pub kind_eq : CancelKind → CancelKind → Bool
kind_eq CancelKind.run other = elim other [ CancelKind.run ↦ true | _ ↦ false ]
kind_eq CancelKind.execution_unit other = elim other [
  | CancelKind.execution_unit ↦ true
  | _ ↦ false
]
kind_eq CancelKind.attempt other = elim other [ CancelKind.attempt ↦ true | _ ↦ false ]
kind_eq CancelKind.effect_intent other = elim other [ CancelKind.effect_intent ↦ true | _ ↦ false ]

pub data CancelReason : Type 0 where
  owner_request : CancelReason
  budget_exhausted : CancelReason
  policy_violation : CancelReason
  superseded_by_epoch : CancelReason
  dependency_failed : CancelReason
  shutdown_drain : CancelReason

pub data CancelPolicy : Type 0 where
  attached_cascade : CancelPolicy
  root_only : CancelPolicy

pub data Attachment : Type 0 where
  attached : Attachment
  detached : Attachment

pub data CancelStatus : Type 0 where
  requested : CancelStatus
  delivering : CancelStatus
  observed_partial : CancelStatus
  settled : CancelStatus

pub data DeliveryOutcome : Type 0 where
  observed_stopped : DeliveryOutcome
  unresponsive : DeliveryOutcome
  already_terminal : DeliveryOutcome
  detached_declined : DeliveryOutcome

abbrev pub is_discharged : DeliveryOutcome → Bool
is_discharged outcome = elim outcome [ DeliveryOutcome.unresponsive ↦ false | _ ↦ true ]

pub record CancelDelivery : Type 0 where
  pub cancel_request_id : Uuid7
  pub member_id : Text
  pub member_kind : CancelKind
  pub delivered_at : ℕ
  pub observed_at : Option ℕ
  pub outcome : DeliveryOutcome
