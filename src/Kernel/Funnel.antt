-- ===== src/Kernel/Funnel.antt =====
-- crates/yah-kernel/src/funnel: the single mutation funnel. A command is claimed or replayed, its
-- fence state is read, it is validated into a plan, and the plan, its events and its receipt are
-- committed together.
pub mod Command
pub mod EffectRules
pub mod State
pub mod CancelRules
pub mod RunRules
pub mod Resolution
pub mod PreRead
pub mod Gates
pub mod Effects
pub mod Prepare
pub mod Cancel
pub mod Validate
pub mod Apply
pub mod Receipt
pub mod Replay
pub mod Submit
mod Tests
