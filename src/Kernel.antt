-- ===== src/Kernel.antt =====
-- crates/yah-kernel/src: the kernel, whose single mutation funnel commits every accepted command
-- as one transaction.
pub mod Error
pub mod Ids
pub mod Effect
pub mod Cancel
pub mod Funnel
mod Tests
