-- ===== src/Compose.antt =====
-- The live composition graph of crates/yah-compose: the lifecycle of one component instance.
pub mod Lifecycle
pub mod Component
mod Tests
