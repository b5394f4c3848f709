-- ===== src/Ipc.antt =====
-- crates/yah-plugin-ipc: the worker wire protocol.
pub mod Frame
pub mod Types
pub mod Session
