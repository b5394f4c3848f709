-- ===== src/Ipc/Session.antt =====
-- crates/yah-plugin-ipc/src/session: the host side of one worker session, as a state machine.
pub mod Ijson
pub mod State
pub mod Settle
pub mod Refuse
pub mod Reads
pub mod Handles
pub mod Release
pub mod Calls
pub mod Replies
pub mod Streams
pub mod Streaming
pub mod Negotiate
pub mod Machine
pub mod Cases
pub mod Actions
pub mod Settlement
pub mod Bounds
pub mod Closing
pub mod Delivery
pub mod Refusals
pub mod Agreement
pub mod Flow
pub mod Draining
mod Tests
