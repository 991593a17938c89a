-- ===== src/GroupCall.antt =====
-- instances/group_call.rs: the WebRTC call of one chat, and what holds of it.
pub mod Base
pub mod Media
pub mod Control
pub mod Toggles
pub mod Audible
pub mod Events
pub mod Sources
pub mod Stopping
mod Tests
