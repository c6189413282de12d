-- ===== src/Host.antt =====
-- The broker of crates/dots-rs-transport/src/host.rs.
pub mod Writer
pub mod Drainer
pub mod Types
pub mod Groups
pub mod Publish
pub mod Replay
pub mod Removal
pub mod Descriptors
pub mod Messages
pub mod Registered
pub mod Pooled
pub mod Run
pub mod FanOut
pub mod View
pub mod Departed
pub mod Session
mod Examples
