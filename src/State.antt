-- ===== src/State.antt =====
-- The broadcast state of the daemon (crates/daemon/src/state.rs).
pub mod Invalidation
pub mod Avatars
pub mod Misses
