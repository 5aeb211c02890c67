-- ===== src/Voice.antt =====
-- Voice messages that wait to be sent (crates/daemon/src/voice_outbox.rs).
pub mod Ogg
pub mod Jobs
pub mod Cleanup
pub mod Sending
pub mod Examples
