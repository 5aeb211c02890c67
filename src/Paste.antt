-- ===== src/Paste.antt =====
-- Attachments that come from the clipboard or from a local file (crates/daemon/src/paste.rs).
pub mod Image
pub mod Names
pub mod Staging
pub mod Examples
