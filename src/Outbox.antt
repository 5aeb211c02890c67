-- ===== src/Outbox.antt =====
-- The durable outboxes of the history database.
pub mod Text
pub mod Delivery
pub mod Reads
pub mod Validation
