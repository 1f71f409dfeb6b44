-- ===== src/EventLog.antt =====
-- src/assistant_runtime/app/event_log: events of other systems, stored once, and notices for the owner.
pub mod Types
pub mod Store
pub mod Service
pub mod Writes
pub mod Requests
pub mod Once
pub mod Repeats
pub mod Refines
mod Examples
