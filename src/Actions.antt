-- ===== src/Actions.antt =====
-- src/assistant_runtime/services/actions: the record of actions that a host proposed and carried out.
pub mod Types
pub mod Store
pub mod Changes
pub mod Service
pub mod Steps
pub mod History
pub mod Consistent
pub mod Conflicts
pub mod Confirmed
mod Examples
