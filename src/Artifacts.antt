-- ===== src/Artifacts.antt =====
-- src/assistant_runtime/services/artifacts and artifacts.py: profiles and the versions of their texts.
pub mod Types
pub mod Profiles
pub mod Store
pub mod Service
pub mod Calls
pub mod Versions
pub mod Activations
pub mod Pruning
pub mod Retention
pub mod Kept
pub mod Written
pub mod Runs
pub mod Holding
pub mod Guarded
pub mod Decisions
pub mod Failures
pub mod Rollback
mod Examples
