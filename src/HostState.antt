-- ===== src/HostState.antt =====
-- src/assistant_runtime/services/host_state: small versioned values kept by namespace and key.
pub mod Store
pub mod Service
pub mod Versions
pub mod Contract
mod Examples
