-- ===== src/Base.antt =====
-- src/assistant_runtime/base: the lifecycle of the components, and cursors into lists of records.
pub mod Lifecycle
pub mod Startup
pub mod Cursors
pub mod Pages
mod Examples
