-- ===== src/Tasks.antt =====
-- src/assistant_runtime/app/tasks: background tasks and persistent agents.
pub mod Types
pub mod Store
pub mod Submits
pub mod Runner
pub mod Service
pub mod Ends
pub mod Published
pub mod OpenJobs
pub mod Stops
pub mod Cancels
pub mod Agents
pub mod Exclusive
pub mod AgentRuns
mod Examples
