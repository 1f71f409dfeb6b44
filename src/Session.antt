-- ===== src/Session.antt =====
-- src/assistant_runtime/app/assistant: sessions as trees of messages, cached and written through.
pub mod Types
pub mod Context
pub mod Paths
pub mod Invariant
pub mod Replaced
pub mod StaleTools
pub mod Persistence
pub mod Cache
pub mod Loading
pub mod Messages
pub mod Replies
pub mod Resolved
pub mod Leaves
pub mod Loaded
pub mod InPlace
pub mod CacheSound
pub mod MessagesSound
pub mod RepliesSound
pub mod Repaired
pub mod Eviction
pub mod Steering
pub mod State
pub mod StateSound
pub mod Delivery
pub mod Snapshots
pub mod PendingSound
pub mod Runs
pub mod Registered
mod Examples
mod StateExamples
