-- ===== src/Streaming.antt =====
-- src/assistant_runtime/app/streaming: the events of one streamed request.
pub mod Events
pub mod Coordinator
pub mod Calls
pub mod Steps
pub mod Protocol
mod Examples
