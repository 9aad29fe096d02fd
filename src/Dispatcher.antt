-- ===== src/Dispatcher.antt =====
-- crates/turbomcp-server/src/dispatcher: how a message becomes a handler call and a reply.
pub mod Frames
pub mod Platform
pub mod Context
pub mod Router
pub mod Responses
pub mod Params
pub mod Capability
pub mod Handshake
pub mod Listen
pub mod TaskMethods
pub mod Augment
pub mod State
pub mod Request
pub mod Handle
pub mod Retry
pub mod Answers
pub mod Replies
pub mod Gate
pub mod Frame
pub mod Isolation
pub mod Opening
pub mod Ending
pub mod Levels
