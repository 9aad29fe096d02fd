-- ===== src/Subscriptions.antt =====
-- crates/turbomcp-server/src/subscriptions.rs: who receives the server's notifications.
pub mod Outbound
pub mod Registry
pub mod Legacy
pub mod Coalesce
pub mod LogSender
