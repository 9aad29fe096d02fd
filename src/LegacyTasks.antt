-- ===== src/LegacyTasks.antt =====
-- The core tasks of protocol version 2025-11-25 (crates/turbomcp-server/src/tasks.rs).
pub mod Store
