-- ===== src/DraftTasks.antt =====
-- crates/turbomcp-ext-tasks: the draft Tasks extension's wire types, registry and status push.
pub mod Wire
pub mod Store
pub mod Subs
