-- ===== src/Client.antt =====
-- crates/turbomcp-client.
pub mod Cache
