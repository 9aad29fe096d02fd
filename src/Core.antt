-- ===== src/Core.antt =====
-- crates/turbomcp-core: versions, errors, JSON-RPC envelopes and `_meta`.
pub mod Version
pub mod Error
pub mod Json
pub mod JsonRpc
pub mod Meta
pub mod Host
pub mod Methods
pub mod Context
pub mod ServiceError
pub mod Identity
pub mod Route
