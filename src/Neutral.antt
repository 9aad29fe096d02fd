-- ===== src/Neutral.antt =====
-- crates/turbomcp-protocol/src/neutral.rs: the types that handlers speak, and their conversions to
-- and from the two wire versions.
pub mod Serde
pub mod Types
pub mod Builders
pub mod Results
pub mod Convert
pub mod Kept
pub mod Draft
pub mod Legacy
pub mod Agreement
