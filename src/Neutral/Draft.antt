-- ===== src/Neutral/Draft.antt =====
-- Protocol version 2026-07-28: crates/turbomcp-protocol/src/draft/types.rs and its part of neutral.rs.
pub mod Wire
pub mod Widen
pub mod Narrow
pub mod Received
pub mod RoundTrip
