-- ===== src/Neutral/Legacy.antt =====
-- Protocol version 2025-11-25: crates/turbomcp-protocol/src/v2025_11_25/types.rs and its part of neutral.rs.
pub mod Wire
pub mod Widen
pub mod Narrow
pub mod Received
pub mod RoundTrip
