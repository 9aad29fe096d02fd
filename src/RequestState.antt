-- ===== src/RequestState.antt =====
-- crates/turbomcp-server/src/mrtr.rs: request state that a server hands out and takes back.
pub mod Signer
pub mod Pending
