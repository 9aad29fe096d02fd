-- ===== src/Sessions.antt =====
-- crates/turbomcp-server: the state that the server keeps per session and per connection.
pub mod Store
pub mod InFlight
