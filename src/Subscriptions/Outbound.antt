-- ===== src/Subscriptions/Outbound.antt =====
-- crates/turbomcp-service/src/outbound.rs: the table of the connections' writers. A writer is the
-- number of the sending half of a channel of the `tokio` crate.
use Prim.Native.String
use turbomcp.Prelude.{ℕ, String, Option, none, some, string_key}
use turbomcp.Prelude.HashMap as Maps
use turbomcp.Prelude.HashMap.{HashMap}
use turbomcp.Prelude.{if◌then◌else◌, ◌==◌}

abbrev pub Writers : Type 0
Writers = HashMap String ℕ

-- The guard that `register` returns is the connection id that its drop removes.
unfoldable pub register : String → ℕ → Writers → Writers × String
register connection_id tx table = (Maps.insert connection_id tx table, connection_id)

unfoldable pub drop_guard : String → Writers → Writers
drop_guard connection_id table = Maps.remove connection_id table

unfoldable pub writer : String → Writers → Option ℕ
writer connection_id table = Maps.get connection_id table

unfoldable pub session_stream_id : String → String
session_stream_id session_id = String.◌++◌ "http-get-" session_id

abbrev pub or_else : Option ℕ → Option ℕ → Option ℕ
or_else none o = o
or_else (some w) o = some w

-- `(!id.is_empty()).then(..).flatten()`.
abbrev pub unless_empty : String → Option ℕ → Option ℕ
unless_empty id o = if id == "" then none else o

-- `legacy_writer` of subscriptions.rs: the stream of the session, or else its connection.
unfoldable pub legacy_writer : String → String → Writers → Option ℕ
unfolding writer session_stream_id
legacy_writer session connection table =
    or_else (writer (session_stream_id session) table)
      (unless_empty connection (writer connection table))

-- `request_writer` of subscriptions.rs: the connection of the request, or else its session.
unfoldable pub request_writer : String → String → Writers → Option ℕ
unfolding writer session_stream_id
request_writer connection session table =
    or_else (unless_empty connection (writer connection table))
      (unless_empty session (writer (session_stream_id session) table))
