-- ===== src/Core/Context.antt =====
-- crates/turbomcp-core/src/context.rs: the peer's implementation record and the log levels.
use turbomcp.Prelude.{ℕ, String, Option}
use turbomcp.Core.Json.{Json}

pub record Implementation (J : Json) : Type 0 where
  pub name : String
  pub title : Option String
  pub version : String
  pub extra : J.Object

pub data LogLevel : Type 0 where
  debug : LogLevel
  info : LogLevel
  notice : LogLevel
  warning : LogLevel
  error : LogLevel
  critical : LogLevel
  alert : LogLevel
  emergency : LogLevel

-- The derived order: the order of the declaration.
unfoldable pub rank : LogLevel → ℕ
rank debug = 0
rank info = 1
rank notice = 2
rank warning = 3
rank error = 4
rank critical = 5
rank alert = 6
rank emergency = 7
