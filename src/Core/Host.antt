-- ===== src/Core/Host.antt =====
-- What the task registries take from crates outside the repository: JSON values (`serde_json`),
-- wall-clock times and their RFC 3339 text (`time`).
use turbomcp.Prelude.{String, Option}
use turbomcp.Core.Json.{Json}
use turbomcp.Core.JsonRpc.{JsonRpcError}
use mathlib.Core.Option

pub record Host : Type 1 where
  pub json : Json
  pub Wall : Type 0
  -- `OffsetDateTime::format` with `Rfc3339`.
  pub format : Wall → Option String
  -- `serde_json::to_value` of an error object.
  pub error_value : JsonRpcError json.Value → Option json.Value

unfoldable pub rfc3339 : (H : Host) → H.Wall → String
rfc3339 H t = Option.get_or (H.format t) "1970-01-01T00:00:00Z"
