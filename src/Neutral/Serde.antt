-- ===== src/Neutral/Serde.antt =====
-- What the protocol types use beside JSON values: floating-point numbers, which the conversions only
-- carry, a test for `Value::Null`, which is no object, and that a `serde_json::Map` without entries is the empty one.
use turbomcp.Prelude.{◌≡◌, true, none, Bool}
use turbomcp.Core.Json.{Json, is_empty_object}

pub record Serde : Type 1 where
  pub json : Json
  pub F64 : Type 0
  pub empty_unique : (o : json.Object) → is_empty_object json o ≡ true → o ≡ json.empty
  pub empty_is_empty : is_empty_object json json.empty ≡ true
  pub is_null : json.Value → Bool
  pub null_no_object : (v : json.Value) → is_null v ≡ true → json.as_object v ≡ none
