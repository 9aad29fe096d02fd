-- ===== src/Tests/Host.antt =====
-- A host whose wall clock counts seconds.
use turbomcp.Prelude.{ℕ, some}
use turbomcp.Prelude.Decimal.{to_string}
use turbomcp.Core.Host.{Host}
use turbomcp.Tests.Json.{tree, text}

abbrev pub host : Host
host = record {
  json = tree;
  Wall = ℕ;
  format = λ t. some (to_string t);
  error_value = λ e. some (text e.message);
}
