-- ===== src/Core/Error.antt =====
-- crates/turbomcp-core/src/error.rs: `McpError`, its JSON-RPC codes and HTTP statuses.
pub mod Laws
use Prim.Native.String
use turbomcp.Prelude.{ℕ, Bool, true, false, String}
use turbomcp.Prelude.Int.{ℤ, minus}

pub data McpError : Type 0 where
  internal invalid_params method_not_found tool_not_found : String → McpError
  tool_execution_failed : String → String → McpError
  resource_not_found authentication permission_denied timeout transport : String → McpError
  unsupported_protocol_version missing_required_capability header_mismatch : String → McpError
  input_required : McpError

unfoldable pub jsonrpc_code : McpError → ℤ
jsonrpc_code (internal _) = minus 32603
jsonrpc_code (tool_execution_failed _ _) = minus 32603
jsonrpc_code input_required = minus 32603
jsonrpc_code (invalid_params _) = minus 32602
jsonrpc_code (resource_not_found _) = minus 32602
jsonrpc_code (method_not_found _) = minus 32601
jsonrpc_code (tool_not_found _) = minus 32601
jsonrpc_code (authentication _) = minus 32001
jsonrpc_code (permission_denied _) = minus 32001
jsonrpc_code (timeout _) = minus 32001
jsonrpc_code (transport _) = minus 32001
jsonrpc_code (header_mismatch _) = minus 32020
jsonrpc_code (missing_required_capability _) = minus 32021
jsonrpc_code (unsupported_protocol_version _) = minus 32022

unfoldable pub http_status : McpError → ℕ
http_status (internal _) = 500
http_status input_required = 500
http_status (invalid_params _) = 400
http_status (unsupported_protocol_version _) = 400
http_status (missing_required_capability _) = 400
http_status (header_mismatch _) = 400
http_status (method_not_found _) = 404
http_status (tool_not_found _) = 404
http_status (resource_not_found _) = 404
http_status (tool_execution_failed _ _) = 200
http_status (authentication _) = 401
http_status (permission_denied _) = 403
http_status (timeout _) = 504
http_status (transport _) = 503

unfoldable pub is_retryable : McpError → Bool
is_retryable (timeout _) = true
is_retryable (transport _) = true
is_retryable _ = false

-- The text of an error: what `to_string` gives.
unfoldable pub display : McpError → String
display (internal m) = String.◌++◌ "internal error: " m
display (invalid_params m) = String.◌++◌ "invalid params: " m
display (method_not_found m) = String.◌++◌ "method not found: " m
display (tool_not_found m) = String.◌++◌ "tool not found: " m
display (tool_execution_failed tool reason) =
    String.◌++◌ "tool '" (String.◌++◌ tool (String.◌++◌ "' failed: " reason))
display (resource_not_found m) = String.◌++◌ "resource not found: " m
display (authentication m) = String.◌++◌ "authentication error: " m
display (permission_denied m) = String.◌++◌ "permission denied: " m
display (timeout m) = String.◌++◌ "timeout: " m
display (transport m) = String.◌++◌ "transport error: " m
display (unsupported_protocol_version m) = String.◌++◌ "unsupported protocol version: " m
display (missing_required_capability m) = String.◌++◌ "missing required capability: " m
display (header_mismatch m) = String.◌++◌ "header mismatch: " m
display input_required = "input required (unintercepted MRTR abort)"
