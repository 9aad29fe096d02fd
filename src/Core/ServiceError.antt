-- ===== src/Core/ServiceError.antt =====
-- crates/turbomcp-service/src/error.rs: the errors between service and transport, and the
-- conversions to JSON-RPC errors. The `thiserror` crate generates the text of a `ProtocolError`,
-- which is an argument.
use turbomcp.Prelude.{Option, none, String, List}
use turbomcp.Prelude.Int.{ℤ, minus}
use turbomcp.Core.Error as Errors
use turbomcp.Core.Error.{McpError, display}
use turbomcp.Core.JsonRpc.{RequestId, JsonRpcError, JsonRpcResponse, error_response}

pub data ProtocolError : Type 0 where
  parse : String → ProtocolError
  unsupported_version : Option String → List String → ProtocolError
  missing_capability : String → ProtocolError
  unknown_session : String → ProtocolError
  transport : String → ProtocolError
  server_shutting_down : ProtocolError
  internal : String → ProtocolError

unfoldable pub jsonrpc_code : ProtocolError → ℤ
jsonrpc_code (parse _) = minus 32700
jsonrpc_code (unsupported_version _ _) = minus 32022
jsonrpc_code (missing_capability _) = minus 32021
jsonrpc_code (unknown_session _) = minus 32002
jsonrpc_code (transport _) = minus 32001
jsonrpc_code server_shutting_down = minus 32001
jsonrpc_code (internal _) = minus 32603

module _ (Value : Type 0) where
  unfoldable pub mcp_to_jsonrpc_error : McpError → JsonRpcError Value
  mcp_to_jsonrpc_error e = record {
    code = Errors.jsonrpc_code e;
    message = display e;
    details = none;
  }

  unfoldable pub into_response :
      (ProtocolError → String) → RequestId → ProtocolError → JsonRpcResponse Value
  into_response to_string id e =
      error_response id (record { code = jsonrpc_code e; message = to_string e; details = none })
