-- ===== src/Dispatcher/Responses.antt =====
-- crates/turbomcp-server/src/dispatcher/mod.rs: the replies that its parts share.
use Prim.Native.String
use turbomcp.Prelude.{Bool, true, false, String, Option, none, some, List, map, Result, ok, err}
use turbomcp.Prelude.Int.{minus}
use turbomcp.Core.Json.{member, ◌>>=◌}
use turbomcp.Core.Error.{McpError, internal}
use turbomcp.Core.Version.{ProtocolVersion, as_str}
use turbomcp.Core.JsonRpc.{RequestId, JsonRpcMessage, JsonRpcError, success_response}
use turbomcp.Core.JsonRpc
use turbomcp.Core.ServiceError.{mcp_to_jsonrpc_error, into_response, unsupported_version}
use turbomcp.Dispatcher.Platform.{Platform, json}
use turbomcp.Dispatcher.Context.{RequestContext}

module _ (P : Platform) where
  abbrev pub Value : Type 0
  Value = (json P).Value

  abbrev pub Message : Type 0
  Message = JsonRpcMessage Value

  -- `JsonRpcResponse::success(id, value).into()` and `JsonRpcResponse::error(id, err).into()`.
  abbrev pub reply_success : RequestId → Value → Message
  reply_success id value = JsonRpc.response (success_response id value)

  abbrev pub reply_error : RequestId → JsonRpcError Value → Message
  reply_error id e = JsonRpc.response (JsonRpc.error_response id e)

  unfoldable pub error_response : RequestId → McpError → Message
  error_response id e = reply_error id (mcp_to_jsonrpc_error Value e)

  -- `ok_value`, of what `serde_json::to_value` gave.
  unfoldable pub ok_value : RequestId → Result Value String → Message
  unfolding error_response
  ok_value id (ok v) = reply_success id v
  ok_value id (err e) = error_response id (internal (String.◌++◌ "serialize result: " e))

  unfoldable pub unsupported_version_response :
      RequestId → Option String → List ProtocolVersion → Message
  unsupported_version_response id requested supported =
      JsonRpc.response
        (into_response Value P.error_text id (unsupported_version requested (map as_str supported)))

  -- `json!({ "requiredCapabilities": { "extensions": { extension_id: {} } } })`.
  abbrev pub required_capabilities : String → Value
  required_capabilities extension_id =
      let J = json P in
      let extension = J.insert extension_id (J.object J.empty) J.empty in
      let extensions = J.insert "extensions" (J.object extension) J.empty in
      J.object (J.insert "requiredCapabilities" (J.object extensions) J.empty)

  unfoldable pub missing_capability_response : RequestId → String → Message
  missing_capability_response id extension_id = reply_error id (record {
    code = minus 32021;
    message = "missing required client capability";
    details = some (required_capabilities extension_id);
  })

  abbrev pub is_some_value : Option Value → Bool
  is_some_value none = false
  is_some_value (some _) = true

  unfoldable pub context_declares_extension : RequestContext (json P) → String → Bool
  context_declares_extension ctx ext_id = is_some_value (
      ctx.client_capabilities
      >>= member (json P) "extensions"
      >>= (json P).as_object
      >>= (json P).get ext_id)
