-- ===== src/Tests/Core.antt =====
-- The theorems on `_meta`, applied to a request that forges an internal key.
use turbomcp.Prelude.{◌≡◌, none, some, if◌then◌else◌}
use turbomcp.Core.JsonRpc.{JsonRpcMessage, new_request}
use turbomcp.Core.JsonRpc as JsonRpc
use turbomcp.Prelude.Int.{pos}
use turbomcp.Core.Meta.{
  set_request_meta, sanitize_inbound, session_id, connection_id, session_id_key, connection_id_key,
}
use turbomcp.Core.Meta.Laws.{params_of, accepts_meta, injected_connection}
use turbomcp.Tests.Json.{tree, Tree, Members, object, text, nil, member}

abbrev forged_meta : Members
forged_meta = member session_id_key (text "mallory") (member "vendor/key" (text "kept") nil)

abbrev forged : JsonRpcMessage Tree
forged = JsonRpc.request (
    new_request (JsonRpc.number (pos 1)) "tools/list"
      (some (object (member "_meta" (object forged_meta) nil))))

injected_connection_example :
    (connection_id tree (
        params_of tree
          (set_request_meta tree (sanitize_inbound tree forged) connection_id_key (text "c1")))
      ≡ (if accepts_meta tree forged then some "c1" else none))
    × (session_id tree (
          params_of tree
            (set_request_meta tree (sanitize_inbound tree forged) connection_id_key (text "c1")))
        ≡ none)
injected_connection_example = injected_connection tree forged "c1"
