-- ===== src/Core/Meta.antt =====
-- crates/turbomcp-core/src/meta.rs: the `_meta` keys, their propagation and the trust boundary;
-- with the readers of the transport-asserted keys in crates/turbomcp-server/src/dispatcher/mod.rs
-- and crates/turbomcp-protocol/src/version.rs.
pub mod Laws
use Prim.Native.String
use text.Mathlib.Text.{starts_with}
use turbomcp.Prelude.{
  Bool, true, false, not, ◌||◌, Option, none, some, String, List, [], ◌∷◌, ◌==◌, string_key,
  if◌then◌else◌,
}
use turbomcp.Prelude.HashMap.{HashMap}
use mathlib.Core.Option
use turbomcp.Core.Json.{Json, ◌>>=◌, member}
use turbomcp.Core.JsonRpc.{JsonRpcMessage, JsonRpcRequest, JsonRpcNotification}
use turbomcp.Core.JsonRpc
use turbomcp.Core.Version.{ProtocolVersion, from_wire}

abbrev pub protocol_version_key : String
protocol_version_key = "io.modelcontextprotocol/protocolVersion"

abbrev pub progress_token_key : String
progress_token_key = "progressToken"

abbrev pub traceparent_key : String
traceparent_key = "traceparent"

abbrev pub tracestate_key : String
tracestate_key = "tracestate"

abbrev pub baggage_key : String
baggage_key = "baggage"

abbrev pub subscription_id_key : String
subscription_id_key = "io.modelcontextprotocol/subscriptionId"

abbrev pub client_info_key : String
client_info_key = "io.modelcontextprotocol/clientInfo"

abbrev pub client_capabilities_key : String
client_capabilities_key = "io.modelcontextprotocol/clientCapabilities"

abbrev pub log_level_key : String
log_level_key = "io.modelcontextprotocol/logLevel"

abbrev pub server_info_key : String
server_info_key = "io.modelcontextprotocol/serverInfo"

abbrev pub session_id_key : String
session_id_key = "io.turbomcp.internal/sessionId"

abbrev pub connection_id_key : String
connection_id_key = "io.turbomcp.internal/connectionId"

abbrev pub identity_key : String
identity_key = "io.turbomcp.internal/identity"

unfoldable pub is_internal_key : String → Bool
is_internal_key key = starts_with key "io.turbomcp.internal/"

unfoldable pub is_framework_key : String → Bool
unfolding is_internal_key
is_framework_key key =
    key == protocol_version_key
    || key == progress_token_key
    || key == traceparent_key
    || key == tracestate_key
    || key == baggage_key
    || key == subscription_id_key
    || key == client_info_key
    || key == client_capabilities_key
    || key == log_level_key
    || is_internal_key key

pub data Identity (Object : Type 0) : Type 0 where
  anonymous : Identity Object
  bearer : String → Object → Identity Object

pub record TraceContext : Type 0 where
  pub traceparent : String
  pub tracestate : Option String
  pub baggage : Option String

module _ (J : Json) where
  open J use {Value, Object, string, object, as_str, as_object, empty, get, insert, retain, entries}

  unfoldable pub extract_protocol_version : Object → Option ProtocolVersion
  extract_protocol_version m = do raw ← get protocol_version_key m >>= as_str; some (from_wire raw)

  -- The loop of `partition`: the entries seen so far, consumed and propagated.
  partition_from : Object → Object → HashMap String Value → Object × Object
  partition_from consumed propagated [] = (consumed, propagated)
  partition_from consumed propagated ((k, v) ∷ rest) =
      let keep = partition_from (insert k v consumed) propagated rest in
      let pass = partition_from consumed (insert k v propagated) rest in
      if is_framework_key k then keep else pass

  unfoldable pub partition : Object → Object × Object
  unfolding partition_from
  partition m = partition_from empty empty (entries m)

  -- `set_request_meta` on the parameters of a message.
  unfoldable pub set_params_meta : String → Value → Option Value → Option Value
  set_params_meta key value params =
      let p = Option.get_or params (object empty) in
      elim (as_object p) [
        | none ↦ some p
        | some obj ↦
            let m = Option.get_or (get "_meta" obj) (object empty) in
            elim (as_object m) [
              | none ↦ some (object (insert "_meta" m obj))
              | some meta ↦ some (object (insert "_meta" (object (insert key value meta)) obj))
            ]
      ]

  unfoldable pub set_request_meta : JsonRpcMessage Value → String → Value → JsonRpcMessage Value
  unfolding set_params_meta
  set_request_meta (JsonRpc.request r) key value =
      JsonRpc.request (record r { params = set_params_meta key value r.params })
  set_request_meta (JsonRpc.notification n) key value =
      JsonRpc.notification (record n { params = set_params_meta key value n.params })
  set_request_meta (JsonRpc.response r) key value = JsonRpc.response r

  unfoldable pub extract_identity : Object → Identity Object
  extract_identity m = elim (get identity_key m) [
    | none ↦ anonymous
    | some principal ↦ elim (member J "sub" principal >>= as_str) [
      | none ↦ anonymous
      | some sub ↦ bearer sub (Option.get_or (member J "claims" principal >>= as_object) empty)
    ]
  ]

  unfoldable pub extract_trace_context : Object → Option TraceContext
  extract_trace_context m = do
    traceparent ← get traceparent_key m >>= as_str
    some (record {
      traceparent = traceparent;
      tracestate = get tracestate_key m >>= as_str;
      baggage = get baggage_key m >>= as_str;
    })

  -- `sanitize_inbound` on the parameters of a message.
  unfoldable pub sanitize_params : Option Value → Option Value
  sanitize_params none = none
  sanitize_params (some p) = elim (as_object p) [
    | none ↦ some p
    | some obj ↦ elim (get "_meta" obj >>= as_object) [
      | none ↦ some p
      | some meta ↦
          some (object (insert "_meta" (object (retain (λ k. not (is_internal_key k)) meta)) obj))
    ]
  ]

  unfoldable pub sanitize_inbound : JsonRpcMessage Value → JsonRpcMessage Value
  unfolding sanitize_params
  sanitize_inbound (JsonRpc.request r) =
      JsonRpc.request (record r { params = sanitize_params r.params })
  sanitize_inbound (JsonRpc.notification n) =
      JsonRpc.notification (record n { params = sanitize_params n.params })
  sanitize_inbound (JsonRpc.response r) = JsonRpc.response r

  -- `params?.get("_meta")?.get(key)?.as_str()`.
  unfoldable pub meta_text : String → Option Value → Option String
  meta_text key params = do p ← params; m ← member J "_meta" p; v ← member J key m; as_str v

  unfoldable pub session_id : Option Value → Option String
  unfolding meta_text
  session_id = meta_text session_id_key

  unfoldable pub connection_id : Option Value → Option String
  unfolding meta_text
  connection_id = meta_text connection_id_key

  unfoldable pub request_protocol_version : Option Value → Option ProtocolVersion
  request_protocol_version params = do
    p ← params
    m ← member J "_meta" p >>= as_object
    raw ← get protocol_version_key m >>= as_str
    some (from_wire raw)
