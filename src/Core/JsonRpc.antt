-- ===== src/Core/JsonRpc.antt =====
-- crates/turbomcp-core/src/jsonrpc.rs: the JSON-RPC 2.0 envelopes, over any type of JSON values.
use turbomcp.Prelude.{
  ◌≡◌, ◌↔◌, Bool, true, false, Option, none, some, String, Key, ◌==◌, arith, string_key,
}
use turbomcp.Prelude.Int.{ℤ, pos, negsuc}
use turbomcp.Prelude.{◌==ℕ◌, ==ℕ_iff}

pub data RequestId : Type 0 where
  number : ℤ → RequestId
  string : String → RequestId

abbrev pub request_id_same : RequestId → RequestId → Bool
request_id_same (number (pos a)) (number (pos b)) = a ==ℕ b
request_id_same (number (negsuc a)) (number (negsuc b)) = a ==ℕ b
request_id_same (string s) (string t) = s == t
request_id_same _ _ = false

pub request_id_same_iff : (a b : RequestId) → (request_id_same a b ≡ true) ↔ (a ≡ b)
request_id_same_iff (number (pos a)) (number (pos b)) = ground (arith, ==ℕ_iff a b)
request_id_same_iff (number (negsuc a)) (number (negsuc b)) = ground (arith, ==ℕ_iff a b)
request_id_same_iff (string s) (string t) = ground (arith, string_key.same_iff s t)
request_id_same_iff (number (pos a)) (number (negsuc b)) = ground arith
request_id_same_iff (number (negsuc a)) (number (pos b)) = ground arith
request_id_same_iff (number a) (string t) = ground arith
request_id_same_iff (string s) (number b) = ground arith

instance abbrev pub request_id_key : Key RequestId
request_id_key = record { same = request_id_same; same_iff = request_id_same_iff }

abbrev pub jsonrpc_version : String
jsonrpc_version = "2.0"

abbrev pub is_jsonrpc_version : String → Bool
is_jsonrpc_version s = s == jsonrpc_version

module _ (Value : Type 0) where
  pub record JsonRpcRequest : Type 0 where
    pub jsonrpc : String
    pub id : RequestId
    pub method : String
    pub params : Option Value

  pub record JsonRpcNotification : Type 0 where
    pub jsonrpc : String
    pub method : String
    pub params : Option Value

  pub record JsonRpcError : Type 0 where
    pub code : ℤ
    pub message : String
    pub details : Option Value

  pub record JsonRpcResponse : Type 0 where
    pub jsonrpc : String
    pub id : RequestId
    pub result : Option Value
    pub error : Option (JsonRpcError)

  pub data JsonRpcMessage : Type 0 where
    request : JsonRpcRequest → JsonRpcMessage
    notification : JsonRpcNotification → JsonRpcMessage
    response : JsonRpcResponse → JsonRpcMessage

module _ {Value : Type 0} where
  abbrev pub new_request : RequestId → String → Option Value → JsonRpcRequest Value
  new_request id method params = record {
    jsonrpc = jsonrpc_version;
    id = id;
    method = method;
    params = params;
  }

  abbrev pub new_notification : String → Option Value → JsonRpcNotification Value
  new_notification method params = record {
    jsonrpc = jsonrpc_version;
    method = method;
    params = params;
  }

  abbrev pub success_response : RequestId → Value → JsonRpcResponse Value
  success_response id result = record {
    jsonrpc = jsonrpc_version;
    id = id;
    result = some result;
    error = none;
  }

  abbrev pub error_response : RequestId → JsonRpcError Value → JsonRpcResponse Value
  error_response id err = record {
    jsonrpc = jsonrpc_version;
    id = id;
    result = none;
    error = some err;
  }

  unfoldable pub is_error : JsonRpcResponse Value → Bool
  is_error r = elim r.error [ none ↦ false | some _ ↦ true ]

  unfoldable pub has_valid_version : JsonRpcMessage Value → Bool
  has_valid_version (request r) = is_jsonrpc_version r.jsonrpc
  has_valid_version (notification n) = is_jsonrpc_version n.jsonrpc
  has_valid_version (response r) = is_jsonrpc_version r.jsonrpc

  unfoldable pub method_of : JsonRpcMessage Value → Option String
  method_of (request r) = some r.method
  method_of (notification n) = some n.method
  method_of (response _) = none
