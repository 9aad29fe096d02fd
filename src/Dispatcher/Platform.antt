-- ===== src/Dispatcher/Platform.antt =====
-- What the dispatcher takes from outside the repository: JSON values and cryptography, the wall
-- clock, and the functions that the derives of the `serde` crate generate for its frames.
use turbomcp.Prelude.{none, ℕ, ◌≡◌, Bool, true, String, Option, List, Result}
use turbomcp.Prelude.Int.{ℤ}
use turbomcp.Core.Json.{Json, is_empty_object}
use turbomcp.Core.JsonRpc.{JsonRpcError}
use turbomcp.Core.Context.{LogLevel}
use turbomcp.Core.Host.{Host}
use turbomcp.Core.ServiceError.{ProtocolError}
use turbomcp.RequestState.Signer.{Crypto}
use turbomcp.Neutral.Serde.{Serde}
use turbomcp.Neutral.Draft.Wire as Draft
use turbomcp.Neutral.Legacy.Wire as Legacy
use turbomcp.Subscriptions.Registry.{SubscriptionFilter}
use turbomcp.Dispatcher.Frames.{
  RawClientInfo, RawReadResourceParams, RawGetPromptParams, RawCompleteParams, RawCancelledParams,
  RawListenParams, RawTaskMetadata, RawTaskIdParams, RawCallToolParams, RawMrtrFields,
  CreateTaskResult, ListTasksResult, GetTaskResult, CancelTaskResult, LegacyServerCapabilities,
  DraftServerCapabilities, DiscoverResultCacheScope,
}

pub record Base : Type 1 where
  pub crypto : Crypto
  pub F64 : Type 0
  pub Wall : Type 0
  pub format : Wall → Option String
  pub error_value : JsonRpcError crypto.json.Value → Option crypto.json.Value
  pub empty_unique :
      (o : crypto.json.Object) → is_empty_object crypto.json o ≡ true → o ≡ crypto.json.empty
  pub empty_is_empty : is_empty_object crypto.json crypto.json.empty ≡ true
  pub is_null : crypto.json.Value → Bool
  pub null_no_object : (v : crypto.json.Value) → is_null v ≡ true → crypto.json.as_object v ≡ none

abbrev pub host : Base → Host
host B = record {
  json = B.crypto.json;
  Wall = B.Wall;
  format = B.format;
  error_value = B.error_value;
}

abbrev pub serde : Base → Serde
serde B = record {
  json = B.crypto.json;
  F64 = B.F64;
  empty_unique = B.empty_unique;
  empty_is_empty = B.empty_is_empty;
  is_null = B.is_null;
  null_no_object = B.null_no_object;
}

-- `legacy::InitializeRequestParams`, without its `_meta`, which nothing reads; the capabilities are
-- only serialized again.
pub record InitializeRequestParams (B : Base) (ClientCapabilities : Type 0) : Type 0 where
  pub capabilities : ClientCapabilities
  pub client_info : Legacy.Implementation
  pub protocol_version : String

-- `legacy::InitializeResult`.
pub record InitializeResult (B : Base) : Type 0 where
  pub capabilities : LegacyServerCapabilities B.crypto.json
  pub instructions : Option String
  pub meta : B.crypto.json.Object
  pub protocol_version : String
  pub server_info : Legacy.Implementation

-- `draft::DiscoverResult`.
pub record DiscoverResult (B : Base) : Type 0 where
  pub cache_scope : DiscoverResultCacheScope
  pub capabilities : DraftServerCapabilities B.crypto.json
  pub instructions : Option String
  pub meta : Option (Draft.ResultMetaObject (serde B))
  pub result_type : String
  pub supported_versions : List String
  pub ttl_ms : ℕ

-- `serde_json::from_value` and `serde_json::to_value`, with the text of their errors.
pub record Platform : Type 1 where
  pub base : Base
  pub ClientCapabilities : Type 0
  -- `Value::is_string`, `is_i64` and `is_u64` of a progress token.
  pub is_token : base.crypto.json.Value → Bool
  pub value_text : base.crypto.json.Value → String
  pub number_value : ℤ → base.crypto.json.Value
  -- The `thiserror` text of a `ProtocolError`.
  pub error_text : ProtocolError → String
  pub from_client_info : base.crypto.json.Value → Result RawClientInfo String
  pub from_call_tool : base.crypto.json.Value → Result (RawCallToolParams base.crypto.json) String
  pub from_read_resource : base.crypto.json.Value → Result RawReadResourceParams String
  pub from_get_prompt : base.crypto.json.Value → Result RawGetPromptParams String
  pub from_complete : base.crypto.json.Value → Result RawCompleteParams String
  pub from_mrtr : base.crypto.json.Value → Result (RawMrtrFields base.crypto.json) String
  pub from_cancelled : base.crypto.json.Value → Result RawCancelledParams String
  pub from_listen : base.crypto.json.Value → Result RawListenParams String
  pub from_task_metadata : base.crypto.json.Value → Result RawTaskMetadata String
  pub from_task_id : base.crypto.json.Value → Result RawTaskIdParams String
  pub from_log_level : base.crypto.json.Value → Result LogLevel String
  pub from_initialize :
      base.crypto.json.Value → Result (InitializeRequestParams base ClientCapabilities) String
  pub from_draft_input_schema : base.crypto.json.Value → Option (Draft.ToolInputSchema (serde base))
  pub from_draft_output_schema :
      base.crypto.json.Value → Option (Draft.ToolOutputSchema (serde base))
  pub from_legacy_input_schema :
      base.crypto.json.Value → Option (Legacy.ToolInputSchema (serde base))
  pub from_legacy_output_schema :
      base.crypto.json.Value → Option (Legacy.ToolOutputSchema (serde base))
  pub capabilities_value : ClientCapabilities → Result base.crypto.json.Value String
  pub filter_value : SubscriptionFilter → Result base.crypto.json.Value String
  pub draft_implementation_value : Draft.Implementation → Result base.crypto.json.Value String
  pub initialize_value : InitializeResult base → Result base.crypto.json.Value String
  pub discover_value : DiscoverResult base → Result base.crypto.json.Value String
  pub create_task_value : CreateTaskResult base.crypto.json → Result base.crypto.json.Value String
  pub list_tasks_value : ListTasksResult base.crypto.json → Result base.crypto.json.Value String
  pub get_task_value : GetTaskResult base.crypto.json → Result base.crypto.json.Value String
  pub cancel_task_value : CancelTaskResult base.crypto.json → Result base.crypto.json.Value String
  pub draft_list_tools : Draft.ListToolsResult (serde base) → Result base.crypto.json.Value String
  pub draft_call_tool : Draft.CallToolResult (serde base) → Result base.crypto.json.Value String
  pub draft_list_resources :
      Draft.ListResourcesResult (serde base) → Result base.crypto.json.Value String
  pub draft_list_resource_templates :
      Draft.ListResourceTemplatesResult (serde base) → Result base.crypto.json.Value String
  pub draft_read_resource :
      Draft.ReadResourceResult (serde base) → Result base.crypto.json.Value String
  pub draft_list_prompts :
      Draft.ListPromptsResult (serde base) → Result base.crypto.json.Value String
  pub draft_get_prompt : Draft.GetPromptResult (serde base) → Result base.crypto.json.Value String
  pub draft_complete : Draft.CompleteResult (serde base) → Result base.crypto.json.Value String
  pub legacy_list_tools : Legacy.ListToolsResult (serde base) → Result base.crypto.json.Value String
  pub legacy_call_tool : Legacy.CallToolResult (serde base) → Result base.crypto.json.Value String
  pub legacy_list_resources :
      Legacy.ListResourcesResult (serde base) → Result base.crypto.json.Value String
  pub legacy_list_resource_templates :
      Legacy.ListResourceTemplatesResult (serde base) → Result base.crypto.json.Value String
  pub legacy_read_resource :
      Legacy.ReadResourceResult (serde base) → Result base.crypto.json.Value String
  pub legacy_list_prompts :
      Legacy.ListPromptsResult (serde base) → Result base.crypto.json.Value String
  pub legacy_get_prompt : Legacy.GetPromptResult (serde base) → Result base.crypto.json.Value String
  pub legacy_complete : Legacy.CompleteResult (serde base) → Result base.crypto.json.Value String

abbrev pub json : Platform → Json
json P = P.base.crypto.json
