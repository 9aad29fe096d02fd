-- ===== src/Dispatcher/Frames.antt =====
-- The parameter frames that crates/turbomcp-server/src/dispatcher deserializes, and the wire results
-- of crates/turbomcp-protocol/src/v2025_11_25/types.rs and draft/types.rs that only it builds.
use turbomcp.Prelude.{Bool, String, Option, List}
use turbomcp.Prelude.HashMap.{HashMap}
use turbomcp.Prelude.Int.{ℤ}
use turbomcp.Core.Json.{Json}
use turbomcp.Core.JsonRpc.{RequestId}
use turbomcp.Subscriptions.Registry.{SubscriptionFilter}

pub record RawClientInfo : Type 0 where
  pub name : String
  pub version : String
  pub title : Option String

pub record RawReadResourceParams : Type 0 where
  pub uri : String

pub record RawGetPromptParams : Type 0 where
  pub name : String
  pub arguments : HashMap String String

pub record RawCompletionRef : Type 0 where
  pub type_name : String
  pub name : Option String
  pub uri : Option String

pub record RawCompletionArgument : Type 0 where
  pub name : String
  pub value : String

pub record RawCompletionContext : Type 0 where
  pub arguments : HashMap String String

pub record RawCompleteParams : Type 0 where
  pub reference : RawCompletionRef
  pub argument : RawCompletionArgument
  pub context : Option RawCompletionContext

pub record RawCancelledParams : Type 0 where
  pub request_id : RequestId
  pub reason : Option String

pub record RawListenParams : Type 0 where
  pub notifications : SubscriptionFilter

pub record RawTaskMetadata : Type 0 where
  pub ttl : Option ℤ

pub record RawTaskIdParams : Type 0 where
  pub task_id : String

-- `legacy::TaskStatus`.
pub data WireTaskStatus : Type 0 where
  cancelled completed failed input_required working : WireTaskStatus

-- `legacy::Task`.
pub record WireTask : Type 0 where
  pub created_at : String
  pub last_updated_at : String
  pub poll_interval : Option ℤ
  pub status : WireTaskStatus
  pub status_message : Option String
  pub task_id : String
  pub ttl : Option ℤ

pub record ServerCapabilitiesPrompts : Type 0 where
  pub list_changed : Option Bool

pub record ServerCapabilitiesResources : Type 0 where
  pub list_changed : Option Bool
  pub subscribe : Option Bool

pub record ServerCapabilitiesTools : Type 0 where
  pub list_changed : Option Bool

pub data DiscoverResultCacheScope : Type 0 where
  private_scope public_scope : DiscoverResultCacheScope

module _ (J : Json) where
  open J use {Value, Object}

  pub record RawCallToolParams : Type 0 where
    pub name : String
    pub arguments : Object

  pub record RawMrtrFields : Type 0 where
    pub input_responses : Option (HashMap String Value)
    pub request_state : Option String

  pub record CreateTaskResult : Type 0 where
    pub meta : Object
    pub task : WireTask

  pub record ListTasksResult : Type 0 where
    pub meta : Object
    pub next_cursor : Option String
    pub tasks : List WireTask

  pub record GetTaskResult : Type 0 where
    pub created_at : String
    pub last_updated_at : String
    pub meta : Object
    pub poll_interval : Option ℤ
    pub status : WireTaskStatus
    pub status_message : Option String
    pub task_id : String
    pub ttl : Option ℤ
    pub extra : Object

  pub record CancelTaskResult : Type 0 where
    pub created_at : String
    pub last_updated_at : String
    pub meta : Object
    pub poll_interval : Option ℤ
    pub status : WireTaskStatus
    pub status_message : Option String
    pub task_id : String
    pub ttl : Option ℤ
    pub extra : Object

  pub record ServerCapabilitiesTasksRequestsTools : Type 0 where
    pub call : Object

  pub record ServerCapabilitiesTasksRequests : Type 0 where
    pub tools : Option ServerCapabilitiesTasksRequestsTools

  pub record ServerCapabilitiesTasks : Type 0 where
    pub cancel : Object
    pub list : Object
    pub requests : Option ServerCapabilitiesTasksRequests

  -- `legacy::ServerCapabilities`.
  pub record LegacyServerCapabilities : Type 0 where
    pub completions : Object
    pub experimental : HashMap String Object
    pub logging : Object
    pub prompts : Option ServerCapabilitiesPrompts
    pub resources : Option ServerCapabilitiesResources
    pub tasks : Option ServerCapabilitiesTasks
    pub tools : Option ServerCapabilitiesTools

  -- `draft::ServerCapabilities`, with an ordered map of JSON values for a `JsonObject`.
  pub record DraftServerCapabilities : Type 0 where
    pub completions : Option (HashMap String Value)
    pub experimental : HashMap String (HashMap String Value)
    pub extensions : HashMap String (HashMap String Value)
    pub logging : Option (HashMap String Value)
    pub prompts : Option ServerCapabilitiesPrompts
    pub resources : Option ServerCapabilitiesResources
    pub tools : Option ServerCapabilitiesTools
