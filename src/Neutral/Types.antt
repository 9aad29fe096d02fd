-- ===== src/Neutral/Types.antt =====
-- crates/turbomcp-protocol/src/neutral.rs: the types that handlers take and return.
use turbomcp.Prelude.{ℕ, Bool, String, Option, List}
use turbomcp.Prelude.HashMap.{HashMap}
use turbomcp.Neutral.Serde.{Serde}

pub data Role : Type 0 where
  user assistant : Role

pub data IconTheme : Type 0 where
  light dark : IconTheme

pub record Icon : Type 0 where
  pub src : String
  pub mime_type : Option String
  pub sizes : List String
  pub theme : Option IconTheme

pub data TaskSupport : Type 0 where
  forbidden optional required : TaskSupport

pub record ToolAnnotations : Type 0 where
  pub title : Option String
  pub read_only_hint : Option Bool
  pub destructive_hint : Option Bool
  pub idempotent_hint : Option Bool
  pub open_world_hint : Option Bool

pub data CacheScope : Type 0 where
  private_scope public_scope : CacheScope

pub record CachePolicy : Type 0 where
  pub ttl_ms : ℕ
  pub scope : CacheScope

abbrev pub no_cache : CachePolicy
no_cache = record { ttl_ms = 0; scope = private_scope }

pub record ListParams : Type 0 where
  pub cursor : Option String

pub record ReadResourceParams : Type 0 where
  pub uri : String

pub record PromptArgument : Type 0 where
  pub name : String
  pub title : Option String
  pub description : Option String
  pub required : Bool

pub record GetPromptParams : Type 0 where
  pub name : String
  -- A `BTreeMap`.
  pub arguments : HashMap String String

pub record CompleteResult : Type 0 where
  pub values : List String
  pub total : Option ℕ
  pub has_more : Option Bool

pub data CompletionReference : Type 0 where
  prompt resource_template : String → CompletionReference

pub record CompletionArgument : Type 0 where
  pub name : String
  pub value : String

pub record CompleteParams : Type 0 where
  pub reference : CompletionReference
  pub argument : CompletionArgument
  pub context_arguments : HashMap String String

pub data ElicitAction : Type 0 where
  accept decline cancel : ElicitAction

pub record ElicitUrlParams : Type 0 where
  pub message : String
  pub elicitation_id : Option String
  pub url : String

module _ (S : Serde) where
  open S use {json, F64}
  open json use {Value, Object}

  pub record Annotations : Type 0 where
    pub audience : List Role
    pub priority : Option F64
    pub last_modified : Option String

  pub data ResourceContents : Type 0 where
    -- The URI, the MIME type, the text or the base64 blob, and the `_meta`.
    text_contents blob_contents : String → Option String → String → Object → ResourceContents

  pub record Resource : Type 0 where
    pub uri : String
    pub name : String
    pub title : Option String
    pub description : Option String
    pub mime_type : Option String
    pub size : Option ℕ
    pub annotations : Option Annotations
    pub icons : List Icon
    pub meta : Object

  pub data Content : Type 0 where
    text : String → Option Annotations → Object → Content
    -- The base64 bytes and their MIME type.
    image audio : String → String → Option Annotations → Object → Content
    resource : ResourceContents → Option Annotations → Object → Content
    resource_link : Resource → Content

  pub record Tool : Type 0 where
    pub name : String
    pub title : Option String
    pub description : Option String
    pub input_schema : Value
    pub output_schema : Option Value
    pub task_support : Option TaskSupport
    pub annotations : Option ToolAnnotations
    pub icons : List Icon
    pub meta : Object

  pub record ListToolsResult : Type 0 where
    pub tools : List Tool
    pub next_cursor : Option String
    pub cache : Option CachePolicy

  pub record CallToolParams : Type 0 where
    pub name : String
    pub arguments : Object

  pub record CallToolResult : Type 0 where
    pub content : List Content
    pub is_error : Bool
    pub structured_content : Option Value

  pub record ListResourcesResult : Type 0 where
    pub resources : List Resource
    pub next_cursor : Option String
    pub cache : Option CachePolicy

  pub record ReadResourceResult : Type 0 where
    pub contents : List ResourceContents
    pub cache : Option CachePolicy

  pub record ResourceTemplate : Type 0 where
    pub uri_template : String
    pub name : String
    pub title : Option String
    pub description : Option String
    pub mime_type : Option String
    pub annotations : Option Annotations
    pub icons : List Icon
    pub meta : Object

  pub record ListResourceTemplatesResult : Type 0 where
    pub resource_templates : List ResourceTemplate
    pub next_cursor : Option String
    pub cache : Option CachePolicy

  pub record Prompt : Type 0 where
    pub name : String
    pub title : Option String
    pub description : Option String
    pub arguments : List PromptArgument
    pub icons : List Icon
    pub meta : Object

  pub record PromptMessage : Type 0 where
    pub role : Role
    pub content : Content

  pub record ListPromptsResult : Type 0 where
    pub prompts : List Prompt
    pub next_cursor : Option String
    pub cache : Option CachePolicy

  pub record GetPromptResult : Type 0 where
    pub description : Option String
    pub messages : List PromptMessage

  pub record ElicitParams : Type 0 where
    pub message : String
    pub requested_schema : Value

  pub record ElicitOutcome : Type 0 where
    pub action : ElicitAction
    pub content : Object
