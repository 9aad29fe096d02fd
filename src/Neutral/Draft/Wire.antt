-- ===== src/Neutral/Draft/Wire.antt =====
-- crates/turbomcp-protocol/src/draft/types.rs: the generated wire types that the conversions
-- of neutral.rs use.
use turbomcp.Prelude.{ℕ, Bool, String, Option, List}
use turbomcp.Prelude.Int.{ℤ}
use turbomcp.Neutral.Serde.{Serde}

pub data Role : Type 0 where
  assistant user : Role

pub data IconTheme : Type 0 where
  dark light : IconTheme

pub record Icon : Type 0 where
  pub mime_type : Option String
  pub sizes : List String
  pub src : String
  pub theme : Option IconTheme

pub record ToolAnnotations : Type 0 where
  pub destructive_hint : Option Bool
  pub idempotent_hint : Option Bool
  pub open_world_hint : Option Bool
  pub read_only_hint : Option Bool
  pub title : Option String

pub record PromptArgument : Type 0 where
  pub description : Option String
  pub name : String
  pub required : Option Bool
  pub title : Option String

pub record CompleteResultCompletion : Type 0 where
  pub has_more : Option Bool
  pub total : Option ℤ
  pub values : List String

pub record Implementation : Type 0 where
  pub description : Option String
  pub icons : List Icon
  pub name : String
  pub title : Option String
  pub version : String
  pub website_url : Option String

pub data ListToolsResultCacheScope : Type 0 where
  private_scope public_scope : ListToolsResultCacheScope

pub data ListResourcesResultCacheScope : Type 0 where
  private_scope public_scope : ListResourcesResultCacheScope

pub data ListResourceTemplatesResultCacheScope : Type 0 where
  private_scope public_scope : ListResourceTemplatesResultCacheScope

pub data ListPromptsResultCacheScope : Type 0 where
  private_scope public_scope : ListPromptsResultCacheScope

pub data ReadResourceResultCacheScope : Type 0 where
  private_scope public_scope : ReadResourceResultCacheScope

module _ (S : Serde) where
  open S use {json, F64}
  open json use {Value, Object}

  -- `_meta` of a result: the server's own record, and the other entries.
  pub record ResultMetaObject : Type 0 where
    pub io_modelcontextprotocol_server_info : Option (Implementation)
    pub extra : Object

  pub record Annotations : Type 0 where
    pub audience : List Role
    pub last_modified : Option String
    pub priority : Option F64

  pub record TextContent : Type 0 where
    pub annotations : Option Annotations
    pub meta : Option Object
    pub text : String
    pub type_name : String

  pub record ImageContent : Type 0 where
    pub annotations : Option Annotations
    pub payload : String
    pub meta : Option Object
    pub mime_type : String
    pub type_name : String

  pub record AudioContent : Type 0 where
    pub annotations : Option Annotations
    pub payload : String
    pub meta : Option Object
    pub mime_type : String
    pub type_name : String

  pub record TextResourceContents : Type 0 where
    pub meta : Option Object
    pub mime_type : Option String
    pub text : String
    pub uri : String

  pub record BlobResourceContents : Type 0 where
    pub blob : String
    pub meta : Option Object
    pub mime_type : Option String
    pub uri : String

  pub data EmbeddedResourceResource : Type 0 where
    text_resource : TextResourceContents → EmbeddedResourceResource
    blob_resource : BlobResourceContents → EmbeddedResourceResource

  pub data ReadResourceResultContentsItem : Type 0 where
    text_item : TextResourceContents → ReadResourceResultContentsItem
    blob_item : BlobResourceContents → ReadResourceResultContentsItem

  pub record EmbeddedResource : Type 0 where
    pub annotations : Option Annotations
    pub meta : Option Object
    pub resource : EmbeddedResourceResource
    pub type_name : String

  pub record ResourceLink : Type 0 where
    pub annotations : Option Annotations
    pub description : Option String
    pub icons : List Icon
    pub meta : Option Object
    pub mime_type : Option String
    pub name : String
    pub size : Option ℤ
    pub title : Option String
    pub type_name : String
    pub uri : String

  pub data ContentBlock : Type 0 where
    text_content : TextContent → ContentBlock
    image_content : ImageContent → ContentBlock
    audio_content : AudioContent → ContentBlock
    resource_link : ResourceLink → ContentBlock
    embedded_resource : EmbeddedResource → ContentBlock

  pub record ToolInputSchema : Type 0 where
    pub schema : Option String
    pub type_name : String
    pub extra : Object

  pub record ToolOutputSchema : Type 0 where
    pub schema : Option String
    pub extra : Object

  pub record Tool : Type 0 where
    pub annotations : Option ToolAnnotations
    pub description : Option String
    pub icons : List Icon
    pub input_schema : ToolInputSchema
    pub meta : Option Object
    pub name : String
    pub output_schema : Option (ToolOutputSchema)
    pub title : Option String

  pub record Resource : Type 0 where
    pub annotations : Option Annotations
    pub description : Option String
    pub icons : List Icon
    pub meta : Option Object
    pub mime_type : Option String
    pub name : String
    pub size : Option ℤ
    pub title : Option String
    pub uri : String

  pub record ResourceTemplate : Type 0 where
    pub annotations : Option Annotations
    pub description : Option String
    pub icons : List Icon
    pub meta : Option Object
    pub mime_type : Option String
    pub name : String
    pub title : Option String
    pub uri_template : String

  pub record Prompt : Type 0 where
    pub arguments : List PromptArgument
    pub description : Option String
    pub icons : List Icon
    pub meta : Option Object
    pub name : String
    pub title : Option String

  pub record PromptMessage : Type 0 where
    pub content : ContentBlock
    pub role : Role

  pub record ListToolsResult : Type 0 where
    pub cache_scope : ListToolsResultCacheScope
    pub meta : Option (ResultMetaObject)
    pub next_cursor : Option String
    pub tools : List Tool
    pub result_type : String
    pub ttl_ms : ℕ

  pub record CallToolResult : Type 0 where
    pub meta : Option (ResultMetaObject)
    pub content : List ContentBlock
    pub is_error : Option Bool
    pub structured_content : Option Value
    pub result_type : String

  pub record ListResourcesResult : Type 0 where
    pub cache_scope : ListResourcesResultCacheScope
    pub meta : Option (ResultMetaObject)
    pub next_cursor : Option String
    pub resources : List Resource
    pub result_type : String
    pub ttl_ms : ℕ

  pub record ReadResourceResult : Type 0 where
    pub cache_scope : ReadResourceResultCacheScope
    pub meta : Option (ResultMetaObject)
    pub contents : List ReadResourceResultContentsItem
    pub result_type : String
    pub ttl_ms : ℕ

  pub record ListResourceTemplatesResult : Type 0 where
    pub cache_scope : ListResourceTemplatesResultCacheScope
    pub meta : Option (ResultMetaObject)
    pub next_cursor : Option String
    pub resource_templates : List ResourceTemplate
    pub result_type : String
    pub ttl_ms : ℕ

  pub record ListPromptsResult : Type 0 where
    pub cache_scope : ListPromptsResultCacheScope
    pub meta : Option (ResultMetaObject)
    pub next_cursor : Option String
    pub prompts : List Prompt
    pub result_type : String
    pub ttl_ms : ℕ

  pub record GetPromptResult : Type 0 where
    pub meta : Option (ResultMetaObject)
    pub description : Option String
    pub messages : List PromptMessage
    pub result_type : String

  pub record CompleteResult : Type 0 where
    pub meta : Option (ResultMetaObject)
    pub completion : CompleteResultCompletion
    pub result_type : String
