-- ===== src/Neutral/Legacy/Wire.antt =====
-- crates/turbomcp-protocol/src/v2025_11_25/types.rs: the generated wire types that the conversions
-- of neutral.rs use for protocol version 2025-11-25.
use turbomcp.Prelude.{Bool, String, Option, List}
use turbomcp.Prelude.HashMap.{HashMap}
use turbomcp.Prelude.Int.{ℤ}
use turbomcp.Neutral.Serde.{Serde}

pub data Role : Type 0 where
  assistant user : Role

pub data IconTheme : Type 0 where
  dark light : IconTheme

pub record Icon : Type 0 where
  pub mime_type : Option String
  pub sizes : List String
  pub src : String
  pub theme : Option IconTheme

pub record ToolAnnotations : Type 0 where
  pub destructive_hint : Option Bool
  pub idempotent_hint : Option Bool
  pub open_world_hint : Option Bool
  pub read_only_hint : Option Bool
  pub title : Option String

pub record PromptArgument : Type 0 where
  pub description : Option String
  pub name : String
  pub required : Option Bool
  pub title : Option String

pub record CompleteResultCompletion : Type 0 where
  pub has_more : Option Bool
  pub total : Option ℤ
  pub values : List String

pub record Implementation : Type 0 where
  pub description : Option String
  pub icons : List Icon
  pub name : String
  pub title : Option String
  pub version : String
  pub website_url : Option String

pub data ToolExecutionTaskSupport : Type 0 where
  forbidden optional required : ToolExecutionTaskSupport

pub record ToolExecution : Type 0 where
  pub task_support : Option ToolExecutionTaskSupport

module _ (S : Serde) where
  open S use {json, F64}
  open json use {Value, Object}

  pub record Annotations : Type 0 where
    pub audience : List Role
    pub last_modified : Option String
    pub priority : Option F64

  pub record TextContent : Type 0 where
    pub annotations : Option Annotations
    pub meta : Object
    pub text : String
    pub type_name : String

  pub record ImageContent : Type 0 where
    pub annotations : Option Annotations
    pub payload : String
    pub meta : Object
    pub mime_type : String
    pub type_name : String

  pub record AudioContent : Type 0 where
    pub annotations : Option Annotations
    pub payload : String
    pub meta : Object
    pub mime_type : String
    pub type_name : String

  pub record TextResourceContents : Type 0 where
    pub meta : Object
    pub mime_type : Option String
    pub text : String
    pub uri : String

  pub record BlobResourceContents : Type 0 where
    pub blob : String
    pub meta : Object
    pub mime_type : Option String
    pub uri : String

  pub data EmbeddedResourceResource : Type 0 where
    text_resource : TextResourceContents → EmbeddedResourceResource
    blob_resource : BlobResourceContents → EmbeddedResourceResource

  pub data ReadResourceResultContentsItem : Type 0 where
    text_item : TextResourceContents → ReadResourceResultContentsItem
    blob_item : BlobResourceContents → ReadResourceResultContentsItem

  pub record EmbeddedResource : Type 0 where
    pub annotations : Option Annotations
    pub meta : Object
    pub resource : EmbeddedResourceResource
    pub type_name : String

  pub record ResourceLink : Type 0 where
    pub annotations : Option Annotations
    pub description : Option String
    pub icons : List Icon
    pub meta : Object
    pub mime_type : Option String
    pub name : String
    pub size : Option ℤ
    pub title : Option String
    pub type_name : String
    pub uri : String

  pub data ContentBlock : Type 0 where
    text_content : TextContent → ContentBlock
    image_content : ImageContent → ContentBlock
    audio_content : AudioContent → ContentBlock
    resource_link : ResourceLink → ContentBlock
    embedded_resource : EmbeddedResource → ContentBlock

  pub record ToolInputSchema : Type 0 where
    pub properties : HashMap String Object
    pub required : List String
    pub schema : Option String
    pub type_name : String
    pub extra : Object

  pub record ToolOutputSchema : Type 0 where
    pub properties : HashMap String Object
    pub required : List String
    pub schema : Option String
    pub type_name : String
    pub extra : Object

  pub record Tool : Type 0 where
    pub annotations : Option ToolAnnotations
    pub description : Option String
    pub execution : Option ToolExecution
    pub icons : List Icon
    pub input_schema : ToolInputSchema
    pub meta : Object
    pub name : String
    pub output_schema : Option (ToolOutputSchema)
    pub title : Option String

  pub record Resource : Type 0 where
    pub annotations : Option Annotations
    pub description : Option String
    pub icons : List Icon
    pub meta : Object
    pub mime_type : Option String
    pub name : String
    pub size : Option ℤ
    pub title : Option String
    pub uri : String

  pub record ResourceTemplate : Type 0 where
    pub annotations : Option Annotations
    pub description : Option String
    pub icons : List Icon
    pub meta : Object
    pub mime_type : Option String
    pub name : String
    pub title : Option String
    pub uri_template : String

  pub record Prompt : Type 0 where
    pub arguments : List PromptArgument
    pub description : Option String
    pub icons : List Icon
    pub meta : Object
    pub name : String
    pub title : Option String

  pub record PromptMessage : Type 0 where
    pub content : ContentBlock
    pub role : Role

  pub record ListToolsResult : Type 0 where
    pub meta : Object
    pub next_cursor : Option String
    pub tools : List Tool

  pub record CallToolResult : Type 0 where
    pub meta : Object
    pub content : List ContentBlock
    pub is_error : Option Bool
    pub structured_content : Object

  pub record ListResourcesResult : Type 0 where
    pub meta : Object
    pub next_cursor : Option String
    pub resources : List Resource

  pub record ReadResourceResult : Type 0 where
    pub meta : Object
    pub contents : List ReadResourceResultContentsItem

  pub record ListResourceTemplatesResult : Type 0 where
    pub meta : Object
    pub next_cursor : Option String
    pub resource_templates : List ResourceTemplate

  pub record ListPromptsResult : Type 0 where
    pub meta : Object
    pub next_cursor : Option String
    pub prompts : List Prompt

  pub record GetPromptResult : Type 0 where
    pub meta : Object
    pub description : Option String
    pub messages : List PromptMessage

  pub record CompleteResult : Type 0 where
    pub meta : Object
    pub completion : CompleteResultCompletion
