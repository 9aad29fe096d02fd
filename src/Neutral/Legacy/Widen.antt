-- ===== src/Neutral/Legacy/Widen.antt =====
-- crates/turbomcp-protocol/src/neutral.rs: from what handlers return to the wire types of
-- protocol version 2025-11-25.
use mathlib.Core.Option
use turbomcp.Prelude.{Option, none, some, [], map}
use turbomcp.Prelude.Int.{pos}
use turbomcp.Core.Json.{◌>>=◌}
use turbomcp.Neutral.Serde.{Serde}
use turbomcp.Neutral.Convert.{i64_of_u64}
use turbomcp.Neutral.Types as Neutral
use turbomcp.Neutral.Legacy.Wire as Wire

unfoldable pub widen_role : Neutral.Role → Wire.Role
widen_role Neutral.user = Wire.user
widen_role Neutral.assistant = Wire.assistant

abbrev pub widen_theme : Neutral.IconTheme → Wire.IconTheme
widen_theme Neutral.light = Wire.light
widen_theme Neutral.dark = Wire.dark

unfoldable pub widen_icon : Neutral.Icon → Wire.Icon
widen_icon i = record {
  mime_type = i.mime_type;
  sizes = i.sizes;
  src = i.src;
  theme = Option.map widen_theme i.theme;
}

unfoldable pub widen_tool_annotations : Neutral.ToolAnnotations → Wire.ToolAnnotations
widen_tool_annotations a = record {
  destructive_hint = a.destructive_hint;
  idempotent_hint = a.idempotent_hint;
  open_world_hint = a.open_world_hint;
  read_only_hint = a.read_only_hint;
  title = a.title;
}

unfoldable pub widen_prompt_argument : Neutral.PromptArgument → Wire.PromptArgument
widen_prompt_argument a = record {
  description = a.description;
  name = a.name;
  required = some a.required;
  title = a.title;
}

unfoldable pub widen_task_support : Neutral.TaskSupport → Wire.ToolExecutionTaskSupport
widen_task_support Neutral.forbidden = Wire.forbidden
widen_task_support Neutral.optional = Wire.optional
widen_task_support Neutral.required = Wire.required

abbrev pub execution_of : Neutral.TaskSupport → Wire.ToolExecution
execution_of ts = record { task_support = some (widen_task_support ts) }

module _ (S : Serde) where
  open S use {json}
  open json use {Value}

  unfoldable pub widen_annotations : Neutral.Annotations S → Wire.Annotations S
  unfolding widen_role
  widen_annotations a = record {
    audience = map widen_role a.audience;
    last_modified = a.last_modified;
    priority = a.priority;
  }

  unfoldable pub widen_embedded : Neutral.ResourceContents S → Wire.EmbeddedResourceResource S
  widen_embedded (Neutral.text_contents uri mime_type text meta) =
      Wire.text_resource (record { meta = meta; mime_type = mime_type; text = text; uri = uri })
  widen_embedded (Neutral.blob_contents uri mime_type blob meta) =
      Wire.blob_resource (record { blob = blob; meta = meta; mime_type = mime_type; uri = uri })

  unfoldable pub widen_contents : Neutral.ResourceContents S → Wire.ReadResourceResultContentsItem S
  widen_contents (Neutral.text_contents uri mime_type text meta) =
      Wire.text_item (record { meta = meta; mime_type = mime_type; text = text; uri = uri })
  widen_contents (Neutral.blob_contents uri mime_type blob meta) =
      Wire.blob_item (record { blob = blob; meta = meta; mime_type = mime_type; uri = uri })

  abbrev pub link_of : Neutral.Resource S → Wire.ResourceLink S
  link_of r = record {
    annotations = Option.map widen_annotations r.annotations;
    description = r.description;
    icons = map widen_icon r.icons;
    meta = r.meta;
    mime_type = r.mime_type;
    name = r.name;
    size = Option.map i64_of_u64 r.size;
    title = r.title;
    type_name = "resource_link";
    uri = r.uri;
  }

  unfoldable pub widen_content : Neutral.Content S → Wire.ContentBlock S
  unfolding widen_annotations widen_embedded widen_icon
  widen_content (Neutral.text text annotations meta) = Wire.text_content (record {
    annotations = Option.map widen_annotations annotations;
    meta = meta;
    text = text;
    type_name = "text";
  })
  widen_content (Neutral.image payload mime_type annotations meta) = Wire.image_content (record {
    annotations = Option.map widen_annotations annotations;
    payload = payload;
    meta = meta;
    mime_type = mime_type;
    type_name = "image";
  })
  widen_content (Neutral.audio payload mime_type annotations meta) = Wire.audio_content (record {
    annotations = Option.map widen_annotations annotations;
    payload = payload;
    meta = meta;
    mime_type = mime_type;
    type_name = "audio";
  })
  widen_content (Neutral.resource contents annotations meta) = Wire.embedded_resource (record {
    annotations = Option.map widen_annotations annotations;
    meta = meta;
    resource = widen_embedded contents;
    type_name = "resource";
  })
  widen_content (Neutral.resource_link r) = Wire.resource_link (link_of r)

  unfoldable pub widen_resource : Neutral.Resource S → Wire.Resource S
  unfolding widen_annotations widen_icon
  widen_resource r = record {
    annotations = Option.map widen_annotations r.annotations;
    description = r.description;
    icons = map widen_icon r.icons;
    meta = r.meta;
    mime_type = r.mime_type;
    name = r.name;
    size = Option.map i64_of_u64 r.size;
    title = r.title;
    uri = r.uri;
  }

  unfoldable pub widen_resource_template : Neutral.ResourceTemplate S → Wire.ResourceTemplate S
  unfolding widen_annotations widen_icon
  widen_resource_template t = record {
    annotations = Option.map widen_annotations t.annotations;
    description = t.description;
    icons = map widen_icon t.icons;
    meta = t.meta;
    mime_type = t.mime_type;
    name = t.name;
    title = t.title;
    uri_template = t.uri_template;
  }

  unfoldable pub widen_prompt : Neutral.Prompt S → Wire.Prompt S
  unfolding widen_prompt_argument widen_icon
  widen_prompt p = record {
    arguments = map widen_prompt_argument p.arguments;
    description = p.description;
    icons = map widen_icon p.icons;
    meta = p.meta;
    name = p.name;
    title = p.title;
  }

  unfoldable pub widen_prompt_message : Neutral.PromptMessage S → Wire.PromptMessage S
  unfolding widen_content widen_role
  widen_prompt_message m = record { content = widen_content m.content; role = widen_role m.role }

  -- The legacy wire has room for an object only.
  abbrev pub object_of : Option Value → json.Object
  object_of none = json.empty
  object_of (some v) = Option.get_or (json.as_object v) json.empty

  unfoldable pub widen_call_tool : Neutral.CallToolResult S → Wire.CallToolResult S
  unfolding widen_content
  widen_call_tool r = record {
    meta = json.empty;
    content = map widen_content r.content;
    is_error = some r.is_error;
    structured_content = object_of r.structured_content;
  }

  unfoldable pub widen_list_resources : Neutral.ListResourcesResult S → Wire.ListResourcesResult S
  unfolding widen_resource
  widen_list_resources r = record {
    meta = json.empty;
    next_cursor = r.next_cursor;
    resources = map widen_resource r.resources;
  }

  unfoldable pub widen_read_resource : Neutral.ReadResourceResult S → Wire.ReadResourceResult S
  unfolding widen_contents
  widen_read_resource r = record { meta = json.empty; contents = map widen_contents r.contents }

  unfoldable pub widen_list_resource_templates :
      Neutral.ListResourceTemplatesResult S → Wire.ListResourceTemplatesResult S
  unfolding widen_resource_template
  widen_list_resource_templates r = record {
    meta = json.empty;
    next_cursor = r.next_cursor;
    resource_templates = map widen_resource_template r.resource_templates;
  }

  unfoldable pub widen_list_prompts : Neutral.ListPromptsResult S → Wire.ListPromptsResult S
  unfolding widen_prompt
  widen_list_prompts r = record {
    meta = json.empty;
    next_cursor = r.next_cursor;
    prompts = map widen_prompt r.prompts;
  }

  unfoldable pub widen_get_prompt : Neutral.GetPromptResult S → Wire.GetPromptResult S
  unfolding widen_prompt_message
  widen_get_prompt r = record {
    meta = json.empty;
    description = r.description;
    messages = map widen_prompt_message r.messages;
  }

  unfoldable pub widen_complete : Neutral.CompleteResult → Wire.CompleteResult S
  widen_complete r = record {
    completion = record {
      has_more = r.has_more;
      total = Option.map pos r.total;
      values = r.values;
    };
    meta = json.empty;
  }

  -- `serde_json::from_value` of a schema; the derives of serde give it.
  module _ (input_from : Value → Option (Wire.ToolInputSchema S))
      (output_from : Value → Option (Wire.ToolOutputSchema S)) where
    abbrev pub fallback_schema : Wire.ToolInputSchema S
    fallback_schema = record {
      properties = [];
      required = [];
      schema = none;
      type_name = "object";
      extra = json.empty;
    }

    unfoldable pub widen_tool : Neutral.Tool S → Wire.Tool S
    unfolding widen_tool_annotations widen_icon
    widen_tool t = record {
      annotations = Option.map widen_tool_annotations t.annotations;
      description = t.description;
      execution = Option.map execution_of t.task_support;
      icons = map widen_icon t.icons;
      input_schema = Option.get_or (input_from t.input_schema) fallback_schema;
      meta = t.meta;
      name = t.name;
      output_schema = t.output_schema >>= output_from;
      title = t.title;
    }

    unfoldable pub widen_list_tools : Neutral.ListToolsResult S → Wire.ListToolsResult S
    unfolding widen_tool
    widen_list_tools r = record {
      meta = json.empty;
      next_cursor = r.next_cursor;
      tools = map widen_tool r.tools;
    }
