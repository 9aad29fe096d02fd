-- ===== src/Neutral/Legacy/Narrow.antt =====
-- crates/turbomcp-protocol/src/neutral.rs: from the wire types of protocol version
-- 2025-11-25 to what a client's caller sees.
use mathlib.Core.Option
use turbomcp.Prelude.{Option, none, some, map, if◌then◌else◌}
use turbomcp.Core.Json.{◌>>=◌, is_empty_object}
use turbomcp.Neutral.Serde.{Serde}
use turbomcp.Neutral.Convert.{u64_of_i64, u32_of_i64, or_false}
use turbomcp.Neutral.Types as Neutral
use turbomcp.Neutral.Legacy.Wire as Wire

unfoldable pub narrow_role : Wire.Role → Neutral.Role
narrow_role Wire.user = Neutral.user
narrow_role Wire.assistant = Neutral.assistant

abbrev pub narrow_theme : Wire.IconTheme → Neutral.IconTheme
narrow_theme Wire.light = Neutral.light
narrow_theme Wire.dark = Neutral.dark

unfoldable pub narrow_icon : Wire.Icon → Neutral.Icon
narrow_icon i = record {
  src = i.src;
  mime_type = i.mime_type;
  sizes = i.sizes;
  theme = Option.map narrow_theme i.theme;
}

unfoldable pub narrow_tool_annotations : Wire.ToolAnnotations → Neutral.ToolAnnotations
narrow_tool_annotations a = record {
  title = a.title;
  read_only_hint = a.read_only_hint;
  destructive_hint = a.destructive_hint;
  idempotent_hint = a.idempotent_hint;
  open_world_hint = a.open_world_hint;
}

unfoldable pub narrow_prompt_argument : Wire.PromptArgument → Neutral.PromptArgument
narrow_prompt_argument a = record {
  name = a.name;
  title = a.title;
  description = a.description;
  required = or_false a.required;
}

unfoldable pub narrow_task_support : Wire.ToolExecutionTaskSupport → Neutral.TaskSupport
narrow_task_support Wire.forbidden = Neutral.forbidden
narrow_task_support Wire.optional = Neutral.optional
narrow_task_support Wire.required = Neutral.required

module _ (S : Serde) where
  open S use {json}
  open json use {Value}

  unfoldable pub narrow_annotations : Wire.Annotations S → Neutral.Annotations S
  unfolding narrow_role
  narrow_annotations a = record {
    audience = map narrow_role a.audience;
    priority = a.priority;
    last_modified = a.last_modified;
  }

  unfoldable pub narrow_embedded : Wire.EmbeddedResourceResource S → Neutral.ResourceContents S
  narrow_embedded (Wire.text_resource t) = Neutral.text_contents t.uri t.mime_type t.text t.meta
  narrow_embedded (Wire.blob_resource b) = Neutral.blob_contents b.uri b.mime_type b.blob b.meta

  unfoldable pub narrow_contents :
      Wire.ReadResourceResultContentsItem S → Neutral.ResourceContents S
  narrow_contents (Wire.text_item t) = Neutral.text_contents t.uri t.mime_type t.text t.meta
  narrow_contents (Wire.blob_item b) = Neutral.blob_contents b.uri b.mime_type b.blob b.meta

  unfoldable pub narrow_resource_link : Wire.ResourceLink S → Neutral.Resource S
  unfolding narrow_annotations narrow_icon
  narrow_resource_link l = record {
    uri = l.uri;
    name = l.name;
    title = l.title;
    description = l.description;
    mime_type = l.mime_type;
    size = Option.map u64_of_i64 l.size;
    annotations = Option.map narrow_annotations l.annotations;
    icons = map narrow_icon l.icons;
    meta = l.meta;
  }

  unfoldable pub narrow_content : Wire.ContentBlock S → Neutral.Content S
  unfolding narrow_annotations narrow_embedded narrow_resource_link
  narrow_content (Wire.text_content t) =
      Neutral.text t.text (Option.map narrow_annotations t.annotations) t.meta
  narrow_content (Wire.image_content i) =
      Neutral.image i.payload i.mime_type (Option.map narrow_annotations i.annotations) i.meta
  narrow_content (Wire.audio_content a) =
      Neutral.audio a.payload a.mime_type (Option.map narrow_annotations a.annotations) a.meta
  narrow_content (Wire.embedded_resource e) =
      Neutral.resource (narrow_embedded e.resource) (Option.map narrow_annotations e.annotations)
        e.meta
  narrow_content (Wire.resource_link l) = Neutral.resource_link (narrow_resource_link l)

  unfoldable pub narrow_resource : Wire.Resource S → Neutral.Resource S
  unfolding narrow_annotations narrow_icon
  narrow_resource r = record {
    uri = r.uri;
    name = r.name;
    title = r.title;
    description = r.description;
    mime_type = r.mime_type;
    size = Option.map u64_of_i64 r.size;
    annotations = Option.map narrow_annotations r.annotations;
    icons = map narrow_icon r.icons;
    meta = r.meta;
  }

  unfoldable pub narrow_resource_template : Wire.ResourceTemplate S → Neutral.ResourceTemplate S
  unfolding narrow_annotations narrow_icon
  narrow_resource_template t = record {
    uri_template = t.uri_template;
    name = t.name;
    title = t.title;
    description = t.description;
    mime_type = t.mime_type;
    annotations = Option.map narrow_annotations t.annotations;
    icons = map narrow_icon t.icons;
    meta = t.meta;
  }

  unfoldable pub narrow_prompt : Wire.Prompt S → Neutral.Prompt S
  unfolding narrow_prompt_argument narrow_icon
  narrow_prompt p = record {
    name = p.name;
    title = p.title;
    description = p.description;
    arguments = map narrow_prompt_argument p.arguments;
    icons = map narrow_icon p.icons;
    meta = p.meta;
  }

  unfoldable pub narrow_prompt_message : Wire.PromptMessage S → Neutral.PromptMessage S
  unfolding narrow_content narrow_role
  narrow_prompt_message m = record { role = narrow_role m.role; content = narrow_content m.content }

  abbrev pub structured : json.Object → Option Value
  structured o = if is_empty_object json o then none else some (json.object o)

  unfoldable pub narrow_call_tool : Wire.CallToolResult S → Neutral.CallToolResult S
  unfolding narrow_content
  narrow_call_tool r = record {
    content = map narrow_content r.content;
    is_error = or_false r.is_error;
    structured_content = structured r.structured_content;
  }

  unfoldable pub narrow_list_resources : Wire.ListResourcesResult S → Neutral.ListResourcesResult S
  unfolding narrow_resource
  narrow_list_resources r = record {
    resources = map narrow_resource r.resources;
    next_cursor = r.next_cursor;
    cache = none;
  }

  unfoldable pub narrow_read_resource : Wire.ReadResourceResult S → Neutral.ReadResourceResult S
  unfolding narrow_contents
  narrow_read_resource r = record { contents = map narrow_contents r.contents; cache = none }

  unfoldable pub narrow_list_resource_templates :
      Wire.ListResourceTemplatesResult S → Neutral.ListResourceTemplatesResult S
  unfolding narrow_resource_template
  narrow_list_resource_templates r = record {
    resource_templates = map narrow_resource_template r.resource_templates;
    next_cursor = r.next_cursor;
    cache = none;
  }

  unfoldable pub narrow_list_prompts : Wire.ListPromptsResult S → Neutral.ListPromptsResult S
  unfolding narrow_prompt
  narrow_list_prompts r = record {
    prompts = map narrow_prompt r.prompts;
    next_cursor = r.next_cursor;
    cache = none;
  }

  unfoldable pub narrow_get_prompt : Wire.GetPromptResult S → Neutral.GetPromptResult S
  unfolding narrow_prompt_message
  narrow_get_prompt r = record {
    description = r.description;
    messages = map narrow_prompt_message r.messages;
  }

  unfoldable pub narrow_complete : Wire.CompleteResult S → Neutral.CompleteResult
  narrow_complete r = record {
    values = r.completion.values;
    total = Option.map u32_of_i64 r.completion.total;
    has_more = r.completion.has_more;
  }

  -- `serde_json::to_value` of a schema, where it succeeds; the derives of serde give it.
  module _ (input_value : Wire.ToolInputSchema S → Option Value)
      (output_value : Wire.ToolOutputSchema S → Option Value) where
    unfoldable pub narrow_tool : Wire.Tool S → Neutral.Tool S
    unfolding narrow_tool_annotations narrow_icon
    narrow_tool t = record {
      name = t.name;
      title = t.title;
      description = t.description;
      input_schema = Option.get_or (input_value t.input_schema) (json.object json.empty);
      output_schema = t.output_schema >>= output_value;
      task_support = Option.map narrow_task_support (t.execution >>= λ e. e.task_support);
      annotations = Option.map narrow_tool_annotations t.annotations;
      icons = map narrow_icon t.icons;
      meta = t.meta;
    }

    unfoldable pub narrow_list_tools : Wire.ListToolsResult S → Neutral.ListToolsResult S
    unfolding narrow_tool
    narrow_list_tools r = record {
      tools = map narrow_tool r.tools;
      next_cursor = r.next_cursor;
      cache = none;
    }
