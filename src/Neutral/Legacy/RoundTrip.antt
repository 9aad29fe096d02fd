-- ===== src/Neutral/Legacy/RoundTrip.antt =====
-- What a client sees of what a handler returned, over the 2025-11-25 wire.
use mathlib.Core.Option
use turbomcp.Prelude.{
  ℕ, ◌≡◌, refl, ap, Option, none, some, String, List, map, if◌then◌else◌, Option-cases, inl, inr,
}
use turbomcp.Prelude.Int.{pos}
use turbomcp.Core.Json.{◌>>=◌, is_empty_object}
use turbomcp.Neutral.Serde.{Serde}
use turbomcp.Neutral.Convert.{
  i64_of_u64, u64_of_i64, clamped, capped, u32_of_i64, u32_of_i64-pos, u64_of_i64-i64_of_u64,
  map-inverse, option-inverse, map-through, map-through_received, option-through,
}
use turbomcp.Neutral.Types as Neutral
use turbomcp.Neutral.Kept.{
  kept_resource, kept_content, kind_tag, kept_message, kept_call_tool, kept_get_prompt,
  kept_list_resources,
}
use turbomcp.Neutral.Legacy.Wire as Wire
use turbomcp.Neutral.Legacy.Received.{
  received_content, received_message, received_call_tool, received_get_prompt,
}
use turbomcp.Neutral.Legacy.Widen.{
  widen_role, widen_theme, widen_icon, widen_tool_annotations, widen_prompt_argument,
  widen_annotations, widen_embedded, widen_contents, widen_content, widen_resource,
  widen_resource_template, widen_prompt, widen_prompt_message, widen_call_tool,
  widen_list_resources, widen_read_resource, widen_list_resource_templates, widen_list_prompts,
  widen_get_prompt, widen_complete, widen_tool, widen_list_tools, fallback_schema,
  widen_task_support, execution_of, object_of,
}
use turbomcp.Neutral.Legacy.Narrow.{
  narrow_role, narrow_theme, narrow_icon, narrow_tool_annotations, narrow_prompt_argument,
  narrow_annotations, narrow_embedded, narrow_contents, narrow_content, narrow_resource,
  narrow_resource_template, narrow_prompt, narrow_prompt_message, narrow_call_tool,
  narrow_list_resources, narrow_read_resource, narrow_list_resource_templates, narrow_list_prompts,
  narrow_get_prompt, narrow_complete, narrow_task_support, structured, narrow_tool,
  narrow_list_tools,
}

narrow-widen_role : (r : Neutral.Role) → narrow_role (widen_role r) ≡ r
unfolding narrow_role widen_role
narrow-widen_role Neutral.user = refl
narrow-widen_role Neutral.assistant = refl

narrow-widen_theme : (t : Neutral.IconTheme) → narrow_theme (widen_theme t) ≡ t
narrow-widen_theme Neutral.light = refl
narrow-widen_theme Neutral.dark = refl

pub narrow-widen_icon : (i : Neutral.Icon) → narrow_icon (widen_icon i) ≡ i
unfolding narrow_icon widen_icon
narrow-widen_icon i =
    ap (λ t. record i { theme = t })
      (option-inverse narrow_theme widen_theme narrow-widen_theme i.theme)

icons_kept : (is : List Neutral.Icon) → map narrow_icon (map widen_icon is) ≡ is
icons_kept = map-inverse narrow_icon widen_icon narrow-widen_icon

sizes_kept : (o : Option ℕ) → Option.map u64_of_i64 (Option.map i64_of_u64 o) ≡ Option.map clamped o
sizes_kept = option-through u64_of_i64 i64_of_u64 clamped u64_of_i64-i64_of_u64

narrow-widen_tool_annotations :
    (a : Neutral.ToolAnnotations) → narrow_tool_annotations (widen_tool_annotations a) ≡ a
unfolding narrow_tool_annotations widen_tool_annotations
narrow-widen_tool_annotations a = refl

narrow-widen_prompt_argument :
    (a : Neutral.PromptArgument) → narrow_prompt_argument (widen_prompt_argument a) ≡ a
unfolding narrow_prompt_argument widen_prompt_argument
narrow-widen_prompt_argument a = refl

arguments_kept :
    (as' : List Neutral.PromptArgument)
    → map narrow_prompt_argument (map widen_prompt_argument as') ≡ as'
arguments_kept =
    map-inverse narrow_prompt_argument widen_prompt_argument narrow-widen_prompt_argument

support_kept :
    (o : Option Neutral.TaskSupport)
    → Option.map narrow_task_support (Option.map execution_of o >>= λ e. e.task_support) ≡ o
unfolding narrow_task_support widen_task_support
support_kept none = refl
support_kept (some Neutral.forbidden) = refl
support_kept (some Neutral.optional) = refl
support_kept (some Neutral.required) = refl

totals_kept : (o : Option ℕ) → Option.map u32_of_i64 (Option.map pos o) ≡ Option.map capped o
totals_kept = option-through u32_of_i64 pos capped u32_of_i64-pos

module _ (S : Serde) where
  -- The `type` of a content block on the wire.
  abbrev pub block_tag : Wire.ContentBlock S → String
  block_tag (Wire.text_content t) = t.type_name
  block_tag (Wire.image_content i) = i.type_name
  block_tag (Wire.audio_content a) = a.type_name
  block_tag (Wire.resource_link l) = l.type_name
  block_tag (Wire.embedded_resource e) = e.type_name

  pub narrow-widen_annotations :
      (a : Neutral.Annotations S) → narrow_annotations S (widen_annotations S a) ≡ a
  unfolding narrow_annotations widen_annotations
  narrow-widen_annotations a =
      ap (λ l. record a { audience = l })
        (map-inverse narrow_role widen_role narrow-widen_role a.audience)

  annotations_kept :
      (o : Option (Neutral.Annotations S))
      → Option.map (narrow_annotations S) (Option.map (widen_annotations S) o) ≡ o
  annotations_kept =
      option-inverse (narrow_annotations S) (widen_annotations S) narrow-widen_annotations

  narrow-widen_embedded :
      (c : Neutral.ResourceContents S) → narrow_embedded S (widen_embedded S c) ≡ c
  unfolding narrow_embedded widen_embedded
  narrow-widen_embedded (Neutral.text_contents u t c m) = refl
  narrow-widen_embedded (Neutral.blob_contents u t c m) = refl

  narrow-widen_contents :
      (c : Neutral.ResourceContents S) → narrow_contents S (widen_contents S c) ≡ c
  unfolding narrow_contents widen_contents
  narrow-widen_contents (Neutral.text_contents u t c m) = refl
  narrow-widen_contents (Neutral.blob_contents u t c m) = refl

  pub narrow-widen_resource :
      (r : Neutral.Resource S) → narrow_resource S (widen_resource S r) ≡ kept_resource S r
  unfolding narrow_resource widen_resource
  narrow-widen_resource r =
      rw (sizes_kept r.size, annotations_kept r.annotations, icons_kept r.icons) refl

  pub narrow-widen_content :
      (c : Neutral.Content S)
      → narrow_content S (received_content S (widen_content S c)) ≡ kept_content S c
  unfolding narrow_content widen_content received_content
  narrow-widen_content (Neutral.text t a m) = rw (annotations_kept a) refl
  narrow-widen_content (Neutral.image p t a m) = rw (annotations_kept a) refl
  narrow-widen_content (Neutral.audio p t a m) = rw (annotations_kept a) refl
  narrow-widen_content (Neutral.resource c a m) =
      rw (narrow-widen_embedded c, annotations_kept a) refl
  narrow-widen_content (Neutral.resource_link r) =
      rw (sizes_kept r.size, annotations_kept r.annotations, icons_kept r.icons) refl

  pub narrow-widen_resource_template :
      (t : Neutral.ResourceTemplate S)
      → narrow_resource_template S (widen_resource_template S t) ≡ t
  unfolding narrow_resource_template widen_resource_template
  narrow-widen_resource_template t = rw (annotations_kept t.annotations, icons_kept t.icons) refl

  pub narrow-widen_prompt : (p : Neutral.Prompt S) → narrow_prompt S (widen_prompt S p) ≡ p
  unfolding narrow_prompt widen_prompt
  narrow-widen_prompt p = rw (arguments_kept p.arguments, icons_kept p.icons) refl

  narrow-widen_prompt_message :
      (m : Neutral.PromptMessage S)
      → narrow_prompt_message S (received_message S (widen_prompt_message S m)) ≡ kept_message S m
  unfolding narrow_prompt_message widen_prompt_message received_message
  narrow-widen_prompt_message m = rw (narrow-widen_role m.role, narrow-widen_content m.content) refl

  -- The structured content that the legacy wire carries: an object with entries.
  abbrev pub filled : Option S.json.Object → Option S.json.Value
  filled none = none
  filled (some o) = if is_empty_object S.json o then none else some (S.json.object o)

  abbrev pub filled_object : Option S.json.Value → Option S.json.Value
  filled_object none = none
  filled_object (some v) = filled (S.json.as_object v)

  structured_kept : (o : Option S.json.Value) → structured S (object_of S o) ≡ filled_object o
  structured_kept none = rw S.empty_is_empty refl
  structured_kept (some v) = elim (Option-cases (S.json.as_object v)) [
    | inl e ↦ rw (e, S.empty_is_empty) refl
    | inr (o, e) ↦ rw e refl
  ]

  pub narrow-widen_get_prompt :
      (g : Neutral.GetPromptResult S)
      → narrow_get_prompt S (received_get_prompt S (widen_get_prompt S g)) ≡ kept_get_prompt S g
  unfolding narrow_get_prompt widen_get_prompt received_get_prompt
  narrow-widen_get_prompt g =
      ap (λ l. record g { messages = l })
        (map-through_received (narrow_prompt_message S) (widen_prompt_message S) (kept_message S)
          (received_message S) narrow-widen_prompt_message g.messages)

  pub narrow-widen_complete :
      (k : Neutral.CompleteResult)
      → narrow_complete S (widen_complete S k) ≡ record k { total = Option.map capped k.total }
  unfolding narrow_complete widen_complete
  narrow-widen_complete k = ap (λ t. record k { total = t }) (totals_kept k.total)

  block_tag-widen_content : (c : Neutral.Content S) → block_tag (widen_content S c) ≡ kind_tag S c
  unfolding widen_content
  block_tag-widen_content (Neutral.text t a m) = refl
  block_tag-widen_content (Neutral.image p t a m) = refl
  block_tag-widen_content (Neutral.audio p t a m) = refl
  block_tag-widen_content (Neutral.resource c a m) = refl
  block_tag-widen_content (Neutral.resource_link r) = refl

  tags_kept :
      (cs : List (Neutral.Content S))
      → map block_tag (map (widen_content S) cs) ≡ map (kind_tag S) cs
  tags_kept = map-through block_tag (widen_content S) (kind_tag S) block_tag-widen_content

  message_tags_kept :
      (ms : List (Neutral.PromptMessage S))
      → map (λ m. block_tag m.content) (map (widen_prompt_message S) ms)
        ≡ map (λ m. kind_tag S m.content) ms
  unfolding widen_prompt_message
  message_tags_kept =
      map-through (λ m. block_tag m.content) (widen_prompt_message S) (λ m. kind_tag S m.content)
        (λ m. block_tag-widen_content m.content)

  module _ (input_from : S.json.Value → Option (Wire.ToolInputSchema S))
      (output_from : S.json.Value → Option (Wire.ToolOutputSchema S))
      (input_value : Wire.ToolInputSchema S → Option S.json.Value)
      (output_value : Wire.ToolOutputSchema S → Option S.json.Value) where
    -- What becomes of a schema on its way through the typed wire schema.
    abbrev pub input_schema_through : S.json.Value → S.json.Value
    input_schema_through v =
        Option.get_or
          (input_value (Option.get_or (input_from v) (fallback_schema S input_from output_from)))
          (S.json.object S.json.empty)

    abbrev pub output_schema_through : Option S.json.Value → Option S.json.Value
    output_schema_through o = (o >>= output_from) >>= output_value

    abbrev pub tool_through : Neutral.Tool S → Neutral.Tool S
    tool_through t = record t {
      input_schema = input_schema_through t.input_schema;
      output_schema = output_schema_through t.output_schema;
    }

    narrow-widen_tool :
        (t : Neutral.Tool S)
        → narrow_tool S input_value output_value (widen_tool S input_from output_from t)
          ≡ tool_through t
    unfolding narrow_tool widen_tool
    narrow-widen_tool t =
        rw
          (
            option-inverse narrow_tool_annotations widen_tool_annotations
                narrow-widen_tool_annotations t.annotations,
            icons_kept t.icons,
            support_kept t.task_support,
          )
          refl

    -- Every result that a handler returns, widened to the 2025-11-25 wire, and narrowed by a client
    -- whose decoding picks the variants of the content blocks, is as the handler returned it, but for
    -- these: an audio block of a tool call or of a prompt is an image, a resource's size is cut to 63
    -- bits and a completion's total to 32, every cache policy is gone, a tool's schemas went through
    -- the typed schemas of the wire, and structured content is gone unless it is an object with
    -- entries. On the wire, every block of a tool call and of a prompt has the `type` of its kind.
    pub narrow-widen_legacy_results :
        (tools : Neutral.ListToolsResult S) (call : Neutral.CallToolResult S)
        (resources : Neutral.ListResourcesResult S) (read : Neutral.ReadResourceResult S)
        (templates : Neutral.ListResourceTemplatesResult S) (prompts : Neutral.ListPromptsResult S)
        (prompt : Neutral.GetPromptResult S) (completion : Neutral.CompleteResult)
        → (narrow_list_tools S input_value output_value
              (widen_list_tools S input_from output_from tools)
            ≡ record tools { tools = map tool_through tools.tools; cache = none })
          × (narrow_call_tool S (received_call_tool S (widen_call_tool S call))
              ≡ record (kept_call_tool S call) {
                structured_content = filled_object call.structured_content;
              })
          × (narrow_list_resources S (widen_list_resources S resources)
              ≡ record (kept_list_resources S resources) { cache = none })
          × (narrow_read_resource S (widen_read_resource S read) ≡ record read { cache = none })
          × (narrow_list_resource_templates S (widen_list_resource_templates S templates)
              ≡ record templates { cache = none })
          × (narrow_list_prompts S (widen_list_prompts S prompts) ≡ record prompts { cache = none })
          × (narrow_get_prompt S (received_get_prompt S (widen_get_prompt S prompt))
              ≡ kept_get_prompt S prompt)
          × (narrow_complete S (widen_complete S completion)
              ≡ record completion { total = Option.map capped completion.total })
          × (map block_tag (widen_call_tool S call).content ≡ map (kind_tag S) call.content)
          × (map (λ m. block_tag m.content) (widen_get_prompt S prompt).messages
              ≡ map (λ m. kind_tag S m.content) prompt.messages)
    unfolding received_call_tool widen_get_prompt widen_complete narrow_list_tools widen_list_tools
        narrow_call_tool widen_call_tool narrow_list_resources widen_list_resources
        narrow_read_resource widen_read_resource narrow_list_resource_templates
        widen_list_resource_templates narrow_list_prompts widen_list_prompts
    narrow-widen_legacy_results tools call resources read templates prompts prompt completion = (
      rw
          (map-through (narrow_tool S input_value output_value)
            (widen_tool S input_from output_from) tool_through narrow-widen_tool tools.tools)
          refl,
      rw
          (
            map-through_received (narrow_content S) (widen_content S) (kept_content S)
                (received_content S) narrow-widen_content call.content,
            structured_kept call.structured_content,
          )
          refl,
      rw
          (map-through (narrow_resource S) (widen_resource S) (kept_resource S)
            narrow-widen_resource resources.resources)
          refl,
      rw (map-inverse (narrow_contents S) (widen_contents S) narrow-widen_contents read.contents)
          refl,
      rw
          (map-inverse (narrow_resource_template S) (widen_resource_template S)
            narrow-widen_resource_template templates.resource_templates)
          refl,
      rw (map-inverse (narrow_prompt S) (widen_prompt S) narrow-widen_prompt prompts.prompts) refl,
      narrow-widen_get_prompt prompt,
      narrow-widen_complete completion,
      tags_kept call.content,
      message_tags_kept prompt.messages,
    )
