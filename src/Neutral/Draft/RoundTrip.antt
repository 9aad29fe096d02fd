-- ===== src/Neutral/Draft/RoundTrip.antt =====
-- What a client sees of what a handler returned, over the 2026-07-28 wire.
use mathlib.Core.Option
use turbomcp.Prelude.{ℕ, ◌≡◌, refl, ap, Option, none, some, String, [], ◌∷◌, List, map}
use turbomcp.Prelude.Int.{pos}
use turbomcp.Core.Json.{◌>>=◌}
use turbomcp.Neutral.Serde.{Serde}
use turbomcp.Neutral.Convert.{
  i64_of_u64, u64_of_i64, clamped, capped, u32_of_i64, u32_of_i64-pos, u64_of_i64-i64_of_u64,
  or_default-some_if_filled, map-inverse, option-inverse, map-through, map-through_received,
  option-through,
}
use turbomcp.Neutral.Types as Neutral
use turbomcp.Neutral.Kept.{
  kept_resource, kept_content, kind_tag, kept_cache, kept_value, kept_message, kept_call_tool,
  kept_get_prompt, kept_list_resources,
}
use turbomcp.Neutral.Draft.Wire as Wire
use turbomcp.Neutral.Draft.Received.{
  received_content, received_message, received_value, received_call_tool, received_get_prompt,
}
use turbomcp.Neutral.Draft.Widen.{
  widen_role, widen_theme, widen_icon, widen_tool_annotations, widen_prompt_argument,
  widen_annotations, widen_embedded, widen_contents, widen_content, widen_resource,
  widen_resource_template, widen_prompt, widen_prompt_message, widen_call_tool,
  widen_list_resources, widen_read_resource, widen_list_resource_templates, widen_list_prompts,
  widen_get_prompt, widen_complete, widen_tool, widen_list_tools, cache_or_default, fallback_schema,
  widen_list_tools_scope, widen_list_resources_scope, widen_list_resource_templates_scope,
  widen_list_prompts_scope, widen_read_resource_scope,
}
use turbomcp.Neutral.Draft.Narrow.{
  narrow_role, narrow_theme, narrow_icon, narrow_tool_annotations, narrow_prompt_argument,
  narrow_annotations, narrow_embedded, narrow_contents, narrow_content, narrow_resource,
  narrow_resource_template, narrow_prompt, narrow_prompt_message, narrow_call_tool,
  narrow_list_resources, narrow_read_resource, narrow_list_resource_templates, narrow_list_prompts,
  narrow_get_prompt, narrow_complete, narrow_tool, narrow_list_tools, narrow_list_tools_scope,
  narrow_list_resources_scope, narrow_list_resource_templates_scope, narrow_list_prompts_scope,
  narrow_read_resource_scope,
}

narrow-widen_role : (r : Neutral.Role) → narrow_role (widen_role r) ≡ r
unfolding narrow_role widen_role
narrow-widen_role Neutral.user = refl
narrow-widen_role Neutral.assistant = refl

narrow-widen_theme : (t : Neutral.IconTheme) → narrow_theme (widen_theme t) ≡ t
narrow-widen_theme Neutral.light = refl
narrow-widen_theme Neutral.dark = refl

pub narrow-widen_icon : (i : Neutral.Icon) → narrow_icon (widen_icon i) ≡ i
unfolding narrow_icon widen_icon
narrow-widen_icon i =
    ap (λ t. record i { theme = t })
      (option-inverse narrow_theme widen_theme narrow-widen_theme i.theme)

icons_kept : (is : List Neutral.Icon) → map narrow_icon (map widen_icon is) ≡ is
icons_kept = map-inverse narrow_icon widen_icon narrow-widen_icon

sizes_kept : (o : Option ℕ) → Option.map u64_of_i64 (Option.map i64_of_u64 o) ≡ Option.map clamped o
sizes_kept = option-through u64_of_i64 i64_of_u64 clamped u64_of_i64-i64_of_u64

narrow-widen_tool_annotations :
    (a : Neutral.ToolAnnotations) → narrow_tool_annotations (widen_tool_annotations a) ≡ a
unfolding narrow_tool_annotations widen_tool_annotations
narrow-widen_tool_annotations a = refl

narrow-widen_prompt_argument :
    (a : Neutral.PromptArgument) → narrow_prompt_argument (widen_prompt_argument a) ≡ a
unfolding narrow_prompt_argument widen_prompt_argument
narrow-widen_prompt_argument a = refl

list_tools_scope_kept :
    (c : Neutral.CacheScope) → narrow_list_tools_scope (widen_list_tools_scope c) ≡ c
list_tools_scope_kept Neutral.public_scope = refl
list_tools_scope_kept Neutral.private_scope = refl

list_resources_scope_kept :
    (c : Neutral.CacheScope) → narrow_list_resources_scope (widen_list_resources_scope c) ≡ c
list_resources_scope_kept Neutral.public_scope = refl
list_resources_scope_kept Neutral.private_scope = refl

list_resource_templates_scope_kept :
    (c : Neutral.CacheScope)
    → narrow_list_resource_templates_scope (widen_list_resource_templates_scope c) ≡ c
list_resource_templates_scope_kept Neutral.public_scope = refl
list_resource_templates_scope_kept Neutral.private_scope = refl

list_prompts_scope_kept :
    (c : Neutral.CacheScope) → narrow_list_prompts_scope (widen_list_prompts_scope c) ≡ c
list_prompts_scope_kept Neutral.public_scope = refl
list_prompts_scope_kept Neutral.private_scope = refl

read_resource_scope_kept :
    (c : Neutral.CacheScope) → narrow_read_resource_scope (widen_read_resource_scope c) ≡ c
read_resource_scope_kept Neutral.public_scope = refl
read_resource_scope_kept Neutral.private_scope = refl

arguments_kept :
    (as' : List Neutral.PromptArgument)
    → map narrow_prompt_argument (map widen_prompt_argument as') ≡ as'
arguments_kept =
    map-inverse narrow_prompt_argument widen_prompt_argument narrow-widen_prompt_argument

totals_kept : (o : Option ℕ) → Option.map u32_of_i64 (Option.map pos o) ≡ Option.map capped o
totals_kept = option-through u32_of_i64 pos capped u32_of_i64-pos

-- The `resultType` of a result that asks for nothing more.
abbrev pub complete : String
complete = "complete"

cache_kept : (c : Option Neutral.CachePolicy) → some (cache_or_default c) ≡ kept_cache c
cache_kept none = refl
cache_kept (some p) = refl

module _ (S : Serde) where
  -- The `type` of a content block on the wire.
  abbrev pub block_tag : Wire.ContentBlock S → String
  block_tag (Wire.text_content t) = t.type_name
  block_tag (Wire.image_content i) = i.type_name
  block_tag (Wire.audio_content a) = a.type_name
  block_tag (Wire.resource_link l) = l.type_name
  block_tag (Wire.embedded_resource e) = e.type_name

  pub narrow-widen_annotations :
      (a : Neutral.Annotations S) → narrow_annotations S (widen_annotations S a) ≡ a
  unfolding narrow_annotations widen_annotations
  narrow-widen_annotations a =
      ap (λ l. record a { audience = l })
        (map-inverse narrow_role widen_role narrow-widen_role a.audience)

  annotations_kept :
      (o : Option (Neutral.Annotations S))
      → Option.map (narrow_annotations S) (Option.map (widen_annotations S) o) ≡ o
  annotations_kept =
      option-inverse (narrow_annotations S) (widen_annotations S) narrow-widen_annotations

  narrow-widen_embedded :
      (c : Neutral.ResourceContents S) → narrow_embedded S (widen_embedded S c) ≡ c
  unfolding narrow_embedded widen_embedded
  narrow-widen_embedded (Neutral.text_contents u t c m) =
      ap (Neutral.text_contents u t c) (or_default-some_if_filled S m)
  narrow-widen_embedded (Neutral.blob_contents u t c m) =
      ap (Neutral.blob_contents u t c) (or_default-some_if_filled S m)

  narrow-widen_contents :
      (c : Neutral.ResourceContents S) → narrow_contents S (widen_contents S c) ≡ c
  unfolding narrow_contents widen_contents
  narrow-widen_contents (Neutral.text_contents u t c m) =
      ap (Neutral.text_contents u t c) (or_default-some_if_filled S m)
  narrow-widen_contents (Neutral.blob_contents u t c m) =
      ap (Neutral.blob_contents u t c) (or_default-some_if_filled S m)

  pub narrow-widen_resource :
      (r : Neutral.Resource S) → narrow_resource S (widen_resource S r) ≡ kept_resource S r
  unfolding narrow_resource widen_resource
  narrow-widen_resource r =
      rw
        (
          sizes_kept r.size,
          annotations_kept r.annotations,
          icons_kept r.icons,
          or_default-some_if_filled S r.meta,
        )
        refl

  pub narrow-widen_content :
      (c : Neutral.Content S)
      → narrow_content S (received_content S (widen_content S c)) ≡ kept_content S c
  unfolding narrow_content widen_content received_content
  narrow-widen_content (Neutral.text t a m) =
      rw (annotations_kept a, or_default-some_if_filled S m) refl
  narrow-widen_content (Neutral.image p t a m) =
      rw (annotations_kept a, or_default-some_if_filled S m) refl
  narrow-widen_content (Neutral.audio p t a m) =
      rw (annotations_kept a, or_default-some_if_filled S m) refl
  narrow-widen_content (Neutral.resource c a m) =
      rw (narrow-widen_embedded c, annotations_kept a, or_default-some_if_filled S m) refl
  narrow-widen_content (Neutral.resource_link r) =
      rw
        (
          sizes_kept r.size,
          annotations_kept r.annotations,
          icons_kept r.icons,
          or_default-some_if_filled S r.meta,
        )
        refl

  pub narrow-widen_resource_template :
      (t : Neutral.ResourceTemplate S)
      → narrow_resource_template S (widen_resource_template S t) ≡ t
  unfolding narrow_resource_template widen_resource_template
  narrow-widen_resource_template t =
      rw (annotations_kept t.annotations, icons_kept t.icons, or_default-some_if_filled S t.meta)
        refl

  pub narrow-widen_prompt : (p : Neutral.Prompt S) → narrow_prompt S (widen_prompt S p) ≡ p
  unfolding narrow_prompt widen_prompt
  narrow-widen_prompt p =
      rw (arguments_kept p.arguments, icons_kept p.icons, or_default-some_if_filled S p.meta) refl

  narrow-widen_prompt_message :
      (m : Neutral.PromptMessage S)
      → narrow_prompt_message S (received_message S (widen_prompt_message S m)) ≡ kept_message S m
  unfolding narrow_prompt_message widen_prompt_message received_message
  narrow-widen_prompt_message m = rw (narrow-widen_role m.role, narrow-widen_content m.content) refl

  pub narrow-widen_get_prompt :
      (g : Neutral.GetPromptResult S)
      → narrow_get_prompt S (received_get_prompt S (widen_get_prompt S g)) ≡ kept_get_prompt S g
  unfolding narrow_get_prompt widen_get_prompt received_get_prompt
  narrow-widen_get_prompt g =
      ap (λ l. record g { messages = l })
        (map-through_received (narrow_prompt_message S) (widen_prompt_message S) (kept_message S)
          (received_message S) narrow-widen_prompt_message g.messages)

  value_kept : (o : Option S.json.Value) → received_value S o ≡ kept_value S o
  unfolding received_value
  value_kept none = refl
  value_kept (some v) = refl

  pub narrow-widen_complete :
      (k : Neutral.CompleteResult)
      → narrow_complete S (widen_complete S k) ≡ record k { total = Option.map capped k.total }
  unfolding narrow_complete widen_complete
  narrow-widen_complete k = ap (λ t. record k { total = t }) (totals_kept k.total)

  block_tag-widen_content : (c : Neutral.Content S) → block_tag (widen_content S c) ≡ kind_tag S c
  unfolding widen_content
  block_tag-widen_content (Neutral.text t a m) = refl
  block_tag-widen_content (Neutral.image p t a m) = refl
  block_tag-widen_content (Neutral.audio p t a m) = refl
  block_tag-widen_content (Neutral.resource c a m) = refl
  block_tag-widen_content (Neutral.resource_link r) = refl

  tags_kept :
      (cs : List (Neutral.Content S))
      → map block_tag (map (widen_content S) cs) ≡ map (kind_tag S) cs
  tags_kept = map-through block_tag (widen_content S) (kind_tag S) block_tag-widen_content

  message_tags_kept :
      (ms : List (Neutral.PromptMessage S))
      → map (λ m. block_tag m.content) (map (widen_prompt_message S) ms)
        ≡ map (λ m. kind_tag S m.content) ms
  unfolding widen_prompt_message
  message_tags_kept =
      map-through (λ m. block_tag m.content) (widen_prompt_message S) (λ m. kind_tag S m.content)
        (λ m. block_tag-widen_content m.content)

  module _ (input_from : S.json.Value → Option (Wire.ToolInputSchema S))
      (output_from : S.json.Value → Option (Wire.ToolOutputSchema S))
      (input_value : Wire.ToolInputSchema S → Option S.json.Value)
      (output_value : Wire.ToolOutputSchema S → Option S.json.Value) where
    -- What becomes of a schema on its way through the typed wire schema.
    abbrev pub input_schema_through : S.json.Value → S.json.Value
    input_schema_through v =
        Option.get_or
          (input_value (Option.get_or (input_from v) (fallback_schema S input_from output_from)))
          (S.json.object S.json.empty)

    abbrev pub output_schema_through : Option S.json.Value → Option S.json.Value
    output_schema_through o = (o >>= output_from) >>= output_value

    abbrev pub tool_through : Neutral.Tool S → Neutral.Tool S
    tool_through t = record t {
      input_schema = input_schema_through t.input_schema;
      output_schema = output_schema_through t.output_schema;
      task_support = none;
    }

    narrow-widen_tool :
        (t : Neutral.Tool S)
        → narrow_tool S input_value output_value (widen_tool S input_from output_from t)
          ≡ tool_through t
    unfolding narrow_tool widen_tool
    narrow-widen_tool t =
        rw
          (
            option-inverse narrow_tool_annotations widen_tool_annotations
                narrow-widen_tool_annotations t.annotations,
            icons_kept t.icons,
            or_default-some_if_filled S t.meta,
          )
          refl

    -- Every result that a handler returns, widened to the 2026-07-28 wire, and narrowed by a client
    -- whose decoding picks the variants of the content blocks and reads null as none, is as the
    -- handler returned it, but for these: an audio block of a tool call or of a prompt is an image,
    -- structured content that is null is none, a resource's size is cut to 63 bits and a
    -- completion's total to 32, a cache policy that was left open is private and stale, a tool's
    -- schemas went through the typed schemas of the wire, and a tool's task support is gone. On the
    -- wire, every block of a tool call and of a prompt has the `type` of its kind, and every result
    -- is marked complete.
    pub narrow-widen_draft_results :
        (tools : Neutral.ListToolsResult S) (call : Neutral.CallToolResult S)
        (resources : Neutral.ListResourcesResult S) (read : Neutral.ReadResourceResult S)
        (templates : Neutral.ListResourceTemplatesResult S) (prompts : Neutral.ListPromptsResult S)
        (prompt : Neutral.GetPromptResult S) (completion : Neutral.CompleteResult)
        → (narrow_list_tools S input_value output_value
              (widen_list_tools S input_from output_from tools)
            ≡ record tools { tools = map tool_through tools.tools; cache = kept_cache tools.cache })
          × (narrow_call_tool S (received_call_tool S (widen_call_tool S call))
              ≡ kept_call_tool S call)
          × (narrow_list_resources S (widen_list_resources S resources)
              ≡ record (kept_list_resources S resources) { cache = kept_cache resources.cache })
          × (narrow_read_resource S (widen_read_resource S read)
              ≡ record read { cache = kept_cache read.cache })
          × (narrow_list_resource_templates S (widen_list_resource_templates S templates)
              ≡ record templates { cache = kept_cache templates.cache })
          × (narrow_list_prompts S (widen_list_prompts S prompts)
              ≡ record prompts { cache = kept_cache prompts.cache })
          × (narrow_get_prompt S (received_get_prompt S (widen_get_prompt S prompt))
              ≡ kept_get_prompt S prompt)
          × (narrow_complete S (widen_complete S completion)
              ≡ record completion { total = Option.map capped completion.total })
          × (map block_tag (widen_call_tool S call).content ≡ map (kind_tag S) call.content)
          × (map (λ m. block_tag m.content) (widen_get_prompt S prompt).messages
              ≡ map (λ m. kind_tag S m.content) prompt.messages)
          × (◌≡◌ {A = List String}
              ((widen_list_tools S input_from output_from tools).result_type
                ∷ (widen_call_tool S call).result_type
                ∷ (widen_list_resources S resources).result_type
                ∷ (widen_read_resource S read).result_type
                ∷ (widen_list_resource_templates S templates).result_type
                ∷ (widen_list_prompts S prompts).result_type
                ∷ (widen_get_prompt S prompt).result_type
                ∷ (widen_complete S completion).result_type
                ∷ [])
              (complete ∷ complete ∷ complete ∷ complete ∷ complete ∷ complete ∷ complete ∷ complete
                ∷ []))
    unfolding received_call_tool widen_get_prompt widen_complete narrow_list_tools widen_list_tools
        narrow_call_tool widen_call_tool narrow_list_resources widen_list_resources
        narrow_read_resource widen_read_resource narrow_list_resource_templates
        widen_list_resource_templates narrow_list_prompts widen_list_prompts
    narrow-widen_draft_results tools call resources read templates prompts prompt completion = (
      rw
          (
            map-through (narrow_tool S input_value output_value)
                (widen_tool S input_from output_from) tool_through narrow-widen_tool tools.tools,
            list_tools_scope_kept (cache_or_default tools.cache).scope,
            cache_kept tools.cache,
          )
          refl,
      rw
          (
            map-through_received (narrow_content S) (widen_content S) (kept_content S)
                (received_content S) narrow-widen_content call.content,
            value_kept call.structured_content,
          )
          refl,
      rw
          (
            map-through (narrow_resource S) (widen_resource S) (kept_resource S)
                narrow-widen_resource resources.resources,
            list_resources_scope_kept (cache_or_default resources.cache).scope,
            cache_kept resources.cache,
          )
          refl,
      rw
          (
            map-inverse (narrow_contents S) (widen_contents S) narrow-widen_contents read.contents,
            read_resource_scope_kept (cache_or_default read.cache).scope,
            cache_kept read.cache,
          )
          refl,
      rw
          (
            map-inverse (narrow_resource_template S) (widen_resource_template S)
                narrow-widen_resource_template templates.resource_templates,
            list_resource_templates_scope_kept (cache_or_default templates.cache).scope,
            cache_kept templates.cache,
          )
          refl,
      rw
          (
            map-inverse (narrow_prompt S) (widen_prompt S) narrow-widen_prompt prompts.prompts,
            list_prompts_scope_kept (cache_or_default prompts.cache).scope,
            cache_kept prompts.cache,
          )
          refl,
      narrow-widen_get_prompt prompt,
      narrow-widen_complete completion,
      tags_kept call.content,
      message_tags_kept prompt.messages,
      refl,
    )
