-- ===== src/Neutral/Agreement.antt =====
-- What a client sees does not depend on the protocol version, but for what only one wire carries.
use turbomcp.Prelude.{◌≡◌, ◌∙◌, ap, sym, refl, Option, none, some, map, Bool-cases, inl, inr}
use turbomcp.Neutral.Serde.{Serde}
use turbomcp.Neutral.Convert.{map-through}
use turbomcp.Neutral.Types as Neutral
use turbomcp.Neutral.Kept.{kept_value, kept_call_tool}
use turbomcp.Neutral.Draft.RoundTrip as DraftTrip
use turbomcp.Neutral.Legacy.RoundTrip as LegacyTrip
use turbomcp.Neutral.Draft.Wire as DraftWire
use turbomcp.Neutral.Draft.Widen as DraftWiden
use turbomcp.Neutral.Draft.Received as DraftReceived
use turbomcp.Neutral.Draft.Narrow as DraftNarrow
use turbomcp.Neutral.Legacy.Wire as LegacyWire
use turbomcp.Neutral.Legacy.Widen as LegacyWiden
use turbomcp.Neutral.Legacy.Received as LegacyReceived
use turbomcp.Neutral.Legacy.Narrow as LegacyNarrow

-- The typed schemas of both versions, read from and written to JSON values.
pub record Schemas (S : Serde) : Type 0 where
  pub draft_input_from : S.json.Value → Option (DraftWire.ToolInputSchema S)
  pub draft_output_from : S.json.Value → Option (DraftWire.ToolOutputSchema S)
  pub draft_input_value : DraftWire.ToolInputSchema S → Option S.json.Value
  pub draft_output_value : DraftWire.ToolOutputSchema S → Option S.json.Value
  pub legacy_input_from : S.json.Value → Option (LegacyWire.ToolInputSchema S)
  pub legacy_output_from : S.json.Value → Option (LegacyWire.ToolOutputSchema S)
  pub legacy_input_value : LegacyWire.ToolInputSchema S → Option S.json.Value
  pub legacy_output_value : LegacyWire.ToolOutputSchema S → Option S.json.Value

module _ (S : Serde) where
  abbrev pub draft_call : Neutral.CallToolResult S → Neutral.CallToolResult S
  draft_call c =
      DraftNarrow.narrow_call_tool S
        (DraftReceived.received_call_tool S (DraftWiden.widen_call_tool S c))

  abbrev pub legacy_call : Neutral.CallToolResult S → Neutral.CallToolResult S
  legacy_call c =
      LegacyNarrow.narrow_call_tool S
        (LegacyReceived.received_call_tool S (LegacyWiden.widen_call_tool S c))

  filled_object-kept_value :
      (o : Option S.json.Value)
      → LegacyTrip.filled_object S (kept_value S o) ≡ LegacyTrip.filled_object S o
  filled_object-kept_value none = refl
  filled_object-kept_value (some v) = elim (Bool-cases (S.is_null v)) [
    | inl e ↦ rw (e, S.null_no_object v e) refl
    | inr e ↦ rw e refl
  ]

  -- A tool without its schemas and its task support, and a list of them without its cache policy.
  abbrev pub bare_tool : Neutral.Tool S → Neutral.Tool S
  bare_tool t = record t { input_schema = S.json.null; output_schema = none; task_support = none }

  abbrev pub bare_tools : Neutral.ListToolsResult S → Neutral.ListToolsResult S
  bare_tools r = record r { tools = map bare_tool r.tools; cache = none }

  module _ (C : Schemas S) where
    abbrev pub draft_tools : Neutral.ListToolsResult S → Neutral.ListToolsResult S
    draft_tools r =
        DraftNarrow.narrow_list_tools S C.draft_input_value C.draft_output_value
          (DraftWiden.widen_list_tools S C.draft_input_from C.draft_output_from r)

    abbrev pub legacy_tools : Neutral.ListToolsResult S → Neutral.ListToolsResult S
    legacy_tools r =
        LegacyNarrow.narrow_list_tools S C.legacy_input_value C.legacy_output_value
          (LegacyWiden.widen_list_tools S C.legacy_input_from C.legacy_output_from r)

    -- Every result that a handler returns is the same once widened to the wire of either protocol
    -- version, received and narrowed by the client, but for what only one of them carries: cache
    -- policies, the schemas and the task support of tools, and structured content, of which the
    -- 2025-11-25 wire carries what is an object with entries.
    pub versions_agree :
        (tools : Neutral.ListToolsResult S) (call : Neutral.CallToolResult S)
        (resources : Neutral.ListResourcesResult S) (read : Neutral.ReadResourceResult S)
        (templates : Neutral.ListResourceTemplatesResult S) (prompts : Neutral.ListPromptsResult S)
        (prompt : Neutral.GetPromptResult S) (completion : Neutral.CompleteResult)
        → (bare_tools (draft_tools tools) ≡ bare_tools (legacy_tools tools))
          × (record (draft_call call) {
            structured_content = LegacyTrip.filled_object S (draft_call call).structured_content;
          }
              ≡ legacy_call call)
          × (record (DraftNarrow.narrow_list_resources S
                (DraftWiden.widen_list_resources S resources)) { cache = none }
              ≡ LegacyNarrow.narrow_list_resources S (LegacyWiden.widen_list_resources S resources))
          × (record (DraftNarrow.narrow_read_resource S (DraftWiden.widen_read_resource S read)) {
            cache = none;
          }
              ≡ LegacyNarrow.narrow_read_resource S (LegacyWiden.widen_read_resource S read))
          × (record (DraftNarrow.narrow_list_resource_templates S
                (DraftWiden.widen_list_resource_templates S templates)) { cache = none }
              ≡ LegacyNarrow.narrow_list_resource_templates S
                  (LegacyWiden.widen_list_resource_templates S templates))
          × (record (DraftNarrow.narrow_list_prompts S (DraftWiden.widen_list_prompts S prompts)) {
            cache = none;
          }
              ≡ LegacyNarrow.narrow_list_prompts S (LegacyWiden.widen_list_prompts S prompts))
          × (DraftNarrow.narrow_get_prompt S
                (DraftReceived.received_get_prompt S (DraftWiden.widen_get_prompt S prompt))
              ≡ LegacyNarrow.narrow_get_prompt S
                  (LegacyReceived.received_get_prompt S (LegacyWiden.widen_get_prompt S prompt)))
          × (DraftNarrow.narrow_complete S (DraftWiden.widen_complete S completion)
              ≡ LegacyNarrow.narrow_complete S (LegacyWiden.widen_complete S completion))
    versions_agree tools call resources read templates prompts prompt completion =
        let (d0, d1, d2, d3, d4, d5, d6, d7, _, _, _) =
          DraftTrip.narrow-widen_draft_results S C.draft_input_from C.draft_output_from
            C.draft_input_value C.draft_output_value tools call resources read templates prompts
            prompt completion in
        let (l0, l1, l2, l3, l4, l5, l6, l7, _, _) =
          LegacyTrip.narrow-widen_legacy_results S C.legacy_input_from C.legacy_output_from
            C.legacy_input_value C.legacy_output_value tools call resources read templates prompts
            prompt completion in
        let draft_through =
          DraftTrip.tool_through S C.draft_input_from C.draft_output_from C.draft_input_value
            C.draft_output_value in
        let legacy_through =
          LegacyTrip.tool_through S C.legacy_input_from C.legacy_output_from C.legacy_input_value
            C.legacy_output_value in
        (
          ap bare_tools d0
              ∙ ap (λ ts. record tools { tools = ts; cache = none })
                  (map-through bare_tool draft_through bare_tool (λ t. refl) tools.tools
                    ∙ sym (map-through bare_tool legacy_through bare_tool (λ t. refl) tools.tools))
              ∙ sym (ap bare_tools l0),
          ap
                (λ (r : Neutral.CallToolResult S). record r {
                  structured_content = LegacyTrip.filled_object S r.structured_content;
                })
                d1
              ∙ ap (λ o. record (kept_call_tool S call) { structured_content = o })
                  (filled_object-kept_value call.structured_content)
              ∙ sym l1,
          ap (λ (r : Neutral.ListResourcesResult S). record r { cache = none }) d2 ∙ sym l2,
          ap (λ (r : Neutral.ReadResourceResult S). record r { cache = none }) d3 ∙ sym l3,
          ap (λ (r : Neutral.ListResourceTemplatesResult S). record r { cache = none }) d4 ∙ sym l4,
          ap (λ (r : Neutral.ListPromptsResult S). record r { cache = none }) d5 ∙ sym l5,
          d6 ∙ sym l6,
          d7 ∙ sym l7,
        )
