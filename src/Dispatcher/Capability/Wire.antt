-- ===== src/Dispatcher/Capability/Wire.antt =====
-- The two wire families of crates/turbomcp-server/src/dispatcher/capability.rs, and `finish`.
use turbomcp.Prelude.{Bool, true, false, String, Option, none, some, Result, ok, err, string_key}
use turbomcp.Core.Error.{McpError, method_not_found}
use turbomcp.Core.JsonRpc.{RequestId}
use turbomcp.Neutral.Types as Neutral
use turbomcp.Neutral.Types.{CachePolicy}
use turbomcp.Neutral.Draft.Widen as Draft
use turbomcp.Neutral.Legacy.Widen as Legacy
use turbomcp.Dispatcher.Platform.{Platform, json, serde}
use turbomcp.Dispatcher.Context.{RequestContext}
use turbomcp.Dispatcher.Responses.{Message, error_response, ok_value}

module _ (P : Platform) where
  abbrev Value : Type 0
  Value = (json P).Value

  abbrev Ctx : Type 0
  Ctx = RequestContext (json P)

  -- The trait `WireFamily`: each result, widened to the wire's type and serialized.
  pub record WireFamily : Type 0 where
    pub mrtr_wire : Bool
    pub list_tools : Neutral.ListToolsResult (serde P.base) → Result Value String
    pub call_tool : Neutral.CallToolResult (serde P.base) → Result Value String
    pub list_resources : Neutral.ListResourcesResult (serde P.base) → Result Value String
    pub list_resource_templates :
        Neutral.ListResourceTemplatesResult (serde P.base) → Result Value String
    pub read_resource : Neutral.ReadResourceResult (serde P.base) → Result Value String
    pub list_prompts : Neutral.ListPromptsResult (serde P.base) → Result Value String
    pub get_prompt : Neutral.GetPromptResult (serde P.base) → Result Value String
    pub complete : Neutral.CompleteResult → Result Value String

  unfoldable pub draft_wire : WireFamily
  draft_wire = record {
    mrtr_wire = true;
    list_tools = λ r. P.draft_list_tools (
        Draft.widen_list_tools (serde P.base) P.from_draft_input_schema P.from_draft_output_schema
          r);
    call_tool = λ r. P.draft_call_tool (Draft.widen_call_tool (serde P.base) r);
    list_resources = λ r. P.draft_list_resources (Draft.widen_list_resources (serde P.base) r);
    list_resource_templates =
        λ r. P.draft_list_resource_templates (Draft.widen_list_resource_templates (serde P.base) r);
    read_resource = λ r. P.draft_read_resource (Draft.widen_read_resource (serde P.base) r);
    list_prompts = λ r. P.draft_list_prompts (Draft.widen_list_prompts (serde P.base) r);
    get_prompt = λ r. P.draft_get_prompt (Draft.widen_get_prompt (serde P.base) r);
    complete = λ r. P.draft_complete (Draft.widen_complete (serde P.base) r);
  }

  unfoldable pub legacy_wire : WireFamily
  legacy_wire = record {
    mrtr_wire = false;
    list_tools = λ r. P.legacy_list_tools (
        Legacy.widen_list_tools (serde P.base) P.from_legacy_input_schema
          P.from_legacy_output_schema r);
    call_tool = λ r. P.legacy_call_tool (Legacy.widen_call_tool (serde P.base) r);
    list_resources = λ r. P.legacy_list_resources (Legacy.widen_list_resources (serde P.base) r);
    list_resource_templates = λ r.
        P.legacy_list_resource_templates (Legacy.widen_list_resource_templates (serde P.base) r);
    read_resource = λ r. P.legacy_read_resource (Legacy.widen_read_resource (serde P.base) r);
    list_prompts = λ r. P.legacy_list_prompts (Legacy.widen_list_prompts (serde P.base) r);
    get_prompt = λ r. P.legacy_get_prompt (Legacy.widen_get_prompt (serde P.base) r);
    complete = λ r. P.legacy_complete (Legacy.widen_complete (serde P.base) r);
  }

  unfoldable pub finish :
      {N : Type 0}
      → (N → Result Value String)
      → RequestId
      → String
      → Option (Result N McpError)
      → Message P
  finish widen id method none = error_response P id (method_not_found method)
  finish widen id method (some (ok result)) = ok_value P id (widen result)
  finish widen id method (some (err e)) = error_response P id e
