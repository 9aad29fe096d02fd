-- ===== src/Dispatcher/Router.antt =====
-- crates/turbomcp-server/src/router.rs and extension.rs: the handlers that a server registered and
-- the extensions, with the cache defaults of dispatcher/mod.rs. Handlers and extensions are code of
-- the library's users: functions whose runs leave the dispatcher's state alone.
use turbomcp.Prelude.{Bool, true, false, String, Option, none, some, List, Result}
use turbomcp.Prelude.HashMap.{HashMap}
use turbomcp.Core.Error.{McpError}
use turbomcp.Core.JsonRpc.{RequestId, JsonRpcRequest, JsonRpcMessage, JsonRpcError}
use turbomcp.Neutral.Types as Neutral
use turbomcp.Neutral.Types.{CachePolicy, no_cache}
use turbomcp.Dispatcher.Platform.{Platform, json, serde}
use turbomcp.Dispatcher.Context.{RequestContext, MrtrContext}

pub record CachePolicies : Type 0 where
  pub discover : CachePolicy
  pub tools_list : CachePolicy
  pub resources_list : CachePolicy
  pub resource_templates_list : CachePolicy
  pub resources_read : CachePolicy
  pub prompts_list : CachePolicy

unfoldable pub uniform : CachePolicy → CachePolicies
uniform policy = record {
  discover = policy;
  tools_list = policy;
  resources_list = policy;
  resource_templates_list = policy;
  resources_read = policy;
  prompts_list = policy;
}

unfoldable pub default_policies : CachePolicies
unfolding uniform
default_policies = uniform no_cache

module _ (P : Platform) where
  abbrev pub Value : Type 0
  Value = (json P).Value

  abbrev pub Ctx : Type 0
  Ctx = RequestContext (json P)

  -- What a handler's run gives: its result, and the input requests and the state that it recorded
  -- on its `ClientHandle`.
  pub record Outcome (N : Type 0) : Type 0 where
    pub result : Result N McpError
    pub collected : HashMap String Value
    pub state_out : Option Value

  pub record MethodRouter : Type 0 where
    pub list_tools :
        Option (Ctx → Neutral.ListParams → Result (Neutral.ListToolsResult (serde P.base)) McpError)
    pub call_tool : Option (
        MrtrContext (json P)
        → Neutral.CallToolParams (serde P.base)
        → Outcome (Neutral.CallToolResult (serde P.base)))
    pub list_resources :
        Option
          (Ctx → Neutral.ListParams → Result (Neutral.ListResourcesResult (serde P.base)) McpError)
    pub read_resource : Option (
        MrtrContext (json P)
        → Neutral.ReadResourceParams
        → Outcome (Neutral.ReadResourceResult (serde P.base)))
    pub list_resource_templates : Option (
        Ctx
        → Neutral.ListParams
        → Result (Neutral.ListResourceTemplatesResult (serde P.base)) McpError)
    pub list_prompts :
        Option
          (Ctx → Neutral.ListParams → Result (Neutral.ListPromptsResult (serde P.base)) McpError)
    pub get_prompt : Option (
        MrtrContext (json P)
        → Neutral.GetPromptParams
        → Outcome (Neutral.GetPromptResult (serde P.base)))
    pub complete : Option (Ctx → Neutral.CompleteParams → Result Neutral.CompleteResult McpError)
    pub logging : Bool

  unfoldable pub new_router : MethodRouter
  new_router = record {
    list_tools = none;
    call_tool = none;
    list_resources = none;
    read_resource = none;
    list_resource_templates = none;
    list_prompts = none;
    get_prompt = none;
    complete = none;
    logging = false;
  }

  unfoldable pub has_tools : MethodRouter → Bool
  has_tools r = elim r.list_tools [ none ↦ false | some _ ↦ true ]

  unfoldable pub has_resources : MethodRouter → Bool
  has_resources r = elim r.list_resources [ none ↦ false | some _ ↦ true ]

  unfoldable pub has_prompts : MethodRouter → Bool
  has_prompts r = elim r.list_prompts [ none ↦ false | some _ ↦ true ]

  unfoldable pub has_completions : MethodRouter → Bool
  has_completions r = elim r.complete [ none ↦ false | some _ ↦ true ]

  abbrev pub has_logging : MethodRouter → Bool
  has_logging r = r.logging

  pub record ExtensionRequest : Type 0 where
    pub request : JsonRpcRequest Value
    pub context : Ctx
    pub connection_id : Option String

  -- The future of a `CallRunner` is what it gives when it is run.
  pub record CallAugmentRequest : Type 0 where
    pub request : JsonRpcRequest Value
    pub context : Ctx
    pub connection_id : Option String
    pub run : Result Value (JsonRpcError Value)

  pub data SubscribeOutcome : Type 0 where
    not_applicable : SubscribeOutcome
    missing_capability : SubscribeOutcome
    subscribed : Value → SubscribeOutcome

  -- The trait `Extension`.
  pub record Extension : Type 0 where
    pub id : String
    pub settings : Value
    pub methods : List String
    pub dispatch : ExtensionRequest → JsonRpcMessage Value
    pub augments_calls : Bool
    pub augment_call : CallAugmentRequest → Option (JsonRpcMessage Value)
    pub on_subscribe : String → RequestId → Value → Bool → SubscribeOutcome
