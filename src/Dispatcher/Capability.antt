-- ===== src/Dispatcher/Capability.antt =====
-- crates/turbomcp-server/src/dispatcher/capability.rs: the path that both protocol versions share
-- from the parsed parameters over the handler to the reply.
pub mod Wire
pub mod Mrtr
unfoldable pub use Wire.*
unfoldable pub use Mrtr.*
use mathlib.Core.Option
use turbomcp.Prelude.{
  Bool, not, String, Option, none, some, Result, ok, err, if◌then◌else◌, ◌==◌, string_key,
}
use turbomcp.Core.Json.{member, ◌>>=◌}
use turbomcp.Core.Error.{McpError}
use turbomcp.Core.JsonRpc.{JsonRpcRequest}
use turbomcp.Core.Meta.{session_id, connection_id, progress_token_key}
use turbomcp.Core.Methods as Methods
use turbomcp.Neutral.Types as Neutral
use turbomcp.Neutral.Types.{CachePolicy}
use turbomcp.Subscriptions.LogSender.{LogSender}
use turbomcp.Subscriptions.LogSender as Logs
use turbomcp.Dispatcher.Platform.{Platform, json, serde}
use turbomcp.Dispatcher.Context.{
  RequestContext, ClientHandle, ProgressReporter, disabled_progress, new_progress, MrtrContext,
  new_mrtr_context, with_client, with_progress, with_log, subject_of,
}
use turbomcp.Dispatcher.Router.{MethodRouter, Outcome, CachePolicies, has_logging}
use turbomcp.Dispatcher.Responses.{Message, error_response}
use turbomcp.Dispatcher.Params.{
  map_ok, parse_list_params, parse_call_tool_params, parse_read_resource_params,
  parse_get_prompt_params, parse_complete_params,
}

-- `get_or_insert` on the cache policy of a result.
abbrev pub filled_policy : CachePolicy → Option CachePolicy → Option CachePolicy
filled_policy policy none = some policy
filled_policy policy (some p) = some p

module _ (P : Platform) where
  abbrev pub Value : Type 0
  Value = (json P).Value

  abbrev pub Ctx : Type 0
  Ctx = RequestContext (json P)

  abbrev pub session_of : WireFamily P → JsonRpcRequest Value → String
  session_of W req = if W.mrtr_wire then "" else Option.get_or (session_id (json P) req.params) ""

  unfoldable pub log_sender : WireFamily P → JsonRpcRequest Value → Ctx → Bool → LogSender
  log_sender W req ctx logging_enabled = elim ctx.log_level [
    | none ↦ Logs.disabled
    | some level ↦
        if logging_enabled
        then Logs.new level (Option.get_or (connection_id (json P) req.params) "")
            (session_of W req)
        else Logs.disabled
  ]

  unfoldable pub progress_reporter : WireFamily P → JsonRpcRequest Value → ProgressReporter (json P)
  progress_reporter W req =
      elim (req.params >>= member (json P) "_meta" >>= member (json P) progress_token_key) [
        | none ↦ disabled_progress (json P)
        | some token ↦
            if not (P.is_token token)
            then disabled_progress (json P)
            else new_progress (json P) token (Option.get_or (connection_id (json P) req.params) "")
                (session_of W req)
      ]

module _ (P : Platform) (W : WireFamily P) (router : MethodRouter P) (cache : CachePolicies) where
  -- `with_cache_default` of each result that has a cache policy.
  abbrev pub tools_default :
      Neutral.ListToolsResult (serde P.base) → Neutral.ListToolsResult (serde P.base)
  tools_default r = record r { cache = filled_policy cache.tools_list r.cache }

  abbrev pub resources_default :
      Neutral.ListResourcesResult (serde P.base) → Neutral.ListResourcesResult (serde P.base)
  resources_default r = record r { cache = filled_policy cache.resources_list r.cache }

  abbrev pub templates_default :
      Neutral.ListResourceTemplatesResult (serde P.base)
      → Neutral.ListResourceTemplatesResult (serde P.base)
  templates_default r = record r { cache = filled_policy cache.resource_templates_list r.cache }

  abbrev pub prompts_default :
      Neutral.ListPromptsResult (serde P.base) → Neutral.ListPromptsResult (serde P.base)
  prompts_default r = record r { cache = filled_policy cache.prompts_list r.cache }

  abbrev pub read_default :
      Neutral.ReadResourceResult (serde P.base) → Neutral.ReadResourceResult (serde P.base)
  read_default r = record r { cache = filled_policy cache.resources_read r.cache }

  -- The context of a handler that may ask the client.
  abbrev pub handler_context :
      JsonRpcRequest (Value P) → Ctx P → ClientHandle (json P) → MrtrContext (json P)
  handler_context req ctx handle =
      with_log (json P) (log_sender P W req ctx (has_logging P router)) (
        with_progress (json P) (progress_reporter P W req)
          (with_client (json P) handle (new_mrtr_context (json P) ctx)))

  -- The branches of `dispatch_capability` whose handlers may ask the client: the parameters, then
  -- the handle, then the handler.
  abbrev pub asking :
      {N A : Type 0}
      → (N → Result (Value P) String)
      → Signing P
      → Bool
      → JsonRpcRequest (Value P)
      → Ctx P
      → Result A McpError
      → Option (MrtrContext (json P) → A → Outcome P N)
      → Message P
  asking widen signing strict_keys req ctx params slot = elim params [
    | err e ↦ error_response P req.id e
    | ok p ↦ elim (mrtr_handle P W signing strict_keys req ctx) [
      | err e ↦ error_response P req.id e
      | ok handle ↦
          finish_mrtr P widen req.id req.method (subject_of (json P) ctx.identity)
            (Option.map (λ h. h (handler_context req ctx handle) p) slot) signing W.mrtr_wire
    ]
  ]

  unfoldable pub with_read_default :
      Outcome P (Neutral.ReadResourceResult (serde P.base))
      → Outcome P (Neutral.ReadResourceResult (serde P.base))
  with_read_default o = record o { result = map_ok read_default o.result }

  -- The source marks the last branch unreachable: it is called for the eight methods only.
  unfoldable pub dispatch_capability :
      Signing P → Bool → JsonRpcRequest (Value P) → Ctx P → Message P
  dispatch_capability signing strict_keys req ctx =
      let params = parse_list_params P req.params in
      if req.method == Methods.tools_list
      then finish P W.list_tools req.id req.method
          (Option.map (λ h. map_ok tools_default (h ctx params)) router.list_tools)
      else if req.method == Methods.tools_call
      then asking W.call_tool signing strict_keys req ctx (parse_call_tool_params P req.params)
          router.call_tool
      else if req.method == Methods.resources_list
      then finish P W.list_resources req.id req.method
          (Option.map (λ h. map_ok resources_default (h ctx params)) router.list_resources)
      else if req.method == Methods.resources_templates_list
      then finish P W.list_resource_templates req.id req.method
          (Option.map (λ h. map_ok templates_default (h ctx params)) router.list_resource_templates)
      else if req.method == Methods.resources_read
      then asking W.read_resource signing strict_keys req ctx
          (parse_read_resource_params P req.params)
          (Option.map (λ h c p. with_read_default (h c p)) router.read_resource)
      else if req.method == Methods.prompts_list
      then finish P W.list_prompts req.id req.method
          (Option.map (λ h. map_ok prompts_default (h ctx params)) router.list_prompts)
      else if req.method == Methods.prompts_get
      then asking W.get_prompt signing strict_keys req ctx (parse_get_prompt_params P req.params)
          router.get_prompt
      else elim (parse_complete_params P req.params) [
        | err e ↦ error_response P req.id e
        | ok p ↦ finish P W.complete req.id req.method (Option.map (λ h. h ctx p) router.complete)
      ]
