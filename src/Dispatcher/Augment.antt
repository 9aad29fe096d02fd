-- ===== src/Dispatcher/Augment.antt =====
-- crates/turbomcp-server/src/dispatcher/augment.rs: the offer of a call to the extensions that may
-- make a task of it. The tokens and the slots that the source mints are arguments.
use turbomcp.Prelude.{
  ℕ, not, ◌&&◌, Option, none, some, List, [], ◌∷◌, Result, ok, err, if◌then◌else◌,
}
use turbomcp.Core.Error.{McpError, internal, method_not_found}
use turbomcp.Core.JsonRpc.{JsonRpcRequest, JsonRpcError}
use turbomcp.Core.Meta.{connection_id}
use turbomcp.Core.Methods as Methods
use turbomcp.Core.ServiceError.{mcp_to_jsonrpc_error}
use turbomcp.Neutral.Types.{CallToolResult}
use turbomcp.Neutral.Draft.Widen.{widen_call_tool}
use turbomcp.Dispatcher.Platform.{Platform, json, serde}
use turbomcp.Dispatcher.Context.{
  RequestContext, new_mrtr_context, with_client, task_mediated, MrtrContext,
}
use turbomcp.Dispatcher.Router.{MethodRouter, Extension}
use turbomcp.Dispatcher.Responses.{Message, error_response, context_declares_extension}
use turbomcp.Dispatcher.Params.{parse_call_tool_params, map_ok}

module _ (P : Platform) (router : MethodRouter P) (token slot : ℕ) where
  abbrev pub Value : Type 0
  Value = (json P).Value

  abbrev pub Run : Type 0
  Run = Result Value (JsonRpcError Value)

  abbrev pub run_result : Result (CallToolResult (serde P.base)) McpError → Run
  run_result (err e) = err (mcp_to_jsonrpc_error Value e)
  run_result (ok result) = elim (P.draft_call_tool (widen_call_tool (serde P.base) result)) [
    | ok v ↦ ok v
    | err e ↦ err (mcp_to_jsonrpc_error Value (internal e))
  ]

  abbrev pub task_context : RequestContext (json P) → MrtrContext (json P)
  task_context ctx =
      with_client (json P) (task_mediated (json P) ctx.client_capabilities slot)
        (new_mrtr_context (json P) (record ctx { cancellation = token }))

  unfoldable pub build_call_runner :
      JsonRpcRequest Value → RequestContext (json P) → Result Run McpError
  build_call_runner req ctx =
      map_ok
        (λ params. elim router.call_tool [
          | none ↦ err (mcp_to_jsonrpc_error Value (method_not_found Methods.tools_call))
          | some handler ↦ run_result (handler (task_context ctx) params).result
        ])
        (parse_call_tool_params P req.params)

  unfoldable pub try_augment_call :
      JsonRpcRequest Value → RequestContext (json P) → List (Extension P) → Option (Message P)
  unfolding build_call_runner
  try_augment_call req ctx [] = none
  try_augment_call req ctx (e ∷ es) =
      let rest = try_augment_call req ctx es in
      if not (e.augments_calls && context_declares_extension P ctx e.id)
      then rest
      else elim (build_call_runner req ctx) [
        | err x ↦ some (error_response P req.id x)
        | ok run ↦
            elim (e.augment_call (record {
              request = req;
              context = ctx;
              connection_id = connection_id (json P) req.params;
              run = run;
            })) [ some m ↦ some m | none ↦ rest ]
      ]
