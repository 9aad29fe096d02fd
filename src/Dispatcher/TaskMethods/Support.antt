-- ===== src/Dispatcher/TaskMethods/Support.antt =====
-- crates/turbomcp-server/src/dispatcher/legacy_tasks.rs: the task support of the listed tools.
use mathlib.Core.Option
use turbomcp.Prelude.{
  Bool, true, false, Option, none, some, map, any, ok, err, if◌then◌else◌, string_key,
}
use turbomcp.Core.Error.{method_not_found}
use turbomcp.Core.JsonRpc.{JsonRpcRequest}
use turbomcp.Core.Methods as Methods
use turbomcp.LegacyTasks.Store.{TaskStore}
use turbomcp.Neutral.Legacy.Wire as Legacy
use turbomcp.Neutral.Legacy.Wire.{ToolExecution, ToolExecutionTaskSupport}
use turbomcp.Neutral.Legacy.Widen.{widen_list_tools}
use turbomcp.Dispatcher.Platform.{Platform, json, serde, host}
use turbomcp.Dispatcher.Context.{RequestContext}
use turbomcp.Dispatcher.Router.{MethodRouter}
use turbomcp.Dispatcher.Responses.{Message, error_response, ok_value}
use turbomcp.Dispatcher.Params.{parse_list_params}

-- A declared task support is kept, and a missing one becomes the default.
abbrev pub or_support : ToolExecutionTaskSupport → Option ToolExecution → ToolExecution
or_support default none = record { task_support = some default }
or_support default (some e) = record { task_support = some (Option.get_or e.task_support default) }

abbrev pub declared : Option ToolExecution → Bool
declared none = false
declared (some e) = elim e.task_support [ none ↦ false | some _ ↦ true ]

module _ (P : Platform) where
  abbrev Value : Type 0
  Value = (json P).Value

  abbrev Store : Type 0
  Store = TaskStore (host P.base)

  abbrev pub with_support :
      ToolExecutionTaskSupport → Legacy.Tool (serde P.base) → Legacy.Tool (serde P.base)
  with_support default t = record t { execution = some (or_support default t.execution) }

  unfoldable pub with_task_support :
      Legacy.ListToolsResult (serde P.base) → Legacy.ListToolsResult (serde P.base)
  with_task_support wire =
      let default =
        if any (λ t. declared t.execution) wire.tools
        then ToolExecutionTaskSupport.forbidden
        else ToolExecutionTaskSupport.optional in
      record wire { tools = map (with_support default) wire.tools }

  unfoldable pub legacy_list_tools_with_task_support :
      MethodRouter P → JsonRpcRequest Value → RequestContext (json P) → Message P
  unfolding with_task_support
  legacy_list_tools_with_task_support router req ctx = elim router.list_tools [
    | none ↦ error_response P req.id (method_not_found Methods.tools_list)
    | some handler ↦ elim (handler ctx (parse_list_params P req.params)) [
      | err e ↦ error_response P req.id e
      | ok result ↦ ok_value P req.id (
          P.legacy_list_tools (
            with_task_support (
              widen_list_tools (serde P.base) P.from_legacy_input_schema P.from_legacy_output_schema
                result)))
    ]
  ]
