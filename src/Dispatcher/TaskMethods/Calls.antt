-- ===== src/Dispatcher/TaskMethods/Calls.antt =====
-- crates/turbomcp-server/src/dispatcher/legacy_tasks.rs: calls that become tasks.
use Prim.Native.String
use turbomcp.Prelude.{ℕ, String, Option, none, some, List, [], Result, ok, err, string_key}
use turbomcp.Prelude.Int.{ℤ, minus}
use turbomcp.Core.Json.{member, ◌>>=◌}
use turbomcp.Core.Error.{McpError, invalid_params, method_not_found}
use turbomcp.Core.JsonRpc.{RequestId, JsonRpcRequest, JsonRpcError}
use turbomcp.Core.Methods as Methods
use turbomcp.Core.ServiceError.{mcp_to_jsonrpc_error}
use turbomcp.LegacyTasks.Store.{
  TaskStatus, TaskSnapshot, TaskError, not_found, already_terminal, capacity_exhausted, TaskStore,
  Effect, finished, missing, blocked, wait_once,
}
use turbomcp.LegacyTasks.Store as Tasks
use turbomcp.Neutral.Types as Neutral
use turbomcp.Neutral.Legacy.Widen.{widen_call_tool}
use turbomcp.Dispatcher.Platform.{Platform, json, serde, host}
use turbomcp.Dispatcher.Context.{RequestContext, new_mrtr_context}
use turbomcp.Dispatcher.Router.{MethodRouter}
use turbomcp.Dispatcher.Responses.{Message, error_response, ok_value}
use turbomcp.Dispatcher.Params.{to_option, parse_call_tool_params}
use turbomcp.Dispatcher.TaskMethods.Wire.{to_wire_task, task_error_response}

module _ (P : Platform) where
  abbrev Value : Type 0
  Value = (json P).Value

  abbrev Store : Type 0
  Store = TaskStore (host P.base)

  -- What a call that became a task records when it is over.
  abbrev pub call_outcome :
      Result (Neutral.CallToolResult (serde P.base)) McpError → Result Value (JsonRpcError Value)
  call_outcome (err e) = err (mcp_to_jsonrpc_error Value e)
  call_outcome (ok result) = elim (P.legacy_call_tool (widen_call_tool (serde P.base) result)) [
    | ok v ↦ ok v
    | err e ↦ err (record {
      code = minus 32603;
      message = String.◌++◌ "serialize result: " e;
      details = none;
    })
  ]

  -- The spawned run of a call: its task, its token, and what it records unless the token fires.
  pub record Spawned : Type 0 where
    pub task_id : String
    pub token : ℕ
    pub outcome : Result Value (JsonRpcError Value)

  -- What `TaskStore::create` is given: the clocks, the minted id and the channel.
  pub record Minted : Type 0 where
    pub now : ℕ
    pub created : ℕ
    pub wall : P.base.Wall
    pub task_id : String
    pub channel : ℕ
    pub token : ℕ

  pub record Augmented : Type 0 where
    pub store : Store
    pub answer : Message P
    pub effects : List Effect
    pub spawned : Option Spawned

  abbrev pub unchanged : Store → Message P → Augmented
  unchanged store answer = record { store = store; answer = answer; effects = []; spawned = none }

  unfoldable pub started :
      Minted
      → String
      → RequestId
      → Option ℤ
      → Result (Neutral.CallToolResult (serde P.base)) McpError
      → Store
      → Augmented
  started m sid id ttl result store =
      let (s, created, effects) =
        Tasks.create (host P.base) m.now m.created m.wall m.task_id m.channel sid ttl m.token
          store in
      elim created [
        | err e ↦ record {
          store = s;
          answer = task_error_response P id e;
          effects = effects;
          spawned = none;
        }
        | ok snap ↦ record {
          store = s;
          answer =
              ok_value P id
                (P.create_task_value (record { meta = (json P).empty; task = to_wire_task snap }));
          effects = effects;
          spawned =
              some
                (record { task_id = snap.task_id; token = m.token; outcome = call_outcome result });
        }
      ]

  unfoldable pub task_augmented_call :
      Minted
      → MethodRouter P
      → RequestContext (json P)
      → String
      → JsonRpcRequest Value
      → Store
      → Augmented
  unfolding started
  task_augmented_call m router ctx sid req store =
      elim (req.params >>= member (json P) "task" >>= λ t. to_option (P.from_task_metadata t)) [
        | none ↦
            unchanged store
              (error_response P req.id (invalid_params "invalid tools/call `task` augmentation"))
        | some metadata ↦ elim (parse_call_tool_params P req.params) [
          | err e ↦ unchanged store (error_response P req.id e)
          | ok params ↦ elim router.call_tool [
            | none ↦ unchanged store (error_response P req.id (method_not_found Methods.tools_call))
            | some handler ↦
                let run =
                  handler (new_mrtr_context (json P) (record ctx { cancellation = m.token }))
                    params in
                started m sid req.id metadata.ttl run.result store
          ]
        ]
      ]

  -- The step that the spawned run takes when its handler is done before its token fires.
  unfoldable pub finish_task : P.base.Wall → Spawned → Store → Store × List Effect
  finish_task wall t store = Tasks.complete (host P.base) wall t.task_id t.outcome store
