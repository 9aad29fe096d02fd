-- ===== src/Dispatcher/TaskMethods/Wire.antt =====
-- crates/turbomcp-server/src/dispatcher/legacy_tasks.rs: the wire forms of tasks, their parameters
-- and their errors.
use turbomcp.Prelude.{Bool, String, Option, none, some, Result, ok, string_key}
use turbomcp.Prelude.Int.{ℤ, pos, minus}
use turbomcp.Core.Json.{member, ◌>>=◌}
use turbomcp.Core.Error.{McpError}
use turbomcp.Core.JsonRpc.{RequestId, JsonRpcError}
use turbomcp.LegacyTasks.Store.{
  TaskStatus, TaskSnapshot, TaskError, not_found, already_terminal, capacity_exhausted, TaskStore,
}
use turbomcp.Dispatcher.Frames.{WireTaskStatus, WireTask}
use turbomcp.Dispatcher.Platform.{Platform, json, host}
use turbomcp.Dispatcher.Responses.{Message, reply_error, is_some_value}
use turbomcp.Dispatcher.Params.{◌>>=ᵣ◌, or_invalid, or_missing}

abbrev pub poll_interval_ms : ℤ
poll_interval_ms = pos 500

unfoldable pub to_wire_status : TaskStatus → WireTaskStatus
to_wire_status TaskStatus.working = WireTaskStatus.working
to_wire_status TaskStatus.completed = WireTaskStatus.completed
to_wire_status TaskStatus.failed = WireTaskStatus.failed
to_wire_status TaskStatus.cancelled = WireTaskStatus.cancelled

unfoldable pub to_wire_task : TaskSnapshot → WireTask
unfolding to_wire_status
to_wire_task s = record {
  created_at = s.created_at;
  last_updated_at = s.last_updated_at;
  poll_interval = some poll_interval_ms;
  status = to_wire_status s.status;
  status_message = s.status_message;
  task_id = s.task_id;
  ttl = some s.ttl_ms;
}

module _ (P : Platform) where
  abbrev Value : Type 0
  Value = (json P).Value

  abbrev Store : Type 0
  Store = TaskStore (host P.base)

  unfoldable pub has_task_field : Option Value → Bool
  has_task_field params = is_some_value P (params >>= member (json P) "task")

  unfoldable pub parse_task_id : Option Value → Result String McpError
  parse_task_id params = or_missing "missing `taskId`" params >>=ᵣ λ p.
      or_invalid "invalid task params: " (P.from_task_id p) >>=ᵣ λ raw. ok raw.task_id

  unfoldable pub task_error : TaskError → JsonRpcError Value
  task_error not_found = record {
    code = minus 32602;
    message = "unknown task id (expired, evicted, or never created)";
    details = none;
  }
  task_error already_terminal = record {
    code = minus 32602;
    message = "task is already in a terminal status";
    details = none;
  }
  task_error capacity_exhausted = record {
    code = minus 32603;
    message = "task capacity exhausted; retry later";
    details = none;
  }

  unfoldable pub task_error_response : RequestId → TaskError → Message P
  unfolding task_error
  task_error_response id e = reply_error P id (task_error e)
