-- ===== src/Dispatcher/TaskMethods.antt =====
-- crates/turbomcp-server/src/dispatcher/legacy_tasks.rs: the `tasks/*` methods of protocol version
-- 2025-11-25, calls that become tasks, and the task support of the listed tools.
pub mod Wire
pub mod Calls
pub mod Support
unfoldable pub use Wire.*
unfoldable pub use Calls.*
unfoldable pub use Support.*
use mathlib.Core.Option
use turbomcp.Prelude.{
  ℕ, String, Option, some, List, [], map, Result, ok, err, if◌then◌else◌, ◌==◌, string_key,
}
use turbomcp.Core.Json.{member, ◌>>=◌}
use turbomcp.Core.JsonRpc.{RequestId, JsonRpcRequest}
use turbomcp.Core.Methods as Methods
use turbomcp.LegacyTasks.Store.{
  TaskSnapshot, TaskError, not_found, TaskStore, Effect, finished, missing, blocked, wait_once,
}
use turbomcp.LegacyTasks.Store as Tasks
use turbomcp.Dispatcher.Platform.{Platform, json, host}
use turbomcp.Dispatcher.Responses.{Message, reply_success, reply_error, error_response, ok_value}

abbrev pub tasks_page_size : ℕ
tasks_page_size = 50

module _ (P : Platform) where
  abbrev pub Value : Type 0
  Value = (json P).Value

  abbrev pub Store : Type 0
  Store = TaskStore (host P.base)

  -- What a method leaves: the registry, its answer or the channel it waits on, and its effects.
  pub data TaskReply : Type 0 where
    replied : Message P → TaskReply
    waiting : ℕ → TaskReply

  abbrev pub Done : Type 0
  Done = Store × TaskReply × List Effect

  abbrev pub list_reply :
      RequestId → Result (List TaskSnapshot × Option String) TaskError → Message P
  list_reply id (err e) = task_error_response P id e
  list_reply id (ok (page, next_cursor)) = ok_value P id (
      P.list_tasks_value (record {
        meta = (json P).empty;
        next_cursor = next_cursor;
        tasks = map to_wire_task page;
      }))

  abbrev pub get_reply : RequestId → Result TaskSnapshot TaskError → Message P
  get_reply id (err e) = task_error_response P id e
  get_reply id (ok s) = ok_value P id (
      P.get_task_value (record {
        created_at = s.created_at;
        last_updated_at = s.last_updated_at;
        meta = (json P).empty;
        poll_interval = some poll_interval_ms;
        status = to_wire_status s.status;
        status_message = s.status_message;
        task_id = s.task_id;
        ttl = some s.ttl_ms;
        extra = (json P).empty;
      }))

  abbrev pub cancel_reply : RequestId → Result TaskSnapshot TaskError → Message P
  cancel_reply id (err e) = task_error_response P id e
  cancel_reply id (ok s) = ok_value P id (
      P.cancel_task_value (record {
        created_at = s.created_at;
        last_updated_at = s.last_updated_at;
        meta = (json P).empty;
        poll_interval = some poll_interval_ms;
        status = to_wire_status s.status;
        status_message = s.status_message;
        task_id = s.task_id;
        ttl = some s.ttl_ms;
        extra = (json P).empty;
      }))

  -- One round of `wait_result`.
  abbrev pub result_reply : RequestId → Tasks.Round (host P.base) → TaskReply
  result_reply id (finished (ok value)) = replied (reply_success P id value)
  result_reply id (finished (err e)) = replied (reply_error P id e)
  result_reply id missing = replied (task_error_response P id not_found)
  result_reply id (blocked channel) = waiting channel

  -- The parsed task id, or its error.
  abbrev pub on_task_id : JsonRpcRequest Value → Store → (String → Done) → Done
  on_task_id req store next = elim (parse_task_id P req.params) [
    | err e ↦ (store, replied (error_response P req.id e), [])
    | ok id ↦ next id
  ]

  -- The clocks are arguments. The source marks other methods unreachable.
  unfoldable pub handle_tasks_method :
      ℕ → P.base.Wall → String → JsonRpcRequest Value → Store → Done
  handle_tasks_method now wall sid req store =
      if req.method == Methods.tasks_list
      then (let (s, r, effects) =
            Tasks.list (host P.base) now sid
              (req.params >>= member (json P) "cursor" >>= (json P).as_str) tasks_page_size store in
          (s, replied (list_reply req.id r), effects))
      else if req.method == Methods.tasks_get
      then on_task_id req store (λ id.
        let (s, r, effects) = Tasks.get (host P.base) now sid id store in
        (s, replied (get_reply req.id r), effects))
      else if req.method == Methods.tasks_cancel
      then on_task_id req store (λ id.
        let (s, r, effects) = Tasks.cancel (host P.base) now wall sid id store in
        (s, replied (cancel_reply req.id r), effects))
      else on_task_id req store (λ id.
        let (s, r, effects) = wait_once (host P.base) now sid id store in
        (s, result_reply req.id r, effects))
