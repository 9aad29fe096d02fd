-- ===== src/DraftTasks/Wire.antt =====
-- crates/turbomcp-ext-tasks/src/wire.rs: the extension's statuses and wire records.
use turbomcp.Prelude.{Bool, true, false, String, Option, none}
use turbomcp.Prelude.Int.{ℤ}
use turbomcp.Core.Json.{Json}

pub data TaskStatus : Type 0 where
  working input_required completed failed cancelled : TaskStatus

unfoldable pub is_terminal : TaskStatus → Bool
is_terminal completed = true
is_terminal failed = true
is_terminal cancelled = true
is_terminal _ = false

pub record Task : Type 0 where
  pub task_id : String
  pub status : TaskStatus
  pub status_message : Option String
  pub created_at : String
  pub last_updated_at : String
  pub ttl_ms : Option ℤ
  pub poll_interval_ms : Option ℤ

abbrev pub result_type_complete : String
result_type_complete = "complete"

pub record DetailedTask (J : Json) : Type 0 where
  pub result_type : String
  pub task : Task
  pub input_requests : Option J.Object
  pub result : Option J.Value
  pub error : Option J.Value

-- `DetailedTask::new`.
abbrev pub new_detailed : (J : Json) → Task → DetailedTask J
new_detailed J task = record {
  result_type = result_type_complete;
  task = task;
  input_requests = none;
  result = none;
  error = none;
}

-- `Task::working`.
unfoldable pub working_task : String → String → Task
working_task task_id created_at = record {
  task_id = task_id;
  status = working;
  status_message = none;
  created_at = created_at;
  last_updated_at = created_at;
  ttl_ms = none;
  poll_interval_ms = none;
}

pub record CreateTaskResult : Type 0 where
  pub result_type : String
  pub task : Task

-- `CreateTaskResult::new`.
unfoldable pub new_create_result : Task → CreateTaskResult
new_create_result task = record { result_type = "task"; task = task }
