-- ===== src/Core/Methods.antt =====
-- crates/turbomcp-protocol/src/methods.rs: the method and notification names that the modelled
-- components read.
use turbomcp.Prelude.{String}

abbrev pub tools_list : String
tools_list = "tools/list"

abbrev pub resources_list : String
resources_list = "resources/list"

abbrev pub resources_templates_list : String
resources_templates_list = "resources/templates/list"

abbrev pub resources_read : String
resources_read = "resources/read"

abbrev pub prompts_list : String
prompts_list = "prompts/list"

abbrev pub tools_list_changed : String
tools_list_changed = "notifications/tools/list_changed"

abbrev pub resources_list_changed : String
resources_list_changed = "notifications/resources/list_changed"

abbrev pub resources_updated : String
resources_updated = "notifications/resources/updated"

abbrev pub prompts_list_changed : String
prompts_list_changed = "notifications/prompts/list_changed"

abbrev pub message : String
message = "notifications/message"

abbrev pub discover : String
discover = "server/discover"

abbrev pub initialize : String
initialize = "initialize"

abbrev pub ping : String
ping = "ping"

abbrev pub tools_call : String
tools_call = "tools/call"

abbrev pub prompts_get : String
prompts_get = "prompts/get"

abbrev pub completion_complete : String
completion_complete = "completion/complete"

abbrev pub tasks_list : String
tasks_list = "tasks/list"

abbrev pub tasks_get : String
tasks_get = "tasks/get"

abbrev pub tasks_cancel : String
tasks_cancel = "tasks/cancel"

abbrev pub tasks_result : String
tasks_result = "tasks/result"

abbrev pub subscriptions_listen : String
subscriptions_listen = "subscriptions/listen"

abbrev pub resources_subscribe : String
resources_subscribe = "resources/subscribe"

abbrev pub resources_unsubscribe : String
resources_unsubscribe = "resources/unsubscribe"

abbrev pub logging_set_level : String
logging_set_level = "logging/setLevel"

abbrev pub cancelled : String
cancelled = "notifications/cancelled"

abbrev pub subscriptions_acknowledged : String
subscriptions_acknowledged = "notifications/subscriptions/acknowledged"
