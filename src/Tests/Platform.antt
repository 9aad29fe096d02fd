-- ===== src/Tests/Platform.antt =====
-- A platform over JSON trees: what the dispatcher reads of its frames, and short texts for what it
-- serializes.
use Prim.Native.String
use mathlib.Core.Option
use turbomcp.Prelude.{
  if◌then◌else◌, ℕ, Bool, true, false, String, Option, none, some, [], Result, ok, err,
}
use turbomcp.Prelude.Decimal.{to_string}
use turbomcp.Prelude.Int.{ℤ, pos, negsuc}
use turbomcp.Core.Json.{◌>>=◌}
use turbomcp.Core.Json as Json
use turbomcp.Core.Context.{info}
use turbomcp.Core.JsonRpc as JsonRpc
use turbomcp.Neutral.Legacy.Wire.{Implementation}
use turbomcp.Dispatcher.Platform.{Base, Platform, InitializeRequestParams}
use turbomcp.Tests.Json.{Tree, number, text, object, nil, member, tree, text_of}
use turbomcp.Tests.Crypto.{crypto}
use turbomcp.Tests.Neutral.{
  empty_unique, nil_empty, is_null, null_no_object, draft_input, draft_output, legacy_input,
  legacy_output,
}

abbrev pub base : Base
base = record {
  crypto = crypto;
  F64 = ℕ;
  Wall = ℕ;
  format = λ t. some (to_string t);
  error_value = λ e. some (text e.message);
  empty_unique = empty_unique;
  empty_is_empty = nil_empty;
  is_null = is_null;
  null_no_object = null_no_object;
}

abbrev field : String → Tree → Option Tree
field = Json.member tree

abbrev required : String → Tree → Result String String
required k v = elim (field k v >>= text_of) [
  | none ↦ err (String.◌++◌ "missing field " k)
  | some s ↦ ok s
]

abbrev with_required {ℓ} : {A : Type ℓ} → (String → A) → Result String String → Result A String
with_required f (ok s) = ok (f s)
with_required f (err e) = err e

abbrev is_text : Tree → Bool
is_text (text _) = true
is_text _ = false

abbrev present : String → Tree → Option Bool
present k v = Option.map (λ _. true) (field k v)

abbrev number_value : ℤ → Tree
number_value (pos n) = number n
number_value (negsuc n) = text "negative"

abbrev client : String → Implementation
client name = record {
  description = none;
  icons = [];
  name = name;
  title = none;
  version = "1";
  website_url = none;
}

abbrev pub initialize_params : String → InitializeRequestParams base Tree
initialize_params version = record {
  capabilities = object nil;
  client_info = client "client";
  protocol_version = version;
}

abbrev named : String → Tree
named s = object (member "result" (text s) nil)

abbrev pub platform : Platform
platform = record {
  base = base;
  ClientCapabilities = Tree;
  is_token = is_text;
  value_text = λ _. "value";
  number_value = number_value;
  error_text = λ _. "protocol error";
  from_client_info = λ v.
      with_required (λ s. record { name = s; version = "1"; title = none }) (required "name" v);
  from_call_tool =
      λ v. with_required (λ s. record { name = s; arguments = nil }) (required "name" v);
  from_read_resource = λ v. with_required (λ s. record { uri = s }) (required "uri" v);
  from_get_prompt =
      λ v. with_required (λ s. record { name = s; arguments = [] }) (required "name" v);
  from_complete = λ v.
      with_required
        (λ s. record {
          reference = record { type_name = s; name = some "p"; uri = none };
          argument = record { name = "a"; value = "v" };
          context = none;
        })
        (required "ref" v);
  from_mrtr = λ v.
      ok (record { input_responses = none; request_state = field "requestState" v >>= text_of });
  from_cancelled = λ v.
      with_required (λ s. record { request_id = JsonRpc.string s; reason = none })
        (required "requestId" v);
  from_listen = λ v. elim (field "notifications" v) [
    | none ↦ err "missing field notifications"
    | some f ↦ ok (record {
      notifications = record {
        tools_list_changed = present "toolsListChanged" f;
        resources_list_changed = present "resourcesListChanged" f;
        prompts_list_changed = present "promptsListChanged" f;
        resource_subscriptions = [];
      };
    })
  ];
  from_task_metadata = λ v. ok (record { ttl = none });
  from_task_id = λ v. with_required (λ s. record { task_id = s }) (required "taskId" v);
  from_log_level = λ v. if is_text v then ok info else err "not a level";
  from_initialize = λ v. with_required initialize_params (required "protocolVersion" v);
  from_draft_input_schema = draft_input;
  from_draft_output_schema = draft_output;
  from_legacy_input_schema = legacy_input;
  from_legacy_output_schema = legacy_output;
  capabilities_value = ok;
  filter_value = λ f. ok (object nil);
  draft_implementation_value = λ i. ok (text i.name);
  initialize_value = λ r. ok (object (member "capabilities" (object nil) nil));
  discover_value = λ r. ok (object (member "capabilities" (object nil) nil));
  create_task_value = λ r. ok (named "create");
  list_tasks_value = λ r. ok (named "list");
  get_task_value = λ r. ok (named r.task_id);
  cancel_task_value = λ r. ok (named r.task_id);
  draft_list_tools = λ r. ok (named "tools");
  draft_call_tool = λ r. ok (named "call");
  draft_list_resources = λ r. ok (named "resources");
  draft_list_resource_templates = λ r. ok (named "templates");
  draft_read_resource = λ r. ok (named "read");
  draft_list_prompts = λ r. ok (named "prompts");
  draft_get_prompt = λ r. ok (named "prompt");
  draft_complete = λ r. ok (named "complete");
  legacy_list_tools = λ r. ok (named "tools");
  legacy_call_tool = λ r. ok (named "call");
  legacy_list_resources = λ r. ok (named "resources");
  legacy_list_resource_templates = λ r. ok (named "templates");
  legacy_read_resource = λ r. ok (named "read");
  legacy_list_prompts = λ r. ok (named "prompts");
  legacy_get_prompt = λ r. ok (named "prompt");
  legacy_complete = λ r. ok (named "complete");
}
