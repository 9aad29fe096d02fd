-- ===== src/Tests/Neutral.antt =====
-- Results of handlers over JSON trees, taken over the wires of both protocol versions.
use mathlib.Core.Option
use turbomcp.Prelude.{
  Bool, String, List, ℕ, arith, ◌+◌, ◌^◌, ◌≡◌, refl, true, false, Option, none, some, [], ◌∷◌, map,
}
use turbomcp.Core.Json.{is_empty_object}
use turbomcp.Tests.Json.{
  Tree, null, number, text, entries, object, Members, nil, member, tree, members_of,
}
use turbomcp.Neutral.Serde.{Serde}
use turbomcp.Neutral.Convert.{capped}
use turbomcp.Neutral.Types as Neutral
use turbomcp.Neutral.Kept.{kept_call_tool, kept_get_prompt, kept_list_resources}
use turbomcp.Neutral.Draft.Wire as DraftWire
use turbomcp.Neutral.Draft.Widen as DraftWiden
use turbomcp.Neutral.Draft.Narrow as DraftNarrow
use turbomcp.Neutral.Draft.RoundTrip as DraftTrip
use turbomcp.Neutral.Legacy.Wire as LegacyWire
use turbomcp.Neutral.Legacy.Widen as LegacyWiden
use turbomcp.Neutral.Legacy.Narrow as LegacyNarrow
use turbomcp.Neutral.Legacy.RoundTrip as LegacyTrip
use turbomcp.Neutral.Agreement.{
  Schemas, draft_call, legacy_call, bare_tools, draft_tools, legacy_tools, versions_agree,
}
use turbomcp.Neutral.Draft.Received as DraftReceived
use turbomcp.Neutral.Legacy.Received as LegacyReceived
use turbomcp.Neutral.Kept.{kind_tag}

pub empty_unique : (o : Members) → is_empty_object tree o ≡ true → o ≡ nil
unfolding entries
empty_unique nil _ = refl
empty_unique (member k v o) h = grind (arith, h)

pub nil_empty : is_empty_object tree nil ≡ true
unfolding entries
nil_empty = refl

abbrev pub is_null : Tree → Bool
is_null null = true
is_null _ = false

pub null_no_object : (v : Tree) → is_null v ≡ true → members_of v ≡ none
null_no_object null _ = refl
null_no_object (number n) h = refl
null_no_object (text s) h = refl
null_no_object (object o) h = ground (arith, h)

abbrev serde : Serde
serde = record {
  json = tree;
  F64 = ℕ;
  empty_unique = empty_unique;
  empty_is_empty = nil_empty;
  is_null = is_null;
  null_no_object = null_no_object;
}

abbrev schema : Tree
schema = object (member "properties" (object nil) nil)

abbrev pub draft_input : Tree → Option (DraftWire.ToolInputSchema serde)
draft_input v =
    Option.map (λ o. record { schema = none; type_name = "object"; extra = o }) (members_of v)

abbrev pub draft_output : Tree → Option (DraftWire.ToolOutputSchema serde)
draft_output v = Option.map (λ o. record { schema = none; extra = o }) (members_of v)

abbrev draft_input_value : DraftWire.ToolInputSchema serde → Option Tree
draft_input_value s = some (object (member "type" (text s.type_name) s.extra))

abbrev draft_output_value : DraftWire.ToolOutputSchema serde → Option Tree
draft_output_value s = some (object s.extra)

abbrev pub legacy_input : Tree → Option (LegacyWire.ToolInputSchema serde)
legacy_input v =
    Option.map
      (λ o. record {
        properties = [];
        required = [];
        schema = none;
        type_name = "object";
        extra = o;
      })
      (members_of v)

abbrev pub legacy_output : Tree → Option (LegacyWire.ToolOutputSchema serde)
legacy_output v =
    Option.map
      (λ o. record {
        properties = [];
        required = [];
        schema = none;
        type_name = "object";
        extra = o;
      })
      (members_of v)

abbrev legacy_input_value : LegacyWire.ToolInputSchema serde → Option Tree
legacy_input_value s = some (object (member "type" (text s.type_name) s.extra))

abbrev legacy_output_value : LegacyWire.ToolOutputSchema serde → Option Tree
legacy_output_value s = some (object s.extra)

abbrev note : Neutral.Annotations serde
note = record {
  audience = Neutral.user ∷ Neutral.assistant ∷ [];
  priority = some 1;
  last_modified = some "2025-01-12T15:00:58Z";
}

abbrev icon : Neutral.Icon
icon = record {
  src = "https://example.org/icon.png";
  mime_type = some "image/png";
  sizes = "48x48" ∷ [];
  theme = some Neutral.dark;
}

abbrev tool : Neutral.Tool serde
tool = record {
  name = "weather";
  title = some "Weather";
  description = none;
  input_schema = schema;
  output_schema = some schema;
  task_support = some Neutral.optional;
  annotations = some (record {
    title = none;
    read_only_hint = some true;
    destructive_hint = none;
    idempotent_hint = none;
    open_world_hint = some false;
  });
  icons = icon ∷ [];
  meta = member "org.example/key" (number 1) nil;
}

abbrev pub log : Neutral.Resource serde
log = record {
  uri = "file:///log";
  name = "log";
  title = none;
  description = some "A log";
  mime_type = some "text/plain";
  size = some (2 ^ 63 + 5);
  annotations = some note;
  icons = [];
  meta = nil;
}

abbrev pub linked : Neutral.Content serde
linked = Neutral.resource_link log

abbrev pub tools : Neutral.ListToolsResult serde
tools = record { tools = tool ∷ []; next_cursor = some "1"; cache = none }

abbrev pub call : Neutral.CallToolResult serde
call = record {
  content =
      Neutral.text "sunny" (some note) nil
      ∷ Neutral.audio "AAAA" "audio/wav" none nil
      ∷ linked
      ∷ [];
  is_error = false;
  structured_content = some (number 3);
}

abbrev pub resources : Neutral.ListResourcesResult serde
resources = record {
  resources = log ∷ [];
  next_cursor = none;
  cache = some (record { ttl_ms = 5000; scope = Neutral.public_scope });
}

abbrev read : Neutral.ReadResourceResult serde
read = record {
  contents = Neutral.text_contents "file:///log" none "started" nil ∷ [];
  cache = none;
}

abbrev template : Neutral.ResourceTemplate serde
template = record {
  uri_template = "file:///{name}";
  name = "file";
  title = none;
  description = none;
  mime_type = none;
  annotations = none;
  icons = [];
  meta = nil;
}

abbrev templates : Neutral.ListResourceTemplatesResult serde
templates = record { resource_templates = template ∷ []; next_cursor = none; cache = none }

abbrev review : Neutral.Prompt serde
review = record {
  name = "review";
  title = none;
  description = none;
  arguments = record { name = "code"; title = none; description = none; required = true } ∷ [];
  icons = [];
  meta = nil;
}

abbrev prompts : Neutral.ListPromptsResult serde
prompts = record { prompts = review ∷ []; next_cursor = none; cache = none }

abbrev prompt : Neutral.GetPromptResult serde
prompt = record {
  description = none;
  messages = record { role = Neutral.user; content = linked } ∷ [];
}

abbrev completion : Neutral.CompleteResult
completion = record { values = "a" ∷ "b" ∷ []; total = some 7; has_more = some true }

narrow-widen_draft_results_example :
    (DraftNarrow.narrow_list_tools serde draft_input_value draft_output_value
        (DraftWiden.widen_list_tools serde draft_input draft_output tools)
      ≡ record tools {
        tools =
            map
              (DraftTrip.tool_through serde draft_input draft_output draft_input_value
                draft_output_value)
              tools.tools;
        cache = some Neutral.no_cache;
      })
    × (DraftNarrow.narrow_call_tool serde
          (DraftReceived.received_call_tool serde (DraftWiden.widen_call_tool serde call))
        ≡ kept_call_tool serde call)
    × (DraftNarrow.narrow_list_resources serde (DraftWiden.widen_list_resources serde resources)
        ≡ record (kept_list_resources serde resources) { cache = resources.cache })
    × (DraftNarrow.narrow_read_resource serde (DraftWiden.widen_read_resource serde read)
        ≡ record read { cache = some Neutral.no_cache })
    × (DraftNarrow.narrow_list_resource_templates serde
          (DraftWiden.widen_list_resource_templates serde templates)
        ≡ record templates { cache = some Neutral.no_cache })
    × (DraftNarrow.narrow_list_prompts serde (DraftWiden.widen_list_prompts serde prompts)
        ≡ record prompts { cache = some Neutral.no_cache })
    × (DraftNarrow.narrow_get_prompt serde
          (DraftReceived.received_get_prompt serde (DraftWiden.widen_get_prompt serde prompt))
        ≡ kept_get_prompt serde prompt)
    × (DraftNarrow.narrow_complete serde (DraftWiden.widen_complete serde completion)
        ≡ record completion { total = Option.map capped completion.total })
    × (map (DraftTrip.block_tag serde) (DraftWiden.widen_call_tool serde call).content
        ≡ "text" ∷ "audio" ∷ "resource_link" ∷ [])
    × (map
          (λ m. DraftTrip.block_tag serde m.content)
          (DraftWiden.widen_get_prompt serde prompt).messages
        ≡ map (λ m. kind_tag serde m.content) prompt.messages)
    × (◌≡◌ {A = List String}
        ((DraftWiden.widen_list_tools serde draft_input draft_output tools).result_type
          ∷ (DraftWiden.widen_call_tool serde call).result_type
          ∷ (DraftWiden.widen_list_resources serde resources).result_type
          ∷ (DraftWiden.widen_read_resource serde read).result_type
          ∷ (DraftWiden.widen_list_resource_templates serde templates).result_type
          ∷ (DraftWiden.widen_list_prompts serde prompts).result_type
          ∷ (DraftWiden.widen_get_prompt serde prompt).result_type
          ∷ (DraftWiden.widen_complete serde completion).result_type
          ∷ [])
        (DraftTrip.complete ∷ DraftTrip.complete ∷ DraftTrip.complete ∷ DraftTrip.complete
          ∷ DraftTrip.complete ∷ DraftTrip.complete ∷ DraftTrip.complete ∷ DraftTrip.complete ∷ []))
narrow-widen_draft_results_example =
    DraftTrip.narrow-widen_draft_results serde draft_input draft_output draft_input_value
      draft_output_value tools call resources read templates prompts prompt completion

narrow-widen_legacy_results_example :
    (LegacyNarrow.narrow_list_tools serde legacy_input_value legacy_output_value
        (LegacyWiden.widen_list_tools serde legacy_input legacy_output tools)
      ≡ record tools {
        tools =
            map
              (LegacyTrip.tool_through serde legacy_input legacy_output legacy_input_value
                legacy_output_value)
              tools.tools;
        cache = none;
      })
    × (LegacyNarrow.narrow_call_tool serde
          (LegacyReceived.received_call_tool serde (LegacyWiden.widen_call_tool serde call))
        ≡ record (kept_call_tool serde call) { structured_content = none })
    × (LegacyNarrow.narrow_list_resources serde (LegacyWiden.widen_list_resources serde resources)
        ≡ record (kept_list_resources serde resources) { cache = none })
    × (LegacyNarrow.narrow_read_resource serde (LegacyWiden.widen_read_resource serde read)
        ≡ record read { cache = none })
    × (LegacyNarrow.narrow_list_resource_templates serde
          (LegacyWiden.widen_list_resource_templates serde templates)
        ≡ record templates { cache = none })
    × (LegacyNarrow.narrow_list_prompts serde (LegacyWiden.widen_list_prompts serde prompts)
        ≡ record prompts { cache = none })
    × (LegacyNarrow.narrow_get_prompt serde
          (LegacyReceived.received_get_prompt serde (LegacyWiden.widen_get_prompt serde prompt))
        ≡ kept_get_prompt serde prompt)
    × (LegacyNarrow.narrow_complete serde (LegacyWiden.widen_complete serde completion)
        ≡ record completion { total = Option.map capped completion.total })
    × (map (LegacyTrip.block_tag serde) (LegacyWiden.widen_call_tool serde call).content
        ≡ "text" ∷ "audio" ∷ "resource_link" ∷ [])
    × (map
          (λ m. LegacyTrip.block_tag serde m.content)
          (LegacyWiden.widen_get_prompt serde prompt).messages
        ≡ map (λ m. kind_tag serde m.content) prompt.messages)
narrow-widen_legacy_results_example =
    LegacyTrip.narrow-widen_legacy_results serde legacy_input legacy_output legacy_input_value
      legacy_output_value tools call resources read templates prompts prompt completion

abbrev schemas : Schemas serde
schemas = record {
  draft_input_from = draft_input;
  draft_output_from = draft_output;
  draft_input_value = draft_input_value;
  draft_output_value = draft_output_value;
  legacy_input_from = legacy_input;
  legacy_output_from = legacy_output;
  legacy_input_value = legacy_input_value;
  legacy_output_value = legacy_output_value;
}

versions_agree_example :
    (bare_tools serde (draft_tools serde schemas tools)
      ≡ bare_tools serde (legacy_tools serde schemas tools))
    × (record (draft_call serde call) {
      structured_content =
          LegacyTrip.filled_object serde (draft_call serde call).structured_content;
    }
        ≡ legacy_call serde call)
    × (record (DraftNarrow.narrow_list_resources serde
          (DraftWiden.widen_list_resources serde resources)) { cache = none }
        ≡ LegacyNarrow.narrow_list_resources serde
            (LegacyWiden.widen_list_resources serde resources))
    × (record (DraftNarrow.narrow_read_resource serde (DraftWiden.widen_read_resource serde read)) {
      cache = none;
    }
        ≡ LegacyNarrow.narrow_read_resource serde (LegacyWiden.widen_read_resource serde read))
    × (record (DraftNarrow.narrow_list_resource_templates serde
          (DraftWiden.widen_list_resource_templates serde templates)) { cache = none }
        ≡ LegacyNarrow.narrow_list_resource_templates serde
            (LegacyWiden.widen_list_resource_templates serde templates))
    × (record (DraftNarrow.narrow_list_prompts serde
          (DraftWiden.widen_list_prompts serde prompts)) { cache = none }
        ≡ LegacyNarrow.narrow_list_prompts serde (LegacyWiden.widen_list_prompts serde prompts))
    × (DraftNarrow.narrow_get_prompt serde
          (DraftReceived.received_get_prompt serde (DraftWiden.widen_get_prompt serde prompt))
        ≡ LegacyNarrow.narrow_get_prompt serde
            (LegacyReceived.received_get_prompt serde (LegacyWiden.widen_get_prompt serde prompt)))
    × (DraftNarrow.narrow_complete serde (DraftWiden.widen_complete serde completion)
        ≡ LegacyNarrow.narrow_complete serde (LegacyWiden.widen_complete serde completion))
versions_agree_example =
    versions_agree serde schemas tools call resources read templates prompts prompt completion
