-- ===== src/Neutral/Builders.antt =====
-- crates/turbomcp-protocol/src/neutral.rs: the constructors and the builder methods of parameters,
-- annotations, resources and content blocks.
use turbomcp.Prelude.{
  ℕ, ◌-◌, ◌^◌, Bool, true, false, String, none, some, List, [], ◌∷◌, ◌++◌, leb, if◌then◌else◌,
}
use turbomcp.Prelude.HashMap.{HashMap}
use turbomcp.Neutral.Serde.{Serde}
use turbomcp.Neutral.Types.{
  Role, Icon, ToolAnnotations, CacheScope, private_scope, public_scope, CachePolicy, ListParams,
  ReadResourceParams, PromptArgument, GetPromptParams, CompleteResult, CompletionReference,
  CompletionArgument, CompleteParams, ElicitAction, accept, ElicitUrlParams, Annotations,
  ResourceContents, text_contents, blob_contents, Resource, Content, text, image, audio, resource,
  resource_link,
}

-- `u64::try_from(ttl.as_millis()).unwrap_or(u64::MAX)`.
abbrev pub u64_of_u128 : ℕ → ℕ
u64_of_u128 n = if leb n (2 ^ 64 - 1) then n else 2 ^ 64 - 1

unfoldable pub new_tool_annotations : ToolAnnotations
new_tool_annotations = record {
  title = none;
  read_only_hint = none;
  destructive_hint = none;
  idempotent_hint = none;
  open_world_hint = none;
}

unfoldable pub tool_annotations_read_only : ToolAnnotations → ToolAnnotations
tool_annotations_read_only v = record v { read_only_hint = some true }

unfoldable pub tool_annotations_destructive : Bool → ToolAnnotations → ToolAnnotations
tool_annotations_destructive x v = record v { destructive_hint = some x }

unfoldable pub tool_annotations_idempotent : Bool → ToolAnnotations → ToolAnnotations
tool_annotations_idempotent x v = record v { idempotent_hint = some x }

unfoldable pub tool_annotations_open_world : Bool → ToolAnnotations → ToolAnnotations
tool_annotations_open_world x v = record v { open_world_hint = some x }

unfoldable pub new_icon : String → Icon
new_icon src = record { src = src; mime_type = none; sizes = []; theme = none }

unfoldable pub new_list_params : ListParams
new_list_params = record { cursor = none }

unfoldable pub list_params_with_cursor : String → ListParams
list_params_with_cursor cursor = record { cursor = some cursor }

unfoldable pub private_cache : ℕ → CachePolicy
private_cache millis = record { ttl_ms = u64_of_u128 millis; scope = private_scope }

unfoldable pub public_cache : ℕ → CachePolicy
public_cache millis = record { ttl_ms = u64_of_u128 millis; scope = public_scope }

unfoldable pub cache_policy_from_wire : ℕ → CacheScope → CachePolicy
cache_policy_from_wire ttl_ms scope = record { ttl_ms = ttl_ms; scope = scope }

unfoldable pub new_read_resource_params : String → ReadResourceParams
new_read_resource_params uri = record { uri = uri }

unfoldable pub new_prompt_argument : String → PromptArgument
new_prompt_argument name = record {
  name = name;
  title = none;
  description = none;
  required = false;
}

unfoldable pub prompt_argument_required : Bool → PromptArgument → PromptArgument
prompt_argument_required x v = record v { required = x }

unfoldable pub prompt_argument_with_description : String → PromptArgument → PromptArgument
prompt_argument_with_description x v = record v { description = some x }

unfoldable pub prompt_argument_with_title : String → PromptArgument → PromptArgument
prompt_argument_with_title x v = record v { title = some x }

unfoldable pub new_get_prompt_params : String → HashMap String String → GetPromptParams
new_get_prompt_params name arguments = record { name = name; arguments = arguments }

unfoldable pub new_complete_result : List String → CompleteResult
new_complete_result values = record { values = values; total = none; has_more = none }

unfoldable pub complete_result_with_total : ℕ → CompleteResult → CompleteResult
complete_result_with_total x v = record v { total = some x }

unfoldable pub complete_result_with_has_more : Bool → CompleteResult → CompleteResult
complete_result_with_has_more x v = record v { has_more = some x }

unfoldable pub new_completion_argument : String → String → CompletionArgument
new_completion_argument name value = record { name = name; value = value }

unfoldable pub new_complete_params : CompletionReference → CompletionArgument → CompleteParams
new_complete_params reference argument = record {
  reference = reference;
  argument = argument;
  context_arguments = [];
}

unfoldable pub new_elicit_url_params : String → String → ElicitUrlParams
new_elicit_url_params message url = record { message = message; elicitation_id = none; url = url }

unfoldable pub elicit_url_params_with_elicitation_id : String → ElicitUrlParams → ElicitUrlParams
elicit_url_params_with_elicitation_id x v = record v { elicitation_id = some x }

unfoldable pub is_accept : ElicitAction → Bool
is_accept accept = true
is_accept _ = false

module _ (S : Serde) where
  open S use {json, F64}
  open json use {Value, Object}

  unfoldable pub new_annotations : Annotations S
  new_annotations = record { audience = []; priority = none; last_modified = none }

  unfoldable pub annotations_for_audience : Role → Annotations S → Annotations S
  annotations_for_audience role a = record a { audience = a.audience ++ role ∷ [] }

  unfoldable pub annotations_priority : F64 → Annotations S → Annotations S
  annotations_priority x v = record v { priority = some x }

  unfoldable pub annotations_last_modified : String → Annotations S → Annotations S
  annotations_last_modified x v = record v { last_modified = some x }

  unfoldable pub contents_text : String → String → ResourceContents S
  contents_text uri body = text_contents uri none body json.empty

  unfoldable pub contents_blob : String → String → ResourceContents S
  contents_blob uri blob = blob_contents uri none blob json.empty

  unfoldable pub contents_with_mime_type : String → ResourceContents S → ResourceContents S
  contents_with_mime_type mime (text_contents u _ t m) = text_contents u (some mime) t m
  contents_with_mime_type mime (blob_contents u _ b m) = blob_contents u (some mime) b m

  unfoldable pub contents_with_meta_entry : String → Value → ResourceContents S → ResourceContents S
  contents_with_meta_entry key value (text_contents u t c m) =
      text_contents u t c (json.insert key value m)
  contents_with_meta_entry key value (blob_contents u t c m) =
      blob_contents u t c (json.insert key value m)

  unfoldable pub new_resource : String → String → Resource S
  new_resource uri name = record {
    uri = uri;
    name = name;
    title = none;
    description = none;
    mime_type = none;
    size = none;
    annotations = none;
    icons = [];
    meta = json.empty;
  }

  unfoldable pub resource_with_title : String → Resource S → Resource S
  resource_with_title x v = record v { title = some x }

  unfoldable pub resource_with_description : String → Resource S → Resource S
  resource_with_description x v = record v { description = some x }

  unfoldable pub resource_with_mime_type : String → Resource S → Resource S
  resource_with_mime_type x v = record v { mime_type = some x }

  unfoldable pub resource_with_annotations : Annotations S → Resource S → Resource S
  resource_with_annotations x v = record v { annotations = some x }

  unfoldable pub resource_with_icon : Icon → Resource S → Resource S
  resource_with_icon icon v = record v { icons = v.icons ++ icon ∷ [] }

  unfoldable pub resource_with_meta_entry : String → Value → Resource S → Resource S
  resource_with_meta_entry key value v = record v { meta = json.insert key value v.meta }

  unfoldable pub content_text : String → Content S
  content_text s = text s none json.empty

  unfoldable pub content_image : String → String → Content S
  content_image payload mime_type = image payload mime_type none json.empty

  unfoldable pub content_audio : String → String → Content S
  content_audio payload mime_type = audio payload mime_type none json.empty

  unfoldable pub content_resource : ResourceContents S → Content S
  content_resource contents = resource contents none json.empty

  unfoldable pub content_resource_link : Resource S → Content S
  content_resource_link r = resource_link r

  unfoldable pub content_with_annotations : Annotations S → Content S → Content S
  content_with_annotations a (text t _ m) = text t (some a) m
  content_with_annotations a (image p t _ m) = image p t (some a) m
  content_with_annotations a (audio p t _ m) = audio p t (some a) m
  content_with_annotations a (resource c _ m) = resource c (some a) m
  content_with_annotations a (resource_link r) = resource_link (record r { annotations = some a })

  unfoldable pub content_with_meta_entry : String → Value → Content S → Content S
  content_with_meta_entry key value (text t a m) = text t a (json.insert key value m)
  content_with_meta_entry key value (image p t a m) = image p t a (json.insert key value m)
  content_with_meta_entry key value (audio p t a m) = audio p t a (json.insert key value m)
  content_with_meta_entry key value (resource c a m) = resource c a (json.insert key value m)
  content_with_meta_entry key value (resource_link r) =
      resource_link (record r { meta = json.insert key value r.meta })
