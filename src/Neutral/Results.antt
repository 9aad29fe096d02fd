-- ===== src/Neutral/Results.antt =====
-- crates/turbomcp-protocol/src/neutral.rs: the constructors and the builder methods of tools, prompts
-- and the results that handlers return.
use turbomcp.Prelude.{Bool, true, false, String, none, some, List, [], ◌∷◌, ◌++◌}
use turbomcp.Neutral.Serde.{Serde}
use turbomcp.Neutral.Types.{
  user, assistant, Icon, TaskSupport, ToolAnnotations, CachePolicy, PromptArgument, ElicitAction,
  Annotations, ResourceContents, Resource, Content, Tool, ListToolsResult, CallToolParams,
  CallToolResult, ListResourcesResult, ReadResourceResult, ResourceTemplate,
  ListResourceTemplatesResult, Prompt, PromptMessage, ListPromptsResult, GetPromptResult,
  ElicitParams, ElicitOutcome,
}
use turbomcp.Neutral.Builders.{contents_text, content_text, is_accept}

module _ (S : Serde) where
  open S use {json}
  open json use {Value, Object}

  unfoldable pub new_tool : String → Value → Tool S
  new_tool name input_schema = record {
    name = name;
    title = none;
    description = none;
    input_schema = input_schema;
    output_schema = none;
    task_support = none;
    annotations = none;
    icons = [];
    meta = json.empty;
  }

  unfoldable pub tool_with_annotations : ToolAnnotations → Tool S → Tool S
  tool_with_annotations x v = record v { annotations = some x }

  unfoldable pub tool_with_icon : Icon → Tool S → Tool S
  tool_with_icon icon v = record v { icons = v.icons ++ icon ∷ [] }

  unfoldable pub tool_with_meta_entry : String → Value → Tool S → Tool S
  tool_with_meta_entry key value v = record v { meta = json.insert key value v.meta }

  unfoldable pub tool_with_description : String → Tool S → Tool S
  tool_with_description x v = record v { description = some x }

  unfoldable pub tool_with_output_schema : Value → Tool S → Tool S
  tool_with_output_schema x v = record v { output_schema = some x }

  unfoldable pub tool_with_task_support : TaskSupport → Tool S → Tool S
  tool_with_task_support x v = record v { task_support = some x }

  unfoldable pub tool_with_title : String → Tool S → Tool S
  tool_with_title x v = record v { title = some x }

  unfoldable pub new_list_tools_result : List (Tool S) → ListToolsResult S
  new_list_tools_result tools = record { tools = tools; next_cursor = none; cache = none }

  unfoldable pub list_tools_result_with_cache : CachePolicy → ListToolsResult S → ListToolsResult S
  list_tools_result_with_cache x v = record v { cache = some x }

  unfoldable pub new_call_tool_params : String → Object → CallToolParams S
  new_call_tool_params name arguments = record { name = name; arguments = arguments }

  unfoldable pub new_call_tool_result : List (Content S) → CallToolResult S
  new_call_tool_result content = record {
    content = content;
    is_error = false;
    structured_content = none;
  }

  unfoldable pub call_tool_result_text : String → CallToolResult S
  unfolding new_call_tool_result content_text
  call_tool_result_text s = new_call_tool_result (content_text S s ∷ [])

  unfoldable pub call_tool_result_error : String → CallToolResult S
  unfolding content_text
  call_tool_result_error s = record {
    content = content_text S s ∷ [];
    is_error = true;
    structured_content = none;
  }

  unfoldable pub new_list_resources_result : List (Resource S) → ListResourcesResult S
  new_list_resources_result resources = record {
    resources = resources;
    next_cursor = none;
    cache = none;
  }

  unfoldable pub list_resources_result_with_cache :
      CachePolicy → ListResourcesResult S → ListResourcesResult S
  list_resources_result_with_cache x v = record v { cache = some x }

  unfoldable pub new_read_resource_result : List (ResourceContents S) → ReadResourceResult S
  new_read_resource_result contents = record { contents = contents; cache = none }

  unfoldable pub read_resource_result_with_cache :
      CachePolicy → ReadResourceResult S → ReadResourceResult S
  read_resource_result_with_cache x v = record v { cache = some x }

  unfoldable pub read_resource_result_text : String → String → ReadResourceResult S
  unfolding new_read_resource_result contents_text
  read_resource_result_text uri body = new_read_resource_result (contents_text S uri body ∷ [])

  unfoldable pub new_resource_template : String → String → ResourceTemplate S
  new_resource_template uri_template name = record {
    uri_template = uri_template;
    name = name;
    title = none;
    description = none;
    mime_type = none;
    annotations = none;
    icons = [];
    meta = json.empty;
  }

  unfoldable pub resource_template_with_annotations :
      Annotations S → ResourceTemplate S → ResourceTemplate S
  resource_template_with_annotations x v = record v { annotations = some x }

  unfoldable pub resource_template_with_icon : Icon → ResourceTemplate S → ResourceTemplate S
  resource_template_with_icon icon v = record v { icons = v.icons ++ icon ∷ [] }

  unfoldable pub resource_template_with_meta_entry :
      String → Value → ResourceTemplate S → ResourceTemplate S
  resource_template_with_meta_entry key value v = record v { meta = json.insert key value v.meta }

  unfoldable pub resource_template_with_description :
      String → ResourceTemplate S → ResourceTemplate S
  resource_template_with_description x v = record v { description = some x }

  unfoldable pub resource_template_with_title : String → ResourceTemplate S → ResourceTemplate S
  resource_template_with_title x v = record v { title = some x }

  unfoldable pub resource_template_with_mime_type : String → ResourceTemplate S → ResourceTemplate S
  resource_template_with_mime_type x v = record v { mime_type = some x }

  unfoldable pub new_list_resource_templates_result :
      List (ResourceTemplate S) → ListResourceTemplatesResult S
  new_list_resource_templates_result resource_templates = record {
    resource_templates = resource_templates;
    next_cursor = none;
    cache = none;
  }

  unfoldable pub list_resource_templates_result_with_cache :
      CachePolicy → ListResourceTemplatesResult S → ListResourceTemplatesResult S
  list_resource_templates_result_with_cache x v = record v { cache = some x }

  unfoldable pub new_prompt : String → Prompt S
  new_prompt name = record {
    name = name;
    title = none;
    description = none;
    arguments = [];
    icons = [];
    meta = json.empty;
  }

  unfoldable pub prompt_with_icon : Icon → Prompt S → Prompt S
  prompt_with_icon icon v = record v { icons = v.icons ++ icon ∷ [] }

  unfoldable pub prompt_with_meta_entry : String → Value → Prompt S → Prompt S
  prompt_with_meta_entry key value v = record v { meta = json.insert key value v.meta }

  unfoldable pub prompt_with_description : String → Prompt S → Prompt S
  prompt_with_description x v = record v { description = some x }

  unfoldable pub prompt_with_title : String → Prompt S → Prompt S
  prompt_with_title x v = record v { title = some x }

  unfoldable pub prompt_with_argument : PromptArgument → Prompt S → Prompt S
  prompt_with_argument x v = record v { arguments = v.arguments ++ x ∷ [] }

  unfoldable pub user_message : Content S → PromptMessage S
  user_message content = record { role = user; content = content }

  unfoldable pub assistant_message : Content S → PromptMessage S
  assistant_message content = record { role = assistant; content = content }

  unfoldable pub user_text : String → PromptMessage S
  unfolding user_message content_text
  user_text s = user_message (content_text S s)

  unfoldable pub assistant_text : String → PromptMessage S
  unfolding assistant_message content_text
  assistant_text s = assistant_message (content_text S s)

  unfoldable pub new_list_prompts_result : List (Prompt S) → ListPromptsResult S
  new_list_prompts_result prompts = record { prompts = prompts; next_cursor = none; cache = none }

  unfoldable pub list_prompts_result_with_cache :
      CachePolicy → ListPromptsResult S → ListPromptsResult S
  list_prompts_result_with_cache x v = record v { cache = some x }

  unfoldable pub new_get_prompt_result : List (PromptMessage S) → GetPromptResult S
  new_get_prompt_result messages = record { description = none; messages = messages }

  unfoldable pub get_prompt_result_with_description : String → GetPromptResult S → GetPromptResult S
  get_prompt_result_with_description x v = record v { description = some x }

  unfoldable pub new_elicit_params : String → Value → ElicitParams S
  new_elicit_params message schema = record { message = message; requested_schema = schema }

  unfoldable pub new_elicit_outcome : ElicitAction → Object → ElicitOutcome S
  new_elicit_outcome action content = record { action = action; content = content }

  unfoldable pub accepted : ElicitOutcome S → Bool
  unfolding is_accept
  accepted o = is_accept o.action
