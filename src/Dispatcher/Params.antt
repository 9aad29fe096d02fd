-- ===== src/Dispatcher/Params.antt =====
-- crates/turbomcp-server/src/dispatcher/params.rs: the contexts of requests and the parsers of
-- their parameters.
use mathlib.Core.Option
use Prim.Native.String
use turbomcp.Prelude.{
  ℕ, String, Option, none, some, [], Result, ok, err, if◌then◌else◌, ◌==◌, string_key,
}
use turbomcp.Prelude.Int.{minus}
use turbomcp.Core.Json.{member, ◌>>=◌}
use turbomcp.Core.Error.{McpError, invalid_params}
use turbomcp.Core.Version.{latest}
use turbomcp.Core.Context.{LogLevel}
use turbomcp.Core.JsonRpc.{JsonRpcRequest, JsonRpcError}
use turbomcp.Core.Meta.{
  request_protocol_version, session_id, extract_identity, extract_trace_context, partition,
  client_info_key, client_capabilities_key, log_level_key,
}
use turbomcp.Core.Methods as Methods
use turbomcp.Core.ServiceError.{ProtocolError, unknown_session}
use turbomcp.Prelude.HashMap.{HashMap}
use turbomcp.Sessions.Store.{SessionStore, SessionState}
use turbomcp.Sessions.Store as Sessions
use turbomcp.Neutral.Types.{
  ListParams, CallToolParams, ReadResourceParams, GetPromptParams, CompleteParams,
  CompletionReference,
}
use turbomcp.Neutral.Types as Neutral
use turbomcp.Dispatcher.Frames.{RawClientInfo, RawCompletionRef, RawCompletionContext}
use turbomcp.Dispatcher.Platform.{Platform, json, serde}
use turbomcp.Dispatcher.Context.{
  RequestContext, new_context, new_implementation, with_client_info, with_propagated_meta,
}
use turbomcp.Dispatcher.Responses.{Message, reply_error}

-- `Result::map_err` with a text before the error's, and `ok_or_else`.
abbrev pub or_invalid {ℓ} : {A : Type ℓ} → String → Result A String → Result A McpError
or_invalid text (ok a) = ok a
or_invalid text (err e) = err (invalid_params (String.◌++◌ text e))

abbrev pub or_missing {ℓ} : {A : Type ℓ} → String → Option A → Result A McpError
or_missing text none = err (invalid_params text)
or_missing text (some a) = ok a

infixl 5 ◌>>=ᵣ◌
-- The `?` of a fallible function.
abbrev pub ◌>>=ᵣ◌ {ℓ κ ι} :
    {A : Type ℓ} {B : Type κ} {E : Type ι} → Result A E → (A → Result B E) → Result B E
ok a >>=ᵣ f = f a
err e >>=ᵣ f = err e

abbrev pub map_ok {ℓ κ ι} :
    {A : Type ℓ} {B : Type κ} {E : Type ι} → (A → B) → Result A E → Result B E
map_ok f (ok a) = ok (f a)
map_ok f (err e) = err e

-- `Result::ok`.
abbrev pub to_option {ℓ κ} : {A : Type ℓ} {E : Type κ} → Result A E → Option A
to_option (ok a) = some a
to_option (err _) = none

module _ (P : Platform) where
  abbrev pub Value : Type 0
  Value = (json P).Value

  abbrev pub Ctx : Type 0
  Ctx = RequestContext (json P)

  -- The `_meta` of a request, where it is an object.
  abbrev pub meta_of : Option Value → Option (json P).Object
  meta_of params = params >>= member (json P) "_meta" >>= (json P).as_object

  -- The identity, the trace and the propagated `_meta` of a request.
  abbrev pub with_meta : (json P).Object → Ctx → Ctx
  with_meta m ctx = with_propagated_meta (json P) (partition (json P) m).1 (record ctx {
    identity = extract_identity (json P) m;
    trace_context = extract_trace_context (json P) m;
  })

  -- How `legacy_context` ends: with the context of a live session, with an answer to a connection
  -- that never ran `initialize`, or with the error of a session that is not live.
  pub data Gate : Type 0 where
    live : Ctx → Gate
    answered : Message P → Gate
    gone : ProtocolError → Gate

  abbrev pub not_initialized : JsonRpcError Value
  not_initialized = record {
    code = minus 32002;
    message = "server not initialized: send `initialize` first";
    details = none;
  }

  abbrev pub session_context : ℕ → SessionState (json P) → Option Value → Ctx
  session_context token state params =
      let ctx =
        record (with_client_info (json P) state.client_info
          (new_context (json P) state.version token)) {
            client_capabilities = some state.client_capabilities;
            log_level = state.log_level;
          } in
      elim (meta_of params) [ none ↦ ctx | some m ↦ with_meta m ctx ]

  -- The clock of the lookup and the token of the new context are arguments.
  unfoldable pub legacy_context :
      ℕ → ℕ → SessionStore (json P) → JsonRpcRequest Value → SessionStore (json P) × Gate
  legacy_context now token sessions req = elim (session_id (json P) req.params) [
    | none ↦ (sessions, answered (reply_error P req.id not_initialized))
    | some sid ↦
        let (touched, found) = Sessions.get (json P) now sid sessions in
        elim found [
          | none ↦ (touched, gone (unknown_session sid))
          | some state ↦ (touched, live (session_context token state req.params))
        ]
  ]

  abbrev pub with_raw_client_info : Option RawClientInfo → Ctx → Ctx
  with_raw_client_info none ctx = ctx
  with_raw_client_info (some info) ctx =
      with_client_info (json P)
        (record (new_implementation (json P) info.name info.version) { title = info.title }) ctx

  abbrev pub with_capabilities : Option Value → Ctx → Ctx
  with_capabilities none ctx = ctx
  with_capabilities (some caps) ctx = record ctx { client_capabilities = some caps }

  abbrev pub with_consumed : (json P).Object → Ctx → Ctx
  with_consumed consumed ctx =
      let info = (json P).get client_info_key consumed >>= λ v. to_option (P.from_client_info v) in
      with_capabilities ((json P).get client_capabilities_key consumed)
        (with_raw_client_info info ctx)

  unfoldable pub build_context : ℕ → JsonRpcRequest Value → Ctx
  build_context token req =
      let version = Option.get_or (request_protocol_version (json P) req.params) latest in
      let ctx = new_context (json P) version token in
      elim (meta_of req.params) [
        | none ↦ ctx
        | some m ↦ with_consumed (partition (json P) m).0 (with_meta m ctx)
      ]

  unfoldable pub parse_call_tool_params :
      Option Value → Result (CallToolParams (serde P.base)) McpError
  parse_call_tool_params params = or_missing "tools/call requires params" params >>=ᵣ λ p.
      or_invalid "invalid tools/call params: " (P.from_call_tool p) >>=ᵣ λ raw.
      ok (record { name = raw.name; arguments = raw.arguments })

  unfoldable pub parse_list_params : Option Value → ListParams
  parse_list_params params = record {
    cursor = params >>= member (json P) "cursor" >>= (json P).as_str;
  }

  unfoldable pub parse_set_level_params : Option Value → Result LogLevel McpError
  parse_set_level_params params =
      or_missing "logging/setLevel requires a level" (params >>= member (json P) "level")
      >>=ᵣ λ level. elim (P.from_log_level level) [
        | ok l ↦ ok l
        | err _ ↦ err (invalid_params (String.◌++◌ "invalid log level: " (P.value_text level)))
      ]

  unfoldable pub extract_log_level : Option Value → Result (Option LogLevel) McpError
  extract_log_level params =
      elim (params >>= member (json P) "_meta" >>= member (json P) log_level_key) [
        | none ↦ ok none
        | some value ↦ elim (P.from_log_level value) [
          | ok l ↦ ok (some l)
          | err _ ↦ err (invalid_params (String.◌++◌ "invalid logLevel: " (P.value_text value)))
        ]
      ]

  unfoldable pub parse_uri_param : Option Value → String → Result String McpError
  parse_uri_param params method =
      or_missing (String.◌++◌ method " requires params") params >>=ᵣ λ p.
      or_invalid (String.◌++◌ "invalid " (String.◌++◌ method " params: ")) (P.from_read_resource p)
      >>=ᵣ λ raw. ok raw.uri

  unfoldable pub parse_read_resource_params : Option Value → Result ReadResourceParams McpError
  unfolding parse_uri_param
  parse_read_resource_params params =
      map_ok (λ uri. record { uri = uri }) (parse_uri_param params Methods.resources_read)

  unfoldable pub parse_get_prompt_params : Option Value → Result GetPromptParams McpError
  parse_get_prompt_params params = or_missing "prompts/get requires params" params >>=ᵣ λ p.
      or_invalid "invalid prompts/get params: " (P.from_get_prompt p) >>=ᵣ λ raw.
      ok (record { name = raw.name; arguments = raw.arguments })

  unfoldable pub reference_of : RawCompletionRef → Result CompletionReference McpError
  reference_of r =
      if r.type_name == "ref/prompt"
      then map_ok Neutral.prompt (or_missing "ref/prompt completion requires `name`" r.name)
      else if r.type_name == "ref/resource"
      then map_ok Neutral.resource_template
          (or_missing "ref/resource completion requires `uri`" r.uri)
      else err (invalid_params (String.◌++◌ "unknown completion ref type: " r.type_name))

  abbrev pub arguments_of : Option RawCompletionContext → HashMap String String
  arguments_of none = []
  arguments_of (some c) = c.arguments

  unfoldable pub parse_complete_params : Option Value → Result CompleteParams McpError
  unfolding reference_of
  parse_complete_params params = or_missing "completion/complete requires params" params >>=ᵣ λ p.
      or_invalid "invalid completion/complete params: " (P.from_complete p) >>=ᵣ λ raw.
      reference_of raw.reference >>=ᵣ λ reference. ok (record {
        reference = reference;
        argument = record { name = raw.argument.name; value = raw.argument.value };
        context_arguments = arguments_of raw.context;
      })
