-- ===== src/Dispatcher/Handshake.antt =====
-- crates/turbomcp-server/src/dispatcher/handshake.rs: `initialize`, `server/discover`, and the
-- server's identity in the `_meta` of results.
pub mod Stamp
unfoldable pub use Stamp.*
use mathlib.Core.Option
use Prim.Native.String
use turbomcp.Prelude.{
  ℕ, Bool, true, String, Option, none, some, List, [], ◌∷◌, map, is_empty, Result, ok, err,
  if◌then◌else◌,
}
use turbomcp.Core.Json.{◌>>=◌}
use turbomcp.Core.Error.{internal, invalid_params}
use turbomcp.Core.Version.{ProtocolVersion, v2025_11_25, latest, from_wire, as_str, lists}
use turbomcp.Core.Context.{Implementation}
use turbomcp.Core.JsonRpc.{RequestId, JsonRpcRequest}
use turbomcp.Core.JsonRpc
use turbomcp.Core.Meta.{session_id}
use turbomcp.Sessions.Store.{SessionStore, SessionState}
use turbomcp.Sessions.Store as Sessions
use turbomcp.Neutral.Types.{CachePolicy, CacheScope, public_scope, private_scope}
use turbomcp.Neutral.Legacy.Wire as Legacy
use turbomcp.Dispatcher.Frames.{LegacyServerCapabilities, DiscoverResultCacheScope}
use turbomcp.Dispatcher.Platform.{
  Platform, json, InitializeRequestParams, InitializeResult, DiscoverResult,
}
use turbomcp.Dispatcher.Context.{new_implementation}
use turbomcp.Dispatcher.Router.{
  MethodRouter, Extension, has_tools, has_resources, has_prompts, has_completions, has_logging,
}
use turbomcp.Dispatcher.Responses.{Message, reply_success, error_response}

unfoldable pub negotiate_initialize_version : String → List ProtocolVersion → ProtocolVersion
negotiate_initialize_version requested supported =
    if lists supported (from_wire requested)
    then from_wire requested
    else if lists supported v2025_11_25
    then v2025_11_25
    else elim supported [ [] ↦ latest | v ∷ _ ↦ v ]

abbrev pub when : {A : Type 0} → Bool → A → Option A
when b a = if b then some a else none

abbrev pub discover_scope : CacheScope → DiscoverResultCacheScope
discover_scope public_scope = DiscoverResultCacheScope.public_scope
discover_scope private_scope = DiscoverResultCacheScope.private_scope

module _ (P : Platform) where
  abbrev pub Value : Type 0
  Value = (json P).Value

  -- `to_legacy_impl`.
  abbrev pub to_legacy_implementation : Implementation (json P) → Legacy.Implementation
  to_legacy_implementation i = record {
    description = none;
    icons = [];
    name = i.name;
    title = i.title;
    version = i.version;
    website_url = none;
  }

  -- `from_legacy_impl`.
  abbrev pub from_legacy_implementation : Legacy.Implementation → Implementation (json P)
  from_legacy_implementation i = record (new_implementation (json P) i.name i.version) {
    title = i.title;
  }

  unfoldable pub build_legacy_capabilities : MethodRouter P → LegacyServerCapabilities (json P)
  build_legacy_capabilities router = record {
    completions = (json P).empty;
    experimental = [];
    logging = (json P).empty;
    prompts = when (has_prompts P router) (record { list_changed = some true });
    resources =
        when (has_resources P router) (record { list_changed = some true; subscribe = some true });
    tasks = none;
    tools = when (has_tools P router) (record { list_changed = some true });
  }

  -- `json!({ "list": {}, "cancel": {}, "requests": { "tools": { "call": {} } } })`.
  abbrev pub tasks_capability : Value
  tasks_capability =
      let J = json P in
      let none_yet = J.object J.empty in
      let tools = J.object (J.insert "call" none_yet J.empty) in
      let requests = J.object (J.insert "tools" tools J.empty) in
      J.object (
        J.insert "list" none_yet
          (J.insert "cancel" none_yet (J.insert "requests" requests J.empty)))

  abbrev pub insert_if : Bool → String → Value → (json P).Object → (json P).Object
  insert_if b k v o = if b then (json P).insert k v o else o

  -- The presence markers that `handle_initialize` patches into the serialized capabilities.
  unfoldable pub patched_capabilities : MethodRouter P → Bool → (json P).Object → (json P).Object
  patched_capabilities router tasks_enabled caps =
      let marker = (json P).object (json P).empty in
      insert_if tasks_enabled "tasks" tasks_capability (
        insert_if (has_logging P router) "logging" marker
          (insert_if (has_completions P router) "completions" marker caps))

  -- A member of an object that is an object, changed in place.
  abbrev pub update_member : String → ((json P).Object → (json P).Object) → Value → Value
  update_member key f v = elim ((json P).as_object v) [
    | none ↦ v
    | some o ↦ elim ((json P).get key o >>= (json P).as_object) [
      | none ↦ v
      | some inner ↦ (json P).object ((json P).insert key ((json P).object (f inner)) o)
    ]
  ]

  -- What a server says of itself, and what `initialize` and `server/discover` read of it.
  pub record ServerCore : Type 0 where
    pub server_info : Implementation (json P)
    pub instructions : Option String

  abbrev pub or_null : Result Value String → Value
  or_null (ok v) = v
  or_null (err _) = (json P).null

  -- The state that `initialize` stores for the session.
  unfoldable pub opened_session :
      ProtocolVersion → InitializeRequestParams P.base P.ClientCapabilities → SessionState (json P)
  opened_session negotiated params = record {
    version = negotiated;
    client_info = from_legacy_implementation params.client_info;
    client_capabilities = or_null (P.capabilities_value params.capabilities);
    log_level = none;
  }

  abbrev pub store_session :
      ℕ → Option String → SessionState (json P) → SessionStore (json P) → SessionStore (json P)
  store_session now none state sessions = sessions
  store_session now (some sid) state sessions = Sessions.insert (json P) now sid state sessions

  unfoldable pub initialize_result :
      ServerCore → MethodRouter P → ProtocolVersion → InitializeResult P.base
  unfolding build_legacy_capabilities
  initialize_result server router negotiated = record {
    capabilities = build_legacy_capabilities router;
    instructions = server.instructions;
    meta = (json P).empty;
    protocol_version = as_str negotiated;
    server_info = to_legacy_implementation server.server_info;
  }

  unfoldable pub handle_initialize :
      ℕ
      → ServerCore
      → MethodRouter P
      → List ProtocolVersion
      → SessionStore (json P)
      → Bool
      → JsonRpcRequest Value
      → SessionStore (json P) × Message P
  unfolding opened_session initialize_result patched_capabilities
  handle_initialize now server router supported sessions tasks_enabled req = elim req.params [
    | none ↦ (sessions, error_response P req.id (invalid_params "initialize requires params"))
    | some raw ↦ elim (P.from_initialize raw) [
      | err e ↦ (
        sessions,
        error_response P req.id (invalid_params (String.◌++◌ "invalid initialize params: " e)),
      )
      | ok params ↦
          let negotiated = negotiate_initialize_version params.protocol_version supported in
          let stored =
            store_session now (session_id (json P) req.params) (opened_session negotiated params)
              sessions in
          elim (P.initialize_value (initialize_result server router negotiated)) [
            | err e ↦
                (stored, error_response P req.id (internal (String.◌++◌ "serialize result: " e)))
            | ok value ↦ (
              stored,
              reply_success P req.id
                  (update_member "capabilities" (patched_capabilities router tasks_enabled) value),
            )
          ]
    ]
  ]

  unfoldable pub build_discover_result :
      ServerCore → MethodRouter P → List ProtocolVersion → CachePolicy → DiscoverResult P.base
  build_discover_result server router supported cache = record {
    cache_scope = discover_scope cache.scope;
    capabilities = record {
      completions = when (has_completions P router) [];
      experimental = [];
      extensions = [];
      logging = when (has_logging P router) [];
      prompts = when (has_prompts P router) (record { list_changed = some true });
      resources =
          when (has_resources P router)
            (record { list_changed = some true; subscribe = some true });
      tools = when (has_tools P router) (record { list_changed = some true });
    };
    instructions = server.instructions;
    meta = some (record {
      io_modelcontextprotocol_server_info = some (to_draft_implementation P server.server_info);
      extra = (json P).empty;
    });
    result_type = "complete";
    supported_versions = map as_str supported;
    ttl_ms = cache.ttl_ms;
  }

  -- `ext_map.insert(ext.id(), ext.settings())`, for each extension.
  unfoldable pub with_settings : List (Extension P) → (json P).Object → (json P).Object
  with_settings [] o = o
  with_settings (e ∷ es) o = with_settings es ((json P).insert e.id e.settings o)

  -- The `extensions` member of the capabilities, made if it is missing.
  unfoldable pub with_extensions : List (Extension P) → (json P).Object → (json P).Object
  unfolding with_settings
  with_extensions es caps =
      let J = json P in
      let entry = Option.get_or (J.get "extensions" caps) (J.object J.empty) in
      let kept = J.insert "extensions" entry caps in
      elim (J.as_object entry) [
        | none ↦ kept
        | some o ↦ J.insert "extensions" (J.object (with_settings es o)) kept
      ]

  unfoldable pub discover_response :
      RequestId
      → ServerCore
      → MethodRouter P
      → List ProtocolVersion
      → List (Extension P)
      → CachePolicy
      → Message P
  unfolding with_extensions build_discover_result
  discover_response id server router supported extensions cache =
      elim (P.discover_value (build_discover_result server router supported cache)) [
        | err e ↦ error_response P id (internal (String.◌++◌ "serialize result: " e))
        | ok value ↦ reply_success P id (
            if is_empty extensions
            then value
            else update_member "capabilities" (with_extensions extensions) value)
      ]
