-- ===== src/Dispatcher/Request.antt =====
-- crates/turbomcp-server/src/dispatcher/mod.rs: how a request is routed, `handle_request`.
use mathlib.Core.Option
use turbomcp.Prelude.{
  Bool, true, false, not, ◌&&◌, ◌||◌, String, Option, none, some, List, [], ◌∷◌, ◌++◌, map, holds,
  ok, err, if◌then◌else◌, ◌==◌, string_key,
}
use turbomcp.Core.Error.{method_not_found}
use turbomcp.Core.Route.{VersionRoute, classify_version, modern, legacy, unsupported}
use turbomcp.Core.JsonRpc.{
  RequestId, JsonRpcRequest, JsonRpcNotification, JsonRpcMessage, JsonRpcError, has_valid_version,
  is_error,
}
use turbomcp.Core.JsonRpc
use turbomcp.Core.Meta.{session_id, connection_id}
use turbomcp.Core.Methods as Methods
use turbomcp.Sessions.Store.{SessionStore}
use turbomcp.Sessions.Store as Sessions
use turbomcp.Subscriptions.Legacy.{legacy_touch, legacy_subscribe, legacy_unsubscribe}
use turbomcp.Dispatcher.Platform.{Platform, json}
use turbomcp.Dispatcher.Context.{RequestContext}
use turbomcp.Dispatcher.Router.{Extension, has_tools, has_resources, has_logging}
use turbomcp.Dispatcher.Responses.{
  Message, reply_success, error_response, unsupported_version_response, context_declares_extension,
}
use turbomcp.Dispatcher.Params.{
  Gate, live, answered, gone, legacy_context, build_context, extract_log_level, parse_uri_param,
  parse_set_level_params,
}
use turbomcp.Dispatcher.Capability.{Signing, draft_wire, legacy_wire, dispatch_capability}
use turbomcp.Dispatcher.Handshake.{handle_initialize, discover_response}
use turbomcp.Dispatcher.TaskMethods.{
  has_task_field, handle_tasks_method, task_augmented_call, legacy_list_tools_with_task_support,
  replied, waiting, TaskReply, Augmented, Spawned,
}
use turbomcp.Dispatcher.Augment.{try_augment_call}
use turbomcp.Dispatcher.State.{
  Shared, Config, Readings, Effect, of_task, spawned, Reply, reply, failed, waits, Handled, answers,
  sweep_idle_sessions,
}

-- The methods that `handle_request` gates by the version.
abbrev pub is_capability : String → Bool
is_capability method =
    holds
      (Methods.tools_list ∷ Methods.tools_call ∷ Methods.resources_list
        ∷ Methods.resources_templates_list ∷ Methods.resources_read ∷ Methods.prompts_list
        ∷ Methods.prompts_get ∷ Methods.completion_complete ∷ [])
      method

abbrev pub is_subscription : String → Bool
is_subscription method =
    (method == Methods.resources_subscribe) || (method == Methods.resources_unsubscribe)

abbrev pub is_task_method : String → Bool
is_task_method method =
    holds
      (Methods.tasks_list ∷ Methods.tasks_get ∷ Methods.tasks_cancel ∷ Methods.tasks_result ∷ [])
      method

abbrev pub is_modern : VersionRoute → Bool
is_modern modern = true
is_modern _ = false

module _ (P : Platform) (C : Config P) (R : Readings P) where
  abbrev pub Value : Type 0
  Value = (json P).Value

  abbrev pub Request : Type 0
  Request = JsonRpcRequest Value

  abbrev pub Ctx : Type 0
  Ctx = RequestContext (json P)

  abbrev pub signing : Signing P
  signing = record { key = C.signer_key; now = R.seconds }

  abbrev pub route : Request → VersionRoute
  route req = classify_version (json P) req.params C.supported

  abbrev pub empty_reply : Request → Message P
  empty_reply req = reply_success P req.id ((json P).object (json P).empty)

  abbrev pub no_method : Request → Message P
  no_method req = error_response P req.id (method_not_found req.method)

  -- What follows the lookup of the session.
  abbrev pub behind :
      Shared P → (Shared P → Ctx → Handled P) → SessionStore (json P) × Gate P → Handled P
  behind s next (sessions, live ctx) = next (record s { sessions = sessions }) ctx
  behind s next (sessions, answered m) = answers P (record s { sessions = sessions }) m
  behind s next (sessions, gone e) = record {
    shared = record s { sessions = sessions };
    outcome = failed e;
    effects = [];
  }

  -- What a method of protocol version 2025-11-25 does behind the gate of the session.
  abbrev pub gated : Shared P → Request → (Shared P → Ctx → Handled P) → Handled P
  gated s req next = behind s next (legacy_context P R.now R.context_token s.sessions req)

  -- A method that only protocol version 2025-11-25 has.
  abbrev pub legacy_only : Shared P → Request → (Shared P → Ctx → Handled P) → Handled P
  legacy_only s req next = elim (route req) [
    | legacy ↦ gated s req next
    | modern ↦ answers P s (no_method req)
    | unsupported requested ↦
        answers P s (unsupported_version_response P req.id requested C.supported)
  ]

  abbrev pub session_of : Request → String
  session_of req = Option.get_or (session_id (json P) req.params) ""

  -- The route of the request's session, if it has one.
  abbrev pub touch_route : Request → Shared P → Shared P
  touch_route req s = elim (session_id (json P) req.params) [
    | none ↦ s
    | some sid ↦ record s { routes = legacy_touch sid (connection_id (json P) req.params) s.routes }
  ]

  abbrev pub spawn_effect : Option (Spawned P) → List (Effect P)
  spawn_effect none = []
  spawn_effect (some t) = spawned t ∷ []

  abbrev pub of_augmented : Shared P → Augmented P → Handled P
  of_augmented s a = record {
    shared = record s { tasks = some a.store };
    outcome = reply a.answer;
    effects = map of_task a.effects ++ spawn_effect a.spawned;
  }

  -- The eight capability methods, on protocol version 2026-07-28.
  unfoldable pub modern_capability : Shared P → Request → Handled P
  modern_capability s req = elim (extract_log_level P req.params) [
    | err e ↦ answers P s (error_response P req.id e)
    | ok level ↦
        let ctx = record (build_context P R.context_token req) {
          cancellation = R.token;
          log_level = level;
        } in
        let dispatched =
          dispatch_capability P (draft_wire P) C.router C.cache signing C.strict_elicitation_keys
            req ctx in
        if req.method == Methods.tools_call
        then elim (try_augment_call P C.router R.minted.token R.slot req ctx C.extensions) [
          | some m ↦ answers P s m
          | none ↦ answers P s dispatched
        ]
        else answers P s dispatched
  ]

  -- The eight capability methods, on protocol version 2025-11-25, behind the gate.
  unfoldable pub legacy_capability : Request → Shared P → Ctx → Handled P
  legacy_capability req s context =
      let ctx = record context { cancellation = R.token } in
      let touched = touch_route req s in
      let dispatched = answers P touched (
        dispatch_capability P (legacy_wire P) C.router C.cache signing C.strict_elicitation_keys req
          ctx) in
      elim s.tasks [
        | none ↦ dispatched
        | some store ↦
            if (req.method == Methods.tools_call) && has_task_field P req.params
            then of_augmented touched
                (task_augmented_call P R.minted C.router ctx (session_of req) req store)
            else if req.method == Methods.tools_list
            then answers P touched (legacy_list_tools_with_task_support P C.router req ctx)
            else dispatched
      ]

  unfoldable pub capability : Shared P → Request → Handled P
  unfolding modern_capability legacy_capability
  capability s req = elim (route req) [
    | modern ↦ modern_capability s req
    | legacy ↦ gated s req (legacy_capability req)
    | unsupported requested ↦
        answers P s (unsupported_version_response P req.id requested C.supported)
  ]

  -- `resources/subscribe` and `resources/unsubscribe`, behind the gate.
  unfoldable pub subscription : Request → Shared P → Ctx → Handled P
  subscription req s _ =
      let sid = session_of req in
      let connection = connection_id (json P) req.params in
      if not (has_resources P C.router)
      then answers P s (no_method req)
      else elim (parse_uri_param P req.params req.method) [
        | err e ↦ answers P s (error_response P req.id e)
        | ok uri ↦
            if req.method == Methods.resources_subscribe
            then answers P (record s { routes = legacy_subscribe sid connection uri s.routes })
                (empty_reply req)
            else answers P (record s { routes = legacy_unsubscribe sid uri s.routes })
                (empty_reply req)
      ]

  -- `logging/setLevel`, behind the gate.
  unfoldable pub set_level : Request → Shared P → Ctx → Handled P
  set_level req s _ =
      if not (has_logging P C.router)
      then answers P s (no_method req)
      else elim (parse_set_level_params P req.params) [
        | err e ↦ answers P s (error_response P req.id e)
        | ok level ↦
            answers P
              (record s {
                sessions =
                    (Sessions.set_log_level (json P) R.later (session_of req) level s.sessions).0;
              })
              (empty_reply req)
      ]

  abbrev pub of_task_reply : TaskReply P → Reply P
  of_task_reply (replied m) = reply m
  of_task_reply (waiting channel) = waits channel

  -- `tasks/*`, behind the gate.
  unfoldable pub task_method : Request → Shared P → Ctx → Handled P
  task_method req s _ = elim s.tasks [
    | none ↦ answers P s (no_method req)
    | some store ↦
        let (kept, r, effects) = handle_tasks_method P R.later R.wall (session_of req) req store in
        record {
          shared = record s { tasks = some kept };
          outcome = of_task_reply r;
          effects = map of_task effects;
        }
  ]

  abbrev pub is_success : Message P → Bool
  is_success (JsonRpc.response r) = not (is_error r)
  is_success _ = false

  abbrev pub tasks_enabled : Shared P → Bool
  tasks_enabled s = elim s.tasks [ none ↦ false | some _ ↦ has_tools P C.router ]

  unfoldable pub initialize : Shared P → Request → Handled P
  initialize s req =
      let swept = sweep_idle_sessions P R.now s in
      let (sessions, m) =
        handle_initialize P R.later C.server C.router C.supported swept.sessions (tasks_enabled s)
          req in
      let opened = record swept { sessions = sessions } in
      answers P (if is_success m then touch_route req opened else opened) m

  -- `Iterator::find` of the extension that owns a method.
  abbrev pub owner : String → List (Extension P) → Option (Extension P)
  owner method [] = none
  owner method (e ∷ es) =
      let rest = owner method es in if holds e.methods method then some e else rest

  unfoldable pub extension_request : Extension P → Request → Message P
  extension_request ext req =
      let ctx = build_context P R.context_token req in
      if not (context_declares_extension P ctx ext.id)
      then no_method req
      else ext.dispatch (record {
        request = req;
        context = ctx;
        connection_id = connection_id (json P) req.params;
      })

  -- The `match` on the method.
  unfoldable pub handle_method : Shared P → Request → Handled P
  unfolding capability subscription set_level task_method initialize
  handle_method s req =
      if req.method == Methods.discover
      then answers P s
          (discover_response P req.id C.server C.router C.supported C.extensions C.cache.discover)
      else if req.method == Methods.ping
      then answers P s (empty_reply req)
      else if req.method == Methods.initialize
      then initialize s req
      else if is_capability req.method
      then capability s req
      else if is_subscription req.method
      then legacy_only s req (subscription req)
      else if req.method == Methods.logging_set_level
      then legacy_only s req (set_level req)
      else if is_task_method req.method
      then legacy_only s req (task_method req)
      else answers P s (no_method req)

  unfoldable pub handle_request : Shared P → Request → Handled P
  unfolding handle_method extension_request
  handle_request s req = elim (owner req.method C.extensions) [
    | none ↦ handle_method s req
    | some ext ↦
        if is_modern (route req)
        then answers P s (extension_request ext req)
        else handle_method s req
  ]
