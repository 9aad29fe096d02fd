-- ===== src/Dispatcher/Opening.antt =====
-- A session from `initialize` to its first request.
use turbomcp.Prelude.{
  ℕ, ◌≡◌, refl, ◌∙◌, Bool, true, false, String, some, List, ◌∷◌, ok, arith, if◌then◌else◌,
  string_key, Result-cases, inl, inr,
}
use turbomcp.Prelude.HashMap as Maps
use turbomcp.Prelude.HashMap.Laws.{get-insert_self}
use turbomcp.Core.Version.{ProtocolVersion, v2025_11_25, from_wire, lists, version_key}
use turbomcp.Core.JsonRpc.{JsonRpcRequest}
use turbomcp.Core.Meta.{session_id}
use turbomcp.Sessions.Store.{SessionStore, SessionState, is_expired}
use turbomcp.Sessions.Store as Sessions
use turbomcp.Sessions.Store.Expiry.{get_session_lem, fresh}
use turbomcp.Dispatcher.Platform.{Platform, json, InitializeRequestParams}
use turbomcp.Dispatcher.Router.{MethodRouter}
use turbomcp.Dispatcher.Responses.{Value}
use turbomcp.Dispatcher.Params.{legacy_context, live, session_context, Gate, meta_of}
use turbomcp.Dispatcher.Context.{new_context}
use turbomcp.Core.Context.{Implementation, LogLevel}
use turbomcp.Dispatcher.Handshake.{or_null}
use turbomcp.Prelude.{Option, none, err, Option-cases, Result, ap}
use turbomcp.Dispatcher.Handshake.{
  negotiate_initialize_version, handle_initialize, opened_session, initialize_result, ServerCore,
}

-- The negotiated version is one that the server supports.
negotiated_listed :
    (requested : String) (v : ProtocolVersion) (vs : List ProtocolVersion)
    → lists (v ∷ vs) (negotiate_initialize_version requested (v ∷ vs)) ≡ true
unfolding negotiate_initialize_version
negotiated_listed requested v vs = ground (arith, version_key.same_iff v v)

module _ (P : Platform) where
  -- What the gate says of a request that it lets through: the version, the client's identity and
  -- capabilities, and the log level.
  abbrev pub admitted :
      Gate P
      → Option
          (ProtocolVersion × Option (Implementation (json P)) × Option (Value P) × Option LogLevel)
  admitted (live ctx) =
      some (ctx.protocol_version, ctx.client_info, ctx.client_capabilities, ctx.log_level)
  admitted _ = none

  pub admitted-session_context :
      (token : ℕ) (state : SessionState (json P)) (params : Option (Value P))
      → admitted (live (session_context P token state params))
        ≡ some
            (state.version, some state.client_info, some state.client_capabilities, state.log_level)
  unfolding new_context
  admitted-session_context token state params = elim (Option-cases (meta_of P params)) [
    | inl e ↦ rw (e, session_context) refl
    | inr (m, e) ↦ rw (e, session_context) refl
  ]

  -- The session is stored under its id, whatever becomes of the reply.
  stored :
      (now : ℕ) (server : ServerCore P) (router : MethodRouter P) (supported : List ProtocolVersion)
      (s : SessionStore (json P)) (tasks : Bool) (req : JsonRpcRequest (Value P)) (raw : Value P)
      (params : InitializeRequestParams P.base P.ClientCapabilities) (sid : String)
      → req.params ≡ some raw
      → P.from_initialize raw ≡ ok params
      → session_id (json P) req.params ≡ some sid
      → (handle_initialize P now server router supported s tasks req).0
        ≡ Sessions.insert
            (json P)
            now
            sid
            (opened_session P
              (negotiate_initialize_version params.protocol_version supported)
              params)
            s
  unfolding handle_initialize
  stored now server router supported s tasks req raw params sid given parsed named =
      let negotiated = negotiate_initialize_version params.protocol_version supported in
      elim (Result-cases (P.initialize_value (initialize_result P server router negotiated))) [
        | inl (v, good) ↦ rw (given, handle_initialize) (rw parsed (rw good (rw named refl)))
        | inr (e, bad) ↦ rw (given, handle_initialize) (rw parsed (rw bad (rw named refl)))
      ]

  -- A session that was stored is found while it is not idle for too long.
  found :
      (now later token : ℕ) (sid : String) (state : SessionState (json P))
      (s : SessionStore (json P)) (next : JsonRpcRequest (Value P))
      → session_id (json P) next.params ≡ some sid
      → is_expired (json P) s.idle_timeout later (record { state = state; last_seen = now }) ≡ false
      → (legacy_context P later token (Sessions.insert (json P) now sid state s) next).1
        ≡ live (session_context P token state next.params)
  unfolding legacy_context Sessions.insert fresh
  found now later token sid state s next named recent =
      let opened = Sessions.insert (json P) now sid state s in
      let entry : Maps.get sid opened.inner ≡ some (record { state = state; last_seen = now }) =
        get-insert_self sid (record { state = state; last_seen = now }) _ in
      let seen : (Sessions.get (json P) later sid opened).1 ≡ some state =
        (get_session_lem (json P) later sid opened).0 ∙ rw (entry, fresh) (rw recent refl) in
      rw (named, legacy_context) (rw seen refl)

  -- `Value::Null` where the capabilities do not serialize.
  abbrev pub capabilities_of : P.ClientCapabilities → Value P
  capabilities_of c = elim (P.capabilities_value c) [ ok v ↦ v | err _ ↦ (json P).null ]

  or_null_lem :
      (r : Result (Value P) String) → or_null P r ≡ elim r [ ok v ↦ v | err _ ↦ (json P).null ]
  or_null_lem (ok v) = refl
  or_null_lem (err _) = refl

  -- The first request of a session after its `initialize`, unless it comes too late, passes the
  -- gate with the requested version if the server supports that, with 2025-11-25 if it does not but
  -- supports that, and otherwise with the first version that it supports; with the client's name,
  -- version and title and with its capabilities as `initialize` gave them; and without a log level.
  -- The version that it passes with is one that the server supports.
  pub legacy_context-handle_initialize :
      (now later token : ℕ) (server : ServerCore P) (router : MethodRouter P) (v : ProtocolVersion)
      (vs : List ProtocolVersion) (s : SessionStore (json P)) (tasks : Bool)
      (req next : JsonRpcRequest (Value P)) (raw : Value P)
      (params : InitializeRequestParams P.base P.ClientCapabilities) (sid : String)
      → req.params ≡ some raw
      → P.from_initialize raw ≡ ok params
      → session_id (json P) req.params ≡ some sid
      → session_id (json P) next.params ≡ some sid
      → is_expired (json P) s.idle_timeout later (record {
        state =
            opened_session P (negotiate_initialize_version params.protocol_version (v ∷ vs)) params;
        last_seen = now;
      })
        ≡ false
      → let negotiated =
          if lists (v ∷ vs) (from_wire params.protocol_version)
          then from_wire params.protocol_version
          else if lists (v ∷ vs) v2025_11_25
          then v2025_11_25
          else v in
        (admitted (
            (legacy_context P later token
              (handle_initialize P now server router (v ∷ vs) s tasks req).0
              next).1)
          ≡ some (
            negotiated,
            some (record {
              name = params.client_info.name;
              title = params.client_info.title;
              version = params.client_info.version;
              extra = (json P).empty;
            }),
            some (capabilities_of params.capabilities),
            none,
          ))
        × (lists (v ∷ vs) negotiated ≡ true)
  unfolding negotiate_initialize_version opened_session
  legacy_context-handle_initialize now later token server router v vs s tasks req next raw params
        sid given parsed named again recent =
      let state =
        opened_session P (negotiate_initialize_version params.protocol_version (v ∷ vs)) params in
      (
        rw (stored now server router (v ∷ vs) s tasks req raw params sid given parsed named) (
            rw (found now later token sid state s next again recent) (
              admitted-session_context token state next.params
              ∙ ap (λ c. some (state.version, some state.client_info, some c, state.log_level))
                  (or_null_lem (P.capabilities_value params.capabilities)))),
        negotiated_listed params.protocol_version v vs,
      )
