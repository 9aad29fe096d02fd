-- ===== src/Dispatcher/Gate.antt =====
-- The gates before the version-gated methods: the protocol version, and the session of 2025-11-25.
use turbomcp.Prelude.{
  ◌≡◌, refl, sym, ap, ◌∙◌, Bool, true, false, ◌||◌, String, Option, none, some, [], arith,
  if◌then◌else◌, ◌==◌, string_key, Option-cases, Bool-cases, inl, inr,
}
use turbomcp.Core.Json.{◌>>=◌}
use turbomcp.Core.Methods as Methods
use turbomcp.Core.Route.{legacy, unsupported, classify_version, route_of}
use turbomcp.Core.JsonRpc.{JsonRpcRequest}
use turbomcp.Core.Meta.{session_id, request_protocol_version}
use turbomcp.Core.Version.{ProtocolVersion, as_str, lists}
use turbomcp.Core.ServiceError as ServiceError
use turbomcp.Core.ServiceError.{into_response, jsonrpc_code}
use turbomcp.Core.JsonRpc as JsonRpc
use turbomcp.Prelude.Int.{minus}
use turbomcp.Prelude.{map, not}
use mathlib.Core.Option
use turbomcp.Core.ServiceError.{unknown_session}
use turbomcp.Sessions.Store.{SessionStore, SessionState}
use turbomcp.Sessions.Store as Sessions
use turbomcp.Dispatcher.Platform.{Platform, json}
use turbomcp.Dispatcher.Context.{RequestContext}
use turbomcp.Dispatcher.Responses.{Value, reply_error, unsupported_version_response}
use turbomcp.Dispatcher.Params.{legacy_context, not_initialized, answered, gone}
use turbomcp.Dispatcher.State.{Shared, Config, Readings, Reply, reply, failed, Handled}
use turbomcp.Dispatcher.Request.{
  route, behind, gated, legacy_only, capability, subscription, set_level, task_method, owner,
  handle_method, handle_request, is_capability, is_subscription, is_task_method, is_modern,
  legacy_capability,
}

-- The methods that need a protocol version.
abbrev pub is_gated : String → Bool
is_gated m =
    is_capability m || is_subscription m || (m == Methods.logging_set_level) || is_task_method m

-- A method that is not gated is not one that is.
excluded : (d m : String) → is_gated d ≡ false → is_gated m ≡ true → (m == d) ≡ false
excluded d m absent present = elim (Bool-cases (m == d)) [
  | inr differs ↦ differs
  | inl same ↦ grind (arith, ap is_gated ((string_key.same_iff m d).0 same), absent, present)
]

passed {ℓ} : {A : Type ℓ} (b : Bool) (x y h : A) → b ≡ false → y ≡ h → (if b then x else y) ≡ h
passed b x y h e p = rw e p

module _ (P : Platform) (C : Config P) (R : Readings P) (s : Shared P)
    (req : JsonRpcRequest (Value P)) where
  -- The session of the request, if it is live.
  abbrev pub live_session : Option (SessionState (json P))
  live_session =
      session_id (json P) req.params >>= λ sid. (Sessions.get (json P) R.now sid s.sessions).1

  -- The store after the lookup, which touches a live session and drops an idle one.
  abbrev pub looked_up : SessionStore (json P)
  looked_up = elim (session_id (json P) req.params) [
    | none ↦ s.sessions
    | some sid ↦ (Sessions.get (json P) R.now sid s.sessions).0
  ]

  abbrev pub refusal : Reply P
  refusal = elim (session_id (json P) req.params) [
    | none ↦ reply (reply_error P req.id (not_initialized P))
    | some sid ↦ failed (unknown_session sid)
  ]

  abbrev pub closed : Handled P
  closed = record { shared = record s { sessions = looked_up }; outcome = refusal; effects = [] }

  gated-closed :
      (next : Shared P → RequestContext (json P) → Handled P)
      → live_session ≡ none
      → gated P C R s req next ≡ closed
  unfolding legacy_context
  gated-closed next dead = elim (Option-cases (session_id (json P) req.params)) [
    | inl e ↦
        let found : legacy_context P R.now R.context_token s.sessions req
            ≡ (s.sessions, answered (reply_error P req.id (not_initialized P))) =
          rw (e, legacy_context) refl in
        ap (behind P C R s next) found ∙ rw (e, closed, looked_up, refusal) refl
    | inr (sid, e) ↦
        let idle : (Sessions.get (json P) R.now sid s.sessions).1 ≡ none =
          sym (ap (λ o. o >>= λ i. (Sessions.get (json P) R.now i s.sessions).1) e) ∙ dead in
        let found : legacy_context P R.now R.context_token s.sessions req
            ≡ ((Sessions.get (json P) R.now sid s.sessions).0, gone (unknown_session sid)) =
          rw (e, legacy_context) (rw idle refl) in
        ap (behind P C R s next) found ∙ rw (e, closed, looked_up, refusal) refl
  ]

  -- Where a gated method goes, by its kind.
  by_kind :
      (h : Handled P)
      → is_gated req.method ≡ true
      → capability P C R s req ≡ h
      → ((next : Shared P → RequestContext (json P) → Handled P) → legacy_only P C R s req next ≡ h)
      → handle_method P C R s req ≡ h
  unfolding handle_method
  by_kind h kind a b =
      let m = req.method in
      passed (m == Methods.discover) _ _ h (excluded Methods.discover m refl kind) (
        passed (m == Methods.ping) _ _ h (excluded Methods.ping m refl kind) (
          passed (m == Methods.initialize) _ _ h (excluded Methods.initialize m refl kind)
            (elim (Bool-cases (is_capability m)) [
              | inl c ↦ rw c a
              | inr n ↦ rw n (elim (Bool-cases (is_subscription m)) [
                | inl c ↦ rw c (b (subscription P C R req))
                | inr o ↦ rw o (elim (Bool-cases (m == Methods.logging_set_level)) [
                  | inl c ↦ rw c (b (set_level P C R req))
                  | inr p ↦
                      let task : is_task_method m ≡ true = ground (arith, kind, n, o, p) in
                      rw p (rw task (b (task_method P C R req)))
                ])
              ])
            ])))

  -- An extension is asked on protocol version 2026-07-28 only.
  pub unowned :
      is_modern (route P C R req) ≡ false → handle_request P C R s req ≡ handle_method P C R s req
  unfolding handle_request
  unowned old = elim (Option-cases (owner P C R req.method C.extensions)) [
    | inl e ↦ rw (e, handle_request) refl
    | inr (ext, e) ↦ rw (e, handle_request) (rw old refl)
  ]

  -- A request of protocol version 2025-11-25 for any capability, subscription, log-level or task
  -- method passes the gate only with a live session: without a session id the reply says that the
  -- server is not initialized, with the id of a session that is not live the transport gets an
  -- unknown session, and apart from the idle session that the lookup drops nothing has changed.
  pub handle_request-no_session :
      is_gated req.method ≡ true
      → route P C R req ≡ legacy
      → live_session ≡ none
      → handle_request P C R s req ≡ closed
  unfolding capability
  handle_request-no_session kind old dead =
      let legacy_gate : (next : Shared P → RequestContext (json P) → Handled P)
          → legacy_only P C R s req next ≡ closed =
        λ next. rw (old, legacy_only) (gated-closed next dead) in
      unowned (ap is_modern old)
      ∙ by_kind closed kind (rw (old, capability) (gated-closed (legacy_capability P C R req) dead))
          legacy_gate

  -- The version that a request names, in its own words, if any.
  abbrev pub named_version : Option String
  named_version = Option.map as_str (request_protocol_version (json P) req.params)

  abbrev pub is_unsupported : Option ProtocolVersion → Bool
  is_unsupported none = true
  is_unsupported (some v) = not (lists C.supported v)

  route-unsupported :
      is_unsupported (request_protocol_version (json P) req.params) ≡ true
      → route P C R req ≡ unsupported named_version
  unfolding classify_version route_of
  route-unsupported h = elim (Option-cases (request_protocol_version (json P) req.params)) [
    | inl e ↦ rw (e, classify_version) refl
    | inr (v, e) ↦
        let unlisted : not (lists C.supported v) ≡ true = sym (ap is_unsupported e) ∙ h in
        rw (e, classify_version) (rw unlisted refl)
  ]

  -- The error -32022, with the text for the requested version and for all the supported ones.
  abbrev pub version_refusal : Handled P
  version_refusal = record {
    shared = s;
    outcome = reply (
        JsonRpc.response (
          JsonRpc.error_response req.id (record {
            code = minus 32022;
            message =
                P.error_text
                  (ServiceError.unsupported_version named_version (map as_str C.supported));
            details = none;
          })));
    effects = [];
  }

  -- A request for one of those methods that names no protocol version, or one that the server does
  -- not list as supported, is answered with the error -32022, whose text is the one for the named
  -- version and all the supported ones, and nothing has changed.
  pub handle_request-unsupported :
      is_gated req.method ≡ true
      → is_unsupported (request_protocol_version (json P) req.params) ≡ true
      → handle_request P C R s req ≡ version_refusal
  unfolding capability unsupported_version_response into_response jsonrpc_code
  handle_request-unsupported kind unlisted =
      let other = route-unsupported unlisted in
      unowned (ap is_modern other)
      ∙ by_kind _ kind (rw (other, capability) refl) (λ next. rw (other, legacy_only) refl)
