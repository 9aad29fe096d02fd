-- ===== src/Dispatcher/Levels.antt =====
-- The log level of a session, from `logging/setLevel` to the contexts of its later requests.
use turbomcp.Prelude.{
  ℕ, ◌≡◌, refl, ap, ◌∙◌, Bool, true, false, String, some, [], ok, ◌==◌, if◌then◌else◌, string_key,
}
use turbomcp.Prelude.HashMap as Maps
use turbomcp.Prelude.HashMap.Laws.{get-insert_self}
use turbomcp.Core.Context.{LogLevel}
use turbomcp.Core.Methods as Methods
use turbomcp.Core.Route.{legacy}
use turbomcp.Core.JsonRpc.{JsonRpcRequest}
use turbomcp.Core.Meta.{session_id}
use turbomcp.Sessions.Store.{SessionStore, Entry, is_expired, with_level}
use turbomcp.Sessions.Store as Sessions
use turbomcp.Dispatcher.Platform.{Platform, json}
use turbomcp.Dispatcher.Context.{RequestContext}
use turbomcp.Dispatcher.Router.{has_logging}
use turbomcp.Dispatcher.Responses.{Value}
use turbomcp.Dispatcher.Params.{legacy_context, live, session_context, parse_set_level_params}
use turbomcp.Dispatcher.State.{Shared, Config, Readings, reply}
use turbomcp.Dispatcher.Request.{
  route, gated, legacy_only, is_modern, is_capability, is_subscription, set_level, empty_reply,
  handle_method, handle_request,
}
use turbomcp.Dispatcher.Gate.{unowned}
use turbomcp.Dispatcher.Opening.{admitted, admitted-session_context}

passed {ℓ} : {A : Type ℓ} (b : Bool) (x y : A) → b ≡ false → (if b then x else y) ≡ y
passed b x y e = rw e refl

taken {ℓ} : {A : Type ℓ} (b : Bool) (x y : A) → b ≡ true → (if b then x else y) ≡ x
taken b x y e = rw e refl

module _ (P : Platform) where
  abbrev seen : ℕ → Entry (json P) → Entry (json P)
  seen now e = record e { last_seen = now }

  found_live :
      (now : ℕ) (sid : String) (store : SessionStore (json P)) (e : Entry (json P))
      → Maps.get sid store.inner ≡ some e
      → is_expired (json P) store.idle_timeout now e ≡ false
      → Sessions.get (json P) now sid store
        ≡ (record store { inner = Maps.insert sid (seen now e) store.inner }, some e.state)
  unfolding Sessions.get
  found_live now sid store e found alive = rw (found, Sessions.get) (rw alive refl)

  -- What the gate gives a request of a live session.
  gate_open :
      (now token : ℕ) (sid : String) (store : SessionStore (json P)) (e : Entry (json P))
      (req : JsonRpcRequest (Value P))
      → session_id (json P) req.params ≡ some sid
      → Maps.get sid store.inner ≡ some e
      → is_expired (json P) store.idle_timeout now e ≡ false
      → legacy_context P now token store req ≡ (
        record store { inner = Maps.insert sid (seen now e) store.inner },
        live (session_context P token e.state req.params),
      )
  unfolding legacy_context
  gate_open now token sid store e req named found alive =
      let got = found_live now sid store e found alive in
      rw (named, legacy_context)
        (rw (ap (λ r. r.1) got)
          (ap (λ r. (r.0, live (session_context P token e.state req.params))) got))

  -- The store after `set_log_level`.
  leveled :
      (now : ℕ) (sid : String) (level : LogLevel) (store : SessionStore (json P))
      (e : Entry (json P))
      → Maps.get sid store.inner ≡ some e
      → (Sessions.set_log_level (json P) now sid level store).0
        ≡ record store { inner = Maps.insert sid (with_level (json P) now level e) store.inner }
  unfolding Sessions.set_log_level
  leveled now sid level store e found = rw (found, Sessions.set_log_level) refl

module _ (P : Platform) (C : Config P) (R : Readings P) (s : Shared P)
    (req : JsonRpcRequest (Value P)) where
  dispatched :
      req.method ≡ Methods.logging_set_level
      → route P C R req ≡ legacy
      → handle_request P C R s req ≡ gated P C R s req (set_level P C R req)
  unfolding handle_method
  dispatched named old =
      let test : (p : String → Bool) → p req.method ≡ p Methods.logging_set_level =
        λ p. ap p named in
      unowned P C R s req (ap is_modern old)
      ∙ passed _ _ _ (test (λ m. m == Methods.discover))
      ∙ passed _ _ _ (test (λ m. m == Methods.ping))
      ∙ passed _ _ _ (test (λ m. m == Methods.initialize))
      ∙ passed _ _ _ (test is_capability)
      ∙ passed _ _ _ (test is_subscription)
      ∙ taken _ _ _ (test (λ m. m == Methods.logging_set_level))
      ∙ rw (old, legacy_only) refl

  -- `set_level` behind the gate, when it finds its level.
  set :
      (t : Shared P) (ctx : RequestContext (json P)) (sid : String) (level : LogLevel)
      (e : Entry (json P))
      → session_id (json P) req.params ≡ some sid
      → has_logging P C.router ≡ true
      → parse_set_level_params P req.params ≡ ok level
      → Maps.get sid t.sessions.inner ≡ some e
      → set_level P C R req t ctx ≡ record {
        shared = record t {
          sessions = record t.sessions {
            inner = Maps.insert sid (with_level (json P) R.later level e) t.sessions.inner;
          };
        };
        outcome = reply (empty_reply P C R req);
        effects = [];
      }
  unfolding set_level
  set t ctx sid level e known logs parsed found =
      rw (logs, set_level)
        (rw parsed (rw known (rw (leveled P R.later sid level t.sessions e found) refl)))

  -- When the server has logging, a `logging/setLevel` of a live session with a level is answered
  -- with an empty result, and the next request of the session, unless it comes too late, passes
  -- the gate with that level, and with the version and the client's identity and capabilities that
  -- the session had.
  pub legacy_context-handle_request :
      (later token : ℕ) (next : JsonRpcRequest (Value P)) (sid : String) (level : LogLevel)
      (e : Entry (json P))
      → req.method ≡ Methods.logging_set_level
      → route P C R req ≡ legacy
      → session_id (json P) req.params ≡ some sid
      → session_id (json P) next.params ≡ some sid
      → Maps.get sid s.sessions.inner ≡ some e
      → is_expired (json P) s.sessions.idle_timeout R.now e ≡ false
      → has_logging P C.router ≡ true
      → parse_set_level_params P req.params ≡ ok level
      → is_expired
          (json P)
          s.sessions.idle_timeout
          later
          (record { state = record e.state { log_level = some level }; last_seen = R.later })
        ≡ false
      → ((handle_request P C R s req).outcome ≡ reply (empty_reply P C R req))
        × (admitted P
              ((legacy_context P later token (handle_request P C R s req).shared.sessions next).1)
            ≡ some (
              e.state.version,
              some e.state.client_info,
              some e.state.client_capabilities,
              some level,
            ))
  legacy_context-handle_request later token next sid level e kind old known again found alive logs
        parsed recent =
      let store = s.sessions in
      let touched = record store { inner = Maps.insert sid (seen P R.now e) store.inner } in
      let ctx = session_context P R.context_token e.state req.params in
      let opened = gate_open P R.now R.context_token sid store e req known found alive in
      let inserted : Maps.get sid touched.inner ≡ some (seen P R.now e) =
        get-insert_self sid (seen P R.now e) store.inner in
      let entry = with_level (json P) R.later level (seen P R.now e) in
      let after = record s {
        sessions = record touched { inner = Maps.insert sid entry touched.inner };
      } in
      let done : handle_request P C R s req
          ≡ record { shared = after; outcome = reply (empty_reply P C R req); effects = [] } =
        dispatched kind old
        ∙ rw opened (
            set (record s { sessions = touched }) ctx sid level (seen P R.now e) known logs parsed
              inserted) in
      rw done (
        refl,
        ap (λ g. admitted P g.1)
              (gate_open P later token sid
                (record touched { inner = Maps.insert sid entry touched.inner }) entry next again
                (get-insert_self sid entry touched.inner) recent)
            ∙ admitted-session_context P token entry.state next.params,
      )
