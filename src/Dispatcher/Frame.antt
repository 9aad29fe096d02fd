-- ===== src/Dispatcher/Frame.antt =====
-- What the dispatch of a request leaves alone: the requests in flight, the draft subscriptions and the
-- requests to the client.
use turbomcp.Prelude.{
  [], ◌≡◌, refl, ap, ◌∙◌, not, ◌&&◌, String, Option, none, some, arith, if◌then◌else◌, ◌==◌,
  string_key, pair_key, Result-cases, Option-cases, inl, inr,
}
use turbomcp.Prelude.HashMap as Maps
use turbomcp.Prelude.HashMap.{get-insert, get-remove}
use turbomcp.Core.Methods as Methods
use turbomcp.Core.Meta.{session_id, connection_id}
use turbomcp.Core.Route.{VersionRoute, modern, legacy, unsupported}
use turbomcp.Core.JsonRpc.{RequestId, request_id_key, JsonRpcRequest}
use turbomcp.Sessions.InFlight as InFlight
use turbomcp.Prelude.HashMap.Laws.{get-insert_self}
use turbomcp.Sessions.InFlight.{InFlightRegistry, register, drop_guard}
use turbomcp.Subscriptions.Registry.{SubscriptionRegistry}
use turbomcp.RequestState.Pending.{PendingRequests}
use turbomcp.Sessions.Store.{SessionStore}
use turbomcp.Dispatcher.Platform.{Platform, json}
use turbomcp.Dispatcher.Context.{RequestContext}
use turbomcp.Dispatcher.Router.{has_resources, has_logging}
use turbomcp.Dispatcher.Responses.{Message, Value}
use turbomcp.Dispatcher.Params.{
  Gate, live, answered, gone, legacy_context, extract_log_level, parse_uri_param,
  parse_set_level_params,
}
use turbomcp.Dispatcher.Handshake.{handle_initialize}
use turbomcp.Dispatcher.TaskMethods.{has_task_field}
use turbomcp.Dispatcher.State.{
  Shared, Config, Readings, Handled, answers, Cancellation, running, fired_before, fired_during,
  sweep_idle_sessions, silent,
}
use turbomcp.Dispatcher.Request.{
  route, behind, gated, legacy_only, modern_capability, legacy_capability, capability, subscription,
  set_level, task_method, initialize, owner, handle_method, handle_request, touch_route,
  tasks_enabled, is_capability, is_subscription, is_task_method, is_modern, is_success,
}
use turbomcp.Dispatcher.Handle.{on_request, enter, leave, listened, raced, stamp, stamp_info}
use turbomcp.Dispatcher.Answers.{of_either}

module _ (P : Platform) where
  abbrev pub Core : Type 0
  Core = InFlightRegistry × SubscriptionRegistry × PendingRequests

  abbrev pub core_of : Shared P → Core
  core_of s = (s.inflight, s.subs, s.pending)

module _ (P : Platform) (C : Config P) (R : Readings P) (req : JsonRpcRequest (Value P)) where
  pub record Kept (c : Core P) (h : Handled P) : Type 0 where
    pub frame : core_of P h.shared ≡ c

  answers-Kept : (s : Shared P) (m : Message P) → Kept (core_of P s) (answers P s m)
  answers-Kept s m = record { frame = refl }

  core_of-touch_route : (s : Shared P) → core_of P (touch_route P C R req s) ≡ core_of P s
  core_of-touch_route s = elim (Option-cases (session_id (json P) req.params)) [
    | inl e ↦ rw (e, touch_route) refl
    | inr (sid, e) ↦ rw (e, touch_route) refl
  ]

  behind-Kept :
      (s : Shared P) (next : Shared P → RequestContext (json P) → Handled P)
      (sessions : SessionStore (json P)) (gate : Gate P)
      → ((t : Shared P) (ctx : RequestContext (json P)) → Kept (core_of P t) (next t ctx))
      → Kept (core_of P s) (behind P C R s next (sessions, gate))
  behind-Kept s next sessions (live ctx) h = h (record s { sessions = sessions }) ctx
  behind-Kept s next sessions (answered m) h = record { frame = refl }
  behind-Kept s next sessions (gone e) h = record { frame = refl }

  gated-Kept :
      (s : Shared P) (next : Shared P → RequestContext (json P) → Handled P)
      → ((t : Shared P) (ctx : RequestContext (json P)) → Kept (core_of P t) (next t ctx))
      → Kept (core_of P s) (gated P C R s req next)
  gated-Kept s next h =
      let looked = legacy_context P R.now R.context_token s.sessions req in
      behind-Kept s next looked.0 looked.1 h

  on_route :
      (c : Core P) (r : VersionRoute) (m l : Handled P) (u : Option String → Handled P)
      → Kept c m
      → Kept c l
      → ((v : Option String) → Kept c (u v))
      → Kept c (elim r [ legacy ↦ l | modern ↦ m | unsupported v ↦ u v ])
  on_route c modern m l u p q r = p
  on_route c legacy m l u p q r = q
  on_route c (unsupported v) m l u p q r = r v

  legacy_only-Kept :
      (s : Shared P) (next : Shared P → RequestContext (json P) → Handled P)
      → ((t : Shared P) (ctx : RequestContext (json P)) → Kept (core_of P t) (next t ctx))
      → Kept (core_of P s) (legacy_only P C R s req next)
  legacy_only-Kept s next h =
      on_route (core_of P s) (route P C R req) _ _ _ (answers-Kept s _) (gated-Kept s next h)
        (λ v. answers-Kept s _)

  subscription-Kept :
      (s : Shared P) (ctx : RequestContext (json P))
      → Kept (core_of P s) (subscription P C R req s ctx)
  unfolding subscription
  subscription-Kept s ctx =
      of_either (Kept (core_of P s)) (not (has_resources P C.router)) _ _ (answers-Kept s _)
        (elim (Result-cases (parse_uri_param P req.params req.method)) [
          | inr (e, bad) ↦ rw bad (answers-Kept s _)
          | inl (uri, good) ↦ rw good (
              of_either (Kept (core_of P s)) (req.method == Methods.resources_subscribe) _ _
                (record { frame = refl }) (record { frame = refl }))
        ])

  set_level-Kept :
      (s : Shared P) (ctx : RequestContext (json P))
      → Kept (core_of P s) (set_level P C R req s ctx)
  unfolding set_level
  set_level-Kept s ctx =
      of_either (Kept (core_of P s)) (not (has_logging P C.router)) _ _ (answers-Kept s _)
        (elim (Result-cases (parse_set_level_params P req.params)) [
          | inr (e, bad) ↦ rw bad (answers-Kept s _)
          | inl (level, good) ↦ rw good (record { frame = refl })
        ])

  task_method-Kept :
      (s : Shared P) (ctx : RequestContext (json P))
      → Kept (core_of P s) (task_method P C R req s ctx)
  unfolding task_method
  task_method-Kept s ctx = elim (Option-cases s.tasks) [
    | inl e ↦ rw (e, task_method) (record { frame = refl })
    | inr (store, e) ↦ rw (e, task_method) (record { frame = refl })
  ]

  initialize-Kept : (s : Shared P) → Kept (core_of P s) (initialize P C R s req)
  unfolding initialize sweep_idle_sessions
  initialize-Kept s = record {
    frame =
        of_either (λ t. core_of P t ≡ core_of P s)
          (is_success P C R
            (handle_initialize P R.later C.server C.router C.supported
              (sweep_idle_sessions P R.now s).sessions (tasks_enabled P C R s) req).1)
          _ _ (core_of-touch_route _) refl;
  }

  legacy_capability-Kept :
      (s : Shared P) (ctx : RequestContext (json P))
      → Kept (core_of P s) (legacy_capability P C R req s ctx)
  unfolding legacy_capability
  legacy_capability-Kept s ctx =
      let touched = core_of-touch_route s in
      elim (Option-cases s.tasks) [
        | inl e ↦ rw (e, legacy_capability) (record { frame = touched })
        | inr (store, e) ↦
            rw (e, legacy_capability)
              (of_either (Kept (core_of P s))
                ((req.method == Methods.tools_call) && has_task_field P req.params) _ _
                (record { frame = touched })
                (of_either (Kept (core_of P s)) (req.method == Methods.tools_list) _ _
                  (record { frame = touched }) (record { frame = touched })))
      ]

  augmented_or :
      (s : Shared P) (o : Option (Message P)) (m : Message P)
      → Kept (core_of P s) (elim o [ some x ↦ answers P s x | none ↦ answers P s m ])
  augmented_or s (some x) m = record { frame = refl }
  augmented_or s none m = record { frame = refl }

  modern_capability-Kept : (s : Shared P) → Kept (core_of P s) (modern_capability P C R s req)
  unfolding modern_capability
  modern_capability-Kept s = elim (Result-cases (extract_log_level P req.params)) [
    | inr (e, bad) ↦ rw (bad, modern_capability) (answers-Kept s _)
    | inl (level, good) ↦
        rw (good, modern_capability)
          (of_either (Kept (core_of P s)) (req.method == Methods.tools_call) _ _
            (augmented_or s _ _) (answers-Kept s _))
  ]

  capability-Kept : (s : Shared P) → Kept (core_of P s) (capability P C R s req)
  unfolding capability
  capability-Kept s =
      on_route (core_of P s) (route P C R req) _ _ _ (modern_capability-Kept s)
        (gated-Kept s (legacy_capability P C R req) legacy_capability-Kept) (λ v. answers-Kept s _)

  handle_method-Kept : (s : Shared P) → Kept (core_of P s) (handle_method P C R s req)
  unfolding handle_method
  handle_method-Kept s =
      let Q : Handled P → Type 0 = Kept (core_of P s) in
      of_either Q (req.method == Methods.discover) _ _ (answers-Kept s _) (
        of_either Q (req.method == Methods.ping) _ _ (answers-Kept s _) (
          of_either Q (req.method == Methods.initialize) _ _ (initialize-Kept s) (
            of_either Q (is_capability req.method) _ _ (capability-Kept s) (
              of_either Q (is_subscription req.method) _ _ (legacy_only-Kept s _ subscription-Kept)
                (of_either Q (req.method == Methods.logging_set_level) _ _
                  (legacy_only-Kept s _ set_level-Kept)
                  (of_either Q (is_task_method req.method) _ _
                    (legacy_only-Kept s _ task_method-Kept) (answers-Kept s _)))))))

  pub handle_request-Kept : (s : Shared P) → Kept (core_of P s) (handle_request P C R s req)
  unfolding handle_request
  handle_request-Kept s = elim (Option-cases (owner P C R req.method C.extensions)) [
    | inl e ↦ rw (e, handle_request) (handle_method-Kept s)
    | inr (ext, e) ↦
        rw (e, handle_request)
          (of_either (Kept (core_of P s)) (is_modern (route P C R req)) _ _ (answers-Kept s _)
            (handle_method-Kept s))
  ]

  by_cancellation :
      (c : Cancellation) (h : Handled P) (s : Shared P)
      → Kept (core_of P s) h
      → Kept (core_of P s) (elim c [
        | running ↦ record h { outcome = stamp P C R (stamp_info P C R req) h.outcome }
        | fired_before ↦ record { shared = s; outcome = silent; effects = [] }
        | fired_during ↦ record h { outcome = silent }
      ])
  by_cancellation running h s k = record { frame = k.frame }
  by_cancellation fired_before h s k = record { frame = refl }
  by_cancellation fired_during h s k = record { frame = k.frame }

  raced-Kept : (s : Shared P) → Kept (core_of P s) (raced P C R req s)
  raced-Kept s =
      by_cancellation R.cancellation (handle_request P C R s req) s (handle_request-Kept s)

  dispatched-inflight :
      (s : Shared P)
      → (if req.method == Methods.subscriptions_listen
          then listened P C R req s
          else raced P C R req s).shared.inflight
        ≡ s.inflight
  dispatched-inflight s =
      of_either (λ (h : Handled P). h.shared.inflight ≡ s.inflight)
        (req.method == Methods.subscriptions_listen) (listened P C R req s) (raced P C R req s) refl
        (ap (λ (c : Core P). c.0) (raced-Kept s).frame)

  inflight-enter :
      (s : Shared P) (conn : String)
      → connection_id (json P) req.params ≡ some conn
      → (enter P C R req s).inflight ≡ Maps.insert (conn, req.id) R.token s.inflight
  unfolding register
  inflight-enter s conn known = rw (known, enter) refl

  inflight-leave :
      (s : Shared P) (conn : String)
      → connection_id (json P) req.params ≡ some conn
      → (leave P C R req s).inflight ≡ Maps.remove (conn, req.id) s.inflight
  unfolding drop_guard
  inflight-leave s conn known = rw (known, leave) refl

  -- What `on_request` does between the entry and the end of the guard.
  abbrev pub dispatched : Shared P → Handled P
  dispatched t =
      if req.method == Methods.subscriptions_listen then listened P C R req t else raced P C R req t

  -- While a request of an identified connection is handled it stands among the requests in flight
  -- under its connection and its id, from before its dispatch to the end of it, so that a
  -- cancellation of it fires its token; and however its handling ends, cancellation included, it
  -- does not stand there any more. Nothing else in the registry has changed at any of these times.
  pub inflight-on_request :
      (s : Shared P) (conn : String) (k : String × RequestId)
      → connection_id (json P) req.params ≡ some conn
      → let key : String × RequestId = (conn, req.id) in
        let before = enter P C R req s in
        let after = (dispatched before).shared in
        (Maps.get k before.inflight ≡ (if key == k then some R.token else Maps.get k s.inflight))
        × ((InFlight.cancel conn req.id before.inflight).1 ≡ some R.token)
        × (Maps.get k after.inflight ≡ (if key == k then some R.token else Maps.get k s.inflight))
        × (on_request P C R s req ≡ record (dispatched before) { shared = leave P C R req after })
        × (Maps.get k (on_request P C R s req).shared.inflight
            ≡ (if key == k then none else Maps.get k s.inflight))
  unfolding on_request InFlight.cancel
  inflight-on_request s conn k known =
      let key : String × RequestId = (conn, req.id) in
      let before = enter P C R req s in
      let entered : before.inflight ≡ Maps.insert key R.token s.inflight =
        inflight-enter s conn known in
      let kept : (dispatched before).shared.inflight ≡ Maps.insert key R.token s.inflight =
        dispatched-inflight before ∙ entered in
      let left : (on_request P C R s req).shared.inflight
          ≡ Maps.remove key (dispatched before).shared.inflight =
        inflight-leave (dispatched before).shared conn known in
      let found = get-insert key k R.token s.inflight in
      (
        ap (Maps.get k) entered ∙ found,
        rw (ap (Maps.get key) entered ∙ get-insert_self key R.token s.inflight, InFlight.cancel)
            refl,
        ap (Maps.get k) kept ∙ found,
        refl,
        rw left (
            rw kept (ground (arith, get-remove key k (Maps.insert key R.token s.inflight), found))),
      )
