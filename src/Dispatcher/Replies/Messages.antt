-- ===== src/Dispatcher/Replies/Messages.antt =====
-- What becomes of each message: requests get at most one reply, which answers them, and notifications
-- and responses get none.
use turbomcp.Prelude.{
  ℕ, ◌≡◌, refl, [], not, String, Option, none, some, Result, ok, err, arith, ◌==◌, string_key,
  Option-cases, Bool-cases, inl, inr, All,
}
use turbomcp.Core.Json.{◌>>=◌}
use turbomcp.Core.Methods as Methods
use turbomcp.Core.Context.{Implementation}
use turbomcp.Core.Meta.{connection_id}
use turbomcp.Core.Route.{VersionRoute, classify_version, modern, legacy, unsupported}
use turbomcp.Core.JsonRpc.{JsonRpcRequest, JsonRpcMessage, JsonRpcNotification, has_valid_version}
use turbomcp.Core.JsonRpc
use turbomcp.Subscriptions.Outbound.{writer}
use turbomcp.Subscriptions.Registry.{SubscriptionRegistry, SubscriptionFilter}
use turbomcp.Dispatcher.Platform.{Platform, json}
use turbomcp.Dispatcher.Responses.{Message, Value, missing_capability_response}
use turbomcp.Dispatcher.Params.{to_option, build_context}
use turbomcp.Dispatcher.Listen.{
  Listened, refused, commit, open_stream, on_writer, handle_subscriptions_listen, offer,
  agreed_filter,
}
use turbomcp.Dispatcher.State.{
  Cancellation, running, fired_before, fired_during, is_cancelled, Shared, Config, Readings, Reply,
  reply, silent, failed, waits, Handled,
}
use turbomcp.Dispatcher.Handle.{
  handle, on_message, on_request, handle_notification, listened, raced, stamp, stamp_info,
  reject_version, enter,
}
use turbomcp.Dispatcher.Request.{handle_request}
use turbomcp.Dispatcher.Answers.{
  of_either, error_response-ReplyTo, unsupported_version_response-ReplyTo,
}
use turbomcp.Dispatcher.Replies.{
  AnswersOwn, OptionTo, OutcomeTo, HandledTo, stamp_server_info-ReplyTo,
}
use turbomcp.Dispatcher.Replies.Requests.{handle_request-Own}

module _ (P : Platform) (C : Config P) (R : Readings P) where
  module _ (req : JsonRpcRequest (Value P)) where
    abbrev Answer : Listened P → Type 0
    Answer l = OptionTo P req.id l.answer

    commit-silent :
        (conn : String) (w : ℕ) (agreed : SubscriptionFilter) (notifications : Value P)
        (subs : SubscriptionRegistry)
        → Answer (
            commit P C.router C.supported C.extensions R.writers R.is_open
              (is_cancelled R.cancellation)
              R.context_token
              conn
              req.id
              w
              agreed
              notifications
              subs)
    unfolding commit
    commit-silent conn w agreed notifications subs = of_either Answer (R.is_open w) _ _ tt tt

    offered :
        (conn : String) (w : ℕ) (agreed : SubscriptionFilter) (subs : SubscriptionRegistry)
        (r : Result (Value P) String)
        → Answer (elim r [
          | err extension_id ↦ refused P subs (missing_capability_response P req.id extension_id)
          | ok notifications ↦
              commit P C.router C.supported C.extensions R.writers R.is_open
                (is_cancelled R.cancellation)
                R.context_token
                conn
                req.id
                w
                agreed
                notifications
                subs
        ])
    unfolding missing_capability_response
    offered conn w agreed subs (err e) = record { answered = ground arith }
    offered conn w agreed subs (ok n) = commit-silent conn w agreed n subs

    open_stream-Answer :
        (conn : String) (w : ℕ) (subs : SubscriptionRegistry)
        → Answer (
            open_stream P C.router C.supported C.extensions R.writers R.is_open
              (is_cancelled R.cancellation)
              R.context_token
              conn
              w
              req
              subs)
    unfolding open_stream
    open_stream-Answer conn w subs =
        elim (Option-cases (req.params >>= λ p. to_option (P.from_listen p))) [
          | inl e ↦ rw (e, open_stream) (error_response-ReplyTo P req.id _)
          | inr (requested, e) ↦
              rw (e, open_stream)
                (offered conn w (agreed_filter P C.router requested.notifications) subs
                  (offer P conn req.id _ (build_context P R.context_token req) C.extensions _))
        ]

    on_writer-Answer :
        (connection : Option String) (subs : SubscriptionRegistry)
        → Answer (
            on_writer P C.router C.supported C.extensions R.writers R.is_open
              (is_cancelled R.cancellation)
              R.context_token
              connection
              req
              subs)
    unfolding on_writer
    on_writer-Answer none subs = record { answered = ground arith }
    on_writer-Answer (some conn) subs = elim (Option-cases (writer conn R.writers)) [
      | inl e ↦ rw (e, on_writer) (record { answered = ground arith })
      | inr (w, e) ↦ rw (e, on_writer) (open_stream-Answer conn w subs)
    ]

    on_route :
        (r : VersionRoute) (m l : Listened P) (u : Option String → Listened P)
        → Answer m
        → Answer l
        → ((v : Option String) → Answer (u v))
        → Answer (elim r [ legacy ↦ l | unsupported v ↦ u v | modern ↦ m ])
    on_route modern m l u a b c = a
    on_route legacy m l u a b c = b
    on_route (unsupported v) m l u a b c = c v

    listen-Answer :
        (subs : SubscriptionRegistry)
        → Answer (
            handle_subscriptions_listen P C.router C.supported C.extensions R.writers R.is_open
              (is_cancelled R.cancellation)
              R.context_token
              req
              subs)
    unfolding handle_subscriptions_listen
    listen-Answer subs =
        on_route (classify_version (json P) req.params C.supported) _ _ _
          (on_writer-Answer (connection_id (json P) req.params) subs)
          (error_response-ReplyTo P req.id _)
          (λ v. unsupported_version_response-ReplyTo P req.id v C.supported)

    answer_outcome :
        (o : Option (Message P))
        → OptionTo P req.id o
        → OutcomeTo P req.id (elim o [ none ↦ silent | some m ↦ reply m ])
    answer_outcome none h = tt
    answer_outcome (some m) h = h

    stamp-OutcomeTo :
        (info : Option (Implementation (json P))) (r : Reply P)
        → OutcomeTo P req.id r
        → OutcomeTo P req.id (stamp P C R info r)
    stamp-OutcomeTo none r h = h
    stamp-OutcomeTo (some info) (reply m) h = stamp_server_info-ReplyTo P req.id info m h
    stamp-OutcomeTo (some info) silent h = h
    stamp-OutcomeTo (some info) (failed e) h = h
    stamp-OutcomeTo (some info) (waits c) h = h

    module _ (own : All (AnswersOwn P) C.extensions) where
      by_cancellation :
          (c : Cancellation) (h : Handled P) (s : Shared P)
          → HandledTo P req.id h
          → HandledTo P req.id (elim c [
            | running ↦ record h { outcome = stamp P C R (stamp_info P C R req) h.outcome }
            | fired_before ↦ record { shared = s; outcome = silent; effects = [] }
            | fired_during ↦ record h { outcome = silent }
          ])
      by_cancellation running h s to = record {
        own = stamp-OutcomeTo (stamp_info P C R req) h.outcome to.own;
      }
      by_cancellation fired_before h s to = record { own = tt }
      by_cancellation fired_during h s to = record { own = tt }

      on_request-OutcomeTo : (s : Shared P) → OutcomeTo P req.id (on_request P C R s req).outcome
      unfolding on_request
      on_request-OutcomeTo s =
          (of_either (HandledTo P req.id) (req.method == Methods.subscriptions_listen)
            (listened P C R req (enter P C R req s)) (raced P C R req (enter P C R req s))
            (record { own = answer_outcome _ (listen-Answer (enter P C R req s).subs) })
            (by_cancellation R.cancellation (handle_request P C R (enter P C R req s) req)
              (enter P C R req s) (handle_request-Own P C R req own (enter P C R req s)))).own

  -- What may become of a message: of a request, nothing, an error for the transport, a wait, or a
  -- reply with the request's id; of a notification and of a response, nothing.
  abbrev pub Fits : JsonRpcMessage (Value P) → Reply P → Type 0
  Fits (JsonRpc.request r) o = OutcomeTo P r.id o
  Fits (JsonRpc.notification n) o = o ≡ silent
  Fits (JsonRpc.response r) o = o ≡ silent

  handle_notification-silent :
      (s : Shared P) (n : JsonRpcNotification (Value P))
      → (handle_notification P C R s n).outcome ≡ silent
  unfolding handle_notification
  handle_notification-silent s n = ground arith

  on_message-Fits :
      (s : Shared P) (m : JsonRpcMessage (Value P))
      → All (AnswersOwn P) C.extensions
      → Fits m (on_message P C R s m).outcome
  unfolding on_message
  on_message-Fits s (JsonRpc.request r) own = on_request-OutcomeTo r own s
  on_message-Fits s (JsonRpc.notification n) own = handle_notification-silent s n
  on_message-Fits s (JsonRpc.response r) own = refl

  reject_version-Fits : (m : JsonRpcMessage (Value P)) → Fits m (reject_version P C R m)
  reject_version-Fits (JsonRpc.request r) = record { answered = ground arith }
  reject_version-Fits (JsonRpc.notification n) = refl
  reject_version-Fits (JsonRpc.response r) = refl

  -- When every extension answers the request that it is given, a reply that the dispatcher sends on
  -- a request is a response with that request's id, on every path; and a notification or a response
  -- is never replied to.
  pub handle-Fits :
      (s : Shared P) (m : JsonRpcMessage (Value P))
      → All (AnswersOwn P) C.extensions
      → Fits m (handle P C R s m).outcome
  unfolding handle
  handle-Fits s m own = elim (Bool-cases (not (has_valid_version m))) [
    | inl wrong ↦ rw (wrong, handle) (reject_version-Fits m)
    | inr right ↦ rw (right, handle) (on_message-Fits s m own)
  ]
