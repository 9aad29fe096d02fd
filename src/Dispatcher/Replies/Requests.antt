-- ===== src/Dispatcher/Replies/Requests.antt =====
-- Every reply of `handle_request` answers its request.
use mathlib.Core.Path.{subst}
use turbomcp.Prelude.{
  not, ◌&&◌, String, Option, none, some, List, [], ◌∷◌, arith, ◌==◌, string_key, holds,
  Result-cases, Option-cases, inl, inr, All,
}
use turbomcp.Core.Error.{McpError}
use turbomcp.Core.Methods as Methods
use turbomcp.Core.Route.{VersionRoute, modern, legacy, unsupported}
use turbomcp.Core.JsonRpc.{JsonRpcRequest}
use turbomcp.Sessions.Store.{SessionStore}
use turbomcp.Dispatcher.Platform.{Platform, json}
use turbomcp.Dispatcher.Context.{RequestContext}
use turbomcp.Dispatcher.Router.{Extension, has_resources, has_logging}
use turbomcp.Dispatcher.Responses.{Message, Value, error_response, context_declares_extension}
use turbomcp.Dispatcher.Params.{
  Gate, live, answered, gone, legacy_context, extract_log_level, parse_uri_param,
  parse_set_level_params, build_context,
}
use turbomcp.Dispatcher.Capability.{draft_wire, legacy_wire}
use turbomcp.Dispatcher.State.{Shared, Config, Readings, Handled, answers, sweep_idle_sessions}
use turbomcp.Dispatcher.TaskMethods.{has_task_field, TaskReply, replied, waiting}
use turbomcp.Dispatcher.Request.{
  route, behind, gated, legacy_only, modern_capability, legacy_capability, capability, subscription,
  set_level, task_method, initialize, owner, extension_request, handle_method, handle_request,
  of_task_reply, tasks_enabled, session_of, signing, is_capability, is_subscription, is_task_method,
  is_modern,
}
use turbomcp.Dispatcher.Answers.{
  ReplyTo, of_either, error_response-ReplyTo, unsupported_version_response-ReplyTo,
  dispatch_capability-ReplyTo,
}
use turbomcp.Dispatcher.Replies.{
  AnswersOwn, OptionTo, OutcomeTo, HandledTo, handle_initialize-ReplyTo, discover_response-ReplyTo,
  try_augment_call-OptionTo,
}
use turbomcp.Dispatcher.Replies.Tasks.{
  TaskReplyTo, handle_tasks_method-DoneTo, task_augmented_call-ReplyTo, legacy_list_tools-ReplyTo,
  GateTo, legacy_context-GateTo,
}

module _ (P : Platform) (C : Config P) (R : Readings P) where
  answered_by :
      (s : Shared P) (req : JsonRpcRequest (Value P)) (m : Message P)
      → ReplyTo P req.id m
      → HandledTo P req.id (answers P s m)
  answered_by s req m h = record { own = h }

  module _ (req : JsonRpcRequest (Value P)) where
    abbrev Own : Handled P → Type 0
    Own = HandledTo P req.id

    answers-Own : (s : Shared P) (m : Message P) → ReplyTo P req.id m → Own (answers P s m)
    answers-Own s m h = record { own = h }

    refused-Own : (s : Shared P) (e : McpError) → Own (answers P s (error_response P req.id e))
    refused-Own s e = record { own = error_response-ReplyTo P req.id e }

    behind-Own :
        (s : Shared P) (next : Shared P → RequestContext (json P) → Handled P)
        (sessions : SessionStore (json P)) (gate : Gate P)
        → GateTo P req.id gate
        → ((s : Shared P) (ctx : RequestContext (json P)) → Own (next s ctx))
        → Own (behind P C R s next (sessions, gate))
    behind-Own s next sessions (live ctx) g h = h (record s { sessions = sessions }) ctx
    behind-Own s next sessions (answered m) g h = record { own = g }
    behind-Own s next sessions (gone e) g h = record { own = tt }

    gated-Own :
        (s : Shared P) (next : Shared P → RequestContext (json P) → Handled P)
        → ((s : Shared P) (ctx : RequestContext (json P)) → Own (next s ctx))
        → Own (gated P C R s req next)
    gated-Own s next h =
        let looked = legacy_context P R.now R.context_token s.sessions req in
        behind-Own s next looked.0 looked.1
          (legacy_context-GateTo P R.now R.context_token s.sessions req) h

    on_route :
        (r : VersionRoute) (m l : Handled P) (u : Option String → Handled P)
        → Own m
        → Own l
        → ((v : Option String) → Own (u v))
        → Own (elim r [ legacy ↦ l | modern ↦ m | unsupported v ↦ u v ])
    on_route modern m l u a b c = a
    on_route legacy m l u a b c = b
    on_route (unsupported v) m l u a b c = c v

    legacy_only-Own :
        (s : Shared P) (next : Shared P → RequestContext (json P) → Handled P)
        → ((s : Shared P) (ctx : RequestContext (json P)) → Own (next s ctx))
        → Own (legacy_only P C R s req next)
    legacy_only-Own s next h =
        on_route (route P C R req) _ _ _ (refused-Own s _) (gated-Own s next h)
          (λ v. record { own = unsupported_version_response-ReplyTo P req.id v C.supported })

    subscription-Own :
        (s : Shared P) (ctx : RequestContext (json P)) → Own (subscription P C R req s ctx)
    unfolding subscription
    subscription-Own s ctx =
        of_either Own (not (has_resources P C.router)) _ _ (refused-Own s _)
          (elim (Result-cases (parse_uri_param P req.params req.method)) [
            | inr (e, bad) ↦ rw bad (refused-Own s e)
            | inl (uri, good) ↦ rw good (
                of_either Own (req.method == Methods.resources_subscribe) _ _
                  (record { own = record { answered = ground arith } })
                  (record { own = record { answered = ground arith } }))
          ])

    set_level-Own : (s : Shared P) (ctx : RequestContext (json P)) → Own (set_level P C R req s ctx)
    unfolding set_level
    set_level-Own s ctx =
        of_either Own (not (has_logging P C.router)) _ _ (refused-Own s _)
          (elim (Result-cases (parse_set_level_params P req.params)) [
            | inr (e, bad) ↦ rw bad (refused-Own s e)
            | inl (level, good) ↦ rw good (record { own = record { answered = ground arith } })
          ])

    of_task_reply-OutcomeTo :
        (r : TaskReply P) → TaskReplyTo P req.id r → OutcomeTo P req.id (of_task_reply P C R r)
    of_task_reply-OutcomeTo (replied m) h = h
    of_task_reply-OutcomeTo (waiting channel) h = tt

    task_method-Own :
        (s : Shared P) (ctx : RequestContext (json P)) → Own (task_method P C R req s ctx)
    unfolding task_method
    task_method-Own s ctx = elim (Option-cases s.tasks) [
      | inl e ↦ rw (e, task_method) (refused-Own s _)
      | inr (store, e) ↦
          rw (e, task_method)
            (record {
              own =
                  of_task_reply-OutcomeTo _
                    (handle_tasks_method-DoneTo P R.later R.wall _ req store);
            })
    ]

    initialize-Own : (s : Shared P) → Own (initialize P C R s req)
    unfolding initialize
    initialize-Own s = record {
      own =
          handle_initialize-ReplyTo P R.later C.server C.router C.supported
            (sweep_idle_sessions P R.now s).sessions (tasks_enabled P C R s) req;
    }

    legacy_capability-Own :
        (s : Shared P) (ctx : RequestContext (json P)) → Own (legacy_capability P C R req s ctx)
    unfolding legacy_capability
    legacy_capability-Own s context =
        let ctx = record context { cancellation = R.token } in
        let dispatched =
          dispatch_capability-ReplyTo P (legacy_wire P) C.router C.cache (signing P C R)
            C.strict_elicitation_keys req ctx in
        elim (Option-cases s.tasks) [
          | inl e ↦ rw (e, legacy_capability) (record { own = dispatched })
          | inr (store, e) ↦
              rw (e, legacy_capability)
                (of_either Own ((req.method == Methods.tools_call) && has_task_field P req.params) _
                  _
                  (record {
                    own =
                        task_augmented_call-ReplyTo P R.minted C.router ctx (session_of P C R req)
                          req store;
                  })
                  (of_either Own (req.method == Methods.tools_list) _ _
                    (record { own = legacy_list_tools-ReplyTo P C.router req ctx })
                    (record { own = dispatched })))
        ]

    module _ (own : All (AnswersOwn P) C.extensions) where
      augmented_or :
          (s : Shared P) (o : Option (Message P)) (m : Message P)
          → OptionTo P req.id o
          → ReplyTo P req.id m
          → Own (elim o [ some x ↦ answers P s x | none ↦ answers P s m ])
      augmented_or s (some x) m p q = record { own = p }
      augmented_or s none m p q = record { own = q }

      modern_capability-Own : (s : Shared P) → Own (modern_capability P C R s req)
      unfolding modern_capability
      modern_capability-Own s = elim (Result-cases (extract_log_level P req.params)) [
        | inr (e, bad) ↦ rw (bad, modern_capability) (refused-Own s e)
        | inl (level, good) ↦
            let ctx = record (build_context P R.context_token req) {
              cancellation = R.token;
              log_level = level;
            } in
            let dispatched =
              dispatch_capability-ReplyTo P (draft_wire P) C.router C.cache (signing P C R)
                C.strict_elicitation_keys req ctx in
            rw (good, modern_capability)
              (of_either Own (req.method == Methods.tools_call) _ _
                (augmented_or s _ _
                  (try_augment_call-OptionTo P C.router R.minted.token R.slot req ctx C.extensions
                    own)
                  dispatched)
                (record { own = dispatched }))
      ]

      capability-Own : (s : Shared P) → Own (capability P C R s req)
      unfolding capability
      capability-Own s =
          on_route (route P C R req) _ _ _ (modern_capability-Own s)
            (gated-Own s (legacy_capability P C R req) legacy_capability-Own)
            (λ v. record { own = unsupported_version_response-ReplyTo P req.id v C.supported })

      handle_method-Own : (s : Shared P) → Own (handle_method P C R s req)
      unfolding handle_method
      handle_method-Own s =
          of_either Own (req.method == Methods.discover) _ _
            (record {
              own =
                  discover_response-ReplyTo P req.id C.server C.router C.supported C.extensions
                    C.cache.discover;
            })
            (of_either Own (req.method == Methods.ping) _ _
              (record { own = record { answered = ground arith } })
              (of_either Own (req.method == Methods.initialize) _ _ (initialize-Own s) (
                of_either Own (is_capability req.method) _ _ (capability-Own s) (
                  of_either Own (is_subscription req.method) _ _
                    (legacy_only-Own s _ subscription-Own)
                    (of_either Own (req.method == Methods.logging_set_level) _ _
                      (legacy_only-Own s _ set_level-Own)
                      (of_either Own (is_task_method req.method) _ _
                        (legacy_only-Own s _ task_method-Own) (refused-Own s _)))))))

      abbrev FoundOwn : Option (Extension P) → Type 0
      FoundOwn none = Unit
      FoundOwn (some e) = AnswersOwn P e

      owner-FoundOwn :
          (method : String) (es : List (Extension P))
          → All (AnswersOwn P) es
          → FoundOwn (owner P C R method es)
      owner-FoundOwn method [] all = tt
      owner-FoundOwn method (e ∷ es) all =
          of_either FoundOwn (holds e.methods method) _ _ all.0 (owner-FoundOwn method es all.1)

      pub handle_request-Own : (s : Shared P) → Own (handle_request P C R s req)
      unfolding handle_request extension_request
      handle_request-Own s = elim (Option-cases (owner P C R req.method C.extensions)) [
        | inl e ↦ rw (e, handle_request) (handle_method-Own s)
        | inr (ext, e) ↦
            let found : AnswersOwn P ext =
              subst FoundOwn e (owner-FoundOwn req.method C.extensions own) in
            rw (e, handle_request)
              (of_either Own (is_modern (route P C R req)) _ _
                (record {
                  own =
                      of_either (ReplyTo P req.id)
                        (not (
                          context_declares_extension P (build_context P R.context_token req)
                            ext.id))
                        _ _ (error_response-ReplyTo P req.id _) (found.dispatched _);
                })
                (handle_method-Own s))
      ]
