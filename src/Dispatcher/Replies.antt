-- ===== src/Dispatcher/Replies.antt =====
-- Every reply to a request answers that request.
pub mod Tasks
pub mod Requests
pub mod Messages
use mathlib.Core.Option
use turbomcp.Prelude.{
  ℕ, ◌≡◌, refl, ap, sym, ◌∙◌, Bool, true, false, not, ◌&&◌, String, Option, none, some, List, [],
  ◌∷◌, Result, ok, err, arith, if◌then◌else◌, ◌==◌, string_key, holds, Result-cases, Option-cases,
  Bool-cases, inl, inr, All,
}
use turbomcp.Core.Json.{◌>>=◌}
use turbomcp.Core.Error.{McpError}
use turbomcp.Core.Methods as Methods
use turbomcp.Core.Version.{ProtocolVersion}
use turbomcp.Core.Route.{VersionRoute, classify_version, modern, legacy, unsupported}
use turbomcp.Core.JsonRpc.{RequestId, JsonRpcRequest, JsonRpcMessage, has_valid_version}
use turbomcp.Core.JsonRpc
use turbomcp.Neutral.Types.{CachePolicy}
use turbomcp.Sessions.Store.{SessionStore}
use turbomcp.Dispatcher.Platform.{Platform, json}
use turbomcp.Dispatcher.Context.{RequestContext}
use turbomcp.Dispatcher.Router.{MethodRouter, Extension, ExtensionRequest, CallAugmentRequest}
use turbomcp.Dispatcher.Responses.{Message, Value, error_response, context_declares_extension}
use turbomcp.Dispatcher.Params.{build_context, Gate, live, answered, gone}
use turbomcp.Dispatcher.Handshake.{
  ServerCore, handle_initialize, discover_response, stamp_server_info, to_draft_implementation,
}
use turbomcp.Dispatcher.TaskMethods.{handle_tasks_method, replied, waiting}
use turbomcp.Dispatcher.Augment.{try_augment_call, build_call_runner}
use turbomcp.Dispatcher.State.{
  Shared, Config, Readings, Reply, reply, silent, failed, waits, Handled,
}
use turbomcp.Dispatcher.Answers.{
  ReplyTo, of_either, error_response-ReplyTo, ok_value-ReplyTo,
  unsupported_version_response-ReplyTo, dispatch_capability-ReplyTo,
}

module _ (P : Platform) where
  abbrev pub OptionTo : RequestId → Option (Message P) → Type 0
  OptionTo id none = Unit
  OptionTo id (some m) = ReplyTo P id m

  -- An extension answers the request that it is given.
  pub record AnswersOwn (e : Extension P) : Type 0 where
    pub dispatched : (r : ExtensionRequest P) → ReplyTo P r.request.id (e.dispatch r)
    pub augmented : (r : CallAugmentRequest P) → OptionTo r.request.id (e.augment_call r)

  pub handle_initialize-ReplyTo :
      (now : ℕ) (server : ServerCore P) (router : MethodRouter P) (supported : List ProtocolVersion)
      (sessions : SessionStore (json P)) (tasks_enabled : Bool) (req : JsonRpcRequest (Value P))
      → ReplyTo P req.id
          (handle_initialize P now server router supported sessions tasks_enabled req).1
  unfolding handle_initialize error_response
  handle_initialize-ReplyTo now server router supported sessions tasks_enabled req = record {
    answered = ground arith;
  }

  pub discover_response-ReplyTo :
      (id : RequestId) (server : ServerCore P) (router : MethodRouter P)
      (supported : List ProtocolVersion) (extensions : List (Extension P)) (cache : CachePolicy)
      → ReplyTo P id (discover_response P id server router supported extensions cache)
  unfolding discover_response error_response
  discover_response-ReplyTo id server router supported extensions cache = record {
    answered = ground arith;
  }

  pub stamp_server_info-ReplyTo :
      (id : RequestId) (info : _) (m : Message P)
      → ReplyTo P id m
      → ReplyTo P id (stamp_server_info P info m)
  unfolding stamp_server_info
  stamp_server_info-ReplyTo id info (JsonRpc.response r) h = record {
    answered = ground (arith, h.answered);
  }
  stamp_server_info-ReplyTo id info (JsonRpc.request r) h = h
  stamp_server_info-ReplyTo id info (JsonRpc.notification n) h = h

  -- What an extension made of a call, or else what the next ones make of it.
  or_rest :
      (id : RequestId) (o r : Option (Message P))
      → OptionTo id o
      → OptionTo id r
      → OptionTo id (elim o [ some m ↦ some m | none ↦ r ])
  or_rest id (some m) r p q = p
  or_rest id none r p q = q

  pub try_augment_call-OptionTo :
      (router : MethodRouter P) (token slot : ℕ) (req : JsonRpcRequest (Value P))
      (ctx : RequestContext (json P)) (es : List (Extension P))
      → All AnswersOwn es
      → OptionTo req.id (try_augment_call P router token slot req ctx es)
  unfolding try_augment_call
  try_augment_call-OptionTo router token slot req ctx [] own = tt
  try_augment_call-OptionTo router token slot req ctx (e ∷ es) own =
      let rest = try_augment_call-OptionTo router token slot req ctx es own.1 in
      elim (Bool-cases (not (e.augments_calls && context_declares_extension P ctx e.id))) [
        | inl skipped ↦ rw (skipped, try_augment_call) rest
        | inr offered ↦ elim (Result-cases (build_call_runner P router token slot req ctx)) [
          | inr (x, bad) ↦
              rw (offered, try_augment_call) (rw bad (error_response-ReplyTo P req.id x))
          | inl (run, good) ↦
              rw (offered, try_augment_call) (rw good (or_rest req.id _ _ (own.0.augmented _) rest))
        ]
      ]

  abbrev pub OutcomeTo : RequestId → Reply P → Type 0
  OutcomeTo id (reply m) = ReplyTo P id m
  OutcomeTo id silent = Unit
  OutcomeTo id (failed _) = Unit
  OutcomeTo id (waits _) = Unit

  pub record HandledTo (id : RequestId) (h : Handled P) : Type 0 where
    pub own : OutcomeTo id h.outcome
