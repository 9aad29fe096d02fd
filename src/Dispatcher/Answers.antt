-- ===== src/Dispatcher/Answers.antt =====
-- Whom the replies of the dispatcher's parts answer.
use mathlib.Core.Option
use turbomcp.Prelude.{
  ◌≡◌, refl, Bool, true, false, String, Option, none, some, List, Result, ok, err, arith,
  if◌then◌else◌, ◌==◌, string_key, Result-cases, inl, inr,
}
use turbomcp.Prelude.HashMap.{HashMap}
use turbomcp.Core.Error.{McpError}
use turbomcp.Core.Version.{ProtocolVersion}
use turbomcp.Core.ServiceError.{into_response}
use turbomcp.Core.JsonRpc.{RequestId, JsonRpcRequest}
use turbomcp.Core.JsonRpc
use turbomcp.Core.Methods as Methods
use turbomcp.Neutral.Types.{CompleteParams}
use turbomcp.Dispatcher.Params.{parse_complete_params}
use turbomcp.Dispatcher.Platform.{Platform, json}
use turbomcp.Dispatcher.Context.{RequestContext, subject_of}
use turbomcp.Dispatcher.Router.{MethodRouter, Outcome, CachePolicies}
use turbomcp.Dispatcher.Responses.{
  Message, Value, error_response, ok_value, unsupported_version_response,
}
use turbomcp.Dispatcher.Capability.{
  WireFamily, Signing, finish, finish_mrtr, input_required_reply, stopped_reply, mrtr_handle,
  handler_context, asking, dispatch_capability,
}

-- A property of both branches of an `if`.
pub of_either {ℓ κ} :
    {A : Type ℓ} (Q : A → Type κ) (b : Bool) (x y : A) → Q x → Q y → Q (if b then x else y)
of_either Q true x y p q = p
of_either Q false x y p q = q

module _ (P : Platform) where
  -- The request that a message answers.
  abbrev pub answered_id : Message P → Option RequestId
  answered_id (JsonRpc.response r) = some r.id
  answered_id _ = none

  pub record ReplyTo (id : RequestId) (m : Message P) : Type 0 where
    pub answered : answered_id m ≡ some id

  pub error_response-ReplyTo : (id : RequestId) (e : McpError) → ReplyTo id (error_response P id e)
  unfolding error_response
  error_response-ReplyTo id e = record { answered = refl }

  pub ok_value-ReplyTo :
      (id : RequestId) (r : Result (Value P) String) → ReplyTo id (ok_value P id r)
  unfolding ok_value error_response
  ok_value-ReplyTo id (ok v) = record { answered = refl }
  ok_value-ReplyTo id (err e) = record { answered = refl }

  pub unsupported_version_response-ReplyTo :
      (id : RequestId) (requested : Option String) (supported : List ProtocolVersion)
      → ReplyTo id (unsupported_version_response P id requested supported)
  unfolding unsupported_version_response into_response
  unsupported_version_response-ReplyTo id requested supported = record { answered = refl }

  finish-ReplyTo :
      {N : Type 0} (widen : N → Result (Value P) String) (id : RequestId) (method : String)
      (o : Option (Result N McpError))
      → ReplyTo id (finish P widen id method o)
  unfolding finish
  finish-ReplyTo widen id method none = error_response-ReplyTo id _
  finish-ReplyTo widen id method (some (ok r)) = ok_value-ReplyTo id (widen r)
  finish-ReplyTo widen id method (some (err e)) = error_response-ReplyTo id e

  input_required_reply-ReplyTo :
      (id : RequestId) (method : String) (subject : Option String) (signing : Signing P)
      (collected : HashMap String (Value P)) (state : Option (Value P))
      → ReplyTo id (input_required_reply P id method subject signing collected state)
  unfolding input_required_reply error_response
  input_required_reply-ReplyTo id method subject signing collected none = record {
    answered = ground arith;
  }
  input_required_reply-ReplyTo id method subject signing collected (some state) = record {
    answered = ground arith;
  }

  stopped_reply-ReplyTo :
      (id : RequestId) (enabled : Bool) (aborted : Message P) (e : McpError)
      → ReplyTo id aborted
      → ReplyTo id (stopped_reply P id enabled aborted e)
  unfolding error_response
  stopped_reply-ReplyTo id enabled aborted e h = record { answered = ground (arith, h.answered) }

  finish_mrtr-ReplyTo :
      {N : Type 0} (widen : N → Result (Value P) String) (id : RequestId) (method : String)
      (subject : Option String) (o : Option (Outcome P N)) (signing : Signing P) (enabled : Bool)
      → ReplyTo id (finish_mrtr P widen id method subject o signing enabled)
  unfolding finish_mrtr
  finish_mrtr-ReplyTo widen id method subject none signing enabled = error_response-ReplyTo id _
  finish_mrtr-ReplyTo widen id method subject (some o) signing enabled =
      elim (Result-cases o.result) [
        | inl (r, e) ↦ rw (e, finish_mrtr) (ok_value-ReplyTo id (widen r))
        | inr (x, e) ↦
            rw (e, finish_mrtr)
              (stopped_reply-ReplyTo id enabled
                (input_required_reply P id method subject signing o.collected o.state_out) x
                (input_required_reply-ReplyTo id method subject signing o.collected o.state_out))
      ]

  module _ (W : WireFamily P) (router : MethodRouter P) (cache : CachePolicies)
      (signing : Signing P) (strict_keys : Bool) (req : JsonRpcRequest (Value P))
      (ctx : RequestContext (json P)) where
    asking-ReplyTo :
        {N A : Type 0} (widen : N → Result (Value P) String) (params : Result A McpError) (slot : _)
        → ReplyTo req.id
            (asking P W router cache {N = N} {A = A} widen signing strict_keys req ctx params slot)
    unfolding error_response
    asking-ReplyTo widen (err e) slot = record { answered = refl }
    asking-ReplyTo widen (ok p) slot =
        elim (Result-cases (mrtr_handle P W signing strict_keys req ctx)) [
          | inr (e, bad) ↦ rw (bad, asking) (record { answered = refl })
          | inl (handle, good) ↦
              rw (good, asking)
                (finish_mrtr-ReplyTo widen req.id req.method (subject_of (json P) ctx.identity)
                  (Option.map (λ h. h (handler_context P W router cache req ctx handle) p) slot)
                  signing W.mrtr_wire)
        ]

    completed :
        (params : Result CompleteParams McpError)
        → ReplyTo req.id (elim params [
          | err e ↦ error_response P req.id e
          | ok p ↦ finish P W.complete req.id req.method (Option.map (λ h. h ctx p) router.complete)
        ])
    completed (err e) = error_response-ReplyTo req.id e
    completed (ok p) = finish-ReplyTo _ _ _ _

    pub dispatch_capability-ReplyTo :
        ReplyTo req.id (dispatch_capability P W router cache signing strict_keys req ctx)
    unfolding dispatch_capability
    dispatch_capability-ReplyTo =
        let Q : Message P → Type 0 = ReplyTo req.id in
        of_either Q (req.method == Methods.tools_list) _ _ (finish-ReplyTo _ _ _ _) (
          of_either Q (req.method == Methods.tools_call) _ _ (asking-ReplyTo _ _ _) (
            of_either Q (req.method == Methods.resources_list) _ _ (finish-ReplyTo _ _ _ _) (
              of_either Q (req.method == Methods.resources_templates_list) _ _
                (finish-ReplyTo _ _ _ _)
                (of_either Q (req.method == Methods.resources_read) _ _ (asking-ReplyTo _ _ _) (
                  of_either Q (req.method == Methods.prompts_list) _ _ (finish-ReplyTo _ _ _ _) (
                    of_either Q (req.method == Methods.prompts_get) _ _ (asking-ReplyTo _ _ _)
                      (completed (parse_complete_params P req.params))))))))
