-- ===== src/Dispatcher/Retry.antt =====
-- The state of a handler that waits for input, from the reply that asks for the input to the retry
-- that brings it.
use mathlib.Core.Option
use turbomcp.Prelude.{
  ◌+◌, ◌≡◌, refl, sym, ap, ◌∙◌, Bool, true, false, ◌&&◌, String, Option, none, some, [], Result, ok,
  err, leb, arith, if◌then◌else◌, ◌==◌, string_key, option_key, Result-cases, Bool-cases, inl, inr,
}
use turbomcp.Prelude.HashMap.{HashMap}
use turbomcp.Core.Json.{member, ◌>>=◌}
use turbomcp.Core.Error.{McpError, input_required}
use turbomcp.Core.JsonRpc.{RequestId, JsonRpcRequest}
use turbomcp.Core.JsonRpc
use turbomcp.RequestState.Signer.{sign, state_ttl, rejected}
use turbomcp.RequestState.Signer.Redeem.{verify-sign}
use turbomcp.Dispatcher.Frames.{RawMrtrFields}
use turbomcp.Dispatcher.Platform.{Platform, json}
use turbomcp.Dispatcher.Context.{RequestContext, ClientHandle, mrtr, subject_of}
use turbomcp.Dispatcher.Router.{Outcome}
use turbomcp.Dispatcher.Responses.{Message, error_response}
use turbomcp.Dispatcher.Params.{map_ok, to_option}
use turbomcp.Dispatcher.Capability.{
  Signing, draft_wire, mrtr_handle, finish_mrtr, input_required_reply, with_requests, or_no_fields,
  retried_handle,
}

module _ (P : Platform) where
  -- The text under `requestState` of a reply's result.
  abbrev pub request_state_of : Message P → Option String
  request_state_of (JsonRpc.response r) =
      r.result >>= member (json P) "requestState" >>= (json P).as_str
  request_state_of _ = none

  abbrev pub refused : Result (ClientHandle (json P)) McpError
  refused = map_ok (λ _. mrtr (json P) none [] none false) (rejected P.base.crypto)

  module _ (id : RequestId) (method : String) (subject : Option String) (signing : Signing P)
      (collected : HashMap String (json P).Value) (state : (json P).Value) where
    abbrev asked : Message P
    asked = input_required_reply P id method subject signing collected (some state)

    abbrev signed : Result String McpError
    signed = sign P.base.crypto signing.now signing.key method subject state

    unsigned : (e : McpError) → signed ≡ err e → request_state_of asked ≡ none
    unfolding input_required_reply error_response
    unsigned e h = rw (h, input_required_reply) refl

    carried : (token : String) → signed ≡ ok token → request_state_of asked ≡ some token
    unfolding input_required_reply
    carried token h =
        let J = json P in
        let result =
          with_requests P collected (J.insert "resultType" (J.string "input_required") J.empty) in
        let inserted : J.Object = J.insert "requestState" (J.string token) result in
        let found : J.get "requestState" inserted ≡ some (J.string token) = ground (
          arith,
          J.get-insert "requestState" "requestState" (J.string token) result,
          string_key.same_iff "requestState" "requestState",
        ) in
        rw (h, input_required_reply)
          (rw (J.as_object-object inserted) (rw found (J.as_str-string token)))

    -- The reply carries the token that the signer minted.
    pub minted_token : (token : String) → request_state_of asked ≡ some token → signed ≡ ok token
    minted_token token h = elim (Result-cases signed) [
      | inr (e, bad) ↦ grind (arith, unsigned e bad, h)
      | inl (t, good) ↦ grind (arith, carried t good, h)
    ]

  -- A handler that stops for input with some state gets that state back: when the reply carries a
  -- `requestState`, a retry that brings it makes a handle with exactly that state and the retry's
  -- input responses if it has the method and the subject of the first request and comes within ten
  -- minutes, and is refused before its handler runs otherwise.
  pub mrtr_handle-finish_mrtr :
      {N : Type 0} (widen : N → Result (json P).Value String) (id : RequestId) (method : String)
      (subject : Option String) (outcome : Outcome P N) (state : (json P).Value)
      (signing later : Signing P) (token : String) (strict_keys : Bool)
      (retry : JsonRpcRequest (json P).Value) (params : (json P).Value)
      (fields : RawMrtrFields (json P)) (ctx : RequestContext (json P))
      → outcome.result ≡ err input_required
      → outcome.state_out ≡ some state
      → request_state_of (finish_mrtr P widen id method subject (some outcome) signing true)
        ≡ some token
      → later.key ≡ signing.key
      → retry.params ≡ some params
      → P.from_mrtr params ≡ ok fields
      → fields.request_state ≡ some token
      → mrtr_handle P (draft_wire P) later strict_keys retry ctx ≡ (
          if (method == retry.method)
            && (subject == subject_of (json P) ctx.identity)
            && leb later.now (signing.now + state_ttl)
          then ok (
              mrtr
                (json P)
                ctx.client_capabilities
                (Option.get_or fields.input_responses [])
                (some state)
                strict_keys)
          else refused)
  unfolding finish_mrtr mrtr_handle draft_wire retried_handle
  mrtr_handle-finish_mrtr widen id method subject outcome state signing later token strict_keys
        retry params fields ctx stopped kept carries same_key brings parsed named =
      let stops : finish_mrtr P widen id method subject (some outcome) signing true
          ≡ input_required_reply P id method subject signing outcome.collected (some state) =
        rw (stopped, finish_mrtr) (rw kept refl) in
      let minted =
        minted_token id method subject signing outcome.collected state token
          (ap request_state_of (sym stops) ∙ carries) in
      let fits =
        (method == retry.method)
        && (subject == subject_of (json P) ctx.identity)
        && leb later.now (signing.now + state_ttl) in
      let redeemed =
        verify-sign P.base.crypto signing.now later.now signing.key method retry.method subject
          (subject_of (json P) ctx.identity) state token minted in
      let read : or_no_fields P (retry.params >>= λ p. to_option (P.from_mrtr p)) ≡ fields =
        rw brings (rw parsed refl) in
      ap (retried_handle P later strict_keys retry ctx) read ∙ elim (Bool-cases fits) [
        | inl good ↦ rw (named, retried_handle) (rw same_key (rw redeemed (rw good refl)))
        | inr bad ↦ rw (named, retried_handle) (rw same_key (rw redeemed (rw bad refl)))
      ]
