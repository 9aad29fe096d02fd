-- ===== src/Dispatcher/Capability/Mrtr.antt =====
-- crates/turbomcp-server/src/dispatcher/capability.rs: requests that wait for input of the client,
-- from the handle that a request gets to the reply that asks for the input.
use mathlib.Core.Option
use turbomcp.Prelude.{
  ℕ, Bool, not, String, Option, none, some, [], ◌∷◌, is_empty, Result, ok, err, if◌then◌else◌,
  string_key,
}
use turbomcp.Prelude.HashMap.{HashMap}
use turbomcp.Core.Json.{◌>>=◌}
use turbomcp.Core.Error.{McpError, internal, method_not_found, input_required}
use turbomcp.Core.JsonRpc.{RequestId, JsonRpcRequest}
use turbomcp.Core.Meta.{session_id, connection_id}
use turbomcp.RequestState.Signer.{sign, verify}
use turbomcp.Dispatcher.Frames.{RawMrtrFields}
use turbomcp.Dispatcher.Platform.{Platform, json}
use turbomcp.Dispatcher.Context.{RequestContext, ClientHandle, mrtr, bidi, unavailable, subject_of}
use turbomcp.Dispatcher.Router.{Outcome}
use turbomcp.Dispatcher.Responses.{Message, reply_success, error_response, ok_value}
use turbomcp.Dispatcher.Params.{map_ok, to_option}
use turbomcp.Dispatcher.Capability.Wire.{WireFamily}

module _ (P : Platform) where
  abbrev Value : Type 0
  Value = (json P).Value

  abbrev Ctx : Type 0
  Ctx = RequestContext (json P)

  -- The signer's key and its clock in seconds.
  pub record Signing : Type 0 where
    pub key : P.base.crypto.Bytes
    pub now : ℕ

  abbrev pub no_fields : RawMrtrFields (json P)
  no_fields = record { input_responses = none; request_state = none }

  abbrev pub or_no_fields : Option (RawMrtrFields (json P)) → RawMrtrFields (json P)
  or_no_fields none = no_fields
  or_no_fields (some f) = f

  -- The handle of a request on the draft wire, from its `inputResponses` and its `requestState`.
  unfoldable pub retried_handle :
      Signing
      → Bool
      → JsonRpcRequest Value
      → Ctx
      → RawMrtrFields (json P)
      → Result (ClientHandle (json P)) McpError
  retried_handle signing strict_keys req ctx fields =
      let handle : Option Value → ClientHandle (json P) = λ state_in.
        mrtr (json P) ctx.client_capabilities (Option.get_or fields.input_responses []) state_in
          strict_keys in
      elim fields.request_state [
        | none ↦ ok (handle none)
        | some token ↦
            map_ok (λ state. handle (some state))
              (verify P.base.crypto signing.now signing.key req.method
                (subject_of (json P) ctx.identity) token)
      ]

  unfoldable pub mrtr_handle :
      WireFamily P
      → Signing
      → Bool
      → JsonRpcRequest Value
      → Ctx
      → Result (ClientHandle (json P)) McpError
  unfolding retried_handle
  mrtr_handle W signing strict_keys req ctx =
      let fields = or_no_fields (req.params >>= λ p. to_option (P.from_mrtr p)) in
      let direct : ClientHandle (json P) = elim (session_id (json P) req.params) [
        | none ↦ unavailable (json P) "no session for inline bidirectional requests"
        | some session ↦
            bidi (json P) session (Option.get_or (connection_id (json P) req.params) "")
              ctx.client_capabilities
      ] in
      if not W.mrtr_wire then ok direct else retried_handle signing strict_keys req ctx fields

  -- `collect` into a `serde_json::Map`.
  abbrev pub from_entries : HashMap String Value → (json P).Object
  from_entries [] = (json P).empty
  from_entries ((k, v) ∷ m) = (json P).insert k v (from_entries m)

  abbrev pub with_requests : HashMap String Value → (json P).Object → (json P).Object
  with_requests collected result =
      if is_empty collected
      then result
      else (json P).insert "inputRequests" ((json P).object (from_entries collected)) result

  -- The answer to a handler that waits for input, with what it recorded.
  unfoldable pub input_required_reply :
      RequestId → String → Option String → Signing → HashMap String Value → Option Value → Message P
  input_required_reply id method subject signing collected state_out =
      let J = json P in
      let result =
        with_requests collected (J.insert "resultType" (J.string "input_required") J.empty) in
      elim state_out [
        | none ↦
            if is_empty collected
            then error_response P id (internal "MRTR abort recorded no input requests")
            else reply_success P id (J.object result)
        | some state ↦ elim (sign P.base.crypto signing.now signing.key method subject state) [
          | ok token ↦
              reply_success P id (J.object (J.insert "requestState" (J.string token) result))
          | err e ↦ error_response P id e
        ]
      ]

  -- The reply to a handler that stopped with an error; the input that it may wait for is given.
  abbrev pub stopped_reply : RequestId → Bool → Message P → McpError → Message P
  stopped_reply id mrtr_enabled aborted input_required =
      if mrtr_enabled then aborted else error_response P id input_required
  stopped_reply id mrtr_enabled aborted e = error_response P id e

  unfoldable pub finish_mrtr :
      {N : Type 0}
      → (N → Result Value String)
      → RequestId
      → String
      → Option String
      → Option (Outcome P N)
      → Signing
      → Bool
      → Message P
  unfolding input_required_reply
  finish_mrtr widen id method subject none signing mrtr_enabled =
      error_response P id (method_not_found method)
  finish_mrtr widen id method subject (some o) signing mrtr_enabled = elim o.result [
    | ok result ↦ ok_value P id (widen result)
    | err e ↦
        stopped_reply id mrtr_enabled
          (input_required_reply id method subject signing o.collected o.state_out) e
  ]
