-- ===== src/Dispatcher/Listen.antt =====
-- crates/turbomcp-server/src/dispatcher/listen.rs: `subscriptions/listen`. The writers' table, which
-- of its channels still take messages, and whether the request was cancelled meanwhile are arguments.
pub mod Agreed
use mathlib.Core.Option
use turbomcp.Prelude.{
  ℕ, Bool, true, false, ◌&&◌, String, Option, none, some, List, [], ◌∷◌, is_empty, Result, ok, err,
  if◌then◌else◌,
}
use turbomcp.Prelude.HashMap.{HashMap}
use turbomcp.Prelude.Int.{minus}
use turbomcp.Core.Json.{member, ◌>>=◌}
use turbomcp.Core.Error.{invalid_params, method_not_found}
use turbomcp.Core.Version.{ProtocolVersion}
use turbomcp.Core.Route.{classify_version, modern, legacy, unsupported}
use turbomcp.Core.JsonRpc.{
  RequestId, JsonRpcRequest, JsonRpcNotification, JsonRpcError, new_notification,
}
use turbomcp.Core.Meta.{connection_id}
use turbomcp.Core.Methods as Methods
use turbomcp.Subscriptions.Outbound.{Writers, writer}
use turbomcp.Subscriptions.Registry.{
  SubscriptionFilter, SubscriptionRegistry, is_some_true, subscription_id_value,
  subscription_id_key,
}
use turbomcp.Subscriptions.Registry as Registry
use turbomcp.Dispatcher.Platform.{Platform, json}
use turbomcp.Dispatcher.Context.{RequestContext}
use turbomcp.Dispatcher.Router.{
  MethodRouter, Extension, has_tools, has_resources, has_prompts, SubscribeOutcome, not_applicable,
  missing_capability, subscribed,
}
use turbomcp.Dispatcher.Responses.{
  Message, reply_error, error_response, unsupported_version_response, missing_capability_response,
  context_declares_extension,
}
use turbomcp.Dispatcher.Params.{to_option, build_context}

-- `(b).then_some(true)`.
abbrev pub flag : Bool → Option Bool
flag b = if b then some true else none

module _ (P : Platform) where
  abbrev pub Value : Type 0
  Value = (json P).Value

  -- What the server honors of a filter.
  unfoldable pub agreed_filter : MethodRouter P → SubscriptionFilter → SubscriptionFilter
  agreed_filter router wanted = record {
    tools_list_changed = flag (is_some_true wanted.tools_list_changed && has_tools P router);
    resources_list_changed =
        flag (is_some_true wanted.resources_list_changed && has_resources P router);
    prompts_list_changed = flag (is_some_true wanted.prompts_list_changed && has_prompts P router);
    resource_subscriptions = if has_resources P router then wanted.resource_subscriptions else [];
  }

  -- The members of an extension's contribution, set one by one.
  abbrev pub merge_entries : HashMap String Value → (json P).Object → (json P).Object
  merge_entries [] o = o
  merge_entries ((k, v) ∷ m) o = merge_entries m ((json P).insert k v o)

  abbrev pub merged : Value → Value → Value
  merged contribution ack = elim ((json P).as_object ack) [
    | none ↦ ack
    | some o ↦ elim ((json P).as_object contribution) [
      | none ↦ ack
      | some extra ↦ (json P).object (merge_entries ((json P).entries extra) o)
    ]
  ]

  -- What the extensions make of the acknowledgment: `err` is the extension whose capability the
  -- client did not declare.
  unfoldable pub offer :
      String
      → RequestId
      → Value
      → RequestContext (json P)
      → List (Extension P)
      → Value
      → Result Value String
  offer conn id raw ctx [] ack = ok ack
  offer conn id raw ctx (e ∷ es) ack =
      let rest = offer conn id raw ctx es in
      elim (e.on_subscribe conn id raw (context_declares_extension P ctx e.id)) [
        | not_applicable ↦ rest ack
        | missing_capability ↦ err e.id
        | subscribed contribution ↦ rest (merged contribution ack)
      ]

  abbrev pub or_empty_object : Result Value String → Value
  or_empty_object (ok v) = v
  or_empty_object (err _) = (json P).object (json P).empty

  unfoldable pub acknowledgment : RequestId → Value → JsonRpcNotification Value
  acknowledgment id notifications =
      let J = json P in
      let named =
        J.insert (subscription_id_key J P.number_value) (subscription_id_value J P.number_value id)
          J.empty in
      new_notification Methods.subscriptions_acknowledged (
        some (
          J.object
            (J.insert "_meta" (J.object named) (J.insert "notifications" notifications J.empty))))

  abbrev pub no_stream : JsonRpcError Value
  no_stream = record {
    code = minus 32600;
    message = "subscriptions/listen requires a connection that can stream notifications";
    details = none;
  }

  abbrev pub no_filter : String
  no_filter = "subscriptions/listen requires a `notifications` filter"

  -- The registry, what was sent, and the answer: none on success.
  pub record Listened : Type 0 where
    pub subs : SubscriptionRegistry
    pub sent : List (ℕ × JsonRpcNotification Value)
    pub answer : Option (Message P)

  abbrev pub refused : SubscriptionRegistry → Message P → Listened
  refused subs answer = record { subs = subs; sent = []; answer = some answer }

  module _ (router : MethodRouter P) (supported : List ProtocolVersion)
      (extensions : List (Extension P)) (table : Writers) (is_open : ℕ → Bool) (is_cancelled : Bool)
      (token : ℕ) where
    -- The acknowledgment, and then the subscription, unless its request was cancelled meanwhile.
    unfoldable pub commit :
        String → RequestId → ℕ → SubscriptionFilter → Value → SubscriptionRegistry → Listened
    commit conn id w agreed notifications subs =
        let opened = Registry.insert conn id agreed subs in
        if is_open w
        then record {
          subs = if is_cancelled then (Registry.remove conn id opened).0 else opened;
          sent = (w, acknowledgment id notifications) ∷ [];
          answer = none;
        }
        else record { subs = subs; sent = []; answer = none }

    unfoldable pub open_stream : String → ℕ → JsonRpcRequest Value → SubscriptionRegistry → Listened
    unfolding commit
    open_stream conn w req subs = elim (req.params >>= λ p. to_option (P.from_listen p)) [
      | none ↦ refused subs (error_response P req.id (invalid_params no_filter))
      | some requested ↦
          let agreed = agreed_filter router requested.notifications in
          let raw = Option.get_or (req.params >>= member (json P) "notifications") (json P).null in
          elim (offer conn req.id raw (build_context P token req) extensions
            (or_empty_object (P.filter_value agreed))) [
              | err extension_id ↦ refused subs (missing_capability_response P req.id extension_id)
              | ok notifications ↦ commit conn req.id w agreed notifications subs
            ]
    ]

    -- The stream of a connection that has a writer.
    unfoldable pub on_writer :
        Option String → JsonRpcRequest Value → SubscriptionRegistry → Listened
    unfolding open_stream
    on_writer none req subs = refused subs (reply_error P req.id no_stream)
    on_writer (some conn) req subs = elim (writer conn table) [
      | none ↦ refused subs (reply_error P req.id no_stream)
      | some w ↦ open_stream conn w req subs
    ]

    unfoldable pub handle_subscriptions_listen :
        JsonRpcRequest Value → SubscriptionRegistry → Listened
    unfolding on_writer
    handle_subscriptions_listen req subs = elim (classify_version (json P) req.params supported) [
      | legacy ↦
          refused subs (error_response P req.id (method_not_found Methods.subscriptions_listen))
      | unsupported requested ↦
          refused subs (unsupported_version_response P req.id requested supported)
      | modern ↦ on_writer (connection_id (json P) req.params) req subs
    ]
