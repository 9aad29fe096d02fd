-- ===== src/Subscriptions/Registry.antt =====
-- crates/turbomcp-server/src/subscriptions.rs: the draft subscriptions (`subscriptions/listen`),
-- each with the filter that the server agreed to. Sending on a channel fails when its receiving
-- half is closed; which ones are is an argument, `is_open`.
pub mod Publish
use turbomcp.Prelude.{
  ℕ, Bool, true, false, not, ◌&&◌, String, Option, none, some, List, [], ◌∷◌, any, if◌then◌else◌,
  ◌==◌, string_key, pair_key,
}
use turbomcp.Prelude.HashMap as Maps
use turbomcp.Prelude.HashMap.{HashMap, contains_key}
use turbomcp.Core.Json.{Json}
use turbomcp.Core.JsonRpc.{
  RequestId, number, string, request_id_key, JsonRpcNotification, new_notification, JsonRpcResponse,
  success_response,
}
use turbomcp.Core.Methods as Methods
use turbomcp.Prelude.Int.{ℤ}
use turbomcp.Subscriptions.Outbound.{Writers, writer}

pub data ListChangedKind : Type 0 where
  tools : ListChangedKind
  resources : ListChangedKind
  prompts : ListChangedKind

-- `draft::SubscriptionFilter`.
pub record SubscriptionFilter : Type 0 where
  pub tools_list_changed : Option Bool
  pub resources_list_changed : Option Bool
  pub prompts_list_changed : Option Bool
  pub resource_subscriptions : List String

unfoldable pub method : ListChangedKind → String
method tools = Methods.tools_list_changed
method resources = Methods.resources_list_changed
method prompts = Methods.prompts_list_changed

abbrev pub is_some_true : Option Bool → Bool
is_some_true (some true) = true
is_some_true _ = false

unfoldable pub wants : ListChangedKind → SubscriptionFilter → Bool
wants tools f = is_some_true f.tools_list_changed
wants resources f = is_some_true f.resources_list_changed
wants prompts f = is_some_true f.prompts_list_changed

abbrev pub SubscriptionKey : Type 0
SubscriptionKey = String × RequestId

abbrev pub SubscriptionRegistry : Type 0
SubscriptionRegistry = HashMap SubscriptionKey SubscriptionFilter

unfoldable pub insert :
    String → RequestId → SubscriptionFilter → SubscriptionRegistry → SubscriptionRegistry
insert connection id filter r = Maps.insert (connection, id) filter r

unfoldable pub remove : String → RequestId → SubscriptionRegistry → SubscriptionRegistry × Bool
remove connection id r =
    (Maps.remove (connection, id) r, contains_key {K = SubscriptionKey} (connection, id) r)

-- The keys that `publish` collects under the lock.
unfoldable pub targets : (SubscriptionFilter → Bool) → SubscriptionRegistry → List SubscriptionKey
targets p [] = []
targets p ((k, f) ∷ r) = if p f then k ∷ targets p r else targets p r

-- `number_value` is `json!` of a signed number.
module _ (J : Json) (number_value : ℤ → J.Value) where
  open J use {Value, object}

  abbrev pub subscription_id_value : RequestId → Value
  subscription_id_value (number n) = number_value n
  subscription_id_value (string s) = J.string s

  abbrev pub subscription_id_key : String
  subscription_id_key = "io.modelcontextprotocol/subscriptionId"

  abbrev pub with_extra : Option (String × Value) → J.Object → J.Object
  with_extra none o = o
  with_extra (some (k, v)) o = J.insert k v o

  unfoldable pub subscription_notification :
      String → RequestId → Option (String × Value) → JsonRpcNotification Value
  subscription_notification note id extra = new_notification note (
      some (
        object (
          with_extra extra (
            J.insert "_meta"
              (object (J.insert subscription_id_key (subscription_id_value id) J.empty)) J.empty))))

  abbrev pub Sent : Type 0
  Sent = ℕ × JsonRpcNotification Value

  -- The loop of `publish`: a subscription whose connection is gone or closed is removed.
  unfoldable pub deliver :
      (ℕ → Bool)
      → Writers
      → String
      → Option (String × Value)
      → List SubscriptionKey
      → SubscriptionRegistry
      → SubscriptionRegistry × List Sent
  deliver is_open table note extra [] r = (r, [])
  deliver is_open table note extra ((connection, id) ∷ ks) r = elim (writer connection table) [
    | none ↦ deliver is_open table note extra ks (remove connection id r).0
    | some w ↦
        let (r', sent) = deliver is_open table note extra ks r in
        let failed = deliver is_open table note extra ks (remove connection id r).0 in
        if is_open w then (r', (w, subscription_notification note id extra) ∷ sent) else failed
  ]

  unfoldable pub publish :
      (ℕ → Bool)
      → Writers
      → String
      → Option (String × Value)
      → (SubscriptionFilter → Bool)
      → SubscriptionRegistry
      → SubscriptionRegistry × List Sent
  publish is_open table note extra p r = deliver is_open table note extra (targets p r) r

  unfoldable pub publish_resource_updated :
      (ℕ → Bool) → Writers → String → SubscriptionRegistry → SubscriptionRegistry × List Sent
  publish_resource_updated is_open table uri =
      publish is_open table Methods.resources_updated (some ("uri", J.string uri))
        (λ f. any (λ u. u == uri) f.resource_subscriptions)

  -- `SubscriptionsListenResult`, the answer to a listen request.
  unfoldable pub listen_result : RequestId → JsonRpcResponse Value
  listen_result id = success_response id (
      object (
        J.insert "_meta" (object (J.insert subscription_id_key (subscription_id_value id) J.empty))
          (J.insert "resultType" (J.string "complete") J.empty)))

  -- The loop of `close_all`. What a closed writer is sent is lost.
  unfoldable pub answer_all :
      (ℕ → Bool) → Writers → SubscriptionRegistry → List (ℕ × JsonRpcResponse Value)
  answer_all is_open table [] = []
  answer_all is_open table (((connection, id), _) ∷ r) =
      let rest = answer_all is_open table r in
      elim (writer connection table) [
        | none ↦ rest
        | some w ↦ if is_open w then (w, listen_result id) ∷ rest else rest
      ]

  unfoldable pub close_all :
      (ℕ → Bool)
      → Writers
      → SubscriptionRegistry
      → SubscriptionRegistry × List (ℕ × JsonRpcResponse Value)
  close_all is_open table r = ([], answer_all is_open table r)
