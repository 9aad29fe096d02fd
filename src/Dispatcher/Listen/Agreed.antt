-- ===== src/Dispatcher/Listen/Agreed.antt =====
-- What a client gets of the subscription that it asked for.
use mathlib.Core.Option
use turbomcp.Prelude.{ℕ, Bool, String, List, arith, string_key, pair_key}
use turbomcp.Prelude.HashMap as Maps
use turbomcp.Prelude.{Option, arith, string_key, pair_key}
use turbomcp.Core.Json.{member, ◌>>=◌}
use turbomcp.Core.Version.{ProtocolVersion}
use turbomcp.Core.JsonRpc.{
  JsonRpcRequest, JsonRpcNotification, RequestId, number, string, request_id_key,
}
use turbomcp.Subscriptions.Registry.{SubscriptionFilter}
use turbomcp.Subscriptions.Outbound.{Writers}
use turbomcp.Subscriptions.Registry.{
  ListChangedKind, tools, resources, prompts, SubscriptionRegistry,
}
use turbomcp.Subscriptions.Registry as Registry
use turbomcp.Dispatcher.Frames.{RawListenParams}
use turbomcp.Dispatcher.Platform.{Platform, json}
use turbomcp.Dispatcher.Router.{MethodRouter, Extension, has_tools, has_resources, has_prompts}
use turbomcp.Dispatcher.Responses.{Value}
use turbomcp.Dispatcher.Listen.{agreed_filter}

abbrev subscription_id_key : String
subscription_id_key = "io.modelcontextprotocol/subscriptionId"

module _ (P : Platform) (router : MethodRouter P) where
  -- Whether the server registered the capability of a kind.
  abbrev pub offers : ListChangedKind → Bool
  offers tools = has_tools P router
  offers resources = has_resources P router
  offers prompts = has_prompts P router

  -- How the wire writes the id of a request.
  abbrev pub id_value : RequestId → Value P
  id_value (number n) = P.number_value n
  id_value (string t) = (json P).string t

  -- What a notification says: its method, the subscription that its `_meta` names, and its filter.
  abbrev pub said : JsonRpcNotification (Value P) → String × Option (Value P) × Option (Value P)
  said n = (
    n.method,
    n.params >>= member (json P) "_meta" >>= member (json P) subscription_id_key,
    n.params >>= member (json P) "notifications",
  )

  abbrev pub Told : Type 0
  Told = ℕ × String × Option (Value P) × Option (Value P)

  -- What is sent, and to which writer.
  abbrev pub told : ℕ × JsonRpcNotification (Value P) → Told
  told (v, n) = (v, (said n).0, (said n).1, (said n).2)

  module _ (supported : List ProtocolVersion) (extensions : List (Extension P)) (table : Writers)
      (is_open : ℕ → Bool) (cancelled : Bool) (token : ℕ) (req : JsonRpcRequest (Value P))
      (subs : SubscriptionRegistry) (conn : String) (w : ℕ) (requested : RawListenParams)
      (notifications : Value P) where
    abbrev agreed_to : SubscriptionFilter
    agreed_to = agreed_filter P router requested.notifications
