-- ===== src/DraftTasks/Subs.antt =====
-- crates/turbomcp-ext-tasks/src/subs.rs: who listens to the status of which task.
pub mod Laws
use mathlib.Core.Option
use turbomcp.Prelude.{
  ℕ, Bool, not, ◌&&◌, Option, none, some, String, List, [], ◌∷◌, ◌++◌, keep_if, is_empty, holds,
  if◌then◌else◌, Key, ◌==◌, string_key, ◌≡◌, ◌↔◌, true, arith,
}
use turbomcp.Prelude.HashMap as Maps
use turbomcp.Prelude.HashMap.{HashMap}
use turbomcp.Core.Json.{Json}
use turbomcp.Core.JsonRpc.{
  RequestId, request_id_key, number, string, JsonRpcNotification, new_notification,
}
use turbomcp.Prelude.Int.{ℤ}
use turbomcp.Subscriptions.Outbound.{Writers, writer}

pub record Subscriber : Type 0 where
  pub connection : String
  pub subscription_id : RequestId

abbrev pub subscriber_same : Subscriber → Subscriber → Bool
subscriber_same s t = (s.connection == t.connection) && (s.subscription_id == t.subscription_id)

pub subscriber_same_iff : (s t : Subscriber) → (subscriber_same s t ≡ true) ↔ (s ≡ t)
subscriber_same_iff s t = ground (
  arith,
  string_key.same_iff s.connection t.connection,
  request_id_key.same_iff s.subscription_id t.subscription_id,
)

instance abbrev pub subscriber_key : Key Subscriber
subscriber_key = record { same = subscriber_same; same_iff = subscriber_same_iff }

abbrev pub TaskSubscriptions : Type 0
TaskSubscriptions = HashMap String (List Subscriber)

-- `subscribers`, also what `entry(..).or_default()` starts from.
unfoldable pub subscribers : String → TaskSubscriptions → List Subscriber
subscribers task_id m = Option.get_or (Maps.get task_id m) []

abbrev pub add : Subscriber → List Subscriber → List Subscriber
add s subs = if holds subs s then subs else subs ++ s ∷ []

-- The loop of `subscribe`.
unfoldable pub subscribe_all : Subscriber → List String → TaskSubscriptions → TaskSubscriptions
unfolding subscribers
subscribe_all s [] m = m
subscribe_all s (task_id ∷ ids) m =
    subscribe_all s ids (Maps.insert task_id (add s (subscribers task_id m)) m)

unfoldable pub subscribe : String → RequestId → List String → TaskSubscriptions → TaskSubscriptions
unfolding subscribe_all
subscribe connection_id subscription_id task_ids m =
    subscribe_all (record { connection = connection_id; subscription_id = subscription_id })
      task_ids m

abbrev pub keep : String → List Subscriber → List Subscriber
keep connection_id subs = keep_if (λ s. not (s.connection == connection_id)) subs

unfoldable pub drop_connection : String → TaskSubscriptions → TaskSubscriptions
drop_connection connection_id [] = []
drop_connection connection_id ((task_id, subs) ∷ m) =
    if is_empty (keep connection_id subs)
    then drop_connection connection_id m
    else (task_id, keep connection_id subs) ∷ drop_connection connection_id m

-- `number_value` is `serde_json::to_value` of a number.
module _ (J : Json) (number_value : ℤ → J.Value) where
  open J use {Value, Object, object, as_object, get, insert, remove}

  abbrev pub id_value : RequestId → Value
  id_value (number n) = number_value n
  id_value (string s) = J.string s

  abbrev pub subscription_id_key : String
  subscription_id_key = "io.modelcontextprotocol/subscriptionId"

  -- From the serialised task.
  unfoldable pub notification_params : Value → Value
  notification_params value = elim (as_object value) [
    | none ↦ value
    | some obj ↦ object (remove "resultType" obj)
  ]

  -- What `entry("_meta").or_insert_with(..)` finds.
  abbrev pub meta_value : Object → Value
  meta_value obj = Option.get_or (get "_meta" obj) (object J.empty)

  unfoldable pub stamp_subscription_id : Value → RequestId → Value
  stamp_subscription_id params id = elim (as_object params) [
    | none ↦
        object (insert "_meta" (object (insert subscription_id_key (id_value id) J.empty)) J.empty)
    | some obj ↦ elim (as_object (meta_value obj)) [
      | none ↦ params
      | some meta ↦
          object (insert "_meta" (object (insert subscription_id_key (id_value id) meta)) obj)
    ]
  ]

  abbrev pub Pushed : Type 0
  Pushed = ℕ × JsonRpcNotification Value

  abbrev pub notification : Value → RequestId → JsonRpcNotification Value
  notification base id =
      new_notification "notifications/tasks" (some (stamp_subscription_id base id))

  -- The loop of `push_status`. Which writers still take a message is an argument.
  unfoldable pub push_all :
      (ℕ → Bool)
      → Writers
      → Value
      → List Subscriber
      → TaskSubscriptions
      → TaskSubscriptions × List Pushed
  push_all is_open table base [] m = (m, [])
  push_all is_open table base (s ∷ subs) m = elim (writer s.connection table) [
    | none ↦ push_all is_open table base subs (drop_connection s.connection m)
    | some w ↦
        let (m', sent) = push_all is_open table base subs m in
        let failed = push_all is_open table base subs (drop_connection s.connection m) in
        if is_open w then (m', (w, notification base s.subscription_id) ∷ sent) else failed
  ]

  -- `detailed` is the serialised answer of `store.get(task_id)`.
  unfoldable pub push_status :
      (ℕ → Bool)
      → Writers
      → Option Value
      → String
      → TaskSubscriptions
      → TaskSubscriptions × List Pushed
  unfolding subscribers push_all notification_params
  push_status is_open table detailed task_id m =
      if is_empty (subscribers task_id m) then (m, []) else elim detailed [
        | none ↦ (m, [])
        | some value ↦ push_all is_open table (notification_params value) (subscribers task_id m) m
      ]
