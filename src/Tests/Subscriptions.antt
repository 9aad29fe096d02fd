-- ===== src/Tests/Subscriptions.antt =====
-- The theorems on subscriptions, applied to two subscriptions and a legacy session.
use turbomcp.Prelude.{
  ℕ, ◌≡◌, refl, Bool, true, ◌&&◌, none, some, [], ◌∷◌, ltb, if◌then◌else◌, string_key, pair_key,
}
use turbomcp.Prelude.HashMap as Maps
use turbomcp.Prelude.HashMap.{IsDistinct}
use turbomcp.Prelude.Int.{ℤ, to_unsigned}
use turbomcp.Core.JsonRpc.{RequestId, request_id_key}
use turbomcp.Core.JsonRpc as JsonRpc
use turbomcp.Subscriptions.Outbound.{Writers}
use turbomcp.Subscriptions.Registry.{
  SubscriptionFilter, SubscriptionKey, SubscriptionRegistry, tools, wants, targets, publish,
}
use turbomcp.Subscriptions.Registry.Publish.{
  reached, is_lost, wanted, told, announced, times, publish_lem,
}
use turbomcp.Prelude.{map, ◌≤◌}
use turbomcp.Subscriptions.Coalesce.{
  Scheduler, idle, schedule_list_changed, load, set, flush, flush_publish, count, start, first, Run,
  stop, wake, send, schedule-coalesced,
}
use turbomcp.Tests.Json.{tree, Tree, number}

abbrev number_value : ℤ → Tree
number_value n = number (to_unsigned n)

abbrev filter : SubscriptionFilter
filter = record {
  tools_list_changed = some true;
  resources_list_changed = none;
  prompts_list_changed = none;
  resource_subscriptions = [];
}

abbrev subscriptions : SubscriptionRegistry
subscriptions = (("c1", JsonRpc.string "a"), filter) ∷ (("c2", JsonRpc.string "b"), filter) ∷ []

abbrev writers : Writers
writers = ("c1", 5) ∷ []

abbrev is_open : ℕ → Bool
is_open w = ltb w 9

subscriptions-IsDistinct : IsDistinct {K = SubscriptionKey} subscriptions
unfolding Maps.get
subscriptions-IsDistinct = (refl, (refl, tt))

publish_lem_example :
    (map
        (told tree number_value none)
        (publish tree number_value is_open writers "notifications/tools/list_changed" none
          (wants tools)
          subscriptions).1
      ≡ announced tree number_value is_open writers "notifications/tools/list_changed" none
          (targets (wants tools) subscriptions))
    × ((k : SubscriptionKey)
        → (times k (targets (wants tools) subscriptions) ≡ (
            if wanted (wants tools) (Maps.get {K = SubscriptionKey} k subscriptions) then 1 else 0))
          × (Maps.get {K = SubscriptionKey} k
                (publish tree number_value is_open writers "notifications/tools/list_changed" none
                  (wants tools)
                  subscriptions).0
              ≡ (if wanted (wants tools) (Maps.get {K = SubscriptionKey} k subscriptions)
                    && is_lost is_open writers (reached is_open writers k)
                  then none
                  else Maps.get {K = SubscriptionKey} k subscriptions)))
publish_lem_example =
    publish_lem tree number_value is_open writers "notifications/tools/list_changed" none
      (wants tools) subscriptions subscriptions-IsDistinct refl

-- A change, its sleeping task, and its publication.
abbrev changed : Scheduler
changed = record idle {
  pending = record idle.pending { tools_pending = true };
  flushes = tools ∷ [];
}

abbrev announced_change : Scheduler
announced_change = record idle { published = tools ∷ [] }

change_published : Run tools 0 (schedule_list_changed tools idle) announced_change
unfolding schedule_list_changed load set flush flush_publish
change_published = wake 0 tools [] changed announced_change (first tools []) (
    send 0 tools [] (flush tools [] changed) announced_change (first tools [])
      (stop announced_change))

schedule-coalesced_example :
    (count tools (schedule_list_changed tools idle).flushes ≡ 1)
    × (schedule_list_changed tools (schedule_list_changed tools idle)
        ≡ schedule_list_changed tools idle)
    × (1 ≤ count tools announced_change.published)
    × (count tools announced_change.published ≤ 1)
schedule-coalesced_example =
    schedule-coalesced tools 0 idle announced_change start change_published refl refl
