-- ===== src/Tests/Client.antt =====
-- The theorems on the client's cache, applied to a cached tool list.
use turbomcp.Prelude.{
  ◌≡◌, ◌⊎◌, none, List, [], ◌∷◌, if◌then◌else◌, string_key, pair_key, option_key,
}
use turbomcp.Prelude.HashMap as Maps
use turbomcp.Core.Methods as Methods
use turbomcp.Client.Cache.{ResponseCache, CacheKey, get, on_notification}
use turbomcp.Client.Cache.Invariant.{Call, store_of, notified, run, CacheOk, run_bounded}
use turbomcp.Client.Cache.Notifications.{invalidates, on_notification_lem}
use turbomcp.Client.Cache.Reads.{learn_all, served, lookup-run}
use turbomcp.Tests.Json.{tree, Tree, object, number, nil, member, number_of}

abbrev answer : Tree
answer = object (member "ttlMs" (number 5) nil)

abbrev calls : List (Call tree number_of)
calls =
    store_of 1 2 "tools/list" none answer
    ∷ store_of 3 4 "prompts/list" none answer
    ∷ notified Methods.prompts_list_changed none
    ∷ []

abbrev cache : ResponseCache tree number_of
cache = run tree number_of calls []

run_bounded_example : CacheOk tree number_of cache
run_bounded_example = run_bounded tree number_of calls

on_notification_lem_example :
    Maps.get {K = CacheKey}
      ("tools/list", none)
      (on_notification tree number_of Methods.tools_list_changed none cache)
    ≡ (if invalidates tree number_of Methods.tools_list_changed none ("tools/list", none)
        then none
        else Maps.get {K = CacheKey} ("tools/list", none) cache)
on_notification_lem_example =
    on_notification_lem tree number_of Methods.tools_list_changed none cache ("tools/list", none)

lookup-run_example :
    ((get tree number_of 100 "tools/list" none cache).1 ≡ none)
    ⊎ ((get tree number_of 100 "tools/list" none cache).1
        ≡ served tree number_of 100 (learn_all tree number_of ("tools/list", none) calls none))
lookup-run_example = lookup-run tree number_of calls 100 "tools/list" none
