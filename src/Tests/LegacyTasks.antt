-- ===== src/Tests/LegacyTasks.antt =====
-- The theorems on the session-scoped task registry, applied to two sessions with three tasks.
use turbomcp.Prelude.{
  ℕ, suc, ◌≡◌, refl, false, String, none, some, List, [], ◌∷◌, arith, length, ok, string_key,
}
use turbomcp.Prelude.HashMap as Maps
use turbomcp.Prelude.HashMap.{IsDistinct}
use turbomcp.Prelude.Int.{pos}
use turbomcp.LegacyTasks.Store.{
  working, is_terminal, TaskEntry, TaskStore, live, expired, create, owned, complete, cancel, get,
  list, wait_once, of_session, snapshots, finished, insert_by_created, sort_by_created,
}
use turbomcp.LegacyTasks.Store.Invariant.{Call, creates, step, run, StoreOk, run-TaskStoreOk}
use turbomcp.LegacyTasks.Store.Isolation.{view, session_isolated}
use turbomcp.LegacyTasks.Store.Order.{IsOldestFirst, of_session_lem}
use turbomcp.LegacyTasks.Store.Paging.{follow, follow-list}
use turbomcp.LegacyTasks.Store.Outcome.{CancelSpec, cancel_lem, wait_once-complete}
use turbomcp.Tests.Json.{null}
use turbomcp.Tests.Host.{host}

abbrev history : List (ℕ × ℕ × ℕ × Call host)
history =
    (1, 1, 1, creates "t1" 50 "ann" none 7)
    ∷ (2, 2, 2, creates "t2" 51 "bob" (some (pos 9_000_000)) 8)
    ∷ (3, 3, 3, creates "t3" 52 "ann" none 9)
    ∷ []

abbrev registry : TaskStore host
registry = run host history (record { inner = []; capacity = 8 })

run-TaskStoreOk_example : StoreOk host registry
run-TaskStoreOk_example = run-TaskStoreOk host 8 history

registry-StoreOk : StoreOk host registry
registry-StoreOk = run-TaskStoreOk host 8 history

session_isolated_example :
    ((get host 4 "ann" "t1" (view host "ann" registry)).1 ≡ (get host 4 "ann" "t1" registry).1)
    × ((list host 4 "ann" none 1 (view host "ann" registry)).1
        ≡ (list host 4 "ann" none 1 registry).1)
    × ((wait_once host 4 "ann" "t1" (view host "ann" registry)).1
        ≡ (wait_once host 4 "ann" "t1" registry).1)
    × ((cancel host 4 4 "ann" "t1" (view host "ann" registry)).1
        ≡ (cancel host 4 4 "ann" "t1" registry).1)
session_isolated_example =
    session_isolated host 4 "ann" registry registry-StoreOk.distinct "t1" 4 none 1

cancel_lem_example :
    CancelSpec host 4 4 "ann" "t1" registry
      (cancel host 4 4 "ann" "t1" registry).0
      (cancel host 4 4 "ann" "t1" registry).1
      (cancel host 4 4 "ann" "t1" registry).2
cancel_lem_example = cancel_lem host 4 4 "ann" "t1" registry

abbrev first_task : TaskEntry host
first_task = record {
  session_id = "ann";
  status = working;
  status_message = none;
  created_wall = 1;
  updated_wall = 1;
  created = 1;
  ttl_ms = pos 300_000;
  outcome = none;
  cancel = 7;
  notify = 50;
}

first_there : Maps.get "t1" registry.inner ≡ some first_task
unfolding run step create live expired Maps.retain Maps.get Maps.insert
first_there = refl

first_alive : is_terminal working ≡ false
unfolding is_terminal
first_alive = refl

first_fresh : expired host 4 first_task ≡ false
unfolding expired
first_fresh = refl

wait_once-complete_example :
    (wait_once host 4 "ann" "t1" (complete host 4 "t1" (ok null) registry).0).1 ≡ finished (ok null)
wait_once-complete_example =
    wait_once-complete host 4 4 "ann" "t1" first_task (ok null) registry registry-StoreOk
      first_there refl first_alive first_fresh

of_session_lem_example :
    IsDistinct (of_session host "ann" registry.inner)
    × IsOldestFirst host (of_session host "ann" registry.inner)
    × ((j : String)
        → Maps.get j (of_session host "ann" registry.inner) ≡ owned host "ann" j registry.inner)
of_session_lem_example = of_session_lem host "ann" registry.inner registry-StoreOk.distinct

two_tasks : length (of_session host "ann" (live host 4 registry.inner)) ≡ 2
unfolding run step create live expired Maps.retain Maps.insert of_session sort_by_created
    insert_by_created
two_tasks = refl

follow-list_example :
    follow host
      (suc (length (of_session host "ann" (live host 4 registry.inner))))
      4
      "ann"
      none
      1
      registry
    ≡ some (snapshots host (of_session host "ann" (live host 4 registry.inner)))
follow-list_example = follow-list host 4 "ann" 1 (omega arith) registry (omega (arith, two_tasks))
