-- ===== src/Tests/Sessions.antt =====
-- The theorems on sessions and requests in flight, applied to a store of two sessions.
use turbomcp.Prelude.HashMap.{IsDistinct}
use turbomcp.Prelude.{
  length, ◌≤◌, ℕ, ◌≡◌, String, none, some, List, [], ◌∷◌, if◌then◌else◌, ◌==◌, string_key, holds,
}
use turbomcp.Prelude.Int.{pos}
use turbomcp.Prelude.HashMap as Maps
use turbomcp.Core.Version.{latest}
use turbomcp.Core.JsonRpc.{number}
use turbomcp.Sessions.Store.{
  SessionState, SessionStore, with_capacity, with_idle_timeout, insert, get, sweep_expired,
}
use turbomcp.Sessions.Store.Invariant.{Call, insert_of, get_of, run, run-bounded}
use turbomcp.Sessions.Store.Eviction.{Inserted, insert_session_lem}
use turbomcp.Sessions.Store.Expiry.{
  fresh, state_of, touched, is_idle, get_session_lem, sweep_expired_lem,
}
use turbomcp.Sessions.InFlight.{
  Event, started, ended, current, is_some, without, cancel, cancel-run, cancel-other_connection,
}
use turbomcp.Sessions.InFlight as InFlight
use turbomcp.Tests.Json.{tree, null, nil}

abbrev state : SessionState tree
state = record {
  version = latest;
  client_info = record { name = "client"; title = none; version = "1"; extra = nil };
  client_capabilities = null;
  log_level = none;
}

abbrev history : List (ℕ × Call tree)
history = (1, insert_of "a" state) ∷ (2, insert_of "b" state) ∷ (3, get_of "a") ∷ []

abbrev store : SessionStore tree
store = run tree history (with_idle_timeout tree (some 10) (with_capacity tree 2))

run-bounded_example : IsDistinct store.inner × (length store.inner ≤ 2) × (1 ≤ store.capacity)
run-bounded_example = run-bounded tree 2 (some 10) history

store_bounded : IsDistinct store.inner × (length store.inner ≤ 2) × (1 ≤ store.capacity)
store_bounded = run-bounded tree 2 (some 10) history

insert_session_lem_example : Inserted tree 4 "c" state store (insert tree 4 "c" state store)
insert_session_lem_example =
    insert_session_lem tree 4 "c" state store store_bounded.0 store_bounded.2

get_session_lem_example :
    ((get tree 5 "a" store).1 ≡ state_of tree (fresh tree 5 "a" store))
    × ((j : String)
        → Maps.get j (get tree 5 "a" store).0.inner
          ≡ (if "a" == j then touched tree 5 (fresh tree 5 "a" store) else Maps.get j store.inner))
get_session_lem_example = get_session_lem tree 5 "a" store

sweep_expired_lem_example :
    (holds (sweep_expired tree 12 store).1 "b"
      ≡ is_idle tree store.idle_timeout 12 (Maps.get "b" store.inner))
    × (Maps.get "b" (sweep_expired tree 12 store).0.inner ≡ fresh tree 12 "b" store)
sweep_expired_lem_example = sweep_expired_lem tree 12 store store_bounded.0 "b"

abbrev events : List Event
events =
    started "c1" (number (pos 1)) 70
    ∷ started "c2" (number (pos 1)) 71
    ∷ ended "c2" (number (pos 1))
    ∷ []

cancel-run_example : cancel "c1" (number (pos 1)) (InFlight.run events []) ≡ (
  is_some (current "c1" (number (pos 1)) none events),
  current "c1" (number (pos 1)) none events,
)
cancel-run_example = cancel-run events "c1" (number (pos 1))
