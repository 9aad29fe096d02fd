-- ===== src/Dispatcher/Ending.antt =====
-- The end of a session.
use turbomcp.Prelude.{◌≡◌, refl, String, none, if◌then◌else◌, ◌==◌, string_key, ℕ}
use turbomcp.Prelude.HashMap as Maps
use turbomcp.Prelude.HashMap.{get-remove}
use turbomcp.Prelude.HashMap.Laws.{get-remove_self}
use turbomcp.Sessions.Store as Sessions
use turbomcp.Subscriptions.Legacy.{legacy_remove}
use turbomcp.Dispatcher.Platform.{Platform, json}
use turbomcp.Dispatcher.State.{Shared, terminate_session}

module _ (P : Platform) where
  -- Terminating a session says whether it existed; afterwards a lookup at any time finds no such
  -- session, its subscriptions and its route are gone, and the state and the route of every other
  -- session are as before.
  pub terminate_session_lem :
      (id : String) (s : Shared P) (now : ℕ) (j : String)
      → ((terminate_session P id s).1 ≡ Maps.contains_key id s.sessions.inner)
        × ((Sessions.get (json P) now id (terminate_session P id s).0.sessions).1 ≡ none)
        × (Maps.get j (terminate_session P id s).0.sessions.inner
            ≡ (if id == j then none else Maps.get j s.sessions.inner))
        × (Maps.get j (terminate_session P id s).0.routes
            ≡ (if id == j then none else Maps.get j s.routes))
  unfolding terminate_session Sessions.remove legacy_remove Sessions.get
  terminate_session_lem id s now j = (
    refl,
    rw (get-remove_self id s.sessions.inner, Sessions.get) refl,
    get-remove id j s.sessions.inner,
    get-remove id j s.routes,
  )
