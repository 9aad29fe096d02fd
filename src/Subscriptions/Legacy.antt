-- ===== src/Subscriptions/Legacy.antt =====
-- crates/turbomcp-server/src/subscriptions.rs: the routes of the sessions of protocol version
-- 2025-11-25, with the resources that each subscribed to.
pub mod Routes
use turbomcp.Prelude.{
  ℕ, Bool, true, false, not, ◌&&◌, String, Option, none, some, List, [], ◌∷◌, holds, keep_if,
  length, leb, if◌then◌else◌, ◌==◌, string_key,
}
use turbomcp.Prelude.HashMap as Maps
use turbomcp.Prelude.HashMap.{HashMap, contains_key}
use turbomcp.Core.Json.{Json}
use turbomcp.Core.JsonRpc.{JsonRpcNotification, new_notification}
use turbomcp.Subscriptions.Outbound.{Writers, legacy_writer}

abbrev pub max_legacy_routes : ℕ
max_legacy_routes = 4096

pub record LegacyRoute : Type 0 where
  pub connection : String
  -- A `HashSet`.
  pub uris : List String

abbrev pub default_route : LegacyRoute
default_route = record { connection = ""; uris = [] }

abbrev pub Routes : Type 0
Routes = HashMap String LegacyRoute

-- The victim is whichever route the map yields first.
abbrev pub evict_first : Routes → Routes
evict_first [] = []
evict_first ((victim, route) ∷ rs) = Maps.remove victim ((victim, route) ∷ rs)

abbrev pub or_default : Option LegacyRoute → LegacyRoute
or_default none = default_route
or_default (some r) = r

abbrev pub on_connection : Option String → LegacyRoute → LegacyRoute
on_connection none r = r
on_connection (some conn) r = record r { connection = conn }

unfoldable pub legacy_touch : String → Option String → Routes → Routes
legacy_touch session connection routes =
    let room =
      if not (contains_key session routes) && leb max_legacy_routes (length routes)
      then evict_first routes
      else routes in
    Maps.insert session (on_connection connection (or_default (Maps.get session room))) room

-- `HashSet::insert`.
abbrev pub add : String → List String → List String
add uri uris = if holds uris uri then uris else uri ∷ uris

unfoldable pub with_uri : String → LegacyRoute → LegacyRoute
with_uri uri r = record r { uris = add uri r.uris }

unfoldable pub without_uri : String → LegacyRoute → LegacyRoute
without_uri uri r = record r { uris = keep_if (λ u. not (u == uri)) r.uris }

-- The touch leaves a route for the session, so that the source's `expect` does not fail.
unfoldable pub legacy_subscribe : String → Option String → String → Routes → Routes
legacy_subscribe session connection uri routes =
    let touched = legacy_touch session connection routes in
    elim (Maps.get session touched) [
      | none ↦ touched
      | some r ↦ Maps.insert session (with_uri uri r) touched
    ]

unfoldable pub legacy_unsubscribe : String → String → Routes → Routes
legacy_unsubscribe session uri routes = elim (Maps.get session routes) [
  | none ↦ routes
  | some r ↦ Maps.insert session (without_uri uri r) routes
]

unfoldable pub legacy_remove : String → Routes → Routes × Bool
legacy_remove session routes = (Maps.remove session routes, contains_key session routes)

module _ (J : Json) where
  abbrev pub params_of : Option (String × J.Value) → Option J.Value
  params_of none = none
  params_of (some (key, value)) = some (J.object (J.insert key value J.empty))

  -- `publish_legacy`: to each route that wants it and that has a stream now; a send that fails is
  -- ignored.
  unfoldable pub publish_legacy :
      Writers
      → String
      → Option (String × J.Value)
      → (LegacyRoute → Bool)
      → Routes
      → List (ℕ × JsonRpcNotification J.Value)
  publish_legacy table note extra wants [] = []
  publish_legacy table note extra wants ((session, route) ∷ rs) =
      let rest = publish_legacy table note extra wants rs in
      if wants route
      then elim (legacy_writer session route.connection table) [
        | none ↦ rest
        | some w ↦ (w, new_notification note (params_of extra)) ∷ rest
      ]
      else rest
