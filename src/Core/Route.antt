-- ===== src/Core/Route.antt =====
-- crates/turbomcp-server/src/dispatcher/mod.rs: how a request's protocol version decides its route.
use turbomcp.Prelude.{
  ◌≡◌, ◌↔◌, true, false, not, String, Option, none, some, List, if◌then◌else◌, ◌==◌, arith,
}
use turbomcp.Core.Json.{Json}
use turbomcp.Core.Version.{ProtocolVersion, v2025_11_25, version_key, lists, as_str}
use turbomcp.Core.Meta.{request_protocol_version}

pub data VersionRoute : Type 0 where
  modern : VersionRoute
  legacy : VersionRoute
  unsupported : Option String → VersionRoute

-- The `match` on the version that the request names.
unfoldable pub route_of : List ProtocolVersion → Option ProtocolVersion → VersionRoute
route_of supported none = unsupported none
route_of supported (some v) =
    if not (lists supported v)
    then unsupported (some (as_str v))
    else if v == v2025_11_25
    then legacy
    else modern

module _ (J : Json) where
  unfoldable pub classify_version : Option J.Value → List ProtocolVersion → VersionRoute
  unfolding route_of
  classify_version params supported = route_of supported (request_protocol_version J params)

-- A request is routed to the modern handlers exactly when it names a supported version other than
-- 2025-11-25.
route_of-modern :
    (supported : List ProtocolVersion) (v : ProtocolVersion)
    → (route_of supported (some v) ≡ modern)
      ↔ ((lists supported v ≡ true) × ((v == v2025_11_25) ≡ false))
unfolding route_of
route_of-modern supported v = ground arith
