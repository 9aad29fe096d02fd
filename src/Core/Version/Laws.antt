-- ===== src/Core/Version/Laws.antt =====
-- Version strings and `ProtocolVersion` values correspond.
use turbomcp.Prelude.{◌≡◌, refl, true, String, arith, string_key}
use turbomcp.Core.Version.{
  ProtocolVersion, v2024_11_05, v2025_03_26, v2025_06_18, v2025_11_25, draft, unknown, as_str,
  from_wire, is_supported, is_recognized,
}

-- Every wire string is kept: parsed and printed, it is the same string.
pub as_str-from_wire : (s : String) → as_str (from_wire s) ≡ s
unfolding as_str from_wire
as_str-from_wire s = ground (
  arith,
  string_key.same_iff s "2024-11-05",
  string_key.same_iff s "2025-03-26",
  string_key.same_iff s "2025-06-18",
  string_key.same_iff s "2025-11-25",
  string_key.same_iff s "2026-07-28",
)

pub from_wire-as_str : (v : ProtocolVersion) → is_recognized v ≡ true → from_wire (as_str v) ≡ v
unfolding as_str from_wire is_recognized
from_wire-as_str v2024_11_05 h = refl
from_wire-as_str v2025_03_26 h = refl
from_wire-as_str v2025_06_18 h = refl
from_wire-as_str v2025_11_25 h = refl
from_wire-as_str draft h = refl
from_wire-as_str (unknown s) h = ground arith

-- Parsing loses nothing, and printing loses nothing of a recognized version; two strings parse to
-- one version only if they are the same; and a supported version is a recognized one.
pub wire_round_trip :
    ((s : String) → as_str (from_wire s) ≡ s)
    × ((v : ProtocolVersion) → is_recognized v ≡ true → from_wire (as_str v) ≡ v)
    × ((s t : String) → from_wire s ≡ from_wire t → s ≡ t)
    × ((v : ProtocolVersion) → is_supported v ≡ true → is_recognized v ≡ true)
unfolding is_supported is_recognized
wire_round_trip = (
  as_str-from_wire,
  from_wire-as_str,
  (λ s t e. cc (as_str-from_wire s, as_str-from_wire t)),
  supported_recognized,
)
  where
    supported_recognized : (v : ProtocolVersion) → is_supported v ≡ true → is_recognized v ≡ true
    supported_recognized (unknown s) h = cc
    supported_recognized v2024_11_05 h = refl
    supported_recognized _ h = refl
