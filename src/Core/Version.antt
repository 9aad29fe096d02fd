-- ===== src/Core/Version.antt =====
-- crates/turbomcp-core/src/protocol_version.rs: `ProtocolVersion` and its wire strings.
pub mod Laws
use turbomcp.Prelude.{
  ◌≡◌, refl, ◌↔◌, Bool, true, false, List, [], ◌∷◌, any, String, Key, ◌==◌, if◌then◌else◌, arith,
  string_key,
}

pub data ProtocolVersion : Type 0 where
  v2024_11_05 v2025_03_26 v2025_06_18 v2025_11_25 draft : ProtocolVersion
  unknown : String → ProtocolVersion

abbrev pub latest : ProtocolVersion
latest = draft

-- `ProtocolVersion::SUPPORTED`.
abbrev pub supported : List ProtocolVersion
supported = v2025_11_25 ∷ draft ∷ []

unfoldable pub as_str : ProtocolVersion → String
as_str v2024_11_05 = "2024-11-05"
as_str v2025_03_26 = "2025-03-26"
as_str v2025_06_18 = "2025-06-18"
as_str v2025_11_25 = "2025-11-25"
as_str draft = "2026-07-28"
as_str (unknown s) = s

unfoldable pub from_wire : String → ProtocolVersion
from_wire s =
    if s == "2024-11-05"
    then v2024_11_05
    else if s == "2025-03-26"
    then v2025_03_26
    else if s == "2025-06-18"
    then v2025_06_18
    else if s == "2025-11-25"
    then v2025_11_25
    else if s == "2026-07-28"
    then draft
    else unknown s

-- The derived `PartialEq`.
abbrev pub version_same : ProtocolVersion → ProtocolVersion → Bool
version_same v2024_11_05 v2024_11_05 = true
version_same v2025_03_26 v2025_03_26 = true
version_same v2025_06_18 v2025_06_18 = true
version_same v2025_11_25 v2025_11_25 = true
version_same draft draft = true
version_same (unknown s) (unknown t) = s == t
version_same _ _ = false

pub version_same_iff : (a b : ProtocolVersion) → (version_same a b ≡ true) ↔ (a ≡ b)
version_same_iff (unknown s) (unknown t) = ground (arith, string_key.same_iff s t)
version_same_iff v2024_11_05 _ = ground arith
version_same_iff v2025_03_26 _ = ground arith
version_same_iff v2025_06_18 _ = ground arith
version_same_iff v2025_11_25 _ = ground arith
version_same_iff draft _ = ground arith
version_same_iff _ _ = ground arith

instance abbrev pub version_key : Key ProtocolVersion
version_key = record { same = version_same; same_iff = version_same_iff }

-- `slice::contains`.
abbrev pub lists : List ProtocolVersion → ProtocolVersion → Bool
lists vs v = any (λ x. x == v) vs

unfoldable pub is_supported : ProtocolVersion → Bool
is_supported v = lists supported v

unfoldable pub is_recognized : ProtocolVersion → Bool
is_recognized (unknown s) = false
is_recognized _ = true
