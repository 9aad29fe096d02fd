-- ===== src/Prelude/Int.antt =====
-- Signed integers (`i32`, `i64`) over the native numbers; `negsuc n` is -(n + 1).
use turbomcp.Prelude.{ℕ, zero, suc, Bool, true, false, leb, if◌then◌else◌, String}
use turbomcp.Prelude.Decimal.{to_string}
use Prim.Native.String

pub data ℤ : Type 0 where
  pos : ℕ → ℤ
  negsuc : ℕ → ℤ

-- The integer -n.
abbrev pub minus : ℕ → ℤ
minus zero = pos 0
minus (suc n) = negsuc n

abbrev pub leb_ℤ : ℤ → ℤ → Bool
leb_ℤ (pos a) (pos b) = leb a b
leb_ℤ (pos a) (negsuc b) = false
leb_ℤ (negsuc a) (pos b) = true
leb_ℤ (negsuc a) (negsuc b) = leb b a

-- `Ord::clamp`.
abbrev pub clamp_ℤ : ℤ → ℤ → ℤ → ℤ
clamp_ℤ x lo hi = if leb_ℤ x lo then lo else if leb_ℤ hi x then hi else x

-- `u64::try_from(x).unwrap_or(0)`.
abbrev pub to_unsigned : ℤ → ℕ
to_unsigned (pos n) = n
to_unsigned (negsuc n) = 0

-- `i64::to_string`.
unfoldable pub int_to_string : ℤ → String
int_to_string (pos n) = to_string n
int_to_string (negsuc n) = String.◌++◌ "-" (to_string (suc n))
