-- ===== src/Neutral/Convert.antt =====
-- What the conversions of crates/turbomcp-protocol/src/neutral.rs share: the integer widths, the
-- optional `_meta`, and how conversions that undo one another do so on lists and options.
use mathlib.Core.Option
use mathlib.Core.Path.{ap₂}
use turbomcp.Prelude.{
  ℕ, ◌-◌, ◌^◌, ◌≡◌, refl, sym, ap, Bool, false, Option, none, some, List, [], ◌∷◌, map, leb, arith,
  if◌then◌else◌, Bool-cases, inl, inr,
}
use turbomcp.Prelude.Int.{ℤ, pos, negsuc}
use turbomcp.Core.Json.{is_empty_object}
use turbomcp.Neutral.Serde.{Serde}

-- `i64::try_from(s).unwrap_or(i64::MAX)` of a `u64`.
unfoldable pub i64_of_u64 : ℕ → ℤ
i64_of_u64 n = if leb n (2 ^ 63 - 1) then pos n else pos (2 ^ 63 - 1)

-- `u64::try_from(s).unwrap_or(0)` of an `i64`.
unfoldable pub u64_of_i64 : ℤ → ℕ
u64_of_i64 (pos n) = n
u64_of_i64 (negsuc _) = 0

-- `u32::try_from(t).unwrap_or(u32::MAX)` of an `i64`.
unfoldable pub u32_of_i64 : ℤ → ℕ
u32_of_i64 (pos n) = if leb n (2 ^ 32 - 1) then n else 2 ^ 32 - 1
u32_of_i64 (negsuc _) = 2 ^ 32 - 1

-- The size that a round trip over a wire keeps.
abbrev pub clamped : ℕ → ℕ
clamped n = if leb n (2 ^ 63 - 1) then n else 2 ^ 63 - 1

pub u64_of_i64-i64_of_u64 : (n : ℕ) → u64_of_i64 (i64_of_u64 n) ≡ clamped n
unfolding u64_of_i64 i64_of_u64
u64_of_i64-i64_of_u64 n = ground arith

-- The total that a round trip over a wire keeps.
abbrev pub capped : ℕ → ℕ
capped n = if leb n (2 ^ 32 - 1) then n else 2 ^ 32 - 1

pub u32_of_i64-pos : (n : ℕ) → u32_of_i64 (pos n) ≡ capped n
unfolding u32_of_i64
u32_of_i64-pos n = refl

-- `unwrap_or(false)` of an optional flag.
abbrev pub or_false : Option Bool → Bool
or_false o = Option.get_or o false

module _ (S : Serde) where
  open S use {json}
  open json use {Object, empty}

  -- `(!meta.is_empty()).then_some(meta)`.
  abbrev pub some_if_filled : Object → Option Object
  some_if_filled meta = if is_empty_object json meta then none else some meta

  -- `meta.map(|m| m.0).unwrap_or_default()`.
  abbrev pub or_default : Option Object → Object
  or_default o = Option.get_or o empty

  pub or_default-some_if_filled : (meta : Object) → or_default (some_if_filled meta) ≡ meta
  or_default-some_if_filled meta = elim (Bool-cases (is_empty_object json meta)) [
    | inl e ↦ rw e (sym (S.empty_unique meta e))
    | inr e ↦ rw e refl
  ]

-- Conversions one after the other, on every member.
module _ {ℓ κ ι} {A : Type ℓ} {B : Type κ} {C : Type ι} (back : B → C) (to : A → B)
    (f : A → C) where
  pub map-through : ((a : A) → back (to a) ≡ f a) → (xs : List A) → map back (map to xs) ≡ map f xs
  map-through h [] = refl
  map-through h (x ∷ xs) = ap₂ (λ y ys. y ∷ ys) (h x) (map-through h xs)

  -- With a step in between.
  pub map-through_received :
      (mid : B → B)
      → ((a : A) → back (mid (to a)) ≡ f a)
      → (xs : List A) → map back (map mid (map to xs)) ≡ map f xs
  map-through_received mid h [] = refl
  map-through_received mid h (x ∷ xs) = ap₂ (λ y ys. y ∷ ys) (h x) (map-through_received mid h xs)

  pub option-through :
      ((a : A) → back (to a) ≡ f a)
      → (o : Option A) → Option.map back (Option.map to o) ≡ Option.map f o
  option-through h none = refl
  option-through h (some x) = ap some (h x)

-- Conversions that undo one another, on every member.
module _ {ℓ κ} {A : Type ℓ} {B : Type κ} (back : B → A) (to : A → B) where
  pub map-inverse : ((a : A) → back (to a) ≡ a) → (xs : List A) → map back (map to xs) ≡ xs
  map-inverse h [] = refl
  map-inverse h (x ∷ xs) = ap₂ (λ y ys. y ∷ ys) (h x) (map-inverse h xs)

  pub option-inverse :
      ((a : A) → back (to a) ≡ a) → (o : Option A) → Option.map back (Option.map to o) ≡ o
  option-inverse h none = refl
  option-inverse h (some x) = ap some (h x)
