-- ===== src/Prelude/Keys.antt =====
-- Hash-map keys: a Boolean equality that decides equality (`Eq` and `Hash` in the source).
use Prim.Native.Nat.{ℕ}
use Prim.Native.String.{String}
use mathlib.Core.Path.{◌≡◌, refl}
use mathlib.Core.Logic.{◌↔◌}
use mathlib.Core.Bool.{Bool, true, false, ◌&&◌}
use mathlib.Core.Option.{Option, none, some}
use native.Mathlib.Omega.{arith}
use text.Mathlib.Text.{◌==◌ as str_eq}
use text.Mathlib.TextEquality.{eq_iff}
use mathlib.Core.List.{List}
use turbomcp.Prelude.Tests.{◌==ℕ◌, ==ℕ_iff}
use turbomcp.Prelude.Lists.{any}

pub record Key {ℓ} (K : Type ℓ) : Type ℓ where
  pub same : K → K → Bool
  pub same_iff : (a b : K) → (same a b ≡ true) ↔ (a ≡ b)

infix 50 ◌==◌
abbrev pub ◌==◌ {ℓ} : {K : Type ℓ} ⦃k : Key K⦄ → K → K → Bool
◌==◌ ⦃k⦄ = k.same

instance abbrev pub nat_key : Key ℕ
nat_key = record { same = ◌==ℕ◌; same_iff = ==ℕ_iff }

instance abbrev pub string_key : Key String
string_key = record { same = str_eq; same_iff = eq_iff }

module _ {ℓ} {K : Type ℓ} ⦃k : Key K⦄ where
  pub same_refl : (a : K) → (a == a) ≡ true
  same_refl a = (k.same_iff a a).1 refl

module _ {ℓ κ} {A : Type ℓ} {B : Type κ} ⦃a : Key A⦄ ⦃b : Key B⦄ where
  abbrev pub pair_same : A × B → A × B → Bool
  pair_same (x, y) (x', y') = (x == x') && (y == y')

  pub pair_same_iff : (p q : A × B) → (pair_same p q ≡ true) ↔ (p ≡ q)
  pair_same_iff (x, y) (x', y') = ground (arith, a.same_iff x x', b.same_iff y y')

  instance abbrev pub pair_key : Key (A × B)
  pair_key = record { same = pair_same; same_iff = pair_same_iff }

module _ {ℓ} {A : Type ℓ} ⦃a : Key A⦄ where
  abbrev pub option_same : Option A → Option A → Bool
  option_same none none = true
  option_same (some x) (some y) = x == y
  option_same _ _ = false

  pub option_same_iff : (p q : Option A) → (option_same p q ≡ true) ↔ (p ≡ q)
  option_same_iff none none = ground arith
  option_same_iff none (some y) = ground arith
  option_same_iff (some x) none = ground arith
  option_same_iff (some x) (some y) = ground (arith, a.same_iff x y)

  instance abbrev pub option_key : Key (Option A)
  option_key = record { same = option_same; same_iff = option_same_iff }

module _ {ℓ} {A : Type ℓ} ⦃key : Key A⦄ where
  -- `HashSet::contains` and `Vec::contains`.
  abbrev pub holds : List A → A → Bool
  holds used k = any (λ j. j == k) used
