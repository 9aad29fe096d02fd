-- ===== src/Prelude/HashMap.antt =====
-- `std::collections::HashMap` as an association list. The order of the list stands for the
-- unspecified iteration order of the map; theorems hold for every list.
pub mod Laws
pub mod Values
pub mod Eviction
use Prim.Native.Nat.{◌≤◌}
use mathlib.Core.Path.{◌≡◌, refl, ap}
use mathlib.Core.Logic.{inl, inr}
use mathlib.Core.Bool.{Bool, true, false}
use mathlib.Core.Option.{Option, none, some}
use mathlib.Core.List.{List, [], ◌∷◌}
use native.Mathlib.Omega.{arith}
use turbomcp.Prelude.Tests.{if◌then◌else◌, Bool-cases}
use turbomcp.Prelude.Lists.{length}
use turbomcp.Prelude.Keys.{Key, ◌==◌}

abbrev pub HashMap {ℓ κ} : Type ℓ → Type κ → Type (ℓ ⊔ κ)
HashMap K V = List (K × V)

module _ {ℓ κ} {K : Type ℓ} {V : Type κ} where
  -- `HashMap::retain`.
  unfoldable pub retain : (K → V → Bool) → HashMap K V → HashMap K V
  retain p [] = []
  retain p ((j, w) ∷ m) = if p j w then (j, w) ∷ retain p m else retain p m

  pub length-retain-le : (p : K → V → Bool) (m : HashMap K V) → length (retain p m) ≤ length m
  unfolding retain
  length-retain-le p [] = omega arith
  length-retain-le p ((j, w) ∷ m) = ground (arith, length-retain-le p m)

module _ {ℓ κ} {K : Type ℓ} {V : Type κ} ⦃key : Key K⦄ where
  unfoldable pub get : K → HashMap K V → Option V
  get k [] = none
  get k ((j, w) ∷ m) = if j == k then some w else get k m

  abbrev pub contains_key : K → HashMap K V → Bool
  contains_key k m = elim (get k m) [ none ↦ false | some _ ↦ true ]

  unfoldable pub insert : K → V → HashMap K V → HashMap K V
  insert k v [] = (k, v) ∷ []
  insert k v ((j, w) ∷ m) = if j == k then (k, v) ∷ m else (j, w) ∷ insert k v m

  unfoldable pub remove : K → HashMap K V → HashMap K V
  remove k [] = []
  remove k ((j, w) ∷ m) = if j == k then remove k m else (j, w) ∷ remove k m

  -- No key stands twice: what a hash map guarantees of its entries.
  abbrev pub IsDistinct : HashMap K V → Type κ
  IsDistinct [] = Unit
  IsDistinct ((j, w) ∷ m) = (get j m ≡ none) × IsDistinct m

  pub get-insert :
      (k j : K) (v : V) (m : HashMap K V)
      → get j (insert k v m) ≡ (if k == j then some v else get j m)
  unfolding get insert
  get-insert k j v [] = refl
  get-insert k j v ((i, w) ∷ m) =
      ground (arith, key.same_iff k j, key.same_iff i k, key.same_iff i j, get-insert k j v m)

  pub get-remove :
      (k j : K) (m : HashMap K V) → get j (remove k m) ≡ (if k == j then none else get j m)
  unfolding get remove
  get-remove k j [] = ground arith
  get-remove k j ((i, w) ∷ m) =
      ground (arith, key.same_iff k j, key.same_iff i k, key.same_iff i j, get-remove k j m)

  pub get-retain_none :
      (p : K → V → Bool) (j : K) (m : HashMap K V) → get j m ≡ none → get j (retain p m) ≡ none
  unfolding get retain
  get-retain_none p j [] h = refl
  get-retain_none p j ((i, w) ∷ m) h = ground (arith, get-retain_none p j m)

  pub get-retain :
      (p : K → V → Bool) (j : K) (m : HashMap K V)
      → IsDistinct m
      → get j (retain p m)
        ≡ elim (get j m) [ none ↦ none | some v ↦ if p j v then some v else none ]
  unfolding get retain
  get-retain p j [] d = refl
  get-retain p j ((i, w) ∷ m) d =
      ground (arith, key.same_iff i j, get-retain p j m d.1, get-retain_none p i m d.0)

  -- Retaining by the key alone needs no distinct keys.
  pub get-retain_key :
      (p : K → Bool) (j : K) (m : HashMap K V)
      → get j (retain (λ k _. p k) m) ≡ (if p j then get j m else none)
  unfolding get retain
  get-retain_key p j [] = ground arith
  get-retain_key p j ((i, w) ∷ m) = elim (Bool-cases (i == j)) [
    | inl here ↦ ground (arith, ap p ((key.same_iff i j).0 here), get-retain_key p j m)
    | inr there ↦ ground (arith, get-retain_key p j m)
  ]
