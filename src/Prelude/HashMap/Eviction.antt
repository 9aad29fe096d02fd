-- ===== src/Prelude/HashMap/Eviction.antt =====
-- The eviction of the entry with the least rank, which the bounded stores share:
-- `map.iter().min_by_key(|(_, e)| rank(e))`, then `map.remove`.
use turbomcp.Prelude.{
  ℕ, ◌-◌, ◌≤◌, ◌≡◌, ◌⊎◌, ap, refl, Option, none, some, [], ◌∷◌, arith, leb, if◌then◌else◌, length,
  Key, ◌==◌, same_refl,
}
use turbomcp.Prelude.HashMap.{HashMap, get, remove, IsDistinct, get-remove}
use turbomcp.Prelude.HashMap.Laws.{length-remove, remove-IsDistinct}
use turbomcp.Prelude.{Option-cases, inl, inr, Bool-cases}

module _ {ℓ κ} {K : Type ℓ} {V : Type κ} where
  -- `Iterator::min_by_key`: the first of the entries with the least rank.
  unfoldable pub min_by_key : (V → ℕ) → HashMap K V → Option (K × V)
  min_by_key rank [] = none
  min_by_key rank ((k, v) ∷ m) = elim (min_by_key rank m) [
    | none ↦ some (k, v)
    | some (j, w) ↦ if leb (rank v) (rank w) then some (k, v) else some (j, w)
  ]

module _ {ℓ κ} {K : Type ℓ} {V : Type κ} ⦃key : Key K⦄ (rank : V → ℕ) where
  unfoldable pub evict : HashMap K V → HashMap K V
  evict m = elim (min_by_key rank m) [ none ↦ m | some (k, _) ↦ remove k m ]

  pub min_by_key-none : (m : HashMap K V) → min_by_key rank m ≡ none → m ≡ []
  unfolding min_by_key
  min_by_key-none [] h = refl
  min_by_key-none ((k, v) ∷ m) h = ground arith

  pub get-min_by_key :
      (m : HashMap K V) (k : K) (v : V)
      → IsDistinct m
      → min_by_key rank m ≡ some (k, v)
      → get k m ≡ some v
  unfolding min_by_key get
  get-min_by_key [] k v d h = cc
  get-min_by_key ((i, w) ∷ m) k v d h =
      ground (arith, same_refl i, key.same_iff i k, get-min_by_key m k v d.1)

  pub min_by_key-le :
      (m : HashMap K V) (k : K) (v : V)
      → min_by_key rank m ≡ some (k, v)
      → (j : K) (w : V) → get j m ≡ some w
      → rank v ≤ rank w
  unfolding min_by_key get
  min_by_key-le [] k v h j w g = cc
  min_by_key-le ((i, u) ∷ m) k v h j w g = elim (Option-cases (min_by_key rank m)) [
    | inl e ↦ let empty : get j m ≡ none = rw (min_by_key-none m e) refl in ground arith
    | inr ((k', v'), e) ↦ ground (arith, min_by_key-le m k' v' e j w)
  ]

  pub evict-IsDistinct : (m : HashMap K V) → IsDistinct m → IsDistinct (evict m)
  unfolding evict
  evict-IsDistinct m d = elim (Option-cases (min_by_key rank m)) [
    | inl e ↦ rw (e, evict) d
    | inr ((k, v), e) ↦ rw (e, evict) (remove-IsDistinct k m d)
  ]

  pub length-evict : (m : HashMap K V) → IsDistinct m → length (evict m) ≡ length m - 1
  unfolding evict
  length-evict m d = elim (Option-cases (min_by_key rank m)) [
    | inl e ↦ ground (arith, ap length (min_by_key-none m e))
    | inr ((k, v), e) ↦
        rw (e, evict) (omega (arith, length-remove k v m d (get-min_by_key m k v d e)))
  ]

  -- Eviction takes one entry at most, and that one has the least rank.
  pub get-evict :
      (m : HashMap K V) (j : K)
      → (get j (evict m) ≡ get j m)
        ⊎ ((get j (evict m) ≡ none)
            × ((v : V) (i : K) (w : V)
                → IsDistinct m
                → get j m ≡ some v
                → get i m ≡ some w
                → rank v ≤ rank w))
  unfolding evict
  get-evict m j = elim (Option-cases (min_by_key rank m)) [
    | inl e ↦ rw (e, evict) (inl refl)
    | inr ((k, u), e) ↦ elim (Bool-cases (k == j)) [
      | inr other ↦ inl (ground (arith, get-remove k j m))
      | inl here ↦
          let same = (key.same_iff k j).0 here in
          let gone : get j (evict m) ≡ none = ground (arith, get-remove k j m) in
          inr (
            gone,
            λ v i w d g g'.
                min_by_key-le m k v (rw e (ground (arith, get-min_by_key m k u d e))) i w g',
          )
    ]
  ]
