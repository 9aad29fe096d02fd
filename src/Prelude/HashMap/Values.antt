-- ===== src/Prelude/HashMap/Values.antt =====
-- A property of every value of a hash map.
use turbomcp.Prelude.{◌≡◌, Bool, some, [], ◌∷◌, ◌==◌, Key, arith, Bool-cases, inl, inr}
use turbomcp.Prelude.HashMap.{HashMap, get, insert, retain}

module _ {ℓ κ} {K : Type ℓ} {V : Type κ} (P : V → Type κ) where
  abbrev pub AllValues : HashMap K V → Type κ
  AllValues [] = Unit
  AllValues ((k, v) ∷ m) = P v × AllValues m

  pub retain-AllValues : (p : K → V → Bool) (m : HashMap K V) → AllValues m → AllValues (retain p m)
  unfolding retain
  retain-AllValues p [] h = tt
  retain-AllValues p ((k, v) ∷ m) h = elim (Bool-cases (p k v)) [
    | inl keep ↦ rw keep (h.0, retain-AllValues p m h.1)
    | inr drop ↦ rw drop (retain-AllValues p m h.1)
  ]

module _ {ℓ κ} {K : Type ℓ} {V : Type κ} ⦃key : Key K⦄ (P : V → Type κ) where
  pub insert-AllValues :
      (k : K) (v : V) (m : HashMap K V) → P v → AllValues P m → AllValues P (insert k v m)
  unfolding insert
  insert-AllValues k v [] p h = (p, tt)
  insert-AllValues k v ((j, w) ∷ m) p h = elim (Bool-cases (j == k)) [
    | inl here ↦ rw here (p, h.1)
    | inr there ↦ rw there (h.0, insert-AllValues k v m p h.1)
  ]

  pub get-AllValues : (k : K) (v : V) (m : HashMap K V) → AllValues P m → get k m ≡ some v → P v
  unfolding get
  get-AllValues k v [] h e = cc
  get-AllValues k v ((j, w) ∷ m) h e = elim (Bool-cases (j == k)) [
    | inl here ↦ let same : w ≡ v = ground arith in rw (← same) h.0
    | inr there ↦ get-AllValues k v m h.1 (rw there at e)
  ]
