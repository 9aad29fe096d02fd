-- ===== src/Prelude/HashMap/Laws.antt =====
-- What the hash-map operations keep: distinct keys, sizes, and a property of every value.
use turbomcp.Prelude.{
  suc, ◌≤◌, ◌≡◌, refl, Bool, none, some, [], ◌∷◌, arith, if◌then◌else◌, length, Key, same_refl,
}
use turbomcp.Prelude.HashMap.{
  HashMap, get, contains_key, insert, remove, retain, IsDistinct, get-insert, get-remove,
  get-retain_none,
}

module _ {ℓ κ} {K : Type ℓ} {V : Type κ} ⦃key : Key K⦄ where
  pub insert-IsDistinct :
      (k : K) (v : V) (m : HashMap K V) → IsDistinct m → IsDistinct (insert k v m)
  unfolding insert get
  insert-IsDistinct k v [] d = (refl, tt)
  insert-IsDistinct k v ((j, w) ∷ m) d =
      ground
        (arith, key.same_iff j k, key.same_iff k j, insert-IsDistinct k v m d.1, get-insert k j v m)

  pub remove-IsDistinct : (k : K) (m : HashMap K V) → IsDistinct m → IsDistinct (remove k m)
  unfolding remove
  remove-IsDistinct k [] d = tt
  remove-IsDistinct k ((j, w) ∷ m) d =
      ground (arith, key.same_iff k j, remove-IsDistinct k m d.1, get-remove k j m)

  pub retain-IsDistinct :
      (p : K → V → Bool) (m : HashMap K V) → IsDistinct m → IsDistinct (retain p m)
  unfolding retain
  retain-IsDistinct p [] d = tt
  retain-IsDistinct p ((j, w) ∷ m) d =
      ground (arith, retain-IsDistinct p m d.1, get-retain_none p j m)

  pub length-insert :
      (k : K) (v : V) (m : HashMap K V)
      → length (insert k v m) ≡ (if contains_key k m then length m else suc (length m))
  unfolding insert get
  length-insert k v [] = refl
  length-insert k v ((j, w) ∷ m) = ground (arith, length-insert k v m)

  pub remove_absent : (k : K) (m : HashMap K V) → get k m ≡ none → remove k m ≡ m
  unfolding remove get
  remove_absent k [] h = refl
  remove_absent k ((j, w) ∷ m) h = ground (arith, remove_absent k m)

  pub length-remove :
      (k : K) (v : V) (m : HashMap K V)
      → IsDistinct m
      → get k m ≡ some v
      → suc (length (remove k m)) ≡ length m
  unfolding remove get
  length-remove k v [] d h = ground arith
  length-remove k v ((j, w) ∷ m) d h =
      ground (arith, key.same_iff j k, length-remove k v m d.1, remove_absent k m)

  pub length-remove-le : (k : K) (m : HashMap K V) → length (remove k m) ≤ length m
  unfolding remove
  length-remove-le k [] = omega arith
  length-remove-le k ((j, w) ∷ m) = ground (arith, length-remove-le k m)

  pub get-insert_self : (k : K) (v : V) (m : HashMap K V) → get k (insert k v m) ≡ some v
  get-insert_self k v m = rw (get-insert k k v m, same_refl k)

  pub get-remove_self : (k : K) (m : HashMap K V) → get k (remove k m) ≡ none
  get-remove_self k m = rw (get-remove k k m, same_refl k)
