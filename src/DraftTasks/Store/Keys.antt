-- ===== src/DraftTasks/Store/Keys.antt =====
-- The loop of `publish_input` that makes a key unique over a task's lifetime.
use text.Mathlib.TextLemmas.{append_cancel_left, append-nil, cons-append, nil≢cons}
use turbomcp.Prelude.{
  holds, ℕ, zero, suc, ◌+◌, ◌^◌, ◌≤◌, ◌<◌, ◌≡◌, ◌≢◌, ◌⊎◌, inl, inr, refl, sym, ◌∙◌, ap, true, false,
  not, String, some, List, [], ◌∷◌, length, keep_if, if◌then◌else◌, ◌==◌, string_key, arith,
  Bool-cases,
}
use turbomcp.Prelude.Decimal.{to_string, usize_bound}
use turbomcp.Prelude.Decimal.RoundTrip.{to_string-injective}
use turbomcp.Core.Host.{Host}
use turbomcp.DraftTasks.Store.{numbered, uniquify, Inputs, unique_key}

numbered-injective :
    (key : String) (m n : ℕ)
    → m < usize_bound
    → n < usize_bound
    → numbered key m ≡ numbered key n
    → m ≡ n
numbered-injective key m n hm hn e =
    to_string-injective m n hm hn (append_cancel_left "#" _ _ (append_cancel_left key _ _ e))

numbered-ne-key : (key : String) (n : ℕ) → numbered key n ≢ key
numbered-ne-key key n e = nil≢cons (
    append_cancel_left key String.[] _ (append-nil key ∙ sym e)
    ∙ cons-append "#" String.[] (to_string n))

-- The candidates that follow round `n` of the loop differ from `v`.
abbrev IsPast : String → ℕ → String → Type 0
IsPast key n v = (m : ℕ) → n < m → m < usize_bound → numbered key m ≢ v

erase : String → List String → List String
erase v = keep_if (λ j. not (j == v))

holds-erase : (v u : String) (used : List String) → v ≢ u → holds (erase v used) u ≡ holds used u
unfolding erase
holds-erase v u [] h = refl
holds-erase v u (j ∷ used) h =
    ground (arith, holds-erase v u used h, string_key.same_iff j v, string_key.same_iff j u)

length-erase-le : (v : String) (used : List String) → length (erase v used) ≤ length used
unfolding erase
length-erase-le v [] = omega arith
length-erase-le v (j ∷ used) = ground (arith, length-erase-le v used)

length-erase-lt :
    (v : String) (used : List String) → holds used v ≡ true → length (erase v used) < length used
unfolding erase
length-erase-lt v [] h = ground arith
length-erase-lt v (j ∷ used) h = ground (arith, length-erase-lt v used, length-erase-le v used)

-- A key behind the loop's candidates does not matter to it.
uniquify-erase :
    (fuel : ℕ) (used : List String) (key : String) (n : ℕ) (u v : String)
    → n + fuel < usize_bound
    → v ≢ u
    → IsPast key n v
    → uniquify fuel (erase v used) key n u ≡ uniquify fuel used key n u
unfolding uniquify
uniquify-erase zero used key n u v b h past = refl
uniquify-erase (suc fuel) used key n u v b h past = rw (holds-erase v u used h) (
    ap (λ rest. if holds used u then rest else some u)
      (uniquify-erase fuel used key (n + 1) (numbered key (n + 1)) v (omega arith)
        (λ e. past (n + 1) (omega arith) (omega arith) (sym e)) (λ m lt. past m (omega arith))))

-- What the loop returns: its current candidate or a later one.
abbrev IsCandidate : String → ℕ → String → String → Type 0
IsCandidate key n u r = (r ≡ u) ⊎ ((m : ℕ) × (n < m) × (m < usize_bound) × (r ≡ numbered key m))

-- With more rounds than used keys the loop ends, with a key that is not used.
uniquify_total :
    (fuel : ℕ) (used : List String) (key : String) (n : ℕ) (u : String)
    → length used < fuel
    → n + fuel < usize_bound
    → IsPast key n u
    → (r : String) × (uniquify fuel used key n u ≡ some r)
      × (holds used r ≡ false)
      × IsCandidate key n u r
unfolding uniquify
uniquify_total zero used key n u h b past = absurd (omega arith)
uniquify_total (suc fuel) used key n u h b past = elim (Bool-cases (holds used u)) [
  | inr fresh ↦ (u, rw fresh, fresh, inl refl)
  | inl taken ↦
      let (r, found, free, candidate) =
        uniquify_total fuel (erase u used) key (n + 1) (numbered key (n + 1))
          (omega (arith, length-erase-lt u used taken)) (omega arith)
          (λ m lt bound e.
            absurd (omega (arith, numbered-injective key m (n + 1) bound (omega arith) e))) in
      let later : (m : ℕ) × (n < m) × (m < usize_bound) × (r ≡ numbered key m) = elim candidate [
        | inl e ↦ (n + 1, omega arith, omega arith, e)
        | inr (m, lt, bound, e) ↦ (m, omega arith, bound, e)
      ] in
      let apart : u ≢ r = (λ e. past later.0 later.1 later.2 (sym (e ∙ later.3))) in
      let same =
        uniquify-erase fuel used key (n + 1) (numbered key (n + 1)) u (omega arith)
          (λ e. past (n + 1) (omega arith) (omega arith) (sym e)) (λ m lt. past m (omega arith)) in
      (r, rw taken (sym same ∙ found), sym (holds-erase u r used apart) ∙ free, inr later)
]

module _ (H : Host) where
  -- While fewer than 2 ^ 31 keys were used, which keeps the source's 32-bit counter in range, a
  -- key is always found within the rounds given, and it was never used before.
  pub unique_key_total :
      (key : String) (i : Inputs H)
      → suc (length i.used) < 2 ^ 31
      → (r : String) × (unique_key H key i ≡ some r) × (holds i.used r ≡ false)
  unfolding unique_key
  unique_key_total key i h =
      let (r, found, free, _) =
        uniquify_total (suc (length i.used)) i.used key 1 key (omega arith) (omega arith)
          (λ m _ _. numbered-ne-key key m) in
      (r, found, free)
