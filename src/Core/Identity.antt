-- ===== src/Core/Identity.antt =====
-- crates/turbomcp-core/src/identity.rs: who made a request, and the scopes granted to it.
use Prim.Native.Char.{code}
use turbomcp.Prelude.{
  ℕ, ◌≡◌, refl, Bool, true, false, ◌&&◌, ◌||◌, String, Option, none, some, List, [], ◌∷◌, ◌++◌, map,
  all, holds, is_empty, leb, arith, if◌then◌else◌, ◌==ℕ◌, string_key,
}
use turbomcp.Core.Json.{Json, ◌>>=◌}

-- `char::is_whitespace`.
abbrev pub is_whitespace : ℕ → Bool
is_whitespace c =
    (leb 9 c && leb c 13)
    || (c ==ℕ 32)
    || (c ==ℕ 133)
    || (c ==ℕ 160)
    || (c ==ℕ 5760)
    || (leb 8192 c && leb c 8202)
    || (c ==ℕ 8232)
    || (c ==ℕ 8233)
    || (c ==ℕ 8239)
    || (c ==ℕ 8287)
    || (c ==ℕ 12288)

abbrev pub with_word : String → List String → List String
with_word String.[] ws = ws
with_word (String.◌∷◌ c w) ws = String.◌∷◌ c w ∷ ws

-- The word that a text begins with, perhaps empty, and the words after it.
abbrev pub first_word : String → String × List String
first_word String.[] = (String.[], [])
first_word (String.◌∷◌ c s) =
    let (w, ws) = first_word s in
    if is_whitespace (code c) then (String.[], with_word w ws) else (String.◌∷◌ c w, ws)

-- `str::split_whitespace`.
abbrev pub split_whitespace : String → List String
split_whitespace s = let (w, ws) = first_word s in with_word w ws

all-append : (p : String → Bool) (xs ys : List String) → all p (xs ++ ys) ≡ (all p xs && all p ys)
all-append p [] ys = refl
all-append p (x ∷ xs) ys = ground (arith, all-append p xs ys)

-- `as_array` is that of the `serde_json` crate.
module _ (J : Json) (as_array : J.Value → Option (List J.Value)) where
  open J use {Value, Object, as_str, get, entries}

  -- The trait `IdentityClaims`, which callers implement.
  pub record IdentityClaims : Type 0 where
    pub claims_subject : Option String
    pub claim_of : String → Option Value

  pub data Identity : Type 0 where
    anonymous : Identity
    bearer : String → Object → Identity
    dpop : String → String → Object → Identity
    custom : IdentityClaims → Identity

  unfoldable pub subject : Identity → Option String
  subject anonymous = none
  subject (bearer sub _) = some sub
  subject (dpop sub _ _) = some sub
  subject (custom c) = c.claims_subject

  unfoldable pub is_authenticated : Identity → Bool
  is_authenticated anonymous = false
  is_authenticated _ = true

  abbrev pub claim_keys_of : Object → List String
  claim_keys_of claims = map (λ e. e.0) (entries claims)

  unfoldable pub claim_keys : Identity → List String
  claim_keys anonymous = []
  claim_keys (bearer _ claims) = claim_keys_of claims
  claim_keys (dpop _ _ claims) = claim_keys_of claims
  claim_keys (custom _) = []

  unfoldable pub claim : String → Identity → Option Value
  claim key anonymous = none
  claim key (bearer _ claims) = get key claims
  claim key (dpop _ _ claims) = get key claims
  claim key (custom c) = c.claim_of key

  abbrev pub words_of : Option String → List String
  words_of none = []
  words_of (some s) = split_whitespace s

  abbrev pub texts_in : List Value → List String
  texts_in [] = []
  texts_in (v ∷ vs) = elim (as_str v) [ none ↦ texts_in vs | some s ↦ s ∷ texts_in vs ]

  abbrev pub texts_of : Option (List Value) → List String
  texts_of none = []
  texts_of (some vs) = texts_in vs

  unfoldable pub granted_scopes : Identity → List String
  unfolding claim
  granted_scopes i = words_of (claim "scope" i >>= as_str) ++ texts_of (claim "scp" i >>= as_array)

  unfoldable pub has_scopes : List String → Identity → Bool
  unfolding granted_scopes
  has_scopes required i = is_empty required || all (λ r. holds (granted_scopes i) r) required

  -- An anonymous caller meets only the empty requirement.
  has_scopes-anonymous :
      (required : List String) → has_scopes required anonymous ≡ is_empty required
  unfolding has_scopes granted_scopes claim
  has_scopes-anonymous [] = refl
  has_scopes-anonymous (r ∷ required) = refl

  has_scopes-all :
      (required : List String) (i : Identity)
      → has_scopes required i ≡ all (holds (granted_scopes i)) required
  unfolding has_scopes
  has_scopes-all [] i = refl
  has_scopes-all (r ∷ required) i = refl

  -- Two requirements together are met exactly when each is.
  has_scopes-append :
      (required more : List String) (i : Identity)
      → has_scopes (required ++ more) i ≡ (has_scopes required i && has_scopes more i)
  has_scopes-append required more i = ground (
    arith,
    has_scopes-all (required ++ more) i,
    has_scopes-all required i,
    has_scopes-all more i,
    all-append (holds (granted_scopes i)) required more,
  )
