-- ===== src/Core/Json.antt =====
-- The part of the `serde_json` crate that the program relies on: JSON values, and the objects
-- (`serde_json::Map`) as finite maps. The crate is not part of the repository, so it enters as an
-- interface with the documented behaviour of its operations.
use turbomcp.Prelude.{
  ◌≡◌, Bool, String, Option, none, some, is_empty, if◌then◌else◌, ◌==◌, string_key,
}
use turbomcp.Prelude.HashMap as Maps
use turbomcp.Prelude.HashMap.{HashMap, IsDistinct}

pub record Json : Type 1 where
  pub Value : Type 0
  -- `serde_json::Map<String, Value>`.
  pub Object : Type 0
  pub null : Value
  pub string : String → Value
  pub object : Object → Value
  pub as_str : Value → Option String
  pub as_object : Value → Option Object
  pub empty : Object
  pub get : String → Object → Option Value
  pub insert : String → Value → Object → Object
  pub remove : String → Object → Object
  pub retain : (String → Bool) → Object → Object
  -- What iterating over an object yields.
  pub entries : Object → HashMap String Value
  pub as_str-string : (s : String) → as_str (string s) ≡ some s
  pub as_object-object : (o : Object) → as_object (object o) ≡ some o
  pub get-empty : (k : String) → get k empty ≡ none
  pub get-insert :
      (k j : String) (v : Value) (o : Object)
      → get j (insert k v o) ≡ (if k == j then some v else get j o)
  pub get-remove :
      (k j : String) (o : Object) → get j (remove k o) ≡ (if k == j then none else get j o)
  pub get-retain :
      (p : String → Bool) (j : String) (o : Object)
      → get j (retain p o) ≡ (if p j then get j o else none)
  pub get-entries : (k : String) (o : Object) → Maps.get k (entries o) ≡ get k o
  pub entries-IsDistinct : (o : Object) → IsDistinct (entries o)

infixl 5 ◌>>=◌
abbrev pub ◌>>=◌ {ℓ κ} : {A : Type ℓ} {B : Type κ} → Option A → (A → Option B) → Option B
none >>= f = none
some a >>= f = f a

module _ (J : Json) where
  open J use {Value, Object, as_object, get, entries}

  -- `Value::get` with a text key: a member of an object, and nothing of any other value.
  abbrev pub member : String → Value → Option Value
  member k v = as_object v >>= get k

  abbrev pub is_empty_object : Object → Bool
  is_empty_object o = is_empty (entries o)
