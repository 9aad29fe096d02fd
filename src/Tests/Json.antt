-- ===== src/Tests/Json.antt =====
-- JSON values as trees, with objects as lists of members of which the first of a name counts.
use turbomcp.Prelude.{
  ℕ, ◌≡◌, refl, ap, Bool, String, Option, none, some, [], ◌∷◌, arith, if◌then◌else◌, ◌==◌,
  string_key, Bool-cases, inl, inr,
}
use turbomcp.Prelude.HashMap as Maps
use turbomcp.Prelude.HashMap.{HashMap, IsDistinct, get-remove}
use turbomcp.Prelude.HashMap.Laws.{remove-IsDistinct, get-remove_self}
use turbomcp.Core.Json.{Json}

mutual
  pub data Tree : Type 0 where
    null : Tree
    number : ℕ → Tree
    text : String → Tree
    object : Members → Tree

  pub data Members : Type 0 where
    nil : Members
    member : String → Tree → Members → Members

abbrev pub text_of : Tree → Option String
text_of (text s) = some s
text_of _ = none

abbrev pub members_of : Tree → Option Members
members_of (object o) = some o
members_of _ = none

abbrev pub number_of : Tree → Option ℕ
number_of (number n) = some n
number_of _ = none

abbrev pub get : String → Members → Option Tree
get k nil = none
get k (member j v o) = if j == k then some v else get k o

abbrev pub remove : String → Members → Members
remove k nil = nil
remove k (member j v o) = if j == k then remove k o else member j v (remove k o)

abbrev pub retain : (String → Bool) → Members → Members
retain p nil = nil
retain p (member j v o) = if p j then member j v (retain p o) else retain p o

unfoldable pub entries : Members → HashMap String Tree
unfolding Maps.remove
entries nil = []
entries (member j v o) = (j, v) ∷ Maps.remove j (entries o)

pub get-remove_members :
    (k j : String) (o : Members) → get j (remove k o) ≡ (if k == j then none else get j o)
get-remove_members k j nil = ground arith
get-remove_members k j (member i v o) = ground (
  arith,
  string_key.same_iff k j,
  string_key.same_iff i k,
  string_key.same_iff i j,
  get-remove_members k j o,
)

pub get-retain_members :
    (p : String → Bool) (j : String) (o : Members)
    → get j (retain p o) ≡ (if p j then get j o else none)
get-retain_members p j nil = ground arith
get-retain_members p j (member i v o) = elim (Bool-cases (i == j)) [
  | inl here ↦ ground (arith, ap p ((string_key.same_iff i j).0 here), get-retain_members p j o)
  | inr there ↦ ground (arith, get-retain_members p j o)
]

pub get-entries_members : (k : String) (o : Members) → Maps.get k (entries o) ≡ get k o
unfolding Maps.get entries
get-entries_members k nil = refl
get-entries_members k (member j v o) =
    ground (arith, get-entries_members k o, get-remove j k (entries o))

pub entries-IsDistinct_members : (o : Members) → IsDistinct (entries o)
unfolding entries
entries-IsDistinct_members nil = tt
entries-IsDistinct_members (member j v o) =
    (get-remove_self j (entries o), remove-IsDistinct j (entries o) (entries-IsDistinct_members o))

abbrev pub tree : Json
tree = record {
  Value = Tree;
  Object = Members;
  null = null;
  string = text;
  object = object;
  as_str = text_of;
  as_object = members_of;
  empty = nil;
  get = get;
  insert = member;
  remove = remove;
  retain = retain;
  entries = entries;
  as_str-string = λ s. refl;
  as_object-object = λ o. refl;
  get-empty = λ k. refl;
  get-insert = λ k j v o. refl;
  get-remove = get-remove_members;
  get-retain = get-retain_members;
  get-entries = get-entries_members;
  entries-IsDistinct = entries-IsDistinct_members;
}
