-- ===== src/DraftTasks/Store/Delivery.antt =====
-- `deliver_inputs` on a task's input state: which requests are answered, and which waiters hear.
use turbomcp.Prelude.{
  holds, ◌≡◌, refl, Bool, true, false, String, Option, none, some, List, [], ◌∷◌, ◌++◌, arith, ◌==◌,
  string_key, if◌then◌else◌, is_empty, same_refl,
}
use turbomcp.Prelude.HashMap.{HashMap, get-remove, get-insert}
use turbomcp.Prelude.HashMap as Maps
use turbomcp.Core.Json.{Json, is_empty_object}
use turbomcp.Core.Host.{Host}
use turbomcp.DraftTasks.Store.{Inputs, Effect, send, deliver_one, deliver_all}

abbrev pub is_some {ℓ} : {A : Type ℓ} → Option A → Bool
is_some none = false
is_some (some _) = true

module _ (J : Json) where
  open J use {Object, get, entries, get-entries}

  pub is_empty_of_none : (o : Object) → ((k : String) → get k o ≡ none) → is_empty_object J o ≡ true
  unfolding Maps.get
  is_empty_of_none o h = go (entries o) refl
    where
      go : (l : HashMap String J.Value) → entries o ≡ l → is_empty l ≡ true
      go [] e = refl
      go ((k, v) ∷ l) e = ground (arith, get-entries k o, h k, same_refl k)

  pub get_of_is_empty : (o : Object) (k : String) → is_empty_object J o ≡ true → get k o ≡ none
  unfolding Maps.get
  get_of_is_empty o k h = ground (arith, get-entries k o)

module _ (H : Host) where
  open H use {json}
  open json use {Value, Object, get, insert, remove, entries}

  -- Each outstanding request has a waiter and each waiter a request, and both stand under keys
  -- that were issued.
  pub record InputsOk (i : Inputs H) : Type 0 where
    pub paired : (k : String) → is_some (Maps.get k i.waiters) ≡ is_some (get k i.outstanding)
    pub issued : (k : String) → is_some (get k i.outstanding) ≡ true → holds i.used k ≡ true

  deliver_one-InputsOk :
      (key : String) (value : Value) (i : Inputs H)
      → InputsOk i
      → InputsOk (deliver_one H key value i).0
  unfolding deliver_one
  deliver_one-InputsOk key value i ok = record {
    paired = λ k.
        ground
          (arith, ok.paired k, json.get-remove key k i.outstanding, get-remove key k i.waiters);
    issued = λ k. ground (arith, ok.issued k, json.get-remove key k i.outstanding);
  }

  pub deliver_all-InputsOk :
      (l : HashMap String Value) (i : Inputs H) → InputsOk i → InputsOk (deliver_all H l i).0
  unfolding deliver_all
  deliver_all-InputsOk [] i ok = ok
  deliver_all-InputsOk ((key, value) ∷ l) i ok =
      deliver_all-InputsOk l (deliver_one H key value i).0 (deliver_one-InputsOk key value i ok)

  outstanding-deliver_one :
      (key : String) (value : Value) (i : Inputs H) (k : String)
      → InputsOk i
      → get k (deliver_one H key value i).0.outstanding
        ≡ (if key == k then none else get k i.outstanding)
  unfolding deliver_one
  outstanding-deliver_one key value i k ok =
      ground (arith, ok.paired key, json.get-remove key k i.outstanding, string_key.same_iff key k)

  -- After a delivery exactly the requests that got no response are outstanding.
  pub outstanding-deliver_all :
      (l : HashMap String Value) (i : Inputs H) (k : String)
      → InputsOk i
      → get k (deliver_all H l i).0.outstanding
        ≡ (if is_some (Maps.get k l) then none else get k i.outstanding)
  unfolding deliver_all Maps.get
  outstanding-deliver_all [] i k ok = refl
  outstanding-deliver_all ((key, value) ∷ l) i k ok = ground (
    arith,
    outstanding-deliver_all l (deliver_one H key value i).0 k (deliver_one-InputsOk key value i ok),
    outstanding-deliver_one key value i k ok,
  )

  -- The answers that a set of responses is due: each response to the waiter of its key, if any.
  abbrev pub answers : Inputs H → HashMap String Value → List (Effect Value)
  answers i [] = []
  answers i ((k, v) ∷ l) =
      elim (Maps.get k i.waiters) [ none ↦ [] | some chan ↦ send chan v ∷ [] ] ++ answers i l

  answers-deliver_one :
      (key : String) (value : Value) (i : Inputs H) (l : HashMap String Value)
      → Maps.get key l ≡ none
      → answers (deliver_one H key value i).0 l ≡ answers i l
  unfolding deliver_one Maps.get
  answers-deliver_one key value i [] h = refl
  answers-deliver_one key value i ((k, v) ∷ l) h = ground (
    arith,
    answers-deliver_one key value i l,
    get-remove key k i.waiters,
    string_key.same_iff key k,
    string_key.same_iff k key,
  )

  -- Every waiter of a key that is answered hears its response once, and no other waiter hears one.
  pub sent-deliver_all :
      (l : HashMap String Value) (i : Inputs H)
      → Maps.IsDistinct l
      → InputsOk i
      → (deliver_all H l i).1 ≡ answers i l
  unfolding deliver_all
  sent-deliver_all [] i d ok = refl
  sent-deliver_all ((key, value) ∷ l) i d ok = ground (
    arith,
    sent-deliver_all l (deliver_one H key value i).0 d.1 (deliver_one-InputsOk key value i ok),
    answers-deliver_one key value i l,
    ok.paired key,
  )
