-- ===== src/Sessions/Store/Expiry.antt =====
-- Idle expiry of the session store: what a lookup and a sweep see.
use turbomcp.Prelude.{
  holds, ℕ, ◌≡◌, refl, Bool, false, String, Option, none, some, List, [], ◌∷◌, arith, if◌then◌else◌,
  ◌==◌, string_key, Option-cases, Bool-cases, inl, inr,
}
use turbomcp.Prelude.HashMap as Maps
use turbomcp.Prelude.HashMap.{HashMap, IsDistinct, get-insert, get-remove}
use turbomcp.Core.Json.{Json}
use turbomcp.Sessions.Store.{
  SessionState, Entry, SessionStore, is_expired, get, expired_ids, remove_all, sweep_expired,
}

module _ (J : Json) where
  -- The entry of an id that is not idle for too long.
  unfoldable pub fresh : ℕ → String → SessionStore J → Option (Entry J)
  fresh now id s = elim (Maps.get id s.inner) [
    | none ↦ none
    | some e ↦ if is_expired J s.idle_timeout now e then none else some e
  ]

  abbrev pub state_of : Option (Entry J) → Option (SessionState J)
  state_of none = none
  state_of (some e) = some e.state

  abbrev pub touched : ℕ → Option (Entry J) → Option (Entry J)
  touched now none = none
  touched now (some e) = some (record e { last_seen = now })

  -- A lookup returns the state of the session if it has not been idle for the timeout, and
  -- nothing otherwise; afterwards the session is there, seen now, in the first case and gone in
  -- the second, and every other session is as before.
  pub get_session_lem :
      (now : ℕ) (id : String) (s : SessionStore J)
      → ((get J now id s).1 ≡ state_of (fresh now id s))
        × ((j : String)
            → Maps.get j (get J now id s).0.inner
              ≡ (if id == j then touched now (fresh now id s) else Maps.get j s.inner))
  unfolding get fresh
  get_session_lem now id s = elim (Option-cases (Maps.get id s.inner)) [
    | inl e ↦ (rw (e, get, fresh) refl, λ j. ground (arith, string_key.same_iff id j))
    | inr (e, found) ↦ elim (Bool-cases (is_expired J s.idle_timeout now e)) [
      | inl stale ↦ (ground arith, λ j. ground (arith, get-remove id j s.inner))
      | inr alive ↦ (
        ground arith,
        λ j. ground (arith, get-insert id j (record e { last_seen = now }) s.inner),
      )
    ]
  ]

  get-remove_all :
      (ks : List String) (j : String) (m : HashMap String (Entry J))
      → Maps.get j (remove_all J ks m) ≡ (if holds ks j then none else Maps.get j m)
  unfolding remove_all
  get-remove_all [] j m = refl
  get-remove_all (k ∷ ks) j m =
      ground (arith, get-remove_all ks j (Maps.remove k m), get-remove k j m)

  abbrev pub is_idle : Option ℕ → ℕ → Option (Entry J) → Bool
  is_idle t now none = false
  is_idle t now (some e) = is_expired J t now e

  holds-expired_ids :
      (t : Option ℕ) (now : ℕ) (j : String) (m : HashMap String (Entry J))
      → IsDistinct m
      → holds (expired_ids J t now m) j ≡ is_idle t now (Maps.get j m)
  unfolding expired_ids Maps.get
  holds-expired_ids t now j [] d = refl
  holds-expired_ids t now j ((k, e) ∷ m) d =
      ground (arith, string_key.same_iff k j, holds-expired_ids t now j m d.1)

  -- A sweep of a store with distinct ids returns the ids of exactly the sessions that have been
  -- idle for the timeout, and leaves exactly the other sessions, unchanged. So it removes what a
  -- lookup at that time would not return.
  pub sweep_expired_lem :
      (now : ℕ) (s : SessionStore J)
      → IsDistinct s.inner
      → (j : String)
      → (holds (sweep_expired J now s).1 j ≡ is_idle s.idle_timeout now (Maps.get j s.inner))
        × (Maps.get j (sweep_expired J now s).0.inner ≡ fresh now j s)
  unfolding sweep_expired fresh is_expired
  sweep_expired_lem now s d j =
      let ids = holds-expired_ids s.idle_timeout now j s.inner d in
      let gone = get-remove_all (expired_ids J s.idle_timeout now s.inner) j s.inner in
      elim (Option-cases s.idle_timeout) [
        | inl e ↦ elim (Option-cases (Maps.get j s.inner)) [
          | inl g ↦ ground (arith)
          | inr (x, g) ↦ ground (arith)
        ]
        | inr (t, e) ↦ elim (Option-cases (Maps.get j s.inner)) [
          | inl g ↦ ground (arith, ids, gone)
          | inr (x, g) ↦ ground (arith, ids, gone)
        ]
      ]
