-- ===== src/Client/Cache/Reads.antt =====
-- What a lookup returns: never more than a cache without bounds would know, and what was stored
-- for as long as it is fresh.
use turbomcp.Prelude.{
  ℕ, ◌+◌, ◌*◌, ◌≡◌, ◌⊎◌, ◌∙◌, ap, refl, Bool, true, false, String, Option, none, some, List, [],
  ◌∷◌, arith, length, ltb, leb, if◌then◌else◌, ◌==◌, string_key, pair_key, pair_same, option_key,
  Option-cases, Bool-cases, inl, inr,
}
use turbomcp.Prelude.HashMap as Maps
use turbomcp.Prelude.HashMap.{HashMap, IsDistinct, retain, get-insert, get-remove, get-retain}
use turbomcp.Prelude.HashMap.Laws.{get-insert_self}
use turbomcp.Prelude.HashMap.Eviction.{evict, get-evict}
use turbomcp.Core.Json.{Json}
use turbomcp.Client.Cache.{
  max_entries, CacheKey, Entry, ResponseCache, get, ttl_of, purge, make_room, store,
  on_notification, clear,
}
use turbomcp.Client.Cache.Invariant.{
  Call, get_of, store_of, notified, cleared, step, run, CacheOk, step-CacheOk,
}
use turbomcp.Client.Cache.Notifications.{invalidates, on_notification_lem}

module _ (J : Json) (as_u64 : J.Value → Option ℕ) where
  abbrev Cache : Type 0
  Cache = ResponseCache J as_u64

  abbrev Known : Type 0
  Known = Option (Entry J as_u64)

  -- The entry that a store makes, if the result asks for freshness.
  abbrev pub asked : ℕ → J.Value → Option ℕ → Known → Known
  asked now value none known = known
  asked now value (some ttl_ms) known =
      some (record { value = value; expires_at = now + ttl_ms * 1_000_000 })

  -- What one call does to the knowledge of a cache without bounds and without expiry.
  unfoldable pub learn : CacheKey → Call J as_u64 → Known → Known
  learn k (get_of _ _ _) known = known
  learn k (store_of _ now m d value) known =
      if (m, d) == k then asked now value (ttl_of J as_u64 value) known else known
  learn k (notified note params) known = if invalidates J as_u64 note params k then none else known
  learn k cleared known = none

  unfoldable pub learn_all : CacheKey → List (Call J as_u64) → Known → Known
  unfolding learn
  learn_all k [] known = known
  learn_all k (call ∷ calls) known = learn_all k calls (learn k call known)

  -- The bounded cache forgets, and otherwise agrees.
  abbrev Agrees : CacheKey → Cache → Known → Type 0
  Agrees k c known = (Maps.get k c ≡ none) ⊎ (Maps.get k c ≡ known)

  -- An operation that only drops entries.
  abbrev Shrinks : CacheKey → Cache → Cache → Type 0
  Shrinks k c c' = Agrees k c' (Maps.get k c)

  Shrinks-then-Agrees :
      (k : CacheKey) (c c' : Cache) (known : Known)
      → Shrinks k c c'
      → Agrees k c known
      → Agrees k c' known
  Shrinks-then-Agrees k c c' known (inl gone) h = inl gone
  Shrinks-then-Agrees k c c' known (inr same) (inl e) = inl (same ∙ e)
  Shrinks-then-Agrees k c c' known (inr same) (inr e) = inr (same ∙ e)

  remove-Shrinks : (j k : CacheKey) (c : Cache) → Shrinks k c (Maps.remove j c)
  remove-Shrinks j k c = elim (Bool-cases (j == k)) [
    | inl here ↦ inl (ground (arith, get-remove j k c))
    | inr there ↦ inr (ground (arith, get-remove j k c))
  ]

  purge-Shrinks :
      (b : Bool) (now : ℕ) (k : CacheKey) (c : Cache)
      → IsDistinct c
      → Shrinks k c (if b then purge J as_u64 now c else c)
  unfolding purge
  purge-Shrinks false now k c d = inr refl
  purge-Shrinks true now k c d = elim (Option-cases (Maps.get k c)) [
    | inl e ↦ inl (ground (arith, get-retain (λ _ e. ltb now e.expires_at) k c d))
    | inr (x, e) ↦ elim (Bool-cases (ltb now x.expires_at)) [
      | inl fresh ↦ inr (ground (arith, get-retain (λ _ e. ltb now e.expires_at) k c d))
      | inr stale ↦ inl (ground (arith, get-retain (λ _ e. ltb now e.expires_at) k c d))
    ]
  ]

  evict-Shrinks :
      (b : Bool) (k : CacheKey) (c : Cache)
      → Shrinks k c (if b then evict Entry.expires_at c else c)
  evict-Shrinks false k c = inr refl
  evict-Shrinks true k c = elim (get-evict Entry.expires_at c k) [
    | inl kept ↦ inr kept
    | inr (gone, _) ↦ inl gone
  ]

  make_room-Shrinks :
      (now : ℕ) (k : CacheKey) (c : Cache) → IsDistinct c → Shrinks k c (make_room J as_u64 now c)
  unfolding make_room
  make_room-Shrinks now k c d =
      let c' : Cache = if leb max_entries (length c) then purge J as_u64 now c else c in
      Shrinks-then-Agrees k c' (make_room J as_u64 now c) (Maps.get k c)
        (evict-Shrinks (leb max_entries (length c')) k c')
        (purge-Shrinks (leb max_entries (length c)) now k c d)

  get-Shrinks :
      (now : ℕ) (m : String) (d : Option String) (k : CacheKey) (c : Cache)
      → Shrinks k c (get J as_u64 now m d c).0
  unfolding get
  get-Shrinks now m d k c = elim (Option-cases (Maps.get (m, d) c)) [
    | inl e ↦ inr (rw (e, get) refl)
    | inr (x, e) ↦ elim (Bool-cases (ltb now x.expires_at)) [
      | inl fresh ↦ inr (rw (e, get) (rw fresh refl))
      | inr stale ↦ rw (e, get) (rw stale (remove-Shrinks (m, d) k c))
    ]
  ]

  store-Agrees :
      (purging now : ℕ) (m : String) (d : Option String) (value : J.Value) (k : CacheKey)
      (c : Cache) (known : Known)
      → IsDistinct c
      → Agrees k c known
      → Agrees k
          (store J as_u64 purging now m d value c)
          (learn k (store_of purging now m d value) known)
  unfolding store learn
  store-Agrees purging now m d value k c known distinct h =
      elim (Option-cases (ttl_of J as_u64 value)) [
        | inl e ↦ elim (Bool-cases (pair_same {A = String} {B = Option String} (m, d) k)) [
          | inl here ↦ rw here (rw (e, store) h)
          | inr there ↦ rw there (rw (e, store) h)
        ]
        | inr (ttl_ms, e) ↦
            let x : Entry J as_u64 = record {
              value = value;
              expires_at = now + ttl_ms * 1_000_000;
            } in
            let room : Cache = make_room J as_u64 purging c in
            let found = get-insert (m, d) k x room in
            elim (Bool-cases (pair_same {A = String} {B = Option String} (m, d) k)) [
              | inl here ↦ rw here (rw (e, store) (inr (found ∙ rw here refl)))
              | inr there ↦ rw there (
                  rw (e, store)
                    (Shrinks-then-Agrees k room (Maps.insert (m, d) x room) known
                      (inr (found ∙ rw there refl))
                      (Shrinks-then-Agrees k c room known (make_room-Shrinks purging k c distinct)
                        h)))
            ]
      ]

  step-Agrees :
      (k : CacheKey) (call : Call J as_u64) (c : Cache) (known : Known)
      → IsDistinct c
      → Agrees k c known
      → Agrees k (step J as_u64 call c) (learn k call known)
  unfolding step learn clear Maps.get
  step-Agrees k (get_of now m d) c known distinct h =
      Shrinks-then-Agrees k c (get J as_u64 now m d c).0 known (get-Shrinks now m d k c) h
  step-Agrees k (store_of purging now m d value) c known distinct h =
      store-Agrees purging now m d value k c known distinct h
  step-Agrees k (notified note params) c known distinct h =
      elim (Bool-cases (invalidates J as_u64 note params k)) [
        | inl stale ↦ inl (ground (arith, on_notification_lem J as_u64 note params c k))
        | inr other ↦
            let same : Maps.get k (on_notification J as_u64 note params c) ≡ Maps.get k c =
              ground (arith, on_notification_lem J as_u64 note params c k) in
            rw other
              (Shrinks-then-Agrees k c (on_notification J as_u64 note params c) known (inr same) h)
      ]
  step-Agrees k cleared c known distinct h = inl refl

  run-Agrees :
      (k : CacheKey) (calls : List (Call J as_u64)) (c : Cache) (known : Known)
      → CacheOk J as_u64 c
      → Agrees k c known
      → Agrees k (run J as_u64 calls c) (learn_all k calls known)
  unfolding run learn_all
  run-Agrees k [] c known ok h = h
  run-Agrees k (call ∷ calls) c known ok h =
      run-Agrees k calls (step J as_u64 call c) (learn k call known)
        (step-CacheOk J as_u64 call c ok) (step-Agrees k call c known ok.0 h)

  -- What a lookup at a time makes of the entry that it knows.
  unfoldable pub served : ℕ → Known → Option J.Value
  served now none = none
  served now (some e) = if ltb now e.expires_at then some e.value else none

  get-served :
      (now : ℕ) (m : String) (d : Option String) (c : Cache)
      → (get J as_u64 now m d c).1 ≡ served now (Maps.get (m, d) c)
  unfolding get served
  get-served now m d c = elim (Option-cases (Maps.get (m, d) c)) [
    | inl e ↦ rw (e, get) refl
    | inr (x, e) ↦ elim (Bool-cases (ltb now x.expires_at)) [
      | inl fresh ↦ rw (e, get) (rw fresh refl)
      | inr stale ↦ rw (e, get) (rw stale refl)
    ]
  ]

  -- After any sequence of operations on an empty cache, a lookup misses, or returns the value
  -- that the last store of this method and discriminator kept, with no invalidating notification
  -- and no clear after it, and only before the freshness of that store ends: the answer of a
  -- cache that never makes room.
  pub lookup-run :
      (calls : List (Call J as_u64)) (now : ℕ) (m : String) (d : Option String)
      → ((get J as_u64 now m d (run J as_u64 calls [])).1 ≡ none)
        ⊎ ((get J as_u64 now m d (run J as_u64 calls [])).1
            ≡ served now (learn_all (m, d) calls none))
  unfolding served Maps.get
  lookup-run calls now m d =
      let c = run J as_u64 calls [] in
      elim (run-Agrees (m, d) calls [] none (tt, omega arith) (inl refl)) [
        | inl gone ↦ inl (get-served now m d c ∙ ap (served now) gone)
        | inr same ↦ inr (get-served now m d c ∙ ap (served now) same)
      ]

  -- A result that asks for `ttl_ms` milliseconds of freshness and is stored at `now` is what a
  -- lookup of its method and discriminator returns before that time has passed, and a lookup
  -- from then on misses, in every cache.
  pub get-store :
      (purging now later ttl_ms : ℕ) (m : String) (d : Option String) (value : J.Value) (c : Cache)
      → ttl_of J as_u64 value ≡ some ttl_ms
      → (get J as_u64 later m d (store J as_u64 purging now m d value c)).1
        ≡ (if ltb later (now + ttl_ms * 1_000_000) then some value else none)
  unfolding served store
  get-store purging now later ttl_ms m d value c e =
      let x : Entry J as_u64 = record { value = value; expires_at = now + ttl_ms * 1_000_000 } in
      let room : Cache = make_room J as_u64 purging c in
      let stored : store J as_u64 purging now m d value c ≡ Maps.insert (m, d) x room =
        rw (e, store) refl in
      rw stored (
        get-served later m d (Maps.insert (m, d) x room)
        ∙ ap (served later) (get-insert_self (m, d) x room))
