-- ===== src/Client/Cache/Invariant.antt =====
-- The cache's invariant over any sequence of operations: distinct keys, and a bounded size.
use turbomcp.Prelude.{
  ℕ, suc, ◌+◌, ◌*◌, ◌≤◌, Bool, true, false, not, ◌&&◌, String, Option, some, List, [], ◌∷◌, arith,
  length, ltb, leb, if◌then◌else◌, ◌==◌, string_key, pair_key, option_key, Option-cases, Bool-cases,
  inl, inr,
}
use turbomcp.Prelude.HashMap as Maps
use turbomcp.Prelude.HashMap.{HashMap, IsDistinct, retain, length-retain-le}
use turbomcp.Prelude.HashMap.Laws.{
  insert-IsDistinct, length-insert, remove-IsDistinct, length-remove-le, retain-IsDistinct,
}
use turbomcp.Prelude.HashMap.Eviction.{evict-IsDistinct, length-evict}
use turbomcp.Core.Json.{Json, member, ◌>>=◌}
use turbomcp.Core.Methods as Methods
use turbomcp.Client.Cache.{
  max_entries, CacheKey, Entry, ResponseCache, get, ttl_of, purge, make_room, store,
  on_notification, clear,
}

module _ (J : Json) (as_u64 : J.Value → Option ℕ) where
  pub data Call : Type 0 where
    get_of : ℕ → String → Option String → Call
    store_of : ℕ → ℕ → String → Option String → J.Value → Call
    notified : String → Option J.Value → Call
    cleared : Call

  unfoldable pub step : Call → ResponseCache J as_u64 → ResponseCache J as_u64
  unfolding get store on_notification clear
  step (get_of now m d) c = (get J as_u64 now m d c).0
  step (store_of purging now m d value) c = store J as_u64 purging now m d value c
  step (notified note params) c = on_notification J as_u64 note params c
  step cleared c = clear J as_u64 c

  unfoldable pub run : List Call → ResponseCache J as_u64 → ResponseCache J as_u64
  unfolding step
  run [] c = c
  run (call ∷ calls) c = run calls (step call c)

  abbrev pub CacheOk : ResponseCache J as_u64 → Type 0
  CacheOk c = IsDistinct c × (length c ≤ max_entries)

  abbrev Cache : Type 0
  Cache = ResponseCache J as_u64

  module _ (c : Cache) (ok : CacheOk c) where
    remove-CacheOk : (k : CacheKey) → CacheOk (Maps.remove k c)
    remove-CacheOk k = (remove-IsDistinct k c ok.0, ground (arith, length-remove-le k c))

    retain-CacheOk : (p : CacheKey → Entry J as_u64 → Bool) → CacheOk (retain p c)
    retain-CacheOk p = (retain-IsDistinct p c ok.0, ground (arith, length-retain-le p c))

    get-CacheOk : (now : ℕ) (m : String) (d : Option String) → CacheOk (get J as_u64 now m d c).0
    unfolding get
    get-CacheOk now m d = elim (Option-cases (Maps.get (m, d) c)) [
      | inl e ↦ rw (e, get) ok
      | inr (x, e) ↦ elim (Bool-cases (ltb now x.expires_at)) [
        | inl fresh ↦ rw (e, get) (rw fresh ok)
        | inr stale ↦ rw (e, get) (rw stale (remove-CacheOk (m, d)))
      ]
    ]

    purged_if : (b : Bool) (now : ℕ) → CacheOk (if b then purge J as_u64 now c else c)
    unfolding purge
    purged_if true now = retain-CacheOk (λ _ e. ltb now e.expires_at)
    purged_if false now = ok

  -- Room for one more entry.
  pub make_room-CacheOk :
      (now : ℕ) (c : Cache)
      → CacheOk c
      → CacheOk (make_room J as_u64 now c) × (suc (length (make_room J as_u64 now c)) ≤ max_entries)
  unfolding make_room
  make_room-CacheOk now c ok =
      let c' : Cache = if leb max_entries (length c) then purge J as_u64 now c else c in
      let ok' : CacheOk c' = purged_if c ok (leb max_entries (length c)) now in
      let shorter = length-evict Entry.expires_at c' ok'.0 in
      elim (Bool-cases (leb max_entries (length c'))) [
        | inl full ↦ rw full (
          (evict-IsDistinct Entry.expires_at c' ok'.0, omega (arith, shorter, ok'.1)),
          omega (arith, shorter, ok'.1),
        )
        | inr room ↦ rw room (ok', ground arith)
      ]

  store-CacheOk :
      (purging now : ℕ) (m : String) (d : Option String) (value : J.Value) (c : Cache)
      → CacheOk c
      → CacheOk (store J as_u64 purging now m d value c)
  unfolding store
  store-CacheOk purging now m d value c ok = elim (Option-cases (ttl_of J as_u64 value)) [
    | inl e ↦ rw (e, store) ok
    | inr (ttl_ms, e) ↦
        let room = make_room-CacheOk purging c ok in
        let x : Entry J as_u64 = record { value = value; expires_at = now + ttl_ms * 1_000_000 } in
        rw (e, store)
          (
            insert-IsDistinct (m, d) x (make_room J as_u64 purging c) room.0.0,
            ground (arith, length-insert (m, d) x (make_room J as_u64 purging c), room.1),
          )
  ]

  notified-CacheOk :
      (note : String) (params : Option J.Value) (c : Cache)
      → CacheOk c
      → CacheOk (on_notification J as_u64 note params c)
  unfolding on_notification
  notified-CacheOk note params c ok = elim (Bool-cases (note == Methods.tools_list_changed)) [
    | inl e ↦ rw (e, on_notification) (retain-CacheOk c ok (λ k _. not (k.0 == Methods.tools_list)))
    | inr tools ↦ elim (Bool-cases (note == Methods.prompts_list_changed)) [
      | inl e ↦
          rw (tools, on_notification)
            (rw e (retain-CacheOk c ok (λ k _. not (k.0 == Methods.prompts_list))))
      | inr prompts ↦ elim (Bool-cases (note == Methods.resources_list_changed)) [
        | inl e ↦
            rw (tools, on_notification)
              (rw (prompts, e)
                (retain-CacheOk c ok (λ k _.
                  not (k.0 == Methods.resources_list)
                  && not (k.0 == Methods.resources_templates_list)
                  && not (k.0 == Methods.resources_read))))
        | inr lists ↦ elim (Bool-cases (note == Methods.resources_updated)) [
          | inr other ↦ rw (tools, on_notification) (rw (prompts, lists, other) ok)
          | inl e ↦ elim (Option-cases (params >>= member J "uri" >>= J.as_str)) [
            | inl none_there ↦
                rw (tools, on_notification) (rw (prompts, lists, e) (rw none_there ok))
            | inr (uri, u) ↦
                rw (tools, on_notification)
                  (rw (prompts, lists, e)
                    (rw u (remove-CacheOk c ok (Methods.resources_read, some uri))))
          ]
        ]
      ]
    ]
  ]

  pub step-CacheOk : (call : Call) (c : Cache) → CacheOk c → CacheOk (step call c)
  unfolding step clear
  step-CacheOk (get_of now m d) c ok = get-CacheOk c ok now m d
  step-CacheOk (store_of purging now m d value) c ok = store-CacheOk purging now m d value c ok
  step-CacheOk (notified note params) c ok = notified-CacheOk note params c ok
  step-CacheOk cleared c ok = (tt, omega arith)

  run-CacheOk : (calls : List Call) (c : Cache) → CacheOk c → CacheOk (run calls c)
  unfolding run
  run-CacheOk [] c ok = ok
  run-CacheOk (call ∷ calls) c ok = run-CacheOk calls (step call c) (step-CacheOk call c ok)

  -- A cache that starts empty, after any sequence of lookups, stores, notifications and clears,
  -- holds at most 1024 entries, one per method and discriminator.
  pub run_bounded : (calls : List Call) → CacheOk (run calls [])
  run_bounded calls = run-CacheOk calls [] (tt, omega arith)
