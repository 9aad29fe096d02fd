-- ===== src/LegacyTasks/Store/Invariant.antt =====
-- The registry's invariant, and that every operation keeps it.
use turbomcp.Prelude.{
  ℕ, ◌≤◌, ◌≡◌, true, not, String, Option, none, some, List, [], ◌∷◌, length, leb, arith, string_key,
  Result, ok, err, Option-cases, Bool-cases, inl, inr,
}
use turbomcp.Prelude.HashMap.{HashMap, IsDistinct, length-retain-le}
use turbomcp.Prelude.HashMap as Maps
use turbomcp.Prelude.HashMap.Laws.{insert-IsDistinct, retain-IsDistinct, length-insert}
use turbomcp.Prelude.HashMap.Values.{AllValues, insert-AllValues, retain-AllValues, get-AllValues}
use turbomcp.Prelude.Int.{ℤ, pos, negsuc, leb_ℤ, clamp_ℤ}
use turbomcp.Core.JsonRpc.{JsonRpcError}
use turbomcp.Core.Host.{Host}
use turbomcp.LegacyTasks.Store.{
  TaskStatus, working, completed, failed, cancelled, is_terminal, max_ttl_ms, TaskEntry, TaskStore,
  expired, live, requested, new_entry, create, settle, complete, owned, cancel_entry, cancel, get,
  list, wait_once, offset_of,
}

-- A task has an outcome exactly when it is over, a value exactly when it completed.
abbrev pub OutcomeFits : {V E : Type 0} → TaskStatus → Option (Result V E) → Type 0
OutcomeFits working none = Unit
OutcomeFits completed (some (ok _)) = Unit
OutcomeFits failed (some (err _)) = Unit
OutcomeFits cancelled (some (err _)) = Unit
OutcomeFits _ _ = ⊥

clamp_bounds :
    (x : ℤ)
    → (leb_ℤ (pos 0) (clamp_ℤ x (pos 0) max_ttl_ms) ≡ true)
      × (leb_ℤ (clamp_ℤ x (pos 0) max_ttl_ms) max_ttl_ms ≡ true)
clamp_bounds (pos n) = ground arith
clamp_bounds (negsuc n) = ground arith

module _ (H : Host) where
  open H use {json, Wall}
  open json use {Value}

  abbrev pub Outcome : Type 0
  Outcome = Result Value (JsonRpcError Value)

  -- A call on the registry, with what its caller and other crates put in.
  pub data Call : Type 0 where
    creates : String → ℕ → String → Option ℤ → ℕ → Call
    completes : String → Outcome → Call
    cancels : String → String → Call
    gets : String → String → Call
    lists : String → Option String → ℕ → Call
    waits : String → String → Call

  -- The clocks of a call: at its purge, at its creation of an entry, and on the wall.
  unfoldable pub step : ℕ → ℕ → Wall → Call → TaskStore H → TaskStore H
  unfolding create complete cancel get list wait_once
  step now created wall (creates id channel session ttl token) s =
      (create H now created wall id channel session ttl token s).0
  step now created wall (completes id outcome) s = (complete H wall id outcome s).0
  step now created wall (cancels session id) s = (cancel H now wall session id s).0
  step now created wall (gets session id) s = (get H now session id s).0
  step now created wall (lists session cursor page_size) s =
      (list H now session cursor page_size s).0
  step now created wall (waits session id) s = (wait_once H now session id s).0

  unfoldable pub run : List (ℕ × ℕ × Wall × Call) → TaskStore H → TaskStore H
  unfolding step
  run [] s = s
  run ((now, created, wall, c) ∷ cs) s = run cs (step now created wall c s)

  pub record EntryOk (e : TaskEntry H) : Type 0 where
    pub fits : OutcomeFits e.status e.outcome
    pub ttl_low : leb_ℤ (pos 0) e.ttl_ms ≡ true
    pub ttl_high : leb_ℤ e.ttl_ms max_ttl_ms ≡ true

  pub record StoreOk (s : TaskStore H) : Type 0 where
    pub distinct : IsDistinct s.inner
    pub bounded : length s.inner ≤ s.capacity
    pub sound : AllValues EntryOk s.inner

  pub live-StoreOk :
      (now : ℕ) (s : TaskStore H) → StoreOk s → StoreOk (record s { inner = live H now s.inner })
  unfolding live
  live-StoreOk now s h = record {
    distinct = retain-IsDistinct (λ _ e. not (expired H now e)) s.inner h.distinct;
    bounded = ground (arith, length-retain-le (λ _ e. not (expired H now e)) s.inner, h.bounded);
    sound = retain-AllValues EntryOk (λ _ e. not (expired H now e)) s.inner h.sound;
  }

  -- Rewriting an entry that is there keeps the invariant, if the new entry is sound.
  replace-StoreOk :
      (id : String) (e e' : TaskEntry H) (s : TaskStore H)
      → StoreOk s
      → Maps.get id s.inner ≡ some e
      → EntryOk e'
      → StoreOk (record s { inner = Maps.insert id e' s.inner })
  replace-StoreOk id e e' s h found good = record {
    distinct = insert-IsDistinct id e' s.inner h.distinct;
    bounded = ground (arith, length-insert id e' s.inner, h.bounded);
    sound = insert-AllValues EntryOk id e' s.inner good h.sound;
  }

  new_entry-EntryOk :
      (session : String) (ttl : Option ℤ) (token channel created : ℕ) (wall : Wall)
      → EntryOk (new_entry H session ttl token channel created wall)
  new_entry-EntryOk session ttl token channel created wall = record {
    fits = tt;
    ttl_low = (clamp_bounds (requested H ttl)).0;
    ttl_high = (clamp_bounds (requested H ttl)).1;
  }

  create-StoreOk :
      (now created : ℕ) (wall : Wall) (id : String) (channel : ℕ) (session : String)
      (ttl : Option ℤ) (token : ℕ) (s : TaskStore H)
      → StoreOk s
      → StoreOk (create H now created wall id channel session ttl token s).0
  unfolding create
  create-StoreOk now created wall id channel session ttl token s h =
      let purged = live-StoreOk now s h in
      let e = new_entry H session ttl token channel created wall in
      elim (Bool-cases (leb s.capacity (length (live H now s.inner)))) [
        | inl full ↦ rw full purged
        | inr room ↦ rw room (record {
          distinct = insert-IsDistinct id e (live H now s.inner) purged.distinct;
          bounded = ground (arith, length-insert id e (live H now s.inner), purged.bounded);
          sound =
              insert-AllValues EntryOk id e (live H now s.inner)
                (new_entry-EntryOk session ttl token channel created wall) purged.sound;
        })
      ]

  settle-EntryOk :
      (wall : Wall) (outcome : Outcome) (e : TaskEntry H)
      → EntryOk e
      → EntryOk (settle H wall outcome e)
  unfolding settle
  settle-EntryOk wall (ok v) e h = record { fits = tt; ttl_low = h.ttl_low; ttl_high = h.ttl_high }
  settle-EntryOk wall (err x) e h = record { fits = tt; ttl_low = h.ttl_low; ttl_high = h.ttl_high }

  complete-StoreOk :
      (wall : Wall) (id : String) (outcome : Outcome) (s : TaskStore H)
      → StoreOk s
      → StoreOk (complete H wall id outcome s).0
  unfolding complete
  complete-StoreOk wall id outcome s h = elim (Option-cases (Maps.get id s.inner)) [
    | inl e ↦ rw (e, complete) h
    | inr (e, found) ↦ elim (Bool-cases (is_terminal e.status)) [
      | inl over ↦ rw (found, complete) (rw over h)
      | inr alive ↦
          rw (found, complete)
            (rw alive (
              replace-StoreOk id e (settle H wall outcome e) s h found
                (settle-EntryOk wall outcome e (get-AllValues EntryOk id e s.inner h.sound found))))
    ]
  ]

  -- An owned entry is one that the registry has.
  pub get-owned :
      (session id : String) (e : TaskEntry H) (m : HashMap String (TaskEntry H))
      → owned H session id m ≡ some e
      → Maps.get id m ≡ some e
  unfolding owned
  get-owned session id e m h = ground arith

  cancel-StoreOk :
      (now : ℕ) (wall : Wall) (session id : String) (s : TaskStore H)
      → StoreOk s
      → StoreOk (cancel H now wall session id s).0
  unfolding cancel cancel_entry
  cancel-StoreOk now wall session id s h =
      let purged = live-StoreOk now s h in
      elim (Option-cases (owned H session id (live H now s.inner))) [
        | inl e ↦ rw (e, cancel) purged
        | inr (e, mine) ↦ elim (Bool-cases (is_terminal e.status)) [
          | inl over ↦ rw (mine, cancel) (rw over purged)
          | inr alive ↦
              let found = get-owned session id e (live H now s.inner) mine in
              let sound = get-AllValues EntryOk id e (live H now s.inner) purged.sound found in
              rw (mine, cancel)
                (rw alive (
                  replace-StoreOk id e (cancel_entry H wall e)
                    (record s { inner = live H now s.inner }) purged found
                    (record { fits = tt; ttl_low = sound.ttl_low; ttl_high = sound.ttl_high })))
        ]
      ]

  list-StoreOk :
      (now : ℕ) (session : String) (cursor : Option String) (page_size : ℕ) (s : TaskStore H)
      → StoreOk s
      → StoreOk (list H now session cursor page_size s).0
  unfolding list
  list-StoreOk now session cursor page_size s h = elim (Option-cases (offset_of H cursor)) [
    | inl e ↦ rw (e, list) h
    | inr (offset, e) ↦ rw (e, list) (live-StoreOk now s h)
  ]

  -- Every call keeps the invariant, whatever the clocks and the caller's arguments are.
  pub step-StoreOk :
      (now created : ℕ) (wall : Wall) (c : Call) (s : TaskStore H)
      → StoreOk s
      → StoreOk (step now created wall c s)
  unfolding step get list wait_once
  step-StoreOk now created wall (creates id channel session ttl token) s h =
      create-StoreOk now created wall id channel session ttl token s h
  step-StoreOk now created wall (completes id outcome) s h = complete-StoreOk wall id outcome s h
  step-StoreOk now created wall (cancels session id) s h = cancel-StoreOk now wall session id s h
  step-StoreOk now created wall (gets session id) s h = live-StoreOk now s h
  step-StoreOk now created wall (lists session cursor page_size) s h =
      list-StoreOk now session cursor page_size s h
  step-StoreOk now created wall (waits session id) s h = live-StoreOk now s h

  run_from : (cs : List (ℕ × ℕ × Wall × Call)) (s : TaskStore H) → StoreOk s → StoreOk (run cs s)
  unfolding run
  run_from [] s h = h
  run_from ((now, created, wall, c) ∷ cs) s h =
      run_from cs (step now created wall c s) (step-StoreOk now created wall c s h)

  -- After any sequence of calls on an empty registry, at any clocks: the ids are distinct, the
  -- registry is within its capacity, every task has a retention from 0 to 3600000 ms, and it has
  -- an outcome exactly when it is over, a value exactly when it completed.
  pub run-TaskStoreOk :
      (capacity : ℕ) (cs : List (ℕ × ℕ × Wall × Call))
      → StoreOk (run cs (record { inner = []; capacity = capacity }))
  run-TaskStoreOk capacity cs =
      run_from cs (record { inner = []; capacity = capacity })
        (record { distinct = tt; bounded = omega arith; sound = tt })
