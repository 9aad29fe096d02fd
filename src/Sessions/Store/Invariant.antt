-- ===== src/Sessions/Store/Invariant.antt =====
-- The store's invariant: distinct keys, and no more sessions than its capacity.
use turbomcp.Prelude.{
  ℕ, ◌≤◌, ◌≡◌, ◌∙◌, refl, if◌then◌else◌, ◌==ℕ◌, not, ◌&&◌, String, Option, some, List, [], ◌∷◌,
  arith, length, leb, string_key, Option-cases, Bool-cases, inl, inr,
}
use turbomcp.Prelude.HashMap as Maps
use turbomcp.Prelude.HashMap.{HashMap, contains_key, IsDistinct}
use turbomcp.Prelude.HashMap.Laws.{
  insert-IsDistinct, length-insert, remove-IsDistinct, length-remove-le,
}
use turbomcp.Prelude.HashMap.Eviction.{evict, evict-IsDistinct, length-evict}
use turbomcp.Core.Json.{Json}
use turbomcp.Core.Context.{LogLevel}
use turbomcp.Sessions.Store.{
  SessionState, Entry, SessionStore, with_capacity, with_idle_timeout, is_expired, insert, get,
  expired_ids, remove_all, sweep_expired, set_log_level, remove, with_level,
}

module _ (J : Json) where
  -- The calls that the server makes on the store.
  pub data Call : Type 0 where
    insert_of : String → SessionState J → Call
    get_of : String → Call
    sweep : Call
    set_log_level_of : String → LogLevel → Call
    remove_of : String → Call

  unfoldable pub step : ℕ → Call → SessionStore J → SessionStore J
  unfolding insert get sweep_expired set_log_level remove
  step now (insert_of id state) s = insert J now id state s
  step now (get_of id) s = (get J now id s).0
  step now sweep s = (sweep_expired J now s).0
  step now (set_log_level_of id level) s = (set_log_level J now id level s).0
  step now (remove_of id) s = (remove J id s).0

  -- A run of the store: each call with its reading of the clock.
  unfoldable pub run : List (ℕ × Call) → SessionStore J → SessionStore J
  unfolding step
  run [] s = s
  run ((now, c) ∷ cs) s = run cs (step now c s)

  abbrev pub StoreOk : SessionStore J → Type 0
  StoreOk s = (1 ≤ s.capacity) × IsDistinct s.inner × (length s.inner ≤ s.capacity)

  module _ (now : ℕ) (s : SessionStore J) (ok : StoreOk s) where
    insert-StoreOk : (id : String) (state : SessionState J) → StoreOk (insert J now id state s)
    unfolding insert
    insert-StoreOk id state =
        let e : Entry J = record { state = state; last_seen = now } in
        let rest = evict Entry.last_seen s.inner in
        elim (Bool-cases (not (contains_key id s.inner) && leb s.capacity (length s.inner))) [
          | inl full ↦ rw full (
            ok.0,
            insert-IsDistinct id e rest (evict-IsDistinct Entry.last_seen s.inner ok.1),
            ground (arith, length-insert id e rest, length-evict Entry.last_seen s.inner ok.1),
          )
          | inr room ↦ rw room (
            ok.0,
            insert-IsDistinct id e s.inner ok.1,
            ground (arith, length-insert id e s.inner),
          )
        ]

    -- Writing the entry of a key that the store has.
    rewrite-StoreOk :
        (id : String) (e e' : Entry J)
        → Maps.get id s.inner ≡ some e
        → StoreOk (record s { inner = Maps.insert id e' s.inner })
    rewrite-StoreOk id e e' found =
        (ok.0, insert-IsDistinct id e' s.inner ok.1, ground (arith, length-insert id e' s.inner))

    remove-StoreOk : (id : String) → StoreOk (record s { inner = Maps.remove id s.inner })
    remove-StoreOk id =
        (ok.0, remove-IsDistinct id s.inner ok.1, ground (arith, length-remove-le id s.inner))

    get-StoreOk : (id : String) → StoreOk (get J now id s).0
    unfolding get
    get-StoreOk id = elim (Option-cases (Maps.get id s.inner)) [
      | inl e ↦ rw (e, get) ok
      | inr (e, found) ↦ elim (Bool-cases (is_expired J s.idle_timeout now e)) [
        | inl stale ↦ rw (found, get) (rw stale (remove-StoreOk id))
        | inr fresh ↦
            rw (found, get) (rw fresh (rewrite-StoreOk id e (record e { last_seen = now }) found))
      ]
    ]

    set_log_level-StoreOk :
        (id : String) (level : LogLevel) → StoreOk (set_log_level J now id level s).0
    unfolding set_log_level
    set_log_level-StoreOk id level = elim (Option-cases (Maps.get id s.inner)) [
      | inl e ↦ rw (e, set_log_level) ok
      | inr (e, found) ↦
          rw (found, set_log_level) (rewrite-StoreOk id e (with_level J now level e) found)
    ]

  remove_all-StoreOk :
      (ks : List String) (s : SessionStore J)
      → StoreOk s
      → StoreOk (record s { inner = remove_all J ks s.inner })
  unfolding remove_all
  remove_all-StoreOk [] s ok = ok
  remove_all-StoreOk (k ∷ ks) s ok =
      remove_all-StoreOk ks (record s { inner = Maps.remove k s.inner }) (remove-StoreOk 0 s ok k)

  sweep-StoreOk : (now : ℕ) (s : SessionStore J) → StoreOk s → StoreOk (sweep_expired J now s).0
  unfolding sweep_expired
  sweep-StoreOk now s ok = elim (Option-cases s.idle_timeout) [
    | inl e ↦ rw (e, sweep_expired) ok
    | inr (t, e) ↦
        rw (e, sweep_expired) (remove_all-StoreOk (expired_ids J s.idle_timeout now s.inner) s ok)
  ]

  step-StoreOk : (now : ℕ) (c : Call) (s : SessionStore J) → StoreOk s → StoreOk (step now c s)
  unfolding step
  step-StoreOk now (insert_of id state) s ok = insert-StoreOk now s ok id state
  step-StoreOk now (get_of id) s ok = get-StoreOk now s ok id
  step-StoreOk now sweep s ok = sweep-StoreOk now s ok
  step-StoreOk now (set_log_level_of id level) s ok = set_log_level-StoreOk now s ok id level
  step-StoreOk now (remove_of id) s ok = remove-StoreOk now s ok id

  run-StoreOk : (cs : List (ℕ × Call)) (s : SessionStore J) → StoreOk s → StoreOk (run cs s)
  unfolding run
  run-StoreOk [] s ok = ok
  run-StoreOk ((now, c) ∷ cs) s ok = run-StoreOk cs (step now c s) (step-StoreOk now c s ok)

  step-capacity : (now : ℕ) (c : Call) (s : SessionStore J) → (step now c s).capacity ≡ s.capacity
  unfolding step insert get set_log_level sweep_expired remove
  step-capacity now (insert_of id state) s = ground arith
  step-capacity now (get_of id) s = ground arith
  step-capacity now sweep s = ground arith
  step-capacity now (set_log_level_of id level) s = ground arith
  step-capacity now (remove_of id) s = refl

  run-capacity : (cs : List (ℕ × Call)) (s : SessionStore J) → (run cs s).capacity ≡ s.capacity
  unfolding run
  run-capacity [] s = refl
  run-capacity ((now, c) ∷ cs) s = run-capacity cs (step now c s) ∙ step-capacity now c s

  -- A store that starts empty with a requested capacity and an idle timeout, after any sequence
  -- of calls at any clock readings, keeps distinct session ids and never more sessions than
  -- the requested capacity, or than one where the request was zero.
  pub run-bounded :
      (capacity : ℕ) (timeout : Option ℕ) (cs : List (ℕ × Call))
      → let s = run cs (with_idle_timeout J timeout (with_capacity J capacity)) in
        IsDistinct s.inner
        × (length s.inner ≤ (if capacity ==ℕ 0 then 1 else capacity))
        × (1 ≤ s.capacity)
  unfolding with_capacity with_idle_timeout
  run-bounded capacity timeout cs =
      let s = with_idle_timeout J timeout (with_capacity J capacity) in
      let (room, distinct, bounded) = run-StoreOk cs s (ground arith, tt, ground arith) in
      (distinct, ground (arith, bounded, run-capacity cs s), room)
