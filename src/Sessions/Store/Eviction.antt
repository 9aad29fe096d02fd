-- ===== src/Sessions/Store/Eviction.antt =====
-- What an insertion does to the other sessions: the one seen least recently makes room.
use turbomcp.Prelude.{
  ℕ, suc, ◌≤◌, ◌≡◌, ◌≢◌, ◌⊎◌, not, ◌&&◌, ◌||◌, String, none, some, arith, length, leb,
  if◌then◌else◌, string_key, Bool-cases, inl, inr,
}
use turbomcp.Prelude.HashMap as Maps
use turbomcp.Prelude.HashMap.{HashMap, contains_key, IsDistinct, get-insert}
use turbomcp.Prelude.HashMap.Laws.{length-insert, get-insert_self}
use turbomcp.Prelude.HashMap.Eviction.{evict, length-evict, get-evict}
use turbomcp.Core.Json.{Json}
use turbomcp.Sessions.Store.{SessionState, Entry, SessionStore, insert}

module _ (J : Json) where
  -- `j` made room in a full store: no other session was seen before it.
  pub record Evicted (s s' : SessionStore J) (j : String) : Type 0 where
    pub full : s.capacity ≤ length s.inner
    pub gone : Maps.get j s'.inner ≡ none
    pub least :
        (e : Entry J) (i : String) (w : Entry J)
        → Maps.get j s.inner ≡ some e
        → Maps.get i s.inner ≡ some w
        → e.last_seen ≤ w.last_seen

  pub record Inserted (now : ℕ) (id : String) (state : SessionState J) (s s' : SessionStore J)
      : Type 0 where
    pub stored : Maps.get id s'.inner ≡ some (record { state = state; last_seen = now })
    pub others : (j : String) → j ≢ id → (Maps.get j s'.inner ≡ Maps.get j s.inner) ⊎ Evicted s s' j
    pub size : length s'.inner ≡ (
        if contains_key id s.inner || leb s.capacity (length s.inner)
        then length s.inner
        else suc (length s.inner))

  -- After an insertion in a store with distinct ids and a positive capacity, the session has the
  -- given state and is seen now. Any other session is as before, unless the store was full: then
  -- it may be gone, and no session of the store was seen before it. The store keeps its size
  -- when the session replaces one or the store was full, and grows by one otherwise.
  pub insert_session_lem :
      (now : ℕ) (id : String) (state : SessionState J) (s : SessionStore J)
      → IsDistinct s.inner
      → 1 ≤ s.capacity
      → Inserted now id state s (insert J now id state s)
  unfolding insert
  insert_session_lem now id state s d positive =
      let e : Entry J = record { state = state; last_seen = now } in
      let rest = evict Entry.last_seen s.inner in
      let shorter = length-evict Entry.last_seen s.inner d in
      elim (Bool-cases (not (contains_key id s.inner) && leb s.capacity (length s.inner))) [
        | inl full ↦ record {
          stored = rw (full, insert) (get-insert_self id e rest);
          others = λ j apart.
              let same : Maps.get j (insert J now id state s).inner ≡ Maps.get j rest =
                ground (arith, get-insert id j e rest, string_key.same_iff id j) in
              elim (get-evict Entry.last_seen s.inner j) [
                | inl kept ↦ inl (ground arith)
                | inr (gone, least) ↦ inr (record {
                  full = ground arith;
                  gone = ground arith;
                  least = λ v i w. least v i w d;
                })
              ];
          size =
              let absent : Maps.get id rest ≡ none = elim (get-evict Entry.last_seen s.inner id) [
                | inl kept ↦ ground arith
                | inr g ↦ g.0
              ] in
              ground (arith, length-insert id e rest, shorter);
        }
        | inr room ↦ record {
          stored = rw (room, insert) (get-insert_self id e s.inner);
          others =
              λ j apart. inl (ground (arith, get-insert id j e s.inner, string_key.same_iff id j));
          size = ground (arith, length-insert id e s.inner);
        }
      ]
