-- ===== src/Sessions/Store.antt =====
-- crates/turbomcp-server/src/session.rs: the bounded store of the sessions that `initialize`
-- opened. Each operation takes its reading of the monotonic clock, in nanoseconds.
pub mod Invariant
pub mod Eviction
pub mod Expiry
use turbomcp.Prelude.{
  ℕ, suc, ◌-◌, Bool, true, false, not, ◌&&◌, String, Option, none, some, List, [], ◌∷◌, length, leb,
  if◌then◌else◌, string_key,
}
use turbomcp.Prelude.HashMap as Maps
use turbomcp.Prelude.HashMap.{HashMap, contains_key}
use turbomcp.Prelude.HashMap.Eviction.{min_by_key, evict}
use turbomcp.Core.Json.{Json}
use turbomcp.Core.Context.{Implementation, LogLevel}
use turbomcp.Core.Version.{ProtocolVersion}

module _ (J : Json) where
  pub record SessionState : Type 0 where
    pub version : ProtocolVersion
    pub client_info : Implementation J
    pub client_capabilities : J.Value
    pub log_level : Option LogLevel

  pub record Entry : Type 0 where
    pub state : SessionState
    pub last_seen : ℕ

  pub record SessionStore : Type 0 where
    pub inner : HashMap String Entry
    pub capacity : ℕ
    pub idle_timeout : Option ℕ

  unfoldable pub with_capacity : ℕ → SessionStore
  with_capacity capacity = record {
    inner = [];
    capacity = if leb 1 capacity then capacity else 1;
    idle_timeout = none;
  }

  unfoldable pub with_idle_timeout : Option ℕ → SessionStore → SessionStore
  with_idle_timeout timeout s = record s { idle_timeout = timeout }

  unfoldable pub is_expired : Option ℕ → ℕ → Entry → Bool
  is_expired none now e = false
  is_expired (some t) now e = leb t (now - e.last_seen)

  unfoldable pub insert : ℕ → String → SessionState → SessionStore → SessionStore
  insert now id state s =
      let map =
        if not (contains_key id s.inner) && leb s.capacity (length s.inner)
        then evict Entry.last_seen s.inner
        else s.inner in
      record s { inner = Maps.insert id (record { state = state; last_seen = now }) map }

  unfoldable pub get : ℕ → String → SessionStore → SessionStore × Option SessionState
  unfolding is_expired
  get now id s = elim (Maps.get id s.inner) [
    | none ↦ (s, none)
    | some e ↦
        if is_expired s.idle_timeout now e
        then (record s { inner = Maps.remove id s.inner }, none)
        else (
          record s { inner = Maps.insert id (record e { last_seen = now }) s.inner },
          some e.state,
        )
  ]

  -- The keys of the entries that `sweep_expired` collects.
  unfoldable pub expired_ids : Option ℕ → ℕ → HashMap String Entry → List String
  unfolding is_expired
  expired_ids t now [] = []
  expired_ids t now ((k, e) ∷ m) =
      if is_expired t now e then k ∷ expired_ids t now m else expired_ids t now m

  unfoldable pub remove_all : List String → HashMap String Entry → HashMap String Entry
  remove_all [] m = m
  remove_all (k ∷ ks) m = remove_all ks (Maps.remove k m)

  unfoldable pub sweep_expired : ℕ → SessionStore → SessionStore × List String
  unfolding expired_ids remove_all
  sweep_expired now s = elim s.idle_timeout [
    | none ↦ (s, [])
    | some t ↦
        let expired = expired_ids s.idle_timeout now s.inner in
        (record s { inner = remove_all expired s.inner }, expired)
  ]

  unfoldable pub contains : String → SessionStore → Bool
  contains id s = contains_key id s.inner

  abbrev pub with_level : ℕ → LogLevel → Entry → Entry
  with_level now level e = record {
    state = record e.state { log_level = some level };
    last_seen = now;
  }

  unfoldable pub set_log_level : ℕ → String → LogLevel → SessionStore → SessionStore × Bool
  set_log_level now id level s = elim (Maps.get id s.inner) [
    | none ↦ (s, false)
    | some e ↦ (record s { inner = Maps.insert id (with_level now level e) s.inner }, true)
  ]

  unfoldable pub remove : String → SessionStore → SessionStore × Bool
  remove id s = (record s { inner = Maps.remove id s.inner }, contains_key id s.inner)

  unfoldable pub len : SessionStore → ℕ
  len s = length s.inner
