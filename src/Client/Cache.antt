-- ===== src/Client/Cache.antt =====
-- crates/turbomcp-client/src/cache.rs: the response cache of a client. Every operation takes the
-- clock readings it makes, in nanoseconds; `store` reads the clock once more than it purges.
pub mod Invariant
pub mod Reads
pub mod Notifications
use turbomcp.Prelude.{
  ℕ, suc, ◌+◌, ◌*◌, Bool, true, false, not, ◌&&◌, ◌||◌, String, Option, none, some, List, [], ◌∷◌,
  length, ltb, leb, if◌then◌else◌, ◌==◌, string_key, pair_key, option_key,
}
use turbomcp.Prelude.HashMap as Maps
use turbomcp.Prelude.HashMap.{HashMap, retain}
use turbomcp.Prelude.HashMap.Eviction.{evict}
use turbomcp.Core.Json.{Json, member, ◌>>=◌}
use turbomcp.Core.Methods as Methods

abbrev pub max_entries : ℕ
max_entries = 1024

abbrev pub CacheKey : Type 0
CacheKey = String × Option String

-- `as_u64` is `serde_json::Value::as_u64`.
module _ (J : Json) (as_u64 : J.Value → Option ℕ) where
  pub record Entry : Type 0 where
    pub value : J.Value
    pub expires_at : ℕ

  abbrev pub ResponseCache : Type 0
  ResponseCache = HashMap CacheKey Entry

  unfoldable pub get : ℕ → String → Option String → ResponseCache → ResponseCache × Option J.Value
  get now method discriminator c = elim (Maps.get (method, discriminator) c) [
    | none ↦ (c, none)
    | some e ↦
        if ltb now e.expires_at
        then (c, some e.value)
        else (Maps.remove (method, discriminator) c, none)
  ]

  abbrev pub positive : ℕ → Option ℕ
  positive ms = if ltb 0 ms then some ms else none

  -- The freshness that a result asks for.
  unfoldable pub ttl_of : J.Value → Option ℕ
  ttl_of value = member J "ttlMs" value >>= as_u64 >>= positive

  unfoldable pub purge : ℕ → ResponseCache → ResponseCache
  purge now = retain (λ _ e. ltb now e.expires_at)

  -- Making room: the expired entries go first, then the entry that expires first.
  unfoldable pub make_room : ℕ → ResponseCache → ResponseCache
  unfolding purge
  make_room now c =
      let c' = if leb max_entries (length c) then purge now c else c in
      if leb max_entries (length c') then evict Entry.expires_at c' else c'

  -- `purging` is the clock while expired entries are purged, `now` at the insertion.
  unfoldable pub store : ℕ → ℕ → String → Option String → J.Value → ResponseCache → ResponseCache
  unfolding ttl_of make_room
  store purging now method discriminator value c = elim (ttl_of value) [
    | none ↦ c
    | some ttl_ms ↦
        Maps.insert (method, discriminator)
          (record { value = value; expires_at = now + ttl_ms * 1_000_000 }) (make_room purging c)
  ]

  -- `retain(|(m, _), _| ..)`: a condition on the method of the key.
  abbrev pub retain_methods : (String → Bool) → ResponseCache → ResponseCache
  retain_methods p = retain (λ k _. p k.0)

  unfoldable pub on_notification : String → Option J.Value → ResponseCache → ResponseCache
  on_notification note params c =
      if note == Methods.tools_list_changed
      then retain_methods (λ m. not (m == Methods.tools_list)) c
      else if note == Methods.prompts_list_changed
      then retain_methods (λ m. not (m == Methods.prompts_list)) c
      else if note == Methods.resources_list_changed
      then retain_methods
          (λ m.
            not (m == Methods.resources_list)
            && not (m == Methods.resources_templates_list)
            && not (m == Methods.resources_read))
          c
      else if note == Methods.resources_updated
      then elim (params >>= member J "uri" >>= J.as_str) [
        | none ↦ c
        | some uri ↦ Maps.remove (Methods.resources_read, some uri) c
      ]
      else c

  unfoldable pub clear : ResponseCache → ResponseCache
  clear c = []
