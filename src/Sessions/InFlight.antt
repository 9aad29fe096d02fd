-- ===== src/Sessions/InFlight.antt =====
-- crates/turbomcp-server/src/inflight.rs: the requests in flight, so that a cancellation
-- notification of the same connection reaches their cancellation tokens. A token is the number
-- of a shared object; an operation says which token it fires.
use turbomcp.Prelude.{
  ℕ, ◌≡◌, ◌≢◌, refl, Bool, true, false, ◌&&◌, String, Option, none, some, List, [], ◌∷◌, arith,
  if◌then◌else◌, ◌==◌, string_key, pair_key, Option-cases, Bool-cases, inl, inr,
}
use turbomcp.Prelude.HashMap as Maps
use turbomcp.Prelude.HashMap.{HashMap, get-insert, get-remove}
use turbomcp.Core.JsonRpc.{RequestId, request_id_key}

abbrev pub InFlightRegistry : Type 0
InFlightRegistry = HashMap (String × RequestId) ℕ

-- The guard that `register` returns is the key that its drop removes.
unfoldable pub register :
    String → RequestId → ℕ → InFlightRegistry → InFlightRegistry × (String × RequestId)
register connection id token r = (Maps.insert (connection, id) token r, (connection, id))

unfoldable pub cancel : String → RequestId → InFlightRegistry → Bool × Option ℕ
cancel connection id r = elim (Maps.get (connection, id) r) [
  | none ↦ (false, none)
  | some token ↦ (true, some token)
]

unfoldable pub drop_guard : String × RequestId → InFlightRegistry → InFlightRegistry
drop_guard key r = Maps.remove key r

-- What happens on the registry: a dispatch starts with its token, or ends and drops its guard.
pub data Event : Type 0 where
  started : String → RequestId → ℕ → Event
  ended : String → RequestId → Event

unfoldable pub step : Event → InFlightRegistry → InFlightRegistry
unfolding register drop_guard
step (started c id token) r = (register c id token r).0
step (ended c id) r = drop_guard (c, id) r

unfoldable pub run : List Event → InFlightRegistry → InFlightRegistry
unfolding step
run [] r = r
run (e ∷ es) r = run es (step e r)

-- The token of the latest dispatch of a key, unless a dispatch of that key has ended since: from
-- the history alone.
unfoldable pub current : String → RequestId → Option ℕ → List Event → Option ℕ
current c id found [] = found
current c id found (started c' id' token ∷ es) =
    current c id (if (c' == c) && (id' == id) then some token else found) es
current c id found (ended c' id' ∷ es) =
    current c id (if (c' == c) && (id' == id) then none else found) es

get-run :
    (c : String) (id : RequestId) (es : List Event) (r : InFlightRegistry)
    → Maps.get (c, id) (run es r) ≡ current c id (Maps.get (c, id) r) es
unfolding run step register drop_guard current
get-run c id [] r = refl
get-run c id (started c' id' token ∷ es) r =
    rw (← get-insert (c', id') (c, id) token r) (get-run c id es (Maps.insert (c', id') token r))
get-run c id (ended c' id' ∷ es) r =
    rw (← get-remove (c', id') (c, id) r) (get-run c id es (Maps.remove (c', id') r))

abbrev pub is_some : Option ℕ → Bool
is_some none = false
is_some (some _) = true

-- After any sequence of dispatches that start and end, a cancellation fires the token of the
-- latest dispatch of that connection and request id and reports success, unless there is none or
-- a dispatch of them has ended since: then it fires no token and reports failure.
pub cancel-run :
    (es : List Event) (c : String) (id : RequestId)
    → cancel c id (run es []) ≡ (is_some (current c id none es), current c id none es)
unfolding cancel Maps.get
cancel-run es c id =
    let found : Maps.get (c, id) (run es []) ≡ current c id none es = get-run c id es [] in
    elim (Option-cases (current c id none es)) [
      | inl e ↦ rw (found, cancel) (rw e refl)
      | inr (token, e) ↦ rw (found, cancel) (rw e refl)
    ]

abbrev pub connection_of : Event → String
connection_of (started c _ _) = c
connection_of (ended c _) = c

abbrev pub without : String → List Event → List Event
without c [] = []
without c (e ∷ es) = if connection_of e == c then without c es else e ∷ without c es

current-without :
    (c other : String) (id : RequestId) (found : Option ℕ) (es : List Event)
    → c ≢ other
    → current c id found (without other es) ≡ current c id found es
unfolding current
current-without c other id found [] h = refl
current-without c other id found (started c' id' token ∷ es) h = elim (Bool-cases (c' == other)) [
  | inl same ↦
      let apart : (c' == c) ≡ false =
        ground (arith, string_key.same_iff c' c, string_key.same_iff c' other) in
      rw (same, apart) (current-without c other id found es h)
  | inr differs ↦
      rw differs
        (current-without c other id (if (c' == c) && (id' == id) then some token else found) es h)
]
current-without c other id found (ended c' id' ∷ es) h = elim (Bool-cases (c' == other)) [
  | inl same ↦
      let apart : (c' == c) ≡ false =
        ground (arith, string_key.same_iff c' c, string_key.same_iff c' other) in
      rw (same, apart) (current-without c other id found es h)
  | inr differs ↦
      rw differs
        (current-without c other id (if (c' == c) && (id' == id) then none else found) es h)
]

-- Which token a cancellation of one connection fires does not depend on what another connection
-- did: it is the same when every event of the other connection is left out.
pub cancel-other_connection :
    (es : List Event) (c other : String) (id : RequestId)
    → c ≢ other
    → cancel c id (run es []) ≡ cancel c id (run (without other es) [])
cancel-other_connection es c other id h =
    rw
      (cancel-run es c id, cancel-run (without other es) c id, current-without c other id none es h)
      refl
