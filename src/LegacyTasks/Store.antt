-- ===== src/LegacyTasks/Store.antt =====
-- crates/turbomcp-server/src/tasks.rs: the session-scoped task registry. Each operation takes its
-- readings of the monotonic clock (nanoseconds) and of the wall clock, and the task id that the
-- `uuid` crate mints; it returns the new registry, its result, and what it does to shared objects.
pub mod Invariant
pub mod Isolation
pub mod Order
pub mod Paging
pub mod Outcome
use turbomcp.Prelude.{
  ℕ, zero, suc, ◌+◌, ◌-◌, ◌*◌, Bool, true, false, not, ◌&&◌, String, Option, none, some, List, [],
  ◌∷◌, ◌++◌, length, take, drop, map, keep_if, ltb, leb, if◌then◌else◌, ◌==◌, string_key, Result,
  ok, err,
}
use turbomcp.Prelude.HashMap as Maps
use turbomcp.Prelude.HashMap.{HashMap, retain}
use turbomcp.Prelude.Decimal.{to_string, parse}
use turbomcp.Prelude.Int.{ℤ, pos, negsuc, minus, clamp_ℤ, to_unsigned}
use turbomcp.Core.JsonRpc.{JsonRpcError}
use turbomcp.Core.Host.{Host, rfc3339}

pub data TaskStatus : Type 0 where
  working : TaskStatus
  completed : TaskStatus
  failed : TaskStatus
  cancelled : TaskStatus

unfoldable pub is_terminal : TaskStatus → Bool
is_terminal completed = true
is_terminal failed = true
is_terminal cancelled = true
is_terminal working = false

pub record TaskSnapshot : Type 0 where
  pub task_id : String
  pub status : TaskStatus
  pub status_message : Option String
  pub created_at : String
  pub last_updated_at : String
  pub ttl_ms : ℤ

pub data TaskError : Type 0 where
  not_found : TaskError
  already_terminal : TaskError
  capacity_exhausted : TaskError

pub data Effect : Type 0 where
  -- A cancellation token is fired.
  fire : ℕ → Effect
  -- The waiters of a watch channel are woken.
  notify : ℕ → Effect
  -- The sender of a watch channel is dropped, which ends the wait of its waiters.
  close : ℕ → Effect

abbrev pub default_ttl_ms : ℤ
default_ttl_ms = pos 300_000

abbrev pub max_ttl_ms : ℤ
max_ttl_ms = pos 3_600_000

module _ (H : Host) where
  open H use {json, Wall}
  open json use {Value}

  pub record TaskEntry : Type 0 where
    pub session_id : String
    pub status : TaskStatus
    pub status_message : Option String
    pub created_wall : Wall
    pub updated_wall : Wall
    pub created : ℕ
    pub ttl_ms : ℤ
    pub outcome : Option (Result Value (JsonRpcError Value))
    pub cancel : ℕ
    pub notify : ℕ

  pub record TaskStore : Type 0 where
    pub inner : HashMap String TaskEntry
    pub capacity : ℕ

  unfoldable pub expired : ℕ → TaskEntry → Bool
  expired now e = ltb (to_unsigned e.ttl_ms * 1_000_000) (now - e.created)

  unfoldable pub snapshot : String → TaskEntry → TaskSnapshot
  snapshot id e = record {
    task_id = id;
    status = e.status;
    status_message = e.status_message;
    created_at = rfc3339 H e.created_wall;
    last_updated_at = rfc3339 H e.updated_wall;
    ttl_ms = e.ttl_ms;
  }

  -- `purge_expired`: what stays, and what the removed entries set off.
  unfoldable pub live : ℕ → HashMap String TaskEntry → HashMap String TaskEntry
  live now = retain (λ _ e. not (expired now e))

  unfoldable pub purged : ℕ → HashMap String TaskEntry → List Effect
  purged now [] = []
  purged now ((_, e) ∷ m) =
      if expired now e
      then (if is_terminal e.status then [] else fire e.cancel ∷ [])
        ++ close e.notify ∷ purged now m
      else purged now m

  abbrev pub requested : Option ℤ → ℤ
  requested none = default_ttl_ms
  requested (some ms) = ms

  abbrev pub new_entry : String → Option ℤ → ℕ → ℕ → ℕ → Wall → TaskEntry
  new_entry session_id requested_ttl_ms cancel channel created wall = record {
    session_id = session_id;
    status = working;
    status_message = none;
    created_wall = wall;
    updated_wall = wall;
    created = created;
    ttl_ms = clamp_ℤ (requested requested_ttl_ms) (pos 0) max_ttl_ms;
    outcome = none;
    cancel = cancel;
    notify = channel;
  }

  unfoldable pub create :
      ℕ
      → ℕ
      → Wall
      → String
      → ℕ
      → String
      → Option ℤ
      → ℕ
      → TaskStore
      → TaskStore × Result TaskSnapshot TaskError × List Effect
  unfolding snapshot
  create now created wall id channel session_id requested_ttl_ms cancel s =
      let tasks = live now s.inner in
      let e = new_entry session_id requested_ttl_ms cancel channel created wall in
      if leb s.capacity (length tasks)
      then (record s { inner = tasks }, err capacity_exhausted, purged now s.inner)
      else (record s { inner = Maps.insert id e tasks }, ok (snapshot id e), purged now s.inner)

  unfoldable pub settle : Wall → Result Value (JsonRpcError Value) → TaskEntry → TaskEntry
  settle wall (ok v) e = record e { status = completed; outcome = some (ok v); updated_wall = wall }
  settle wall (err x) e = record e {
    status = failed;
    status_message = some x.message;
    outcome = some (err x);
    updated_wall = wall;
  }

  unfoldable pub complete :
      Wall → String → Result Value (JsonRpcError Value) → TaskStore → TaskStore × List Effect
  unfolding settle
  complete wall id outcome s = elim (Maps.get id s.inner) [
    | none ↦ (s, [])
    | some e ↦ if is_terminal e.status then (s, []) else (
      record s { inner = Maps.insert id (settle wall outcome e) s.inner },
      notify e.notify ∷ [],
    )
  ]

  -- The entry under an id, for the session that owns it.
  unfoldable pub owned : String → String → HashMap String TaskEntry → Option TaskEntry
  owned session_id id m = elim (Maps.get id m) [
    | none ↦ none
    | some e ↦ if e.session_id == session_id then some e else none
  ]

  abbrev pub cancelled_error : JsonRpcError Value
  cancelled_error = record { code = minus 32010; message = "task cancelled"; details = none }

  unfoldable pub cancel_entry : Wall → TaskEntry → TaskEntry
  cancel_entry wall e = record e {
    status = cancelled;
    status_message = some "the task was cancelled by request";
    outcome = some (err cancelled_error);
    updated_wall = wall;
  }

  unfoldable pub cancel :
      ℕ
      → Wall
      → String
      → String
      → TaskStore
      → TaskStore × Result TaskSnapshot TaskError × List Effect
  unfolding owned cancel_entry snapshot
  cancel now wall session_id id s =
      let tasks = live now s.inner in
      elim (owned session_id id tasks) [
        | none ↦ (record s { inner = tasks }, err not_found, purged now s.inner)
        | some e ↦
            if is_terminal e.status
            then (record s { inner = tasks }, err already_terminal, purged now s.inner)
            else (
              record s { inner = Maps.insert id (cancel_entry wall e) tasks },
              ok (snapshot id (cancel_entry wall e)),
              purged now s.inner ++ fire e.cancel ∷ notify e.notify ∷ [],
            )
      ]

  unfoldable pub get :
      ℕ → String → String → TaskStore → TaskStore × Result TaskSnapshot TaskError × List Effect
  unfolding owned snapshot
  get now session_id id s =
      let tasks = live now s.inner in
      (
        record s { inner = tasks },
        elim (owned session_id id tasks) [ none ↦ err not_found | some e ↦ ok (snapshot id e) ],
        purged now s.inner,
      )

  -- `sort_by_key(|(_, e)| e.created)`, a stable sort.
  unfoldable pub insert_by_created :
      String × TaskEntry → List (String × TaskEntry) → List (String × TaskEntry)
  insert_by_created x [] = x ∷ []
  insert_by_created (id, e) ((id', e') ∷ xs) =
      if leb e.created e'.created
      then (id, e) ∷ (id', e') ∷ xs
      else (id', e') ∷ insert_by_created (id, e) xs

  unfoldable pub sort_by_created : List (String × TaskEntry) → List (String × TaskEntry)
  unfolding insert_by_created
  sort_by_created [] = []
  sort_by_created (x ∷ xs) = insert_by_created x (sort_by_created xs)

  abbrev pub snapshots : List (String × TaskEntry) → List TaskSnapshot
  snapshots = map (λ (id, e). snapshot id e)

  -- This session's tasks, oldest first.
  unfoldable pub of_session : String → HashMap String TaskEntry → List (String × TaskEntry)
  unfolding sort_by_created
  of_session session_id tasks =
      sort_by_created (keep_if (λ (_, e). e.session_id == session_id) tasks)

  -- The page from an offset, and the cursor of the next one.
  unfoldable pub page_from : ℕ → ℕ → List (String × TaskEntry) → List TaskSnapshot × Option String
  unfolding snapshot
  page_from offset page_size all =
      let page = snapshots (take page_size (drop offset all)) in
      (
        page,
        if ltb (offset + length page) (length all)
            then some (to_string (offset + length page))
            else none,
      )

  abbrev pub offset_of : Option String → Option ℕ
  offset_of none = some 0
  offset_of (some c) = parse c

  unfoldable pub list :
      ℕ
      → String
      → Option String
      → ℕ
      → TaskStore
      → TaskStore × Result (List TaskSnapshot × Option String) TaskError × List Effect
  unfolding of_session page_from
  list now session_id cursor page_size s = elim (offset_of cursor) [
    | none ↦ (s, err not_found, [])
    | some offset ↦
        let tasks = live now s.inner in
        (
          record s { inner = tasks },
          ok (page_from offset page_size (of_session session_id tasks)),
          purged now s.inner,
        )
  ]

  -- How one round of `wait_result` ends: with the outcome, with no such task, or blocked on a
  -- watch channel.
  pub data Round : Type 0 where
    finished : Result Value (JsonRpcError Value) → Round
    missing : Round
    blocked : ℕ → Round

  abbrev pub no_outcome_error : JsonRpcError Value
  no_outcome_error = record {
    code = minus 32603;
    message = "task finished without an outcome";
    details = none;
  }

  abbrev pub outcome_of :
      Option (Result Value (JsonRpcError Value)) → Result Value (JsonRpcError Value)
  outcome_of none = err no_outcome_error
  outcome_of (some r) = r

  unfoldable pub wait_once : ℕ → String → String → TaskStore → TaskStore × Round × List Effect
  unfolding owned
  wait_once now session_id id s =
      let tasks = live now s.inner in
      (
        record s { inner = tasks },
        elim (owned session_id id tasks) [
          | none ↦ missing
          | some e ↦
              if is_terminal e.status then finished (outcome_of e.outcome) else blocked e.notify
        ],
        purged now s.inner,
      )

  -- `wait_result` over the registries that its rounds find, each with the clock and whether the
  -- channel was closed instead of signalled after it; `none` while it still waits.
  unfoldable pub wait_result :
      String
      → String
      → List (ℕ × TaskStore × Bool)
      → Option (Result (Result Value (JsonRpcError Value)) TaskError)
  unfolding wait_once
  wait_result session_id id [] = none
  wait_result session_id id ((now, s, closed) ∷ rounds) =
      let rest = wait_result session_id id rounds in
      elim (wait_once now session_id id s).1 [
        | finished r ↦ some (ok r)
        | missing ↦ some (err not_found)
        | blocked _ ↦ if closed then some (err not_found) else rest
      ]
