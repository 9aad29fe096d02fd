-- ===== src/DraftTasks/Store.antt =====
-- crates/turbomcp-ext-tasks/src/store.rs: the draft task registry. Each operation takes the
-- clock readings that it makes (monotonic nanoseconds, wall time) and the identifiers that other
-- crates mint (task id, channel), and returns the new registry, its result and its effects on
-- shared objects: cancellation tokens fired, channels answered, senders dropped.
pub mod Keys
pub mod Delivery
pub mod Calls
pub mod Invariant
pub mod Preserved
pub mod Lifecycle
pub mod History
pub mod Requests
pub mod Cancel
pub mod Expiry
use Prim.Native.String
use turbomcp.Prelude.{
  ℕ, zero, suc, ◌+◌, ◌-◌, ◌*◌, Bool, true, false, not, ◌&&◌, String, holds, Option, none, some,
  List, [], ◌∷◌, ◌++◌, length, any, ltb, leb, if◌then◌else◌, ◌==◌, string_key,
}
use turbomcp.Prelude.HashMap.{HashMap, contains_key, retain}
use turbomcp.Prelude.HashMap as Maps
use turbomcp.Prelude.Decimal.{to_string}
use turbomcp.Prelude.Int.{ℤ, pos, negsuc, to_unsigned}
use turbomcp.Core.Json.{Json, is_empty_object}
use turbomcp.Core.JsonRpc.{JsonRpcError}
use turbomcp.Core.Host.{Host, rfc3339}
use turbomcp.DraftTasks.Wire.{
  TaskStatus, working, input_required, completed, failed, cancelled, is_terminal, Task,
  DetailedTask, new_detailed,
}

pub data TaskOutcome (Value : Type 0) : Type 0 where
  completed_with : Value → TaskOutcome Value
  failed_with : JsonRpcError Value → TaskOutcome Value

pub data Effect (Value : Type 0) : Type 0 where
  -- A cancellation token is fired.
  fire : ℕ → Effect Value
  -- A value is sent on a one-shot channel.
  send : ℕ → Value → Effect Value
  -- The sender of a channel is dropped, which fails its receiver.
  drop_sender : ℕ → Effect Value

-- `Duration::from_millis`, in nanoseconds.
abbrev pub from_millis : ℕ → ℕ
from_millis ms = ms * 1_000_000

abbrev pub is_zero : ℤ → Bool
is_zero (pos zero) = true
is_zero _ = false

-- `format!("{key}#{n}")`.
abbrev pub numbered : String → ℕ → String
numbered key n = String.◌++◌ key (String.◌++◌ "#" (to_string n))

-- The loop of `publish_input` that makes a key unique, with fuel; `none` means that it ran out.
unfoldable pub uniquify : ℕ → List String → String → ℕ → String → Option String
uniquify zero used key n unique = none
uniquify (suc fuel) used key n unique =
    let rest = uniquify fuel used key (n + 1) (numbered key (n + 1)) in
    if holds used unique then rest else some unique

module _ (H : Host) where
  open H use {json, Wall, error_value}
  open json use {Value, Object, empty, get, insert, remove, entries}

  pub record Inputs : Type 0 where
    pub outstanding : Object
    pub waiters : HashMap String ℕ
    pub used : List String

  abbrev pub no_inputs : Inputs
  no_inputs = record { outstanding = empty; waiters = []; used = [] }

  pub record Entry : Type 0 where
    pub status : TaskStatus
    pub status_message : Option String
    pub created_wall : Wall
    pub updated_wall : Wall
    pub created : ℕ
    pub ttl_ms : Option ℤ
    pub poll_interval_ms : Option ℤ
    pub outcome : Option (TaskOutcome Value)
    pub cancel : ℕ
    pub inputs : Inputs

  pub record Store : Type 0 where
    pub tasks : HashMap String Entry
    pub capacity : ℕ

  unfoldable pub expired : ℕ → Entry → Bool
  expired now e = elim e.ttl_ms [
    | none ↦ false
    | some ms ↦ if is_zero ms then false else ltb (from_millis (to_unsigned ms)) (now - e.created)
  ]

  unfoldable pub base : String → Entry → Task
  base id e = record {
    task_id = id;
    status = e.status;
    status_message = e.status_message;
    created_at = rfc3339 H e.created_wall;
    last_updated_at = rfc3339 H e.updated_wall;
    ttl_ms = e.ttl_ms;
    poll_interval_ms = e.poll_interval_ms;
  }

  -- `tasks/get` shows the outstanding requests of a task that waits for input.
  abbrev pub shown_requests : TaskStatus → Object → Option Object
  shown_requests input_required o = some o
  shown_requests _ o = none

  abbrev pub with_outcome : Option (TaskOutcome Value) → DetailedTask json → DetailedTask json
  with_outcome none d = d
  with_outcome (some (completed_with v)) d = record d { result = some v }
  with_outcome (some (failed_with err)) d = record d { error = error_value err }

  unfoldable pub detailed : String → Entry → DetailedTask json
  unfolding base
  detailed id e =
      let d = new_detailed json (base id e) in
      with_outcome e.outcome
        (record d { input_requests = shown_requests e.status e.inputs.outstanding })

  -- Clearing or dropping a map of senders drops each of them.
  unfoldable pub dropped : HashMap String ℕ → List (Effect Value)
  dropped [] = []
  dropped ((_, chan) ∷ m) = drop_sender chan ∷ dropped m

  abbrev pub fired_if_live : Entry → List (Effect Value)
  fired_if_live e = if is_terminal e.status then [] else fire e.cancel ∷ []

  -- `purge_expired`: what stays, and what the removed entries set off.
  unfoldable pub live : ℕ → HashMap String Entry → HashMap String Entry
  live now = retain (λ _ e. not (expired now e))

  unfoldable pub purged : ℕ → HashMap String Entry → List (Effect Value)
  purged now [] = []
  purged now ((_, e) ∷ m) =
      if expired now e
      then fired_if_live e ++ dropped e.inputs.waiters ++ purged now m
      else purged now m

  abbrev pub new_entry : Option ℤ → Option ℤ → ℕ → ℕ → Wall → Entry
  new_entry ttl_ms poll_interval_ms cancel created wall = record {
    status = working;
    status_message = none;
    created_wall = wall;
    updated_wall = wall;
    created = created;
    ttl_ms = ttl_ms;
    poll_interval_ms = poll_interval_ms;
    outcome = none;
    cancel = cancel;
    inputs = no_inputs;
  }

  unfoldable pub create :
      ℕ
      → ℕ
      → Wall
      → String
      → Option ℤ
      → Option ℤ
      → ℕ
      → Store
      → Store × Option Task × List (Effect Value)
  unfolding base
  create now created wall id ttl_ms poll_interval_ms cancel s =
      let tasks = live now s.tasks in
      let e = new_entry ttl_ms poll_interval_ms cancel created wall in
      if leb s.capacity (length tasks)
      then (record s { tasks = tasks }, none, purged now s.tasks)
      else (record s { tasks = Maps.insert id e tasks }, some (base id e), purged now s.tasks)

  unfoldable pub settle : Wall → TaskOutcome Value → Entry → Entry
  settle wall (completed_with v) e = record e {
    status = completed;
    outcome = some (completed_with v);
    updated_wall = wall;
  }
  settle wall (failed_with err) e = record e {
    status = failed;
    status_message = some err.message;
    outcome = some (failed_with err);
    updated_wall = wall;
  }

  unfoldable pub complete : Wall → String → TaskOutcome Value → Store → Store
  unfolding settle
  complete wall id outcome s = elim (Maps.get id s.tasks) [
    | none ↦ s
    | some e ↦
        if is_terminal e.status
        then s
        else record s { tasks = Maps.insert id (settle wall outcome e) s.tasks }
  ]

  unfoldable pub get_task :
      ℕ → String → Store → Store × Option (DetailedTask json) × List (Effect Value)
  unfolding detailed
  get_task now id s =
      let tasks = live now s.tasks in
      (
        record s { tasks = tasks },
        elim (Maps.get id tasks) [ none ↦ none | some e ↦ some (detailed id e) ],
        purged now s.tasks,
      )

  unfoldable pub cancel_entry : Wall → Entry → Entry
  cancel_entry wall e = record e {
    status = cancelled;
    status_message = some "the task was cancelled by request";
    updated_wall = wall;
    inputs = record { outstanding = empty; waiters = []; used = e.inputs.used };
  }

  unfoldable pub cancel_task : ℕ → Wall → String → Store → Store × Bool × List (Effect Value)
  unfolding cancel_entry
  cancel_task now wall id s =
      let tasks = live now s.tasks in
      elim (Maps.get id tasks) [
        | none ↦ (record s { tasks = tasks }, false, purged now s.tasks)
        | some e ↦
            if is_terminal e.status
            then (record s { tasks = tasks }, true, purged now s.tasks)
            else (
              record s { tasks = Maps.insert id (cancel_entry wall e) tasks },
              true,
              purged now s.tasks ++ fire e.cancel ∷ dropped e.inputs.waiters,
            )
      ]

  -- `publish_input` on the entry, once its key is unique.
  unfoldable pub ask : Wall → String → Value → ℕ → Entry → Entry
  ask wall unique request chan e =
      let inputs : Inputs = record {
        outstanding = insert unique request e.inputs.outstanding;
        waiters = Maps.insert unique chan e.inputs.waiters;
        used = unique ∷ e.inputs.used;
      } in
      elim e.status [
        | working ↦ record e { status = input_required; updated_wall = wall; inputs = inputs }
        | _ ↦ record e { inputs = inputs }
      ]

  -- One round more than there are used keys is enough for the loop.
  unfoldable pub unique_key : String → Inputs → Option String
  unfolding uniquify
  unique_key key i = uniquify (suc (length i.used)) i.used key 1 key

  unfoldable pub publish_input :
      ℕ → Wall → String → String → Value → ℕ → Store → Store × Option ℕ × List (Effect Value)
  unfolding ask unique_key
  publish_input now wall id key request chan s =
      let tasks = live now s.tasks in
      let refused : Store × Option ℕ × List (Effect Value) =
        (record s { tasks = tasks }, none, purged now s.tasks) in
      elim (Maps.get id tasks) [
        | none ↦ refused
        | some e ↦ if is_terminal e.status then refused else elim (unique_key key e.inputs) [
          | none ↦ refused
          | some unique ↦ (
            record s { tasks = Maps.insert id (ask wall unique request chan e) tasks },
            some chan,
            purged now s.tasks,
          )
        ]
      ]

  unfoldable pub deliver_one : String → Value → Inputs → Inputs × List (Effect Value)
  deliver_one key value i = elim (get key i.outstanding) [
    | none ↦ (i, [])
    | some _ ↦ elim (Maps.get key i.waiters) [
      | none ↦ (i, [])
      | some chan ↦ (
        record i { outstanding = remove key i.outstanding; waiters = Maps.remove key i.waiters },
        send chan value ∷ [],
      )
    ]
  ]

  unfoldable pub deliver_all : HashMap String Value → Inputs → Inputs × List (Effect Value)
  unfolding deliver_one
  deliver_all [] i = (i, [])
  deliver_all ((key, value) ∷ rest) i =
      let (i', sent) = deliver_one key value i in
      let (i'', more) = deliver_all rest i' in (i'', sent ++ more)

  -- A task drained of its requests works again.
  unfoldable pub resume : Wall → Inputs → Entry → Entry × Bool
  resume wall i e = elim e.status [
    | input_required ↦
        if is_empty_object json i.outstanding
        then (record e { status = working; updated_wall = wall; inputs = i }, true)
        else (record e { inputs = i }, false)
    | _ ↦ (record e { inputs = i }, false)
  ]

  unfoldable pub deliver_inputs :
      ℕ → Wall → String → Object → Store → Store × Option Bool × List (Effect Value)
  unfolding deliver_all resume
  deliver_inputs now wall id responses s =
      let tasks = live now s.tasks in
      elim (Maps.get id tasks) [
        | none ↦ (record s { tasks = tasks }, none, purged now s.tasks)
        | some e ↦
            let (i, sent) = deliver_all (entries responses) e.inputs in
            let (e', changed) = resume wall i e in
            (record s { tasks = Maps.insert id e' tasks }, some changed, purged now s.tasks ++ sent)
      ]
