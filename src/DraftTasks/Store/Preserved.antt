-- ===== src/DraftTasks/Store/Preserved.antt =====
-- Every call of the registry keeps its invariant, in any history.
use turbomcp.Prelude.{
  ℕ, ◌≡◌, not, String, Option, some, List, [], ◌∷◌, length, leb, arith, string_key, Option-cases,
  Bool-cases, inl, inr,
}
use turbomcp.Prelude.Int.{ℤ}
use turbomcp.Prelude.HashMap.{HashMap, IsDistinct, length-retain-le}
use turbomcp.Prelude.HashMap as Maps
use turbomcp.Prelude.HashMap.Laws.{insert-IsDistinct, retain-IsDistinct, length-insert}
use turbomcp.Prelude.HashMap.Values.{insert-AllValues, retain-AllValues, get-AllValues}
use turbomcp.Core.Host.{Host}
use turbomcp.DraftTasks.Wire.{is_terminal}
use turbomcp.DraftTasks.Store.{
  Store, Entry, TaskOutcome, live, expired, new_entry, create, complete, get_task, cancel_task,
  publish_input, deliver_inputs, unique_key,
}
use turbomcp.DraftTasks.Store.Calls.{
  Call, creates, completes, gets, cancels, publishes, delivers, Stamp, step, run,
}
use turbomcp.DraftTasks.Store.Invariant.{
  EntryOk, StoreOk, new_entry-EntryOk, settle-EntryOk, cancel_entry-EntryOk, ask-EntryOk,
  delivered-EntryOk,
}

module _ (H : Host) where
  open H use {json, Wall}
  open json use {Value, Object, entries}

  pub live-StoreOk :
      (now : ℕ) (s : Store H) → StoreOk H s → StoreOk H (record s { tasks = live H now s.tasks })
  unfolding live
  live-StoreOk now s ok = record {
    distinct = retain-IsDistinct _ s.tasks ok.distinct;
    bounded = omega (arith, length-retain-le (λ _ e. not (expired H now e)) s.tasks, ok.bounded);
    sound = retain-AllValues (EntryOk H) _ s.tasks ok.sound;
  }

  put_back-StoreOk :
      (id : String) (e e' : Entry H) (s : Store H)
      → StoreOk H s
      → Maps.get id s.tasks ≡ some e
      → EntryOk H e'
      → StoreOk H (record s { tasks = Maps.insert id e' s.tasks })
  put_back-StoreOk id e e' s ok found good = record {
    distinct = insert-IsDistinct id e' s.tasks ok.distinct;
    bounded = ground (arith, length-insert id e' s.tasks, ok.bounded);
    sound = insert-AllValues (EntryOk H) id e' s.tasks good ok.sound;
  }

  create-StoreOk :
      (now created : ℕ) (wall : Wall) (id : String) (ttl poll : Option ℤ) (token : ℕ) (s : Store H)
      → StoreOk H s
      → StoreOk H (create H now created wall id ttl poll token s).0
  unfolding create
  create-StoreOk now created wall id ttl poll token s ok =
      let kept = live-StoreOk now s ok in
      elim (Bool-cases (leb s.capacity (length (live H now s.tasks)))) [
        | inl full ↦ rw full kept
        | inr room ↦ rw room (record {
          distinct = insert-IsDistinct id _ _ kept.distinct;
          bounded = ground (
            arith,
            length-insert id (new_entry H ttl poll token created wall) (live H now s.tasks),
          );
          sound =
              insert-AllValues (EntryOk H) id _ _ (new_entry-EntryOk H ttl poll token created wall)
                kept.sound;
        })
      ]

  complete-StoreOk :
      (wall : Wall) (id : String) (outcome : TaskOutcome Value) (s : Store H)
      → StoreOk H s
      → StoreOk H (complete H wall id outcome s)
  unfolding complete
  complete-StoreOk wall id outcome s ok = elim (Option-cases (Maps.get id s.tasks)) [
    | inl missing ↦ rw (missing, complete) ok
    | inr (e, found) ↦ elim (Bool-cases (is_terminal e.status)) [
      | inl over ↦ rw (found, complete) (rw over ok)
      | inr alive ↦
          rw (found, complete)
            (rw alive (
              put_back-StoreOk id e _ s ok found (
                settle-EntryOk H wall outcome e
                  (get-AllValues (EntryOk H) id e s.tasks ok.sound found))))
    ]
  ]

  cancel_task-StoreOk :
      (now : ℕ) (wall : Wall) (id : String) (s : Store H)
      → StoreOk H s
      → StoreOk H (cancel_task H now wall id s).0
  unfolding cancel_task
  cancel_task-StoreOk now wall id s ok =
      let kept = live-StoreOk now s ok in
      elim (Option-cases (Maps.get id (live H now s.tasks))) [
        | inl missing ↦ rw (missing, cancel_task) kept
        | inr (e, found) ↦ elim (Bool-cases (is_terminal e.status)) [
          | inl over ↦ rw (found, cancel_task) (rw over kept)
          | inr alive ↦
              rw (found, cancel_task)
                (rw alive (
                  put_back-StoreOk id e _ _ kept found (
                    cancel_entry-EntryOk H wall e alive
                      (get-AllValues (EntryOk H) id e _ kept.sound found))))
        ]
      ]

  publish_input-StoreOk :
      (now : ℕ) (wall : Wall) (id key : String) (request : Value) (chan : ℕ) (s : Store H)
      → StoreOk H s
      → StoreOk H (publish_input H now wall id key request chan s).0
  unfolding publish_input
  publish_input-StoreOk now wall id key request chan s ok =
      let kept = live-StoreOk now s ok in
      elim (Option-cases (Maps.get id (live H now s.tasks))) [
        | inl missing ↦ rw (missing, publish_input) kept
        | inr (e, found) ↦ elim (Bool-cases (is_terminal e.status)) [
          | inl over ↦ rw (found, publish_input) (rw over kept)
          | inr alive ↦ elim (Option-cases (unique_key H key e.inputs)) [
            | inl spent ↦ rw (found, publish_input) (rw (alive, spent) kept)
            | inr (unique, fresh) ↦
                rw (found, publish_input)
                  (rw (alive, fresh)
                    (put_back-StoreOk id e _ _ kept found (
                      ask-EntryOk H wall unique request chan e alive
                        (get-AllValues (EntryOk H) id e _ kept.sound found))))
          ]
        ]
      ]

  deliver_inputs-StoreOk :
      (now : ℕ) (wall : Wall) (id : String) (responses : Object) (s : Store H)
      → StoreOk H s
      → StoreOk H (deliver_inputs H now wall id responses s).0
  unfolding deliver_inputs
  deliver_inputs-StoreOk now wall id responses s ok =
      let kept = live-StoreOk now s ok in
      elim (Option-cases (Maps.get id (live H now s.tasks))) [
        | inl missing ↦ rw (missing, deliver_inputs) kept
        | inr (e, found) ↦
            rw (found, deliver_inputs)
              (put_back-StoreOk id e _ _ kept found (
                delivered-EntryOk H wall (entries responses) e
                  (get-AllValues (EntryOk H) id e _ kept.sound found)))
      ]

  -- Every call keeps the registry within its capacity, with one entry to a task id, and each entry
  -- consistent: its outcome fits its status, its waiters and outstanding requests stand under the
  -- same issued keys, and it waits for input exactly while it has outstanding requests.
  pub step-StoreOk :
      (t : Stamp H) (c : Call H) (s : Store H) → StoreOk H s → StoreOk H (step H t c s)
  unfolding step get_task
  step-StoreOk t (creates id ttl poll token) s ok =
      create-StoreOk t.now t.created t.wall id ttl poll token s ok
  step-StoreOk t (completes id outcome) s ok = complete-StoreOk t.wall id outcome s ok
  step-StoreOk t (gets id) s ok = live-StoreOk t.now s ok
  step-StoreOk t (cancels id) s ok = cancel_task-StoreOk t.now t.wall id s ok
  step-StoreOk t (publishes id key request chan) s ok =
      publish_input-StoreOk t.now t.wall id key request chan s ok
  step-StoreOk t (delivers id responses) s ok =
      deliver_inputs-StoreOk t.now t.wall id responses s ok

  -- After any history of calls on an empty registry, at any clocks: the ids are distinct, the
  -- registry is within its capacity, and of every task the outstanding requests are those with a
  -- waiter, under keys that it used, the outcome is the one that its status announces, and it waits
  -- for input exactly when, not over, it has outstanding requests.
  pub run-StoreOk :
      (capacity : ℕ) (cs : List (Stamp H × Call H))
      → StoreOk H (run H cs (record { tasks = []; capacity = capacity }))
  unfolding run
  run-StoreOk capacity cs = go cs _ (record { distinct = tt; bounded = omega arith; sound = tt })
    where
      go : (cs : List (Stamp H × Call H)) (s : Store H) → StoreOk H s → StoreOk H (run H cs s)
      go [] s ok = ok
      go ((t, c) ∷ cs) s ok = go cs (step H t c s) (step-StoreOk t c s ok)
