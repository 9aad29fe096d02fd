-- ===== src/DraftTasks/Store/Cancel.antt =====
-- `tasks/cancel` and `tasks/get`: what they answer, and what cancelling sets off.
use turbomcp.Prelude.{
  ℕ, ◌≡◌, refl, Bool, true, false, not, String, ◌&&◌, Option, none, some, List, [], ◌∷◌, ◌++◌,
  arith, ◌==◌, string_key, if◌then◌else◌, Option-cases, Bool-cases, inl, inr,
}
use turbomcp.Prelude.HashMap as Maps
use turbomcp.Prelude.HashMap.{get-insert}
use turbomcp.Prelude.HashMap.Laws.{get-insert_self}
use turbomcp.Core.Host.{Host}
use turbomcp.DraftTasks.Wire.{cancelled, is_terminal}
use turbomcp.DraftTasks.Store.{
  Store, Entry, Effect, TaskOutcome, fire, dropped, live, purged, cancel_entry, cancel_task,
  complete,
}

module _ (H : Host) (now : ℕ) (wall : H.Wall) (id : String) (s : Store H) where
  open H use {json}
  open json use {Value, empty}

  -- The entry of a cancelled task.
  abbrev pub cancelled_from : Entry H → Entry H
  cancelled_from e = record e {
    status = cancelled;
    status_message = some "the task was cancelled by request";
    updated_wall = wall;
    inputs = record { outstanding = empty; waiters = []; used = e.inputs.used };
  }

  -- The task under an id afterwards, and the effects beside the purge's.
  abbrev pub CancelSpec : Option (Entry H) → Store H × Bool × List (Effect Value) → Type 0
  CancelSpec none out =
      (out.0.tasks ≡ live H now s.tasks) × (out.1 ≡ false) × (out.2 ≡ purged H now s.tasks)
  CancelSpec (some e) out =
      (out.1 ≡ true)
      × ((j : String)
          → Maps.get j out.0.tasks ≡ (
              if id == j && not (is_terminal e.status)
              then some (cancelled_from e)
              else Maps.get j (live H now s.tasks)))
      × (out.2 ≡ (
          if is_terminal e.status
          then purged H now s.tasks
          else purged H now s.tasks ++ fire e.cancel ∷ dropped H e.inputs.waiters))

  -- `tasks/cancel` purges expired tasks, and then: an unknown task is a miss; a terminal one is
  -- acknowledged and left alone; of any other the token is fired, every waiting handler's sender is
  -- dropped, and the entry becomes cancelled with nothing outstanding. No other task changes.
  pub cancel_task_lem : CancelSpec (Maps.get id (live H now s.tasks)) (cancel_task H now wall id s)
  unfolding cancel_task cancel_entry
  cancel_task_lem = elim (Option-cases (Maps.get id (live H now s.tasks))) [
    | inl missing ↦ rw (missing, cancel_task) (refl, refl, refl)
    | inr (e, found) ↦ elim (Bool-cases (is_terminal e.status)) [
      | inl over ↦ rw (found, cancel_task) (rw over (refl, (λ j. ground arith), refl))
      | inr alive ↦
          rw (found, cancel_task)
            (rw alive (
              refl,
              (λ j. ground (arith, get-insert id j (cancelled_from e) (live H now s.tasks))),
              refl,
            ))
    ]
  ]

  -- A completion that comes after the cancellation of a task that the purge left and that was not
  -- over changes nothing: the cancellation wins the race.
  pub complete-cancel_task :
      (e : Entry H) (outcome : TaskOutcome Value)
      → Maps.get id (live H now s.tasks) ≡ some e
      → is_terminal e.status ≡ false
      → let after = (cancel_task H now wall id s).0 in complete H wall id outcome after ≡ after
  unfolding cancel_task complete is_terminal cancel_entry
  complete-cancel_task e outcome found alive =
      rw (found, cancel_task)
        (ground (arith, alive, get-insert_self id (cancel_entry H wall e) (live H now s.tasks)))
