-- ===== src/LegacyTasks/Store/Outcome.antt =====
-- `tasks/cancel` on every branch, and what `tasks/result` returns.
use turbomcp.Prelude.{
  ℕ, ◌≡◌, ◌⊎◌, refl, ap, ◌∙◌, true, false, not, String, Option, none, some, List, [], ◌∷◌, ◌++◌,
  if◌then◌else◌, ◌==◌, string_key, same_refl, Result, ok, err, Option-cases, Bool-cases, inl, inr,
}
use turbomcp.Prelude.HashMap.{HashMap, retain, get-retain, get-insert}
use turbomcp.Prelude.HashMap as Maps
use turbomcp.Prelude.HashMap.Laws.{insert-IsDistinct, get-insert_self}
use turbomcp.Prelude.HashMap.Values.{get-AllValues}
use turbomcp.Core.Host.{Host}
use turbomcp.LegacyTasks.Store.{
  TaskStatus, working, completed, failed, cancelled, is_terminal, TaskSnapshot, TaskError,
  not_found, already_terminal, Effect, fire, notify, TaskEntry, TaskStore, expired, live, purged,
  owned, cancel_entry, cancel, cancelled_error, settle, complete, Round, finished, missing, blocked,
  outcome_of, wait_once, snapshot,
}
use turbomcp.LegacyTasks.Store.Invariant.{
  Outcome, OutcomeFits, EntryOk, StoreOk, live-StoreOk, get-owned,
}

module _ (H : Host) where
  open H use {json, Wall}
  open json use {Value}

  -- A task that is over has an outcome.
  over_fits :
      (status : TaskStatus) (outcome : Option (Outcome H))
      → is_terminal status ≡ true
      → OutcomeFits status outcome
      → (r : Outcome H) × (outcome ≡ some r)
  unfolding is_terminal
  over_fits working _ h f = cc
  over_fits completed (some (ok v)) h f = (ok v, refl)
  over_fits failed (some (err x)) h f = (err x, refl)
  over_fits cancelled (some (err x)) h f = (err x, refl)
  over_fits _ _ h f = absurd f

  -- What a session finds under an id once expired tasks are purged.
  abbrev pub found : ℕ → String → String → TaskStore H → Option (TaskEntry H)
  found now session id s = owned H session id (live H now s.inner)

  -- The round of `wait_result` that an entry calls for: its recorded outcome once it is over.
  abbrev pub RoundOf : Option (TaskEntry H) → Round H → Type 0
  RoundOf none r = r ≡ missing
  RoundOf (some e) r =
      ((is_terminal e.status ≡ false) × (r ≡ blocked e.notify))
      ⊎ ((is_terminal e.status ≡ true)
          × ((x : Outcome H) × (e.outcome ≡ some x) × (r ≡ finished x)))

  -- In a registry that satisfies the invariant, a round of `tasks/result` finds no task when the
  -- session has none under the id, blocks on the task's channel while the task works, and
  -- otherwise returns the recorded outcome: the error for a missing outcome is never made up.
  pub wait_once_lem :
      (now : ℕ) (session id : String) (s : TaskStore H)
      → StoreOk H s
      → RoundOf (found now session id s) (wait_once H now session id s).1
  unfolding wait_once
  wait_once_lem now session id s h = elim (Option-cases (found now session id s)) [
    | inl e ↦ rw (e, wait_once) refl
    | inr (x, e) ↦ elim (Bool-cases (is_terminal x.status)) [
      | inr alive ↦ rw (e, wait_once) (rw alive (inl (refl, refl)))
      | inl over ↦
          let there = get-owned H session id x (live H now s.inner) e in
          let sound =
            get-AllValues (EntryOk H) id x (live H now s.inner) (live-StoreOk H now s h).sound
              there in
          let (r, recorded) = over_fits x.status x.outcome over sound.fits in
          rw (e, wait_once)
            (rw over (inr (refl, (r, recorded, ap (λ o. finished (outcome_of H o)) recorded))))
    ]
  ]

  -- What `tasks/cancel` must do with the entry that it finds.
  pub data CancelSpec (now : ℕ) (wall : Wall) (session id : String) (s s' : TaskStore H)
      (answer : Result TaskSnapshot TaskError) (effects : List Effect) : Type 0 where
    refused :
        found now session id s ≡ none
        → answer ≡ err not_found
        → s'.inner ≡ live H now s.inner
        → effects ≡ purged H now s.inner
        → CancelSpec now wall session id s s' answer effects
    over :
        (e : TaskEntry H)
        → found now session id s ≡ some e
        → is_terminal e.status ≡ true
        → answer ≡ err already_terminal
        → s'.inner ≡ live H now s.inner
        → effects ≡ purged H now s.inner
        → CancelSpec now wall session id s s' answer effects
    stopped :
        (e e' : TaskEntry H)
        → found now session id s ≡ some e
        → is_terminal e.status ≡ false
        → answer ≡ ok (snapshot H id e')
        → (e'.status ≡ cancelled) × (e'.outcome ≡ some (err (cancelled_error H)))
        → ((j : String)
            → Maps.get j s'.inner ≡ (if id == j then some e' else Maps.get j (live H now s.inner)))
        → effects ≡ purged H now s.inner ++ fire e.cancel ∷ notify e.notify ∷ []
        → CancelSpec now wall session id s s' answer effects

  -- `tasks/cancel` purges expired tasks, and then: without such a task of the session it reports
  -- not found; a task that is over is left alone and reported as such; a task that works becomes
  -- cancelled with the cancellation error as its outcome, its token is fired, its waiters are
  -- woken, and no other task changes.
  pub cancel_lem :
      (now : ℕ) (wall : Wall) (session id : String) (s : TaskStore H)
      → CancelSpec now wall session id s
          (cancel H now wall session id s).0
          (cancel H now wall session id s).1
          (cancel H now wall session id s).2
  unfolding cancel cancel_entry
  cancel_lem now wall session id s = elim (Option-cases (found now session id s)) [
    | inl e ↦ rw (e, cancel) (refused e refl refl refl)
    | inr (x, e) ↦ elim (Bool-cases (is_terminal x.status)) [
      | inl done ↦ rw (e, cancel) (rw done (over x e done refl refl refl))
      | inr alive ↦
          rw (e, cancel)
            (rw alive (
              stopped x (cancel_entry H wall x) e alive refl (refl, refl)
                (λ j. get-insert id j (cancel_entry H wall x) (live H now s.inner)) refl))
    ]
  ]

  -- What settling a task leaves and what it sets.
  settle_lem :
      (now : ℕ) (wall : Wall) (outcome : Outcome H) (e : TaskEntry H)
      → (is_terminal (settle H wall outcome e).status ≡ true)
        × ((settle H wall outcome e).outcome ≡ some outcome)
        × ((settle H wall outcome e).session_id ≡ e.session_id)
        × (expired H now (settle H wall outcome e) ≡ expired H now e)
  unfolding settle is_terminal expired
  settle_lem now wall (ok v) e = (refl, refl, refl, refl)
  settle_lem now wall (err x) e = (refl, refl, refl, refl)

  -- A client that waits for a task of its session that has not expired, and whose handler then
  -- records an outcome before a cancellation does, gets exactly that outcome in the next round,
  -- if the task has not expired by then.
  pub wait_once-complete :
      (now : ℕ) (wall : Wall) (session id : String) (e : TaskEntry H) (outcome : Outcome H)
      (s : TaskStore H)
      → StoreOk H s
      → Maps.get id s.inner ≡ some e
      → e.session_id ≡ session
      → is_terminal e.status ≡ false
      → expired H now e ≡ false
      → (wait_once H now session id (complete H wall id outcome s).0).1 ≡ finished outcome
  unfolding complete live owned wait_once
  wait_once-complete now wall session id e outcome s h there own alive fresh =
      let e' = settle H wall outcome e in
      let m = Maps.insert id e' s.inner in
      let (settled, recorded, mine, kept) = settle_lem now wall outcome e in
      let completed_store : (complete H wall id outcome s).0 ≡ record s { inner = m } =
        rw (there, complete) (rw alive refl) in
      let at_id : Maps.get id (live H now m) ≡ some e' =
        get-retain (λ _ x. not (expired H now x)) id m (insert-IsDistinct id e' s.inner h.distinct)
        ∙ rw (get-insert_self id e' s.inner) (rw (kept ∙ fresh) refl) in
      let ours : found now session id (record s { inner = m }) ≡ some e' =
        rw (at_id, owned) (rw (ap (λ k. k == session) (mine ∙ own) ∙ same_refl session) refl) in
      rw completed_store
        (rw (ours, wait_once) (rw settled (ap (λ o. finished (outcome_of H o)) recorded)))
