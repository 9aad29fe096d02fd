-- ===== src/DraftTasks/Store/History.antt =====
-- What becomes of a task's entry in a call and in any history of calls.
use turbomcp.Prelude.{
  ℕ, ◌≡◌, ◌≢◌, refl, ◌∙◌, true, false, not, String, Option, none, some, List, [], ◌∷◌, length, leb,
  arith, ◌==◌, string_key, if◌then◌else◌, Option-cases, Bool-cases, inl, inr, All,
}
use turbomcp.Prelude.Int.{ℤ}
use turbomcp.Prelude.HashMap.{HashMap, IsDistinct, get-insert, get-retain}
use turbomcp.Prelude.HashMap as Maps
use turbomcp.Core.Host.{Host}
use turbomcp.DraftTasks.Wire.{is_terminal}
use turbomcp.DraftTasks.Store.{
  Store, Entry, TaskOutcome, live, expired, create, complete, get_task, cancel_task, publish_input,
  deliver_inputs, unique_key, new_entry,
}
use turbomcp.DraftTasks.Store.Calls.{
  Call, creates, completes, gets, cancels, publishes, delivers, Stamp, step, run,
}
use turbomcp.DraftTasks.Store.Invariant.{StoreOk}
use turbomcp.DraftTasks.Store.Preserved.{step-StoreOk}
use turbomcp.DraftTasks.Store.Lifecycle.{
  Evolved, SameOutcome, Fate, unchanged, settle-Evolved, cancel_entry-Evolved, ask-Evolved,
  used-deliver_all, resume-Evolved,
}

module _ (H : Host) where
  open H use {json, Wall}
  open json use {Value, Object, entries}

  pub get-live :
      (now : ℕ) (id : String) (s : Store H)
      → StoreOk H s
      → Maps.get id (live H now s.tasks) ≡ elim (Maps.get id s.tasks) [
        | none ↦ none
        | some e ↦ if not (expired H now e) then some e else none
      ]
  unfolding live
  get-live now id s ok = get-retain _ id s.tasks ok.distinct

  live-Fate :
      (now : ℕ) (t : String) (e : Entry H) (s : Store H)
      → StoreOk H s
      → Maps.get t s.tasks ≡ some e
      → Fate H now e (Maps.get t (live H now s.tasks))
  live-Fate now t e s ok here =
      rw (get-live now t s ok, here)
        (elim (Bool-cases (expired H now e)) [
          | inl gone ↦ rw gone gone
          | inr kept ↦ rw kept (unchanged H e)
        ])

  -- An operation that rewrites the entry `id` of a map.
  put-Fate :
      (now : ℕ) (t id : String) (e e₀ e' : Entry H) (m : HashMap String (Entry H))
      → Fate H now e (Maps.get t m)
      → (Maps.get t m ≡ some e₀ → e₀ ≡ e)
      → Maps.get id m ≡ some e₀
      → Evolved H e₀ e'
      → Fate H now e (Maps.get t (Maps.insert id e' m))
  put-Fate now t id e e₀ e' m fate as_was found ev =
      rw (get-insert id t e' m) (elim (Bool-cases (id == t)) [
        | inr other ↦ rw other fate
        | inl same ↦
            let e₀_is_e : e₀ ≡ e = as_was (ground (arith, string_key.same_iff id t)) in
            rw same (rw (← e₀_is_e) ev)
      ])

  -- Another task's id, as `uuid` mints it.
  abbrev pub MintsOther : String → Call H → Type 0
  MintsOther id (creates new _ _ _) = new ≢ id
  MintsOther id _ = Unit

  module _ (t : Stamp H) (id : String) (e : Entry H) (s : Store H) (ok : StoreOk H s)
      (here : Maps.get id s.tasks ≡ some e) where
    kept : Fate H t.now e (Maps.get id (live H t.now s.tasks))
    kept = live-Fate t.now id e s ok here

    rewritten :
        (other : String) (o o' : Entry H)
        → Maps.get other (live H t.now s.tasks) ≡ some o
        → Evolved H o o'
        → Fate H t.now e (Maps.get id (Maps.insert other o' (live H t.now s.tasks)))
    rewritten other o o' found ev =
        put-Fate t.now id other e o o' (live H t.now s.tasks) kept
          (λ p. ground (arith, get-live t.now id s ok)) found ev

    create-Fate :
        (new : String) (ttl poll : Option ℤ) (token : ℕ)
        → new ≢ id
        → Fate H t.now e
            (Maps.get id (create H t.now t.created t.wall new ttl poll token s).0.tasks)
    unfolding create
    create-Fate new ttl poll token other =
        elim (Bool-cases (leb s.capacity (length (live H t.now s.tasks)))) [
          | inl full ↦ rw full kept
          | inr room ↦ rw room (
              rw
                (
                  get-insert new id (new_entry H ttl poll token t.created t.wall)
                      (live H t.now s.tasks),
                  apart,
                )
                kept)
        ]
      where
        apart : (new == id) ≡ false
        apart = ground (arith, string_key.same_iff new id)

    complete-Fate :
        (other : String) (outcome : TaskOutcome Value)
        → Fate H t.now e (Maps.get id (complete H t.wall other outcome s).tasks)
    unfolding complete
    complete-Fate other outcome = elim (Option-cases (Maps.get other s.tasks)) [
      | inl missing ↦ rw (missing, complete) (rw here (unchanged H e))
      | inr (o, found) ↦ elim (Bool-cases (is_terminal o.status)) [
        | inl over ↦ rw (found, complete) (rw over (rw here (unchanged H e)))
        | inr alive ↦
            rw (found, complete)
              (rw alive (
                put-Fate t.now id other e o _ s.tasks (rw here (unchanged H e)) (λ p. ground arith)
                  found (settle-Evolved H t.wall outcome o alive)))
      ]
    ]

    cancel-Fate :
        (other : String) → Fate H t.now e (Maps.get id (cancel_task H t.now t.wall other s).0.tasks)
    unfolding cancel_task
    cancel-Fate other = elim (Option-cases (Maps.get other (live H t.now s.tasks))) [
      | inl missing ↦ rw (missing, cancel_task) kept
      | inr (o, found) ↦ elim (Bool-cases (is_terminal o.status)) [
        | inl over ↦ rw (found, cancel_task) (rw over kept)
        | inr alive ↦
            rw (found, cancel_task)
              (rw alive (rewritten other o _ found (cancel_entry-Evolved H t.wall o alive)))
      ]
    ]

    publish-Fate :
        (other key : String) (request : Value) (chan : ℕ)
        → Fate H t.now e
            (Maps.get id (publish_input H t.now t.wall other key request chan s).0.tasks)
    unfolding publish_input
    publish-Fate other key request chan =
        elim (Option-cases (Maps.get other (live H t.now s.tasks))) [
          | inl missing ↦ rw (missing, publish_input) kept
          | inr (o, found) ↦ elim (Bool-cases (is_terminal o.status)) [
            | inl over ↦ rw (found, publish_input) (rw over kept)
            | inr alive ↦ elim (Option-cases (unique_key H key o.inputs)) [
              | inl spent ↦ rw (found, publish_input) (rw (alive, spent) kept)
              | inr (unique, fresh) ↦
                  rw (found, publish_input)
                    (rw (alive, fresh)
                      (rewritten other o _ found
                        (ask-Evolved H t.wall unique request chan o alive)))
            ]
          ]
        ]

    deliver-Fate :
        (other : String) (responses : Object)
        → Fate H t.now e (Maps.get id (deliver_inputs H t.now t.wall other responses s).0.tasks)
    unfolding deliver_inputs
    deliver-Fate other responses = elim (Option-cases (Maps.get other (live H t.now s.tasks))) [
      | inl missing ↦ rw (missing, deliver_inputs) kept
      | inr (o, found) ↦
          rw (found, deliver_inputs)
            (rewritten other o _ found
              (resume-Evolved H t.wall _ o (used-deliver_all H (entries responses) o.inputs)))
    ]

    -- In one call on a registry that satisfies the invariant, which gives no other task the id, a
    -- task is purged only when it has expired; otherwise its status moves along the
    -- status graph, a terminal status keeps its outcome, message and time, no issued key is
    -- forgotten, and creation time, time to live and cancellation token stay.
    pub step-Fate :
        (c : Call H) → MintsOther id c → Fate H t.now e (Maps.get id (step H t c s).tasks)
    unfolding step get_task
    step-Fate (creates new ttl poll token) other = create-Fate new ttl poll token other
    step-Fate (completes other outcome) _ = complete-Fate other outcome
    step-Fate (gets other) _ = kept
    step-Fate (cancels other) _ = cancel-Fate other
    step-Fate (publishes other key request chan) _ = publish-Fate other key request chan
    step-Fate (delivers other responses) _ = deliver-Fate other responses

  -- The task is gone, or its outcome is still the one of the entry.
  abbrev pub StillFinal : Entry H → Option (Entry H) → Type 0
  StillFinal e none = Unit
  StillFinal e (some e') = SameOutcome H e e'

  same_trans :
      (e e' e'' : Entry H) → SameOutcome H e e' → SameOutcome H e' e'' → SameOutcome H e e''
  same_trans e e' e'' p q = record {
    status = q.status ∙ p.status;
    status_message = q.status_message ∙ p.status_message;
    outcome = q.outcome ∙ p.outcome;
    updated_wall = q.updated_wall ∙ p.updated_wall;
  }

  module _ (t : Stamp H) (id : String) (s : Store H) (ok : StoreOk H s)
      (gone : Maps.get id s.tasks ≡ none) where
    gone_live : Maps.get id (live H t.now s.tasks) ≡ none
    gone_live = ground (arith, get-live t.now id s ok)

    gone_put :
        (other : String) (o o' : Entry H) (m : HashMap String (Entry H))
        → Maps.get id m ≡ none
        → Maps.get other m ≡ some o
        → Maps.get id (Maps.insert other o' m) ≡ none
    gone_put other o o' m none_here found =
        ground (arith, get-insert other id o' m, string_key.same_iff other id)

    gone_stays : (c : Call H) → MintsOther id c → Maps.get id (step H t c s).tasks ≡ none
    unfolding step create complete get_task cancel_task publish_input deliver_inputs
    gone_stays (creates new ttl poll token) other = ground (
      arith,
      gone_live,
      get-insert new id (new_entry H ttl poll token t.created t.wall) (live H t.now s.tasks),
      string_key.same_iff new id,
    )
    gone_stays (completes other outcome) _ = grind (arith, gone_put other, gone)
    gone_stays (gets other) _ = gone_live
    gone_stays (cancels other) _ = grind (arith, gone_put other, gone_live)
    gone_stays (publishes other key request chan) _ = grind (arith, gone_put other, gone_live)
    gone_stays (delivers other responses) _ = grind (arith, gone_put other, gone_live)

  still_gone :
      (cs : List (Stamp H × Call H)) (id : String) (s : Store H)
      → StoreOk H s
      → Maps.get id s.tasks ≡ none
      → All (λ p. MintsOther id p.1) cs
      → Maps.get id (run H cs s).tasks ≡ none
  unfolding run
  still_gone [] id s ok gone others = gone
  still_gone ((t, c) ∷ cs) id s ok gone others =
      still_gone cs id (step H t c s) (step-StoreOk H t c s ok)
        (gone_stays t id s ok gone c others.0) others.1

  later :
      (e e' : Entry H)
      → SameOutcome H e e'
      → (o : Option (Entry H)) → StillFinal e' o
      → StillFinal e o
  later e e' same none h = tt
  later e e' same (some e'') h = same_trans e e' e'' same h

  -- From a registry that satisfies the invariant, a task that has reached a terminal status keeps its status, outcome, message and update time
  -- through every history of calls in which no other task is given its id, until it is purged.
  pub run_final :
      (cs : List (Stamp H × Call H)) (id : String) (e : Entry H) (s : Store H)
      → StoreOk H s
      → Maps.get id s.tasks ≡ some e
      → is_terminal e.status ≡ true
      → All (λ p. MintsOther id p.1) cs
      → StillFinal e (Maps.get id (run H cs s).tasks)
  unfolding run
  run_final [] id e s ok here over others =
      rw here (record { status = refl; status_message = refl; outcome = refl; updated_wall = refl })
  run_final ((t, c) ∷ cs) id e s ok here over others =
      elim (Option-cases (Maps.get id (step H t c s).tasks)) [
        | inl gone ↦ rw (still_gone cs id _ (step-StoreOk H t c s ok) gone others.1) tt
        | inr (e', there) ↦
            let ev : Evolved H e e' = rw there at (step-Fate t id e s ok here c others.0) in
            let same = ev.final over in
            later e e' same (Maps.get id (run H cs (step H t c s)).tasks) (
              run_final cs id e' (step H t c s) (step-StoreOk H t c s ok) there
                (rw same.status over) others.1)
      ]
