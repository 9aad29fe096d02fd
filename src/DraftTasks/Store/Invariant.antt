-- ===== src/DraftTasks/Store/Invariant.antt =====
-- The registry's invariant, and that every operation keeps it.
use turbomcp.Prelude.{
  ℕ, ◌≤◌, ◌≡◌, ◌≢◌, ◌⊎◌, refl, true, false, String, Option, none, some, List, [], ◌∷◌, length,
  arith, string_key, same_refl, Bool-cases, inl, inr,
}
use turbomcp.Prelude.HashMap.{HashMap, IsDistinct, get-insert, length-retain-le}
use turbomcp.Prelude.HashMap as Maps
use turbomcp.Prelude.HashMap.Values.{AllValues}
use turbomcp.Core.Json.{is_empty_object}
use turbomcp.Prelude.Int.{ℤ}
use turbomcp.Core.Host.{Host}
use turbomcp.DraftTasks.Wire.{
  TaskStatus, working, input_required, completed, failed, cancelled, is_terminal,
}
use turbomcp.DraftTasks.Store.{
  Store, Entry, Inputs, TaskOutcome, completed_with, failed_with, live, new_entry, settle,
  cancel_entry, ask, deliver_all, resume,
}
use turbomcp.DraftTasks.Store.Delivery.{
  InputsOk, is_empty_of_none, get_of_is_empty, deliver_all-InputsOk, outstanding-deliver_all,
}

-- The recorded outcome is the one that the status announces.
abbrev pub OutcomeFits : {V : Type 0} → TaskStatus → Option (TaskOutcome V) → Type 0
OutcomeFits completed (some (completed_with _)) = Unit
OutcomeFits failed (some (failed_with _)) = Unit
OutcomeFits working none = Unit
OutcomeFits input_required none = Unit
OutcomeFits cancelled none = Unit
OutcomeFits _ _ = ⊥

pub TaskStatus-discrete : Discrete TaskStatus
TaskStatus-discrete = hlevel

-- A task that is not over has no outcome.
pending :
    {V : Type 0} (status : TaskStatus) (outcome : Option (TaskOutcome V))
    → is_terminal status ≡ false
    → OutcomeFits status outcome
    → outcome ≡ none
unfolding is_terminal
pending working none h f = refl
pending input_required none h f = refl
pending completed _ h f = cc
pending failed _ h f = cc
pending cancelled _ h f = cc
pending _ _ h f = elim f [ ]

pub status_cases :
    (status : TaskStatus)
    → is_terminal status ≡ false
    → (status ≡ working) ⊎ (status ≡ input_required)
unfolding is_terminal
status_cases s h = ground arith

module _ (H : Host) where
  open H use {json, Wall}
  open json use {Value, Object, get, insert, entries}

  pub record EntryOk (e : Entry H) : Type 0 where
    pub inputs : InputsOk H e.inputs
    pub fits : OutcomeFits e.status e.outcome
    -- A task waits for input exactly while, alive, it has outstanding requests.
    pub waiting : e.status ≡ input_required → is_empty_object json e.inputs.outstanding ≡ false
    pub drained : e.status ≡ working → is_empty_object json e.inputs.outstanding ≡ true

  pub record StoreOk (s : Store H) : Type 0 where
    pub distinct : IsDistinct s.tasks
    pub bounded : length s.tasks ≤ s.capacity
    pub sound : AllValues EntryOk s.tasks

  no_inputs-InputsOk :
      (used : List String)
      → InputsOk H (record { outstanding = json.empty; waiters = []; used = used })
  unfolding Maps.get
  no_inputs-InputsOk used = record {
    paired = λ k. ground (arith, json.get-empty k);
    issued = λ k. ground (arith, json.get-empty k);
  }

  pub new_entry-EntryOk :
      (ttl poll : Option ℤ) (token created : ℕ) (wall : Wall)
      → EntryOk (new_entry H ttl poll token created wall)
  new_entry-EntryOk ttl poll token created wall = record {
    inputs = no_inputs-InputsOk [];
    fits = tt;
    waiting = λ e. cc;
    drained = λ _. is_empty_of_none json json.empty json.get-empty;
  }

  pub settle-EntryOk :
      (wall : Wall) (outcome : TaskOutcome Value) (e : Entry H)
      → EntryOk e
      → EntryOk (settle H wall outcome e)
  unfolding settle
  settle-EntryOk wall (completed_with v) e ok = record {
    inputs = ok.inputs;
    fits = tt;
    waiting = λ e. cc;
    drained = λ e. cc;
  }
  settle-EntryOk wall (failed_with err) e ok = record {
    inputs = ok.inputs;
    fits = tt;
    waiting = λ e. cc;
    drained = λ e. cc;
  }

  pub cancel_entry-EntryOk :
      (wall : Wall) (e : Entry H)
      → is_terminal e.status ≡ false
      → EntryOk e
      → EntryOk (cancel_entry H wall e)
  unfolding cancel_entry is_terminal
  cancel_entry-EntryOk wall e live ok = record {
    inputs = no_inputs-InputsOk e.inputs.used;
    fits = rw (pending e.status e.outcome live ok.fits) tt;
    waiting = λ e. cc;
    drained = λ e. cc;
  }

  asked-InputsOk :
      (key : String) (request : Value) (chan : ℕ) (i : Inputs H)
      → InputsOk H i
      → InputsOk H (record {
        outstanding = insert key request i.outstanding;
        waiters = Maps.insert key chan i.waiters;
        used = key ∷ i.used;
      })
  asked-InputsOk key request chan i ok = record {
    paired = λ k. ground (
      arith,
      ok.paired k,
      json.get-insert key k request i.outstanding,
      get-insert key k chan i.waiters,
    );
    issued = λ k. ground (arith, ok.issued k, json.get-insert key k request i.outstanding);
  }

  insert-not_empty :
      (key : String) (v : Value) (o : Object) → is_empty_object json (insert key v o) ≡ false
  insert-not_empty key v o = grind (
    arith,
    get_of_is_empty json (insert key v o) key,
    json.get-insert key key v o,
    same_refl {K = String} key,
  )

  pub ask-EntryOk :
      (wall : Wall) (key : String) (request : Value) (chan : ℕ) (e : Entry H)
      → is_terminal e.status ≡ false
      → EntryOk e
      → EntryOk (ask H wall key request chan e)
  unfolding ask is_terminal
  ask-EntryOk wall key request chan e live ok = elim (status_cases e.status live) [
    | inl w ↦
        rw (w, ask)
          (record {
            inputs = asked-InputsOk key request chan e.inputs ok.inputs;
            fits = rw (pending e.status e.outcome live ok.fits) tt;
            waiting = λ _. insert-not_empty key request e.inputs.outstanding;
            drained = λ e. cc;
          })
    | inr w ↦
        rw (w, ask)
          (record {
            inputs = asked-InputsOk key request chan e.inputs ok.inputs;
            fits = ok.fits;
            waiting = λ _. insert-not_empty key request e.inputs.outstanding;
            drained = λ e. cc;
          })
  ]

  drained-deliver_all :
      (l : HashMap String Value) (i : Inputs H)
      → InputsOk H i
      → is_empty_object json i.outstanding ≡ true
      → is_empty_object json (deliver_all H l i).0.outstanding ≡ true
  drained-deliver_all l i ok none_left = is_empty_of_none json _ (λ k.
      ground
        (arith, outstanding-deliver_all H l i k ok, get_of_is_empty json i.outstanding k none_left))

  pub resume_idle :
      (wall : Wall) (i : Inputs H) (e : Entry H)
      → e.status ≢ input_required
      → resume H wall i e ≡ (record e { inputs = i }, false)
  unfolding resume
  resume_idle wall i e h = ground arith

  resume-EntryOk :
      (wall : Wall) (i : Inputs H) (e : Entry H)
      → EntryOk e
      → InputsOk H i
      → (e.status ≡ working → is_empty_object json i.outstanding ≡ true)
      → EntryOk (resume H wall i e).0
  unfolding resume is_terminal
  resume-EntryOk wall i e ok good still = elim (TaskStatus-discrete e.status input_required) [
    | no other ↦
        rw (resume_idle wall i e other) (record {
          inputs = good;
          fits = ok.fits;
          waiting = λ w. absurd (other w);
          drained = still;
        })
    | yes w ↦ elim (Bool-cases (is_empty_object json i.outstanding)) [
      | inl done ↦
          rw (w, resume)
            (rw done (record {
              inputs = good;
              fits = rw (pending e.status e.outcome (rw (w, is_terminal)) ok.fits) tt;
              waiting = λ e. cc;
              drained = λ _. done;
            }))
      | inr left ↦
          rw (w, resume)
            (rw left
              (record { inputs = good; fits = ok.fits; waiting = λ _. left; drained = λ e. cc }))
    ]
  ]

  pub delivered-EntryOk :
      (wall : Wall) (l : HashMap String Value) (e : Entry H)
      → EntryOk e
      → EntryOk (resume H wall (deliver_all H l e.inputs).0 e).0
  delivered-EntryOk wall l e ok =
      resume-EntryOk wall (deliver_all H l e.inputs).0 e ok
        (deliver_all-InputsOk H l e.inputs ok.inputs)
        (λ w. drained-deliver_all l e.inputs ok.inputs (ok.drained w))
