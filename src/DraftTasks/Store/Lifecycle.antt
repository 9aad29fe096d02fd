-- ===== src/DraftTasks/Store/Lifecycle.antt =====
-- How a task's entry may change: the status graph, what is fixed at creation, what is final.
use turbomcp.Prelude.{
  holds, ℕ, ◌≡◌, ◌≢◌, refl, sym, true, false, String, Option, none, some, [], ◌∷◌, arith,
  string_key, Bool-cases, inl, inr,
}
use turbomcp.Prelude.HashMap.{HashMap}
use turbomcp.Core.Host.{Host}
use turbomcp.Core.Json.{is_empty_object}
use turbomcp.DraftTasks.Wire.{TaskStatus, working, input_required, is_terminal}
use turbomcp.DraftTasks.Store.{
  Entry, Inputs, TaskOutcome, completed_with, failed_with, expired, settle, cancel_entry, ask,
  deliver_one, deliver_all, resume,
}
use turbomcp.DraftTasks.Store.Invariant.{resume_idle, TaskStatus-discrete, status_cases}

-- The status graph of a task; the three terminal statuses are left by no edge.
pub data Moves : TaskStatus → TaskStatus → Type 0 where
  stays : {s : TaskStatus} → Moves s s
  asks : Moves working input_required
  drains : Moves input_required working
  ends : {s t : TaskStatus} → is_terminal s ≡ false → is_terminal t ≡ true → Moves s t

stays_of : {s t : TaskStatus} → s ≡ t → Moves s t
stays_of p = rw (← p) stays

module _ (H : Host) where
  open H use {json, Wall}
  open json use {Value, Object, entries}

  -- What the requester can see of an outcome stays as it is.
  pub record SameOutcome (e e' : Entry H) : Type 0 where
    pub status : e'.status ≡ e.status
    pub status_message : e'.status_message ≡ e.status_message
    pub outcome : e'.outcome ≡ e.outcome
    pub updated_wall : e'.updated_wall ≡ e.updated_wall

  pub record Evolved (e e' : Entry H) : Type 0 where
    pub moves : Moves e.status e'.status
    pub final : is_terminal e.status ≡ true → SameOutcome e e'
    pub created : e'.created ≡ e.created
    pub ttl_ms : e'.ttl_ms ≡ e.ttl_ms
    pub cancel : e'.cancel ≡ e.cancel
    -- A key once issued is never forgotten.
    pub used : (k : String) → holds e.inputs.used k ≡ true → holds e'.inputs.used k ≡ true

  -- What becomes of an entry: it is gone, and then it was expired, or it has evolved.
  abbrev pub Fate : ℕ → Entry H → Option (Entry H) → Type 0
  Fate now e none = expired H now e ≡ true
  Fate now e (some e') = Evolved e e'

  pub unchanged : (e : Entry H) → Evolved e e
  unchanged e = record {
    moves = stays;
    final =
        λ _. record { status = refl; status_message = refl; outcome = refl; updated_wall = refl };
    created = refl;
    ttl_ms = refl;
    cancel = refl;
    used = λ k h. h;
  }

  pub settle-Evolved :
      (wall : Wall) (outcome : TaskOutcome Value) (e : Entry H)
      → is_terminal e.status ≡ false
      → Evolved e (settle H wall outcome e)
  unfolding settle is_terminal
  settle-Evolved wall (completed_with v) e alive = record {
    moves = ends alive refl;
    final = λ h. cc;
    created = refl;
    ttl_ms = refl;
    cancel = refl;
    used = λ k h. h;
  }
  settle-Evolved wall (failed_with err) e alive = record {
    moves = ends alive refl;
    final = λ h. cc;
    created = refl;
    ttl_ms = refl;
    cancel = refl;
    used = λ k h. h;
  }

  pub cancel_entry-Evolved :
      (wall : Wall) (e : Entry H) → is_terminal e.status ≡ false → Evolved e (cancel_entry H wall e)
  unfolding cancel_entry is_terminal
  cancel_entry-Evolved wall e alive = record {
    moves = ends alive refl;
    final = λ h. cc;
    created = refl;
    ttl_ms = refl;
    cancel = refl;
    used = λ k h. h;
  }

  ask-Moves :
      (wall : Wall) (unique : String) (request : Value) (chan : ℕ) (e : Entry H)
      → is_terminal e.status ≡ false
      → Moves e.status (ask H wall unique request chan e).status
  unfolding ask is_terminal
  ask-Moves wall unique request chan e alive = elim (status_cases e.status alive) [
    | inl w ↦ rw (w, ask) asks
    | inr w ↦ rw (w, ask) (stays_of (sym w))
  ]

  pub ask-Evolved :
      (wall : Wall) (unique : String) (request : Value) (chan : ℕ) (e : Entry H)
      → is_terminal e.status ≡ false
      → Evolved e (ask H wall unique request chan e)
  unfolding ask
  ask-Evolved wall unique request chan e alive = record {
    moves = ask-Moves wall unique request chan e alive;
    final = λ h. cc;
    created = ground arith;
    ttl_ms = ground arith;
    cancel = ground arith;
    used = λ k h. ground arith;
  }

  pub used-deliver_all :
      (l : HashMap String Value) (i : Inputs H) → (deliver_all H l i).0.used ≡ i.used
  unfolding deliver_all
  used-deliver_all [] i = refl
  used-deliver_all ((key, value) ∷ l) i =
      ground (arith, used-deliver_all l (deliver_one H key value i).0)

  resume-Moves :
      (wall : Wall) (i : Inputs H) (e : Entry H) → Moves e.status (resume H wall i e).0.status
  unfolding resume
  resume-Moves wall i e = elim (TaskStatus-discrete e.status input_required) [
    | no other ↦ rw (resume_idle H wall i e other) stays
    | yes w ↦ elim (Bool-cases (is_empty_object json i.outstanding)) [
      | inl done ↦ rw (w, resume) (rw done drains)
      | inr left ↦ rw (w, resume) (rw left (stays_of (sym w)))
    ]
  ]

  pub resume-Evolved :
      (wall : Wall) (i : Inputs H) (e : Entry H)
      → i.used ≡ e.inputs.used
      → Evolved e (resume H wall i e).0
  unfolding resume is_terminal
  resume-Evolved wall i e same = record {
    moves = resume-Moves wall i e;
    final = λ h.
        let other : e.status ≢ input_required = (λ w. ground (arith, w)) in
        rw (resume_idle H wall i e other)
          (record { status = refl; status_message = refl; outcome = refl; updated_wall = refl });
    created = ground arith;
    ttl_ms = ground arith;
    cancel = ground arith;
    used = λ k h. ground arith;
  }
