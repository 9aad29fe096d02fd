-- ===== src/DraftTasks/Store/Requests.antt =====
-- Input requests of a running task: publishing one, and delivering the responses.
use turbomcp.Prelude.{
  holds, ℕ, suc, ◌^◌, ◌<◌, ◌≡◌, ap, ◌∙◌, Bool, true, false, ◌&&◌, String, Option, none, some, List,
  ◌++◌, length, arith, ◌==◌, string_key, same_refl, if◌then◌else◌,
}
use turbomcp.Prelude.HashMap.{HashMap, get-insert}
use turbomcp.Prelude.HashMap as Maps
use turbomcp.Prelude.HashMap.Laws.{get-insert_self}
use turbomcp.Prelude.HashMap.Values.{get-AllValues}
use turbomcp.Core.Json.{is_empty_object}
use turbomcp.Core.Host.{Host}
use turbomcp.DraftTasks.Wire.{TaskStatus, working, input_required, is_terminal}
use turbomcp.DraftTasks.Store.{
  Store, Entry, Inputs, Effect, live, purged, ask, publish_input, deliver_all, resume,
  deliver_inputs,
}
use turbomcp.DraftTasks.Store.Keys.{unique_key_total}
use turbomcp.DraftTasks.Store.Invariant.{EntryOk, StoreOk, status_cases}
use turbomcp.DraftTasks.Store.Preserved.{live-StoreOk}
use turbomcp.DraftTasks.Store.Delivery.{is_some, answers, outstanding-deliver_all, sent-deliver_all}

module _ (H : Host) where
  open H use {json}
  open json use {Value, Object, get, insert, entries}

  -- The published request: outstanding under a key that no request of the task ever had, with its
  -- waiter, and the task waits for input; all other outstanding requests stay.
  pub record Published (e e' : Entry H) (request : Value) (chan : ℕ) (key : String) : Type 0 where
    pub fresh : holds e.inputs.used key ≡ false
    pub issued : holds e'.inputs.used key ≡ true
    pub waits : e'.status ≡ input_required
    pub waiter : Maps.get key e'.inputs.waiters ≡ some chan
    pub asked :
        (k : String)
        → get k e'.inputs.outstanding
          ≡ (if key == k then some request else get k e.inputs.outstanding)

  ask-Published :
      (wall : H.Wall) (unique : String) (request : Value) (chan : ℕ) (e : Entry H)
      → is_terminal e.status ≡ false
      → holds e.inputs.used unique ≡ false
      → Published e (ask H wall unique request chan e) request chan unique
  unfolding ask
  ask-Published wall unique request chan e alive free = record {
    fresh = free;
    issued = ground (arith, same_refl unique);
    waits = ground (arith, status_cases e.status alive);
    waiter = ground (arith, get-insert_self unique chan e.inputs.waiters);
    asked = λ k. ground (arith, json.get-insert unique k request e.inputs.outstanding);
  }

  resume_inputs : (wall : H.Wall) (i : Inputs H) (e : Entry H) → (resume H wall i e).0.inputs ≡ i
  unfolding resume
  resume_inputs wall i e = ground arith

  abbrev pub is_waiting : TaskStatus → Bool
  is_waiting input_required = true
  is_waiting _ = false

  -- The status of a task whose outstanding requests are now these.
  abbrev pub drained : TaskStatus → Object → TaskStatus
  drained input_required o = if is_empty_object json o then working else input_required
  drained status o = status

  resumed :
      (wall : H.Wall) (i : Inputs H) (e : Entry H)
      → let out = resume H wall i e in
        (some out.1 ≡ some (is_waiting e.status && is_empty_object json out.0.inputs.outstanding))
        × (out.0.status ≡ drained e.status out.0.inputs.outstanding)
  unfolding resume
  resumed wall i e = ground arith

  module _ (now : ℕ) (wall : H.Wall) (id : String) (s : Store H) (e : Entry H)
      (found : Maps.get id (live H now s.tasks) ≡ some e) where
    -- What `publish_input` answers and leaves when the request is taken.
    pub record PublishSpec (request : Value) (chan : ℕ)
        (out : Store H × Option ℕ × List (Effect Value)) : Type 0 where
      pub key : String
      pub entry : Entry H
      pub answered : out.1 ≡ some chan
      pub recorded : Maps.get id out.0.tasks ≡ some entry
      pub published : Published e entry request chan key
      pub effects : out.2 ≡ purged H now s.tasks

    -- Publishing a request on a task that the purge leaves and that is not over succeeds, while the
    -- task used fewer than 2 ^ 31 - 1 keys: the task waits for input, the request is outstanding
    -- with its waiter under a key that no request of the task ever had, the task's other
    -- outstanding requests stay, and nothing but the purge is set off.
    pub publish_input_lem :
        (key : String) (request : Value) (chan : ℕ)
        → is_terminal e.status ≡ false
        → suc (length e.inputs.used) < 2 ^ 31
        → PublishSpec request chan (publish_input H now wall id key request chan s)
    unfolding publish_input
    publish_input_lem key request chan alive few =
        let (unique, chosen, free) = unique_key_total H key e.inputs few in
        record {
          key = unique;
          entry = ask H wall unique request chan e;
          answered = rw (found, publish_input) (rw (alive, chosen));
          recorded = rw (found, publish_input) (rw (alive, chosen) (get-insert_self id _ _));
          published = ask-Published wall unique request chan e alive free;
          effects = rw (found, publish_input) (rw (alive, chosen));
        }

    -- What `deliver_inputs` answers and leaves.
    pub record DeliverSpec (responses : Object) (out : Store H × Option Bool × List (Effect Value))
        : Type 0 where
      pub entry : Entry H
      pub recorded : Maps.get id out.0.tasks ≡ some entry
      pub outstanding :
          (k : String)
          → get k entry.inputs.outstanding
            ≡ (if is_some (get k responses) then none else get k e.inputs.outstanding)
      pub effects : out.2 ≡ purged H now s.tasks ++ answers H e.inputs (entries responses)
      pub answered :
          out.1 ≡ some (is_waiting e.status && is_empty_object json entry.inputs.outstanding)
      pub status : entry.status ≡ drained e.status entry.inputs.outstanding

    -- In a registry that satisfies the invariant, delivering responses to a task that the purge
    -- leaves removes exactly the answered requests from the outstanding ones, sends each response
    -- to the waiter of its request once and nothing else but the purge's effects, and moves a
    -- waiting task back to work exactly when no request is outstanding any more, which is what the
    -- answer says; a task that does not wait keeps its status.
    pub deliver_inputs_lem :
        (responses : Object)
        → StoreOk H s
        → DeliverSpec responses (deliver_inputs H now wall id responses s)
    unfolding deliver_inputs
    deliver_inputs_lem responses ok =
        let valid : EntryOk H e =
          get-AllValues (EntryOk H) id e _ (live-StoreOk H now s ok).sound found in
        let i = (deliver_all H (entries responses) e.inputs).0 in
        let e' = (resume H wall i e).0 in
        record {
          entry = e';
          recorded = rw (found, deliver_inputs) (get-insert_self id _ _);
          outstanding = λ k.
              ap (λ (j : Inputs H). get k j.outstanding) (resume_inputs wall i e)
              ∙ outstanding-deliver_all H (entries responses) e.inputs k valid.inputs
              ∙ rw (json.get-entries k responses);
          effects =
              rw (found, deliver_inputs)
                (ap (λ (l : List (Effect Value)). purged H now s.tasks ++ l)
                  (sent-deliver_all H (entries responses) e.inputs
                    (json.entries-IsDistinct responses) valid.inputs));
          answered = rw (found, deliver_inputs) (resumed wall i e).0;
          status = (resumed wall i e).1;
        }
