-- ===== src/Tests/DraftTasks.antt =====
-- The theorems on the draft task registry, applied to a task that asked for a name.
use turbomcp.Prelude.{
  not, ◌&&◌, if◌then◌else◌, ◌++◌, ◌&&◌, ℕ, ◌≡◌, refl, true, false, String, none, some, List, [],
  ◌∷◌, arith, holds, string_key,
}
use turbomcp.Prelude.HashMap as Maps
use turbomcp.Prelude.HashMap.{HashMap}
use turbomcp.Prelude.Int.{pos}
use turbomcp.DraftTasks.Wire.{input_required, completed, is_terminal}
use turbomcp.DraftTasks.Store.{
  Store, Entry, completed_with, live, expired, create, settle, complete, cancel_task, ask,
  unique_key, uniquify, publish_input, deliver_inputs,
}
use turbomcp.DraftTasks.Subs.{Subscriber, subscriber_key, TaskSubscriptions, subscribers, subscribe}
use turbomcp.DraftTasks.Subs.Laws.{subscribe_lem}
use turbomcp.Core.JsonRpc as JsonRpc
use turbomcp.DraftTasks.Store.Calls.{Stamp, Call, creates, completes, publishes, gets, step, run}
use turbomcp.DraftTasks.Store.Invariant.{StoreOk}
use turbomcp.DraftTasks.Store.Preserved.{run-StoreOk}
use turbomcp.DraftTasks.Store.Lifecycle.{Fate}
use turbomcp.DraftTasks.Store.History.{step-Fate, run_final, StillFinal}
use turbomcp.DraftTasks.Store.Keys.{unique_key_total}
use turbomcp.DraftTasks.Store.Requests.{
  PublishSpec, DeliverSpec, publish_input_lem, deliver_inputs_lem,
}
use turbomcp.DraftTasks.Store.Cancel.{CancelSpec, cancel_task_lem}
use turbomcp.Tests.Json.{text, nil, member, null}
use turbomcp.Tests.Host.{host}

abbrev at : ℕ → Stamp host
at n = record { now = n; created = n; wall = n }

abbrev empty_registry : Store host
empty_registry = record { tasks = []; capacity = 4 }

abbrev history : List (Stamp host × Call host)
history =
    (at 1, creates "t1" (some (pos 60_000)) none 7)
    ∷ (at 2, publishes "t1" "name" (text "your name?") 40)
    ∷ []

abbrev registry : Store host
registry = run host history empty_registry

abbrev asking : Entry host
asking = record {
  status = input_required;
  status_message = none;
  created_wall = 1;
  updated_wall = 2;
  created = 1;
  ttl_ms = some (pos 60_000);
  poll_interval_ms = none;
  outcome = none;
  cancel = 7;
  inputs = record {
    outstanding = member "name" (text "your name?") nil;
    waiters = ("name", 40) ∷ [];
    used = "name" ∷ [];
  };
}

asking_there : Maps.get "t1" registry.tasks ≡ some asking
unfolding run step create publish_input live expired Maps.retain Maps.get Maps.insert unique_key
    uniquify ask is_terminal
asking_there = refl

asking_live : Maps.get "t1" (live host 3 registry.tasks) ≡ some asking
unfolding run step create publish_input live expired Maps.retain Maps.get Maps.insert unique_key
    uniquify ask is_terminal
asking_live = refl

asking_alive : is_terminal asking.status ≡ false
unfolding is_terminal
asking_alive = refl

run-StoreOk_example : StoreOk host registry
run-StoreOk_example = run-StoreOk host 4 history

registry-StoreOk : StoreOk host registry
registry-StoreOk = run-StoreOk host 4 history

step-Fate_example :
    Fate host 3 asking
      (Maps.get "t1" (step host (at 3) (completes "t1" (completed_with null)) registry).tasks)
step-Fate_example =
    step-Fate host (at 3) "t1" asking registry registry-StoreOk asking_there
      (completes "t1" (completed_with null)) tt

abbrev done : Entry host
done = record asking { status = completed; outcome = some (completed_with null); updated_wall = 3 }

abbrev finished_history : List (Stamp host × Call host)
finished_history =
    (at 1, creates "t1" (some (pos 60_000)) none 7)
    ∷ (at 2, publishes "t1" "name" (text "your name?") 40)
    ∷ (at 3, completes "t1" (completed_with null))
    ∷ []

done_there : Maps.get "t1" (run host finished_history empty_registry).tasks ≡ some done
unfolding run step create publish_input complete settle live expired Maps.retain Maps.get
    Maps.insert unique_key uniquify ask is_terminal
done_there = refl

done_over : is_terminal completed ≡ true
unfolding is_terminal
done_over = refl

run_final_example : StillFinal host done (
    Maps.get "t1"
      (run host ((at 4, gets "t1") ∷ []) (run host finished_history empty_registry)).tasks)
run_final_example =
    run_final host ((at 4, gets "t1") ∷ []) "t1" done (run host finished_history empty_registry)
      (run-StoreOk host 4 finished_history) done_there done_over (tt, tt)

unique_key_total_example :
    (r : String) × (unique_key host "name" asking.inputs ≡ some r)
    × (holds asking.inputs.used r ≡ false)
unique_key_total_example = unique_key_total host "name" asking.inputs (omega arith)

publish_input_lem_example :
    PublishSpec host 3 3 "t1" registry asking asking_live
      (text "your age?")
      41
      (publish_input host 3 3 "t1" "name" (text "your age?") 41 registry)
publish_input_lem_example =
    publish_input_lem host 3 3 "t1" registry asking asking_live "name" (text "your age?") 41
      asking_alive (omega arith)

deliver_inputs_lem_example :
    DeliverSpec host 3 3 "t1" registry asking asking_live
      (member "name" (text "Ada") nil)
      (deliver_inputs host 3 3 "t1" (member "name" (text "Ada") nil) registry)
deliver_inputs_lem_example =
    deliver_inputs_lem host 3 3 "t1" registry asking asking_live (member "name" (text "Ada") nil)
      registry-StoreOk

cancel_task_lem_example :
    CancelSpec host 3 3 "t1" registry
      (Maps.get "t1" (live host 3 registry.tasks))
      (cancel_task host 3 3 "t1" registry)
cancel_task_lem_example = cancel_task_lem host 3 3 "t1" registry

abbrev listener : Subscriber
listener = record { connection = "c1"; subscription_id = JsonRpc.string "a" }

abbrev listening : TaskSubscriptions
listening = ("t1", listener ∷ []) ∷ []

abbrev watched : List String
watched = "t2" ∷ []

subscribe_lem_example : subscribers "t2" (subscribe "c1" (JsonRpc.string "a") watched listening) ≡ (
    if holds watched "t2" && not (holds (subscribers "t2" listening) listener)
    then subscribers "t2" listening ++ listener ∷ []
    else subscribers "t2" listening)
subscribe_lem_example = subscribe_lem "c1" (JsonRpc.string "a") watched "t2" listening
