-- ===== src/DraftTasks/Store/Calls.antt =====
-- The registry's operations as calls, and histories of them. The registry is behind one mutex, so
-- that concurrent use is some sequence of calls.
use turbomcp.Prelude.{ℕ, String, Option, List, [], ◌∷◌}
use turbomcp.Prelude.Int.{ℤ}
use turbomcp.Core.Host.{Host}
use turbomcp.DraftTasks.Store.{
  Store, TaskOutcome, create, complete, get_task, cancel_task, publish_input, deliver_inputs,
}

module _ (H : Host) where
  open H use {json, Wall}
  open json use {Value, Object}

  -- The identifiers in a call are those that `uuid`, `tokio` and the caller supply.
  pub data Call : Type 0 where
    creates : String → Option ℤ → Option ℤ → ℕ → Call
    completes : String → TaskOutcome Value → Call
    gets : String → Call
    cancels : String → Call
    publishes : String → String → Value → ℕ → Call
    delivers : String → Object → Call

  -- When a call is made: the monotonic clock at the purge and at the creation, and the wall clock.
  pub record Stamp : Type 0 where
    pub now : ℕ
    pub created : ℕ
    pub wall : Wall

  unfoldable pub step : Stamp → Call → Store H → Store H
  step t (creates id ttl poll token) s = (create H t.now t.created t.wall id ttl poll token s).0
  step t (completes id outcome) s = complete H t.wall id outcome s
  step t (gets id) s = (get_task H t.now id s).0
  step t (cancels id) s = (cancel_task H t.now t.wall id s).0
  step t (publishes id key request chan) s = (publish_input H t.now t.wall id key request chan s).0
  step t (delivers id responses) s = (deliver_inputs H t.now t.wall id responses s).0

  unfoldable pub run : List (Stamp × Call) → Store H → Store H
  run [] s = s
  run ((t, c) ∷ cs) s = run cs (step t c s)
