-- ===== src/RequestState/Pending.antt =====
-- crates/turbomcp-server/src/mrtr.rs, `PendingRequests`: the requests that a server sent to its
-- client, each with the sending half of the channel on which its handler waits (a number).
use turbomcp.Prelude.{ℕ, ◌≡◌, Bool, false, Option, none, some, if◌then◌else◌, ap}
use turbomcp.Prelude.HashMap as Maps
use turbomcp.Prelude.HashMap.{HashMap}
use turbomcp.Prelude.HashMap.Laws.{get-remove_self, get-insert_self}
use turbomcp.Core.JsonRpc.{RequestId, request_id_key, JsonRpcResponse}

abbrev pub PendingRequests : Type 0
PendingRequests = HashMap RequestId ℕ

-- The guard that `register` returns is the id that its drop removes.
unfoldable pub register : RequestId → ℕ → PendingRequests → PendingRequests × RequestId
register id tx m = (Maps.insert id tx m, id)

-- The guard's drop.
unfoldable pub drop_guard : RequestId → PendingRequests → PendingRequests
drop_guard id m = Maps.remove id m

module _ (Value : Type 0) (is_open : ℕ → Bool) where
  -- The `match` on the sender that was removed: whether the response was delivered, and what was
  -- sent, which is nothing where the receiving half is gone.
  abbrev pub send_to : JsonRpcResponse Value → Option ℕ → Bool × Option (ℕ × JsonRpcResponse Value)
  send_to response none = (false, none)
  send_to response (some tx) = (is_open tx, if is_open tx then some (tx, response) else none)

  unfoldable pub complete :
      JsonRpcResponse Value
      → PendingRequests
      → PendingRequests × (Bool × Option (ℕ × JsonRpcResponse Value))
  complete response m = (Maps.remove response.id m, send_to response (Maps.get response.id m))

  -- A response is delivered to the handler that registered its id, if that still waits.
  pub complete-register :
      (response : JsonRpcResponse Value) (tx : ℕ) (m : PendingRequests)
      → (complete response (register response.id tx m).0).1 ≡ send_to response (some tx)
  unfolding register complete
  complete-register response tx m = ap (send_to response) (get-insert_self response.id tx m)

  -- A second response to one id is ignored.
  pub complete-complete :
      (first second : JsonRpcResponse Value) (m : PendingRequests)
      → first.id ≡ second.id
      → (complete second (complete first m).0).1 ≡ (false, none)
  unfolding complete
  complete-complete first second m e =
      let gone : Maps.get second.id (Maps.remove first.id m) ≡ none =
        rw e (get-remove_self second.id m) in
      ap (send_to second) gone
