-- ===== src/Dispatcher/State.antt =====
-- crates/turbomcp-server/src/dispatcher/mod.rs: the state that the handling of messages shares, what
-- the builder configures, what a message reads from outside, and what its handling leaves.
use turbomcp.Prelude.{ℕ, Bool, true, false, String, Option, List, [], ◌∷◌}
use turbomcp.Core.Version.{ProtocolVersion}
use turbomcp.Core.JsonRpc.{JsonRpcNotification, JsonRpcResponse}
use turbomcp.Core.ServiceError.{ProtocolError}
use turbomcp.Sessions.Store.{SessionStore}
use turbomcp.Sessions.Store as Sessions
use turbomcp.Sessions.InFlight.{InFlightRegistry}
use turbomcp.LegacyTasks.Store as Tasks
use turbomcp.LegacyTasks.Store.{TaskStore}
use turbomcp.Subscriptions.Outbound.{Writers}
use turbomcp.Subscriptions.Registry.{SubscriptionRegistry}
use turbomcp.Subscriptions.Legacy.{Routes, legacy_remove}
use turbomcp.RequestState.Pending.{PendingRequests}
use turbomcp.Dispatcher.Platform.{Platform, json, host}
use turbomcp.Dispatcher.Router.{MethodRouter, Extension, CachePolicies}
use turbomcp.Dispatcher.Handshake.{ServerCore}
use turbomcp.Dispatcher.TaskMethods.{Minted, Spawned}
use turbomcp.Dispatcher.Responses.{Message}

-- Whether the token of a request was fired: before its dispatch began, or while its handler ran.
pub data Cancellation : Type 0 where
  running fired_before fired_during : Cancellation

unfoldable pub is_cancelled : Cancellation → Bool
is_cancelled running = false
is_cancelled fired_before = true
is_cancelled fired_during = true

module _ (P : Platform) where
  pub record Shared : Type 0 where
    pub sessions : SessionStore (json P)
    pub tasks : Option (TaskStore (host P.base))
    pub inflight : InFlightRegistry
    pub subs : SubscriptionRegistry
    -- The legacy routes, which the source keeps in the subscription registry too.
    pub routes : Routes
    pub pending : PendingRequests

  -- The parts of `VersionDispatcher` and of its `Shared` that do not change while it serves.
  pub record Config : Type 0 where
    pub server : ServerCore P
    pub router : MethodRouter P
    pub supported : List ProtocolVersion
    pub extensions : List (Extension P)
    pub signer_key : P.base.crypto.Bytes
    pub strict_elicitation_keys : Bool
    pub server_info_meta : Bool
    pub cache : CachePolicies

  -- The clocks (`now` at the first use of a registry, `later` at a second), the signer's clock in
  -- seconds, the minted tokens and identifiers, the writers, and the cancellation.
  pub record Readings : Type 0 where
    pub now : ℕ
    pub later : ℕ
    pub seconds : ℕ
    pub wall : P.base.Wall
    pub token : ℕ
    pub context_token : ℕ
    pub slot : ℕ
    pub minted : Minted P
    pub writers : Writers
    pub is_open : ℕ → Bool
    pub cancellation : Cancellation

  pub data Effect : Type 0 where
    of_task : Tasks.Effect → Effect
    sent : ℕ → JsonRpcNotification (json P).Value → Effect
    delivered : ℕ → JsonRpcResponse (json P).Value → Effect
    fired : ℕ → Effect
    spawned : Spawned P → Effect

  -- What becomes of a message: a reply, no reply, an error for the transport, or a wait for the task
  -- whose channel is named.
  pub data Reply : Type 0 where
    reply : Message P → Reply
    silent : Reply
    failed : ProtocolError → Reply
    waits : ℕ → Reply

  pub record Handled : Type 0 where
    pub shared : Shared
    pub outcome : Reply
    pub effects : List Effect

  abbrev pub answers : Shared → Message P → Handled
  answers s m = record { shared = s; outcome = reply m; effects = [] }

  abbrev pub remove_routes : List String → Routes → Routes
  remove_routes [] routes = routes
  remove_routes (id ∷ ids) routes = remove_routes ids (legacy_remove id routes).0

  unfoldable pub sweep_idle_sessions : ℕ → Shared → Shared
  sweep_idle_sessions now s =
      let (swept, ids) = Sessions.sweep_expired (json P) now s.sessions in
      record s { sessions = swept; routes = remove_routes ids s.routes }

  unfoldable pub terminate_session : String → Shared → Shared × Bool
  terminate_session id s =
      let (kept, existed) = Sessions.remove (json P) id s.sessions in
      (record s { sessions = kept; routes = (legacy_remove id s.routes).0 }, existed)
