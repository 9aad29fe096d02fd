-- ===== src/Dispatcher/Handle.antt =====
-- crates/turbomcp-server/src/dispatcher/mod.rs: how a message is handled. A handler's run leaves the
-- shared state alone, so that a cancellation while it runs only drops the reply.
use mathlib.Core.Option
use turbomcp.Prelude.{
  ℕ, not, ◌&&◌, String, Option, none, some, List, [], ◌∷◌, map, if◌then◌else◌, ◌==◌, string_key,
}
use turbomcp.Prelude.Int.{minus}
use turbomcp.Core.Json.{◌>>=◌}
use turbomcp.Core.JsonRpc.{
  RequestId, JsonRpcRequest, JsonRpcNotification, JsonRpcMessage, JsonRpcError, has_valid_version,
  is_error,
}
use turbomcp.Core.JsonRpc
use turbomcp.Core.Meta.{connection_id}
use turbomcp.Core.Methods as Methods
use turbomcp.Core.Context.{Implementation}
use turbomcp.Sessions.InFlight as InFlight
use turbomcp.Subscriptions.Registry as Registry
use turbomcp.RequestState.Pending as Pending
use turbomcp.Dispatcher.Platform.{Platform, json}
use turbomcp.Dispatcher.Responses.{reply_error}
use turbomcp.Dispatcher.Params.{to_option}
use turbomcp.Dispatcher.Handshake.{stamp_server_info}
use turbomcp.Dispatcher.Listen.{handle_subscriptions_listen}
use turbomcp.Dispatcher.State.{
  running, fired_before, fired_during, is_cancelled, Shared, Config, Readings, Effect, sent,
  delivered, fired, Reply, reply, silent, Handled,
}
use turbomcp.Dispatcher.Request.{is_modern, route, handle_request}

module _ (P : Platform) (C : Config P) (R : Readings P) where
  abbrev pub Value : Type 0
  Value = (json P).Value

  abbrev pub Request : Type 0
  Request = JsonRpcRequest Value

  abbrev pub fired_tokens : Option ℕ → List (Effect P)
  fired_tokens none = []
  fired_tokens (some token) = fired token ∷ []

  -- `notifications/cancelled` on an identified connection.
  abbrev pub cancel_by_client : String → Shared P → Option RequestId → Handled P
  cancel_by_client conn s none = record { shared = s; outcome = silent; effects = [] }
  cancel_by_client conn s (some id) = record {
    shared = record s { subs = (Registry.remove conn id s.subs).0 };
    outcome = silent;
    effects = fired_tokens (InFlight.cancel conn id s.inflight).1;
  }

  unfoldable pub handle_notification : Shared P → JsonRpcNotification Value → Handled P
  handle_notification s n =
      let id =
        n.params >>= λ p. Option.map (λ raw. raw.request_id) (to_option (P.from_cancelled p)) in
      if not (n.method == Methods.cancelled)
      then record { shared = s; outcome = silent; effects = [] }
      else elim (connection_id (json P) n.params) [
        | none ↦ record { shared = s; outcome = silent; effects = [] }
        | some conn ↦ cancel_by_client conn s id
      ]

  -- The guard of a request of an identified connection, from its start to its end.
  abbrev pub enter : Request → Shared P → Shared P
  enter req s = elim (connection_id (json P) req.params) [
    | none ↦ s
    | some conn ↦ record s { inflight = (InFlight.register conn req.id R.token s.inflight).0 }
  ]

  abbrev pub leave : Request → Shared P → Shared P
  leave req s = elim (connection_id (json P) req.params) [
    | none ↦ s
    | some conn ↦ record s { inflight = InFlight.drop_guard (conn, req.id) s.inflight }
  ]

  abbrev pub stamp_info : Request → Option (Implementation (json P))
  stamp_info req =
      if C.server_info_meta && is_modern (route P C R req) then some C.server.server_info else none

  abbrev pub stamp : Option (Implementation (json P)) → Reply P → Reply P
  stamp (some info) (reply m) = reply (stamp_server_info P info m)
  stamp _ r = r

  abbrev pub listened : Request → Shared P → Handled P
  listened req s =
      let l =
        handle_subscriptions_listen P C.router C.supported C.extensions R.writers R.is_open
          (is_cancelled R.cancellation) R.context_token req s.subs in
      record {
        shared = record s { subs = l.subs };
        outcome = elim l.answer [ none ↦ silent | some m ↦ reply m ];
        effects = map (λ (w, n). sent w n) l.sent;
      }

  -- The `select!` of the dispatch and the request's token.
  abbrev pub raced : Request → Shared P → Handled P
  raced req s =
      let h = handle_request P C R s req in
      elim R.cancellation [
        | running ↦ record h { outcome = stamp (stamp_info req) h.outcome }
        | fired_before ↦ record { shared = s; outcome = silent; effects = [] }
        | fired_during ↦ record h { outcome = silent }
      ]

  unfoldable pub on_request : Shared P → Request → Handled P
  unfolding handle_request
  on_request s req =
      let entered = enter req s in
      let h =
        if req.method == Methods.subscriptions_listen
        then listened req entered
        else raced req entered in
      record h { shared = leave req h.shared }

  abbrev pub invalid_version : JsonRpcError Value
  invalid_version = record {
    code = minus 32600;
    message = "invalid jsonrpc version (expected \"2.0\")";
    details = none;
  }

  abbrev pub reject_version : JsonRpcMessage Value → Reply P
  reject_version (JsonRpc.request r) = reply (reply_error P r.id invalid_version)
  reject_version _ = silent

  abbrev pub delivery : Option (ℕ × JsonRpc.JsonRpcResponse Value) → List (Effect P)
  delivery none = []
  delivery (some (tx, r)) = delivered tx r ∷ []

  unfoldable pub on_message : Shared P → JsonRpcMessage Value → Handled P
  unfolding on_request handle_notification
  on_message s (JsonRpc.request r) = on_request s r
  on_message s (JsonRpc.notification n) = handle_notification s n
  on_message s (JsonRpc.response r) =
      let (pending, done) = Pending.complete Value R.is_open r s.pending in
      record {
        shared = record s { pending = pending };
        outcome = silent;
        effects = delivery done.1;
      }

  unfoldable pub handle : Shared P → JsonRpcMessage Value → Handled P
  unfolding on_message
  handle s m =
      if not (has_valid_version m)
      then record { shared = s; outcome = reject_version m; effects = [] }
      else on_message s m
