-- ===== src/Tests/Dispatcher.antt =====
-- The theorems on the handling of messages, applied to the server of Tests/Server.
use turbomcp.Prelude.{
  ◌≡◌, refl, true, false, none, some, [], ◌∷◌, ok, string_key, option_key, pair_key,
}
use turbomcp.Prelude.HashMap as Maps
use turbomcp.Core.Version.{v2025_11_25, draft, from_wire, lists}
use turbomcp.Core.Meta.{
  session_id_key, connection_id_key, protocol_version_key, session_id, connection_id,
  request_protocol_version, meta_text,
}
use turbomcp.Core.Route.{classify_version, route_of, legacy}
use turbomcp.Core.JsonRpc.{RequestId, request_id_key, JsonRpcRequest, new_request}
use turbomcp.Core.JsonRpc as JsonRpc
use turbomcp.Sessions.Store.{SessionStore, with_capacity, is_expired}
use turbomcp.Sessions.Store as Sessions
use turbomcp.Prelude.Int.{pos}
use turbomcp.LegacyTasks.Store.{TaskStore}
use turbomcp.LegacyTasks.Store.Invariant.{creates, run, run-TaskStoreOk}
use turbomcp.LegacyTasks.Store.Isolation.{view}
use turbomcp.Dispatcher.TaskMethods.{handle_tasks_method}
use turbomcp.Dispatcher.Isolation.{handle_tasks_method-view}
use turbomcp.Core.Json.{◌>>=◌}
use turbomcp.Dispatcher.Platform.{host}
use turbomcp.Core.Context.{info}
use turbomcp.Sessions.Store.{Entry}
use turbomcp.Dispatcher.Request.{route, empty_reply}
use turbomcp.Dispatcher.State.{reply}
use turbomcp.Dispatcher.Levels.{legacy_context-handle_request}
use turbomcp.Dispatcher.Params.{parse_set_level_params, legacy_context}
use turbomcp.Dispatcher.Handshake.{handle_initialize, negotiate_initialize_version, opened_session}
use turbomcp.Dispatcher.State.{Shared}
use turbomcp.Dispatcher.Handle.{handle, on_request}
use turbomcp.Dispatcher.Request.{handle_request}
use turbomcp.Dispatcher.Replies.Messages.{Fits, handle-Fits}
use turbomcp.Dispatcher.Gate.{
  closed, is_unsupported, version_refusal, handle_request-no_session, handle_request-unsupported,
}
use turbomcp.Sessions.InFlight as InFlight
use turbomcp.Dispatcher.Frame.{dispatched}
use turbomcp.Dispatcher.Handle.{enter, leave}
use turbomcp.Dispatcher.Opening.{admitted}
use turbomcp.Tests.Json.{object, nil}
use turbomcp.Dispatcher.Frame.{inflight-on_request}
use turbomcp.Dispatcher.Opening.{legacy_context-handle_initialize}
use turbomcp.Tests.Json.{Tree, text, object, nil, member, tree}
use turbomcp.Tests.Platform.{platform, base, initialize_params}
use turbomcp.Tests.Server.{
  router, server, config, readings, sessions, shared, params, asks, listing,
}

handle-Fits_example :
    Fits platform config readings
      (JsonRpc.request listing)
      (handle platform config readings shared (JsonRpc.request listing)).outcome
handle-Fits_example = handle-Fits platform config readings shared (JsonRpc.request listing) tt

legacy_route : classify_version tree listing.params config.supported ≡ legacy
unfolding classify_version route_of request_protocol_version from_wire
legacy_route = refl

named : session_id tree listing.params ≡ some "s1"
unfolding session_id meta_text
named = refl

connected : connection_id tree listing.params ≡ some "c1"
unfolding connection_id meta_text
connected = refl

unlisted :
    is_unsupported platform config readings shared
      (asks "tools/list" "1999")
      (request_protocol_version tree (asks "tools/list" "1999").params)
    ≡ true
unfolding request_protocol_version from_wire
unlisted = refl

absent :
    (session_id tree listing.params >>= λ sid.
    (Sessions.get tree readings.now sid shared.sessions).1)
    ≡ none
unfolding session_id meta_text Sessions.get Maps.get
absent = refl

handle_request-no_session_example :
    handle_request platform config readings shared listing
    ≡ closed platform config readings shared listing
handle_request-no_session_example =
    handle_request-no_session platform config readings shared listing refl legacy_route absent

handle_request-unsupported_example :
    handle_request platform config readings shared (asks "tools/list" "1999")
    ≡ version_refusal platform config readings shared (asks "tools/list" "1999")
handle_request-unsupported_example =
    handle_request-unsupported platform config readings shared (asks "tools/list" "1999") refl
      unlisted

abbrev during : Shared platform
during = enter platform config readings listing shared

inflight-on_request_example :
    (Maps.get ("c1", JsonRpc.string "r1") during.inflight ≡ some 21)
    × ((InFlight.cancel "c1" (JsonRpc.string "r1") during.inflight).1 ≡ some 21)
    × (Maps.get
          ("c1", JsonRpc.string "r1")
          (dispatched platform config readings listing during).shared.inflight
        ≡ some 21)
    × (on_request platform config readings shared listing
        ≡ record (dispatched platform config readings listing during) {
          shared =
              leave platform config readings listing
                (dispatched platform config readings listing during).shared;
        })
    × (Maps.get
          ("c1", JsonRpc.string "r1")
          (on_request platform config readings shared listing).shared.inflight
        ≡ none)
inflight-on_request_example =
    inflight-on_request platform config readings listing shared "c1" ("c1", JsonRpc.string "r1")
      connected

abbrev two_tasks : TaskStore (host base)
two_tasks =
    run (host base)
      ((1, 1, 1, creates "t1" 50 "s1" none 7)
        ∷ (2, 2, 2, creates "t2" 51 "s2" (some (pos 9_000_000)) 8)
        ∷ [])
      (record { inner = []; capacity = 8 })

handle_tasks_method-view_example :
    (handle_tasks_method platform 4 5 "s1"
      (asks "tasks/get" "2025-11-25")
      (view (host base) "s1" two_tasks)).1
    ≡ (handle_tasks_method platform 4 5 "s1" (asks "tasks/get" "2025-11-25") two_tasks).1
handle_tasks_method-view_example =
    handle_tasks_method-view platform 4 5 "s1" (asks "tasks/get" "2025-11-25") two_tasks
      (run-TaskStoreOk (host base) 8 (
        (1, 1, 1, creates "t1" 50 "s1" none 7)
        ∷ (2, 2, 2, creates "t2" 51 "s2" (some (pos 9_000_000)) 8)
        ∷ [])).distinct

abbrev opening : JsonRpcRequest Tree
opening = asks "initialize" "2025-11-25"

lately :
    is_expired tree sessions.idle_timeout 12 (record {
      state =
          opened_session platform
            (negotiate_initialize_version "2025-11-25" (v2025_11_25 ∷ draft ∷ []))
            (initialize_params "2025-11-25");
      last_seen = 10;
    })
    ≡ false
unfolding is_expired
lately = refl

legacy_context-handle_initialize_example :
    (admitted platform (
        (legacy_context platform 12 24
          (handle_initialize platform 10 server router
            (v2025_11_25 ∷ draft ∷ [])
            sessions
            true
            opening).0
          listing).1)
      ≡ some (
        v2025_11_25,
        some (record { name = "client"; title = none; version = "1"; extra = nil }),
        some (object nil),
        none,
      ))
    × (lists (v2025_11_25 ∷ draft ∷ []) v2025_11_25 ≡ true)
unfolding from_wire
legacy_context-handle_initialize_example =
    legacy_context-handle_initialize platform 10 12 24 server router v2025_11_25 (draft ∷ [])
      sessions true opening listing (params "2025-11-25") (initialize_params "2025-11-25") "s1" refl
      refl named named lately

abbrev member_entry : Entry tree
member_entry = record {
  state =
      opened_session platform (negotiate_initialize_version "2025-11-25" (v2025_11_25 ∷ draft ∷ []))
        (initialize_params "2025-11-25");
  last_seen = 5;
}

abbrev one_session : Shared platform
one_session = record shared { sessions = record sessions { inner = ("s1", member_entry) ∷ [] } }

abbrev sets_level : JsonRpcRequest Tree
sets_level = new_request (JsonRpc.string "r4") "logging/setLevel" (
    some (
      object (
        member "level" (text "info") (
          member "_meta"
            (object (
              member protocol_version_key (text "2025-11-25")
                (member session_id_key (text "s1") (member connection_id_key (text "c1") nil))))
            nil))))

level_route : route platform config readings sets_level ≡ legacy
unfolding classify_version route_of request_protocol_version from_wire
level_route = refl

level_session : session_id tree sets_level.params ≡ some "s1"
unfolding session_id meta_text
level_session = refl

level_parsed : parse_set_level_params platform sets_level.params ≡ ok info
unfolding parse_set_level_params
level_parsed = refl

recorded : Maps.get "s1" one_session.sessions.inner ≡ some member_entry
unfolding Maps.get
recorded = refl

awake : is_expired tree sessions.idle_timeout 10 member_entry ≡ false
unfolding is_expired
awake = refl

awake_later :
    is_expired tree sessions.idle_timeout 12
      (record { state = record member_entry.state { log_level = some info }; last_seen = 11 })
    ≡ false
unfolding is_expired
awake_later = refl

legacy_context-handle_request_example :
    ((handle_request platform config readings one_session sets_level).outcome
      ≡ reply (empty_reply platform config readings sets_level))
    × (admitted platform (
          (legacy_context platform 12 26
            (handle_request platform config readings one_session sets_level).shared.sessions
            listing).1)
        ≡ some (
          member_entry.state.version,
          some member_entry.state.client_info,
          some member_entry.state.client_capabilities,
          some info,
        ))
legacy_context-handle_request_example =
    legacy_context-handle_request platform config readings one_session sets_level 12 26 listing "s1"
      info member_entry refl level_route level_session named recorded awake refl level_parsed
      awake_later
