-- ===== src/Dispatcher/Handshake/Stamp.antt =====
-- crates/turbomcp-server/src/dispatcher/handshake.rs: the identity of the server in the results of
-- protocol version 2026-07-28.
use mathlib.Core.Option
use turbomcp.Prelude.{none, some, [], ok, err, if◌then◌else◌}
use turbomcp.Core.Json.{◌>>=◌}
use turbomcp.Core.Context.{Implementation}
use turbomcp.Core.JsonRpc.{RequestId, JsonRpcRequest, JsonRpcResponse}
use turbomcp.Core.JsonRpc
use turbomcp.Core.Meta.{server_info_key}
use turbomcp.Neutral.Draft.Wire as Draft
use turbomcp.Dispatcher.Platform.{Platform, json}
use turbomcp.Dispatcher.Responses.{Message, is_some_value}

module _ (P : Platform) where
  abbrev Value : Type 0
  Value = (json P).Value

  -- `to_draft_impl`.
  abbrev pub to_draft_implementation : Implementation (json P) → Draft.Implementation
  to_draft_implementation i = record {
    description = none;
    icons = [];
    name = i.name;
    title = i.title;
    version = i.version;
    website_url = none;
  }

  -- The identity under its key, unless the `_meta` names one.
  abbrev pub with_info : Value → (json P).Object → (json P).Object
  with_info info meta =
      if is_some_value P ((json P).get server_info_key meta)
      then meta
      else (json P).insert server_info_key info meta

  -- The identity in the `_meta` of a result, which is made if it is missing.
  unfoldable pub stamped : Value → (json P).Object → (json P).Object
  stamped info result =
      let J = json P in
      let entry = Option.get_or (J.get "_meta" result) (J.object J.empty) in
      let kept = J.insert "_meta" entry result in
      elim (J.as_object entry) [
        | none ↦ kept
        | some meta ↦ J.insert "_meta" (J.object (with_info info meta)) kept
      ]

  unfoldable pub stamp_server_info : Implementation (json P) → Message P → Message P
  unfolding stamped
  stamp_server_info info (JsonRpc.response r) = elim (r.result >>= (json P).as_object) [
    | none ↦ JsonRpc.response r
    | some result ↦ elim (P.draft_implementation_value (to_draft_implementation info)) [
      | err _ ↦ JsonRpc.response r
      | ok value ↦
          JsonRpc.response (record r { result = some ((json P).object (stamped value result)) })
    ]
  ]
  stamp_server_info info (JsonRpc.request r) = JsonRpc.request r
  stamp_server_info info (JsonRpc.notification n) = JsonRpc.notification n
