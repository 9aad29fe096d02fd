-- ===== src/Tests/Interaction.antt =====
-- The theorems on requests that wait for input and on subscriptions, applied to the server of
-- Tests/Server.
use turbomcp.Prelude.{
  ◌≡◌, refl, true, false, String, none, some, [], ok, string_key, option_key, pair_key,
}
use turbomcp.Prelude.HashMap as Maps
use turbomcp.Core.Version.{ProtocolVersion, v2025_11_25, draft, lists}
use turbomcp.Core.Meta.{connection_id_key, protocol_version_key}
use turbomcp.Core.JsonRpc.{RequestId, request_id_key, JsonRpcRequest, new_request}
use turbomcp.Core.JsonRpc as JsonRpc
use turbomcp.RequestState.Signer.{state_ttl, token_of}
use turbomcp.RequestState.Signer as Signer
use turbomcp.Dispatcher.Context.{new_context, mrtr, subject_of}
use turbomcp.Dispatcher.Listen.{handle_subscriptions_listen}
use turbomcp.Dispatcher.Listen.{Listened}
use turbomcp.Dispatcher.Frames.{RawListenParams}
use turbomcp.Dispatcher.Capability.{
  Signing, mrtr_handle, draft_wire, finish_mrtr, input_required_reply,
}
use turbomcp.Dispatcher.Retry.{request_state_of, mrtr_handle-finish_mrtr}
use turbomcp.Tests.Json.{Tree, null, text, object, nil, member, tree}
use turbomcp.Tests.Crypto.{crypto}
use turbomcp.Tests.Platform.{platform}
use turbomcp.Tests.Server.{asking, router, config, readings}

abbrev first_signing : Signing platform
first_signing = record { key = 1; now = 0 }

abbrev later_signing : Signing platform
later_signing = record { key = 1; now = 30 }

abbrev token : String
token = token_of crypto 600 32

abbrev retry : JsonRpcRequest Tree
retry =
    new_request (JsonRpc.string "r2") "tools/call"
      (some (object (member "requestState" (text token) nil)))

minted :
    request_state_of platform (
      finish_mrtr platform
        (draft_wire platform).call_tool
        (JsonRpc.string "r1")
        "tools/call"
        none
        (some asking)
        first_signing
        true)
    ≡ some token
unfolding finish_mrtr input_required_reply draft_wire Signer.sign Signer.payload_value
minted = refl

mrtr_handle-finish_mrtr_example :
    mrtr_handle platform (draft_wire platform) later_signing false retry (new_context tree draft 9)
    ≡ ok (mrtr tree none [] (some null) false)
unfolding new_context subject_of
mrtr_handle-finish_mrtr_example =
    mrtr_handle-finish_mrtr platform (draft_wire platform).call_tool (JsonRpc.string "r1")
      "tools/call" none asking null first_signing later_signing token false retry
      (object (member "requestState" (text token) nil))
      (record { input_responses = none; request_state = some token }) (new_context tree draft 9)
      refl refl minted refl refl refl refl

abbrev wanted : RawListenParams
wanted = record {
  notifications = record {
    tools_list_changed = some true;
    resources_list_changed = some true;
    prompts_list_changed = none;
    resource_subscriptions = [];
  };
}

abbrev listens : JsonRpcRequest Tree
listens = new_request (JsonRpc.string "r3") "subscriptions/listen" (
    some (
      object (
        member "notifications"
          (object (member "toolsListChanged" null (member "resourcesListChanged" null nil)))
          (member "_meta"
            (object (
              member protocol_version_key (text "2026-07-28")
                (member connection_id_key (text "c1") nil)))
            nil))))

abbrev opened : Listened platform
opened =
    handle_subscriptions_listen platform router config.supported [] readings.writers
      readings.is_open false 9 listens []
