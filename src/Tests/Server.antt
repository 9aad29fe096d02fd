-- ===== src/Tests/Server.antt =====
-- A server with one tool that asks its client for input, two connections, and a request.
use turbomcp.Prelude.{
  true, false, String, none, some, [], ◌∷◌, ok, err, string_key, option_key, pair_key,
}
use turbomcp.Core.Error.{input_required}
use turbomcp.Core.Version.{v2025_11_25, draft}
use turbomcp.Core.Meta.{session_id_key, connection_id_key, protocol_version_key}
use turbomcp.Core.JsonRpc.{RequestId, request_id_key, JsonRpcRequest, new_request}
use turbomcp.Core.JsonRpc as JsonRpc
use turbomcp.Sessions.Store.{SessionStore}
use turbomcp.Neutral.Types as Neutral
use turbomcp.Dispatcher.Platform.{serde}
use turbomcp.Dispatcher.Router.{MethodRouter, Outcome, default_policies}
use turbomcp.Dispatcher.Handshake.{ServerCore}
use turbomcp.Dispatcher.State.{Shared, Config, Readings, running}
use turbomcp.Tests.Json.{Tree, null, text, object, nil, member, tree}
use turbomcp.Tests.Neutral.{tools}
use turbomcp.Tests.Platform.{platform, base}

abbrev pub asking : Outcome platform (Neutral.CallToolResult (serde base))
asking = record { result = err input_required; collected = []; state_out = some null }

abbrev pub router : MethodRouter platform
router = record {
  list_tools = some (λ _ _. ok tools);
  call_tool = some (λ _ _. asking);
  list_resources = none;
  read_resource = none;
  list_resource_templates = none;
  list_prompts = none;
  get_prompt = none;
  complete = none;
  logging = true;
}

abbrev pub server : ServerCore platform
server = record {
  server_info = record { name = "server"; title = none; version = "1"; extra = nil };
  instructions = none;
}

abbrev pub config : Config platform
config = record {
  server = server;
  router = router;
  supported = v2025_11_25 ∷ draft ∷ [];
  extensions = [];
  signer_key = 1;
  strict_elicitation_keys = false;
  server_info_meta = true;
  cache = default_policies;
}

abbrev pub readings : Readings platform
readings = record {
  now = 10;
  later = 11;
  seconds = 0;
  wall = 5;
  token = 21;
  context_token = 22;
  slot = 23;
  minted = record { now = 12; created = 12; wall = 6; task_id = "t1"; channel = 24; token = 25 };
  writers = ("c1", 7) ∷ [];
  is_open = λ _. true;
  cancellation = running;
}

abbrev pub sessions : SessionStore tree
sessions = record { inner = []; capacity = 4; idle_timeout = some 100 }

abbrev pub shared : Shared platform
shared = record {
  sessions = sessions;
  tasks = some (record { inner = []; capacity = 8 });
  inflight = (("c2", JsonRpc.string "r1"), 9) ∷ [];
  subs = [];
  routes = [];
  pending = [];
}

-- Parameters with the given `_meta` texts.
abbrev pub params : String → Tree
params version = object (
    member "_meta"
      (object (
        member protocol_version_key (text version)
          (member session_id_key (text "s1") (member connection_id_key (text "c1") nil))))
      (member "protocolVersion" (text version) nil))

abbrev pub asks : String → String → JsonRpcRequest Tree
asks method version = new_request (JsonRpc.string "r1") method (some (params version))

abbrev pub listing : JsonRpcRequest Tree
listing = asks "tools/list" "2025-11-25"
