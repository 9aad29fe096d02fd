-- ===== src/Dispatcher/Context.antt =====
-- crates/turbomcp-core/src/context.rs and crates/turbomcp-server/src/context.rs: what a handler is
-- called with, with the constructors of the `ClientHandle` of mrtr.rs and the `ProgressReporter` of
-- progress.rs. A cancellation token is a number. The `extensions` of a context, a map by type that
-- every clone empties, are left out.
use turbomcp.Prelude.{ℕ, Bool, false, String, Option, none, some, []}
use turbomcp.Prelude.HashMap.{HashMap}
use turbomcp.Core.Json.{Json}
use turbomcp.Core.Version.{ProtocolVersion}
use turbomcp.Core.Context.{Implementation, LogLevel}
use turbomcp.Core.Meta.{Identity, anonymous, bearer, TraceContext}
use turbomcp.Subscriptions.LogSender.{LogSender}
use turbomcp.Subscriptions.LogSender as Logs

-- How a handle reaches the client; the handle of a task has a slot, which is a number.
pub data HandleMode : Type 0 where
  mrtr_mode : HandleMode
  bidi_mode : String → String → HandleMode
  task_mediated_mode : ℕ → HandleMode
  unavailable_mode : String → HandleMode

module _ (J : Json) where
  open J use {Value, Object}

  pub record RequestContext : Type 0 where
    pub protocol_version : ProtocolVersion
    pub client_info : Option (Implementation J)
    pub client_capabilities : Option Value
    pub log_level : Option LogLevel
    pub trace_context : Option TraceContext
    pub identity : Identity Object
    pub cancellation : ℕ
    pub propagated_meta : Object

  unfoldable pub new_context : ProtocolVersion → ℕ → RequestContext
  new_context version token = record {
    protocol_version = version;
    client_info = none;
    client_capabilities = none;
    log_level = none;
    trace_context = none;
    identity = anonymous;
    cancellation = token;
    propagated_meta = J.empty;
  }

  abbrev pub with_client_info : Implementation J → RequestContext → RequestContext
  with_client_info info ctx = record ctx { client_info = some info }

  abbrev pub with_propagated_meta : Object → RequestContext → RequestContext
  with_propagated_meta meta ctx = record ctx { propagated_meta = meta }

  abbrev pub new_implementation : String → String → Implementation J
  new_implementation name version = record {
    name = name;
    title = none;
    version = version;
    extra = J.empty;
  }

  -- `Identity::subject` of the identities that `extract_identity` gives.
  unfoldable pub subject_of : Identity Object → Option String
  subject_of anonymous = none
  subject_of (bearer sub _) = some sub

  -- What a `ClientHandle` is made with. What the handler records on it, the input requests and the
  -- state, is part of the handler's outcome.
  pub record ClientHandle : Type 0 where
    pub mode : HandleMode
    pub client_capabilities : Option Value
    pub responses : HashMap String Value
    pub state_in : Option Value
    pub strict_keys : Bool

  unfoldable pub unavailable : String → ClientHandle
  unavailable reason = record {
    mode = unavailable_mode reason;
    client_capabilities = none;
    responses = [];
    state_in = none;
    strict_keys = false;
  }

  unfoldable pub mrtr : Option Value → HashMap String Value → Option Value → Bool → ClientHandle
  mrtr client_capabilities responses state_in strict_keys = record {
    mode = mrtr_mode;
    client_capabilities = client_capabilities;
    responses = responses;
    state_in = state_in;
    strict_keys = strict_keys;
  }

  unfoldable pub task_mediated : Option Value → ℕ → ClientHandle
  task_mediated client_capabilities slot = record {
    mode = task_mediated_mode slot;
    client_capabilities = client_capabilities;
    responses = [];
    state_in = none;
    strict_keys = false;
  }

  unfoldable pub bidi : String → String → Option Value → ClientHandle
  bidi session connection client_capabilities = record {
    mode = bidi_mode session connection;
    client_capabilities = client_capabilities;
    responses = [];
    state_in = none;
    strict_keys = false;
  }

  -- The token, the connection and the session of a `ProgressReporter`, if it reports.
  pub record ProgressReporter : Type 0 where
    pub inner : Option (Value × String × String)

  unfoldable pub disabled_progress : ProgressReporter
  disabled_progress = record { inner = none }

  unfoldable pub new_progress : Value → String → String → ProgressReporter
  new_progress token connection session = record { inner = some (token, connection, session) }

  -- `CallToolContext`, `ReadResourceContext` and `GetPromptContext`; the context of the other
  -- handlers is the `RequestContext`.
  pub record MrtrContext : Type 0 where
    pub base : RequestContext
    pub client : ClientHandle
    pub progress : ProgressReporter
    pub log : LogSender

  unfoldable pub new_mrtr_context : RequestContext → MrtrContext
  unfolding unavailable disabled_progress Logs.disabled
  new_mrtr_context base = record {
    base = base;
    client = unavailable "no client channel attached";
    progress = disabled_progress;
    log = Logs.disabled;
  }

  abbrev pub with_client : ClientHandle → MrtrContext → MrtrContext
  with_client client ctx = record ctx { client = client }

  abbrev pub with_progress : ProgressReporter → MrtrContext → MrtrContext
  with_progress progress ctx = record ctx { progress = progress }

  abbrev pub with_log : LogSender → MrtrContext → MrtrContext
  with_log log ctx = record ctx { log = log }
