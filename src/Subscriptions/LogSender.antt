-- ===== src/Subscriptions/LogSender.antt =====
-- crates/turbomcp-server/src/logging.rs: the log messages of one request, filtered by severity.
use turbomcp.Prelude.{
  ℕ, ◌≡◌, Bool, false, String, Option, none, some, ltb, leb, arith, if◌then◌else◌,
}
use turbomcp.Core.Context.{LogLevel, rank}
use turbomcp.Core.Json.{Json}
use turbomcp.Core.JsonRpc.{JsonRpcNotification, new_notification}
use turbomcp.Core.Methods as Methods
use turbomcp.Subscriptions.Outbound.{Writers, request_writer}

pub record Inner : Type 0 where
  pub min : LogLevel
  pub connection : String
  pub session : String

pub record LogSender : Type 0 where
  pub inner : Option Inner

unfoldable pub disabled : LogSender
disabled = record { inner = none }

unfoldable pub new : LogLevel → String → String → LogSender
new min connection session = record {
  inner = some (record { min = min; connection = connection; session = session });
}

unfoldable pub would_log : LogLevel → LogSender → Bool
would_log level s = elim s.inner [ none ↦ false | some i ↦ leb (rank i.min) (rank level) ]

-- `level_value` is serde's of a level.
module _ (J : Json) (level_value : LogLevel → J.Value) (is_open : ℕ → Bool) (table : Writers) where
  open J use {Value, object}

  abbrev pub with_logger : Option String → J.Object → J.Object
  with_logger none o = o
  with_logger (some logger) o = J.insert "logger" (J.string logger) o

  unfoldable pub log_params : LogLevel → Option String → Value → Value
  log_params level logger content =
      object (
        with_logger logger (J.insert "data" content (J.insert "level" (level_value level) J.empty)))

  -- To the writer, where its channel still takes messages.
  abbrev pub send : Option ℕ → Value → Option (ℕ × JsonRpcNotification Value)
  send none params = none
  send (some w) params =
      if is_open w then some (w, new_notification Methods.message (some params)) else none

  -- What is sent, and to whom.
  unfoldable pub log_with :
      LogLevel → Option String → Value → LogSender → Option (ℕ × JsonRpcNotification Value)
  log_with level logger content s = elim s.inner [
    | none ↦ none
    | some i ↦
        if ltb (rank level) (rank i.min)
        then none
        else send (request_writer i.connection i.session table) (log_params level logger content)
  ]

  unfoldable pub log : LogLevel → Value → LogSender → Option (ℕ × JsonRpcNotification Value)
  unfolding log_with
  log level content s = log_with level none content s

  -- A message that would not be logged is not sent.
  log_with-would_log :
      (level : LogLevel) (logger : Option String) (content : Value) (s : LogSender)
      → would_log level s ≡ false
      → log_with level logger content s ≡ none
  unfolding log_with would_log
  log_with-would_log level logger content s h = ground arith
