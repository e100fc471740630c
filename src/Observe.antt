-- ===== src/Observe.antt =====
-- observe.go: the hooks for logging and metrics. A hook that the caller supplies is a tag.
use fabricsdk.Base.{ℕ, Option, none, some, Text}
use fabricsdk.GoError.{GoError}

pub data Logger : Type 0 where
  noop : Logger
  slog custom : ℕ → Logger

pub data Observer : Type 0 where
  noop : Observer
  custom : ℕ → Observer

-- `NewSlogLogger`; a nil logger gives the silent one.
unfoldable pub new_slog_logger : Option ℕ → Logger
new_slog_logger none = Logger.noop
new_slog_logger (some l) = slog l

pub data Op : Type 0 where
  evaluate endorse submit commit tx_status : Op

-- One finished operation, as it is passed to the observer.
pub record CallInfo : Type 0 where
  pub operation : Op
  pub channel : Text
  pub chaincode : Text
  pub contract : Text
  pub function : Text
  pub msp_id : Text
  pub tx_id : Text
  pub duration : ℕ
  pub err : Option GoError
