-- ===== src/Hooks.antt =====
-- observe.go: what the logger and the observer of a configuration get of a trace. The hooks that the
-- caller supplies, and those of package slog, are functions on a state of theirs.
use fabricsdk.Base.{
  ℕ, Bool, true, false, Option, none, some, List, [], ◌∷◌, ◌++◌, ℤ, Text, codes, if◌then◌else◌,
}
use fabricsdk.Kinds.{Kind}
use fabricsdk.Observe.{Logger, Observer, slog, Op, CallInfo}
use fabricsdk.World.{Event, observed, failed, committed, stream_ended, ready}

-- A value of a log line.
pub data Value : Type 0 where
  text : Text → Value
  number : ℕ → Value
  duration : ℤ → Value
  kind : Kind → Value

-- A call of `Info` or `Error`: the message, and the keys with their values.
pub record Line : Type 0 where
  pub is_error : Bool
  pub message : Text
  pub values : List (Text × Value)

-- The operation names.
pub op_name : Op → Text
op_name Op.evaluate = codes "evaluate"
op_name Op.endorse = codes "endorse"
op_name Op.submit = codes "submit"
op_name Op.commit = codes "commit"
op_name Op.tx_status = codes "tx_status"

-- The line that is logged about an event.
pub line_of : Event → Option Line
unfolding op_name
line_of (failed op fn tx k) = some (record {
  is_error = true;
  message = codes "fabricsdk: " ++ (op_name op ++ codes " failed");
  values = (codes "fn", text fn) ∷ (codes "txID", text tx) ∷ (codes "kind", kind k) ∷ [];
})
line_of (committed fn tx block) = some (record {
  is_error = false;
  message = codes "fabricsdk: committed";
  values = (codes "fn", text fn) ∷ (codes "txID", text tx) ∷ (codes "block", number block) ∷ [];
})
line_of (stream_ended (some chaincode) block delay) = some (record {
  is_error = true;
  message = codes "fabricsdk: chaincode event stream ended; reconnecting";
  values =
      (codes "chaincode", text chaincode)
      ∷ (codes "block", number block)
      ∷ (codes "retryIn", duration delay)
      ∷ [];
})
line_of (stream_ended none block delay) = some (record {
  is_error = true;
  message = codes "fabricsdk: block stream ended; reconnecting";
  values = (codes "block", number block) ∷ (codes "retryIn", duration delay) ∷ [];
})
line_of (ready peer msp_id channel chaincode) = some (record {
  is_error = false;
  message = codes "fabricsdk: client ready";
  values =
      (codes "peer", text peer)
      ∷ (codes "mspID", text msp_id)
      ∷ (codes "channel", text channel)
      ∷ (codes "chaincode", text chaincode)
      ∷ [];
})
line_of _ = none

-- What the methods of a `*slog.Logger`, of the caller's logger and of the caller's observer do; an
-- `ObserverFunc` is one of the latter.
pub record Hooks (S : Type 0) : Type 0 where
  pub slog_info : ℕ → Text → List (Text × Value) → S → S
  pub slog_error : ℕ → Text → List (Text × Value) → S → S
  pub info : ℕ → Text → List (Text × Value) → S → S
  pub error : ℕ → Text → List (Text × Value) → S → S
  pub observe : ℕ → CallInfo → S → S

module _ {S : Type 0} (h : Hooks S) where
  -- `Info` and `Error` of `noopLogger`, of `slogLogger` and of the caller's logger.
  log_line : Logger → Line → S → S
  log_line Logger.noop line s = s
  log_line (slog l) line s =
      if line.is_error
      then h.slog_error l line.message line.values s
      else h.slog_info l line.message line.values s
  log_line (Logger.custom l) line s =
      if line.is_error
      then h.error l line.message line.values s
      else h.info l line.message line.values s

  -- `ObserveCall` of `noopObserver` and of the caller's observer.
  observe_call : Observer → CallInfo → S → S
  observe_call Observer.noop i s = s
  observe_call (Observer.custom o) i s = h.observe o i s

  log_option : Logger → Option Line → S → S
  unfolding log_line
  log_option l none s = s
  log_option l (some line) s = log_line l line s

  -- What one event is to the two hooks.
  hear : Logger → Observer → Event → S → S
  unfolding observe_call log_option line_of
  hear l o (observed i) s = observe_call o i s
  hear l o e s = log_option l (line_of e) s

  -- The hooks are called synchronously, in the order of the trace.
  pub hear_all : Logger → Observer → List Event → S → S
  unfolding hear
  hear_all l o [] s = s
  hear_all l o (e ∷ es) s = hear_all l o es (hear l o e s)
