-- ===== src/Events.antt =====
-- events.go: options, stream errors, and when a listener reconnects.
pub mod Backoff
use fabricsdk.Base.{
  ℕ, Bool, true, false, ◌&&◌, not, Option, none, some, List, [], ◌∷◌, ℤ, pos, negsuc, ltbℤ, minℤ,
  double, Text, codes, if◌then◌else◌,
}
use fabricsdk.GoError.{GoError, Error, boxed}
use fabricsdk.Kinds.{Kind, ErrorSource}
use fabricsdk.Errors.{new_error, kind_of}
use fabricsdk.Config.{new_go_error}
use fabricsdk.Contract.{Contract}

pub record ChaincodeEvent : Type 0 where
  pub block_number : ℕ
  pub tx_id : Text
  pub chaincode_name : Text
  pub event_name : Text
  pub payload : Text

-- The struct `eventOptions`; a checkpointer is a tag here, and its operations are those of Listen.
pub record EventOptions : Type 0 where
  pub start_block : Option ℕ
  pub checkpoint : Option ℕ
  pub chaincode : Text
  pub min_backoff : ℤ
  pub max_backoff : ℤ

-- `EventOption`, by the four functions that make one.
pub data EventOption : Type 0 where
  from_block with_checkpointer : ℕ → EventOption
  for_chaincode : Text → EventOption
  retry_backoff : ℤ → ℤ → EventOption

unfoldable pub apply_event_option : EventOption → EventOptions → EventOptions
apply_event_option (from_block n) o = record o { start_block = some n }
apply_event_option (with_checkpointer cp) o = record o { checkpoint = some cp }
apply_event_option (for_chaincode name) o = record o { chaincode = name }
apply_event_option (retry_backoff lo hi) o = record o { min_backoff = lo; max_backoff = hi }

unfoldable pub apply_event_options : List EventOption → EventOptions → EventOptions
unfolding apply_event_option
apply_event_options [] o = o
apply_event_options (f ∷ fs) o = apply_event_options fs (apply_event_option f o)

abbrev pub second : ℤ
second = pos 1_000_000_000

-- `if o.minBackoff <= 0`, and then `if o.maxBackoff < o.minBackoff`.
unfoldable pub fix_min : EventOptions → EventOptions
fix_min o = if ltbℤ (pos 0) o.min_backoff then o else record o { min_backoff = second }

unfoldable pub fix_max : EventOptions → EventOptions
fix_max o = if ltbℤ o.max_backoff o.min_backoff then record o { max_backoff = o.min_backoff } else o

-- The options before their delays are put right.
unfoldable pub chosen_options : Contract → List EventOption → EventOptions
unfolding apply_event_options
chosen_options c opts = apply_event_options opts (record {
  start_block = none;
  checkpoint = none;
  chaincode = c.chaincode;
  min_backoff = second;
  max_backoff = pos 30_000_000_000;
})

-- `Contract.eventOptions`.
unfoldable pub event_options : Contract → List EventOption → EventOptions
unfolding chosen_options fix_min fix_max
event_options c opts = fix_max (fix_min (chosen_options c opts))

-- `backoff = min(backoff*2, o.maxBackoff)`
unfoldable pub next_backoff : ℤ → ℤ → ℤ
next_backoff max_backoff backoff = minℤ (double backoff) max_backoff

-- `ErrStreamClosed`.
abbrev pub err_stream_closed : GoError
err_stream_closed = new_go_error (codes "event stream closed by the gateway")

-- What `EventStream.Err` reports once the Gateway has ended the stream, by whether the caller's and the
-- stream's context have ended.
unfoldable pub stream_error : Bool → Bool → Option Error
stream_error ctx_ended stream_ended =
    if not ctx_ended && not stream_ended
    then some (record {
      info =
          (new_error Kind.unavailable ErrorSource.network
            (codes "event stream closed by the gateway")).info;
      cause = some err_stream_closed;
    })
    else none

abbrev final_kind : Kind → Bool
final_kind Kind.config = true
final_kind Kind.unauthorized = true
final_kind Kind.invalid_argument = true
final_kind Kind.not_found = true
final_kind _ = false

-- `reconnectable`.
unfoldable pub reconnectable : GoError → Bool
reconnectable e = not (final_kind (kind_of (some e)))
