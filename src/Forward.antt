-- ===== src/Forward.antt =====
-- events.go: an open chaincode event stream, `EventStream`, as the steps of three parties: the goroutine
-- of `ChaincodeEvents` that forwards the events of the gateway library, the reader of the channel, and
-- those who end the stream.
pub mod Whole
pub mod Finish
pub mod Turns
use fabricsdk.Base.{
  ℕ, ◌+◌, ◌≡◌, Bool, true, false, ◌||◌, Option, none, some, List, [], ◌∷◌, ◌++◌, Text,
}
use fabricsdk.GoError.{Error}
use fabricsdk.Events.{ChaincodeEvent, stream_error}

-- The `ChaincodeEvent` of the gateway library.
pub record GatewayEvent : Type 0 where
  pub block_number : ℕ
  pub transaction_id : Text
  pub chaincode_name : Text
  pub event_name : Text
  pub payload : Text

-- The literal in the loop.
abbrev pub forward : GatewayEvent → ChaincodeEvent
forward ev = record {
  block_number = ev.block_number;
  tx_id = ev.transaction_id;
  chaincode_name = ev.chaincode_name;
  event_name = ev.event_name;
  payload = ev.payload;
}

-- Where the goroutine stands: at the head of the loop, in the `select`, before each of the two tests
-- after the loop, before the error is set, before `stop()`, before the deferred `close(s.ch)`, before
-- the deferred `release()`, and at its end.
pub data Pc : Type 0 where
  reading : Pc
  offering : ChaincodeEvent → Pc
  testing_ctx testing_stream failing stopping closing releasing done : Pc

-- A stream. The channel has no buffer, so an event leaves the goroutine when it is received.
-- `rest` is what the gateway has yet to send, `hung_up` tells whether the library has closed its
-- channel, `stopped` whether the stream's own context was canceled, `closed_early` whether that was by
-- `EventStream.Close`, and `dropped` has the event with which the goroutine left the `select`.
pub record Stream : Type 0 where
  pub pc : Pc
  pub rest : List GatewayEvent
  pub hung_up : Bool
  pub ctx_ended : Bool
  pub stopped : Bool
  pub closed_early : Bool
  pub received : List ChaincodeEvent
  pub dropped : List ChaincodeEvent
  pub err : Option Error
  pub is_closed : Bool
  pub releases : ℕ

-- `sctx` ends with the caller's context or when it is canceled.
abbrev pub ended : Stream → Bool
ended s = s.ctx_ended || s.stopped

-- A step of the goroutine; in `deliver` the reader takes part.
pub data Move (s : Stream) : Stream → Type 0 where
  read :
      {ev : GatewayEvent} {rest : List GatewayEvent}
      → s.pc ≡ reading
      → s.hung_up ≡ false
      → s.rest ≡ ev ∷ rest
      → Move s (record s { pc = offering (forward ev); rest = rest })
  drained : s.pc ≡ reading → s.hung_up ≡ true → Move s (record s { pc = testing_ctx })
  deliver :
      {out : ChaincodeEvent}
      → s.pc ≡ offering out
      → Move s (record s { pc = reading; received = s.received ++ (out ∷ []) })
  give_up :
      {out : ChaincodeEvent}
      → s.pc ≡ offering out
      → ended s ≡ true
      → Move s (record s { pc = closing; dropped = out ∷ [] })
  ctx_over : s.pc ≡ testing_ctx → s.ctx_ended ≡ true → Move s (record s { pc = stopping })
  ctx_active : s.pc ≡ testing_ctx → s.ctx_ended ≡ false → Move s (record s { pc = testing_stream })
  stream_over : s.pc ≡ testing_stream → ended s ≡ true → Move s (record s { pc = stopping })
  stream_active : s.pc ≡ testing_stream → ended s ≡ false → Move s (record s { pc = failing })
  fail : s.pc ≡ failing → Move s (record s { pc = stopping; err = stream_error false false })
  stop : s.pc ≡ stopping → Move s (record s { pc = closing; stopped = true })
  close_channel : s.pc ≡ closing → Move s (record s { pc = releasing; is_closed = true })
  release : s.pc ≡ releasing → Move s (record s { pc = done; releases = s.releases + 1 })

-- A step of the others: the caller's context ends, `EventStream.Close` is called, or the library closes
-- its channel.
pub data Act (s : Stream) : Stream → Type 0 where
  ctx_ends : Act s (record s { ctx_ended = true })
  close : Act s (record s { stopped = true; closed_early = true })
  hang_up : Act s (record s { hung_up = true })

-- A stream as `ChaincodeEvents` returns it, of which the gateway would send `sent`.
abbrev pub opened_stream : List GatewayEvent → Stream
opened_stream sent = record {
  pc = reading;
  rest = sent;
  hung_up = false;
  ctx_ended = false;
  stopped = false;
  closed_early = false;
  received = [];
  dropped = [];
  err = none;
  is_closed = false;
  releases = 0;
}

pub data Reach (sent : List GatewayEvent) : Stream → Type 0 where
  opened : Reach sent (opened_stream sent)
  moved : {s t : Stream} → Reach sent s → Move s t → Reach sent t
  acted : {s t : Stream} → Reach sent s → Act s t → Reach sent t
