-- ===== src/Forward/Turns.antt =====
-- A stream as its reader sees it, and a listener that reads such streams.
use fabricsdk.Base.{
  ◌≡◌, ◌⊎◌, refl, sym, ap, ◌∙◌, inl, inr, true, false, Option, none, some, List, [], ◌++◌, map,
  arith,
}
use fabricsdk.GoError.{GoError, Error, boxed, as_error}
use fabricsdk.Events.{ChaincodeEvent, stream_error, reconnectable}
use fabricsdk.Errors.{new_error, kind_of}
use fabricsdk.Listen.{Session, streamed}
use fabricsdk.Forward.{GatewayEvent, forward, Pc, releasing, done, Stream, Reach}
use fabricsdk.Forward.Whole.{Inv, Reach-Inv, asked, closes_at, held, is_early}

-- `EventStream.Err`.
abbrev pub stream_err : Stream → Option GoError
stream_err s = elim s.err [ none ↦ none | some e ↦ some (boxed e) ]

-- What a reader sees that reads to the end of the channel and then asks for the error.
abbrev pub session_of : Stream → Session ChaincodeEvent
session_of s = streamed s.received (stream_err s)

-- What a reader knows once the channel is closed. What it received is the first of the events of the
-- gateway, in their order; and there is no error and the caller has ended the stream, or the gateway
-- hung up, every event that the goroutine read was received, and the error is one after which a
-- listener reconnects.
pub record Explained (sent : List GatewayEvent) (s : Stream) : Type 0 where
  pub after : List ChaincodeEvent
  pub in_order : map forward sent ≡ s.received ++ after
  pub reason :
      ((s.err ≡ none) × (asked s ≡ true))
      ⊎ ((e : Error) × (s.err ≡ some e)
          × (s.hung_up ≡ true)
          × (reconnectable (boxed e) ≡ true)
          × (map forward sent ≡ s.received ++ map forward s.rest))

reconnectable-stream_error :
    (e : Error) → stream_error false false ≡ some e → reconnectable (boxed e) ≡ true
unfolding stream_error reconnectable new_error kind_of as_error
reconnectable-stream_error e h = ground arith

nothing_held : (p : Pc) → closes_at p ≡ true → (held p ≡ []) × (is_early p ≡ false)
nothing_held releasing c = (refl, refl)
nothing_held done c = (refl, refl)
nothing_held _ c = absurd (cc)

all_received :
    {sent : List GatewayEvent} {s : Stream}
    → Inv sent s
    → s.dropped ≡ []
    → held s.pc ≡ []
    → map forward sent ≡ s.received ++ map forward s.rest
all_received {s} v d h =
    v.whole
    ∙ ap (λ (x : List ChaincodeEvent). s.received ++ (x ++ (held s.pc ++ map forward s.rest))) d
    ∙ ap (λ (x : List ChaincodeEvent). s.received ++ (x ++ map forward s.rest)) h

stream_error-some : (e : Error) × (stream_error false false ≡ some e)
unfolding stream_error
stream_error-some = (_, refl)

closed_error :
    {sent : List GatewayEvent} {s : Stream}
    → Inv sent s
    → s.err ≡ stream_error false false
    → s.hung_up ≡ true
    → held s.pc ≡ []
    → (e : Error) × (s.err ≡ some e)
      × (s.hung_up ≡ true)
      × (reconnectable (boxed e) ≡ true)
      × (map forward sent ≡ s.received ++ map forward s.rest)
closed_error {s} v f hung h =
    let (e, some_e) = stream_error-some in
    let kept : s.dropped ≡ [] = elim v.lossless [
      | inl d ↦ d
      | inr n ↦ absurd (cc (n, f, some_e))
    ] in
    (e, f ∙ some_e, hung, reconnectable-stream_error e some_e, all_received v kept h)

-- Once a reader finds the channel closed, what it has received is the first of the events of the
-- gateway, in order. If `Err` is nil the caller's context has ended or `Close` was called. If not, the
-- gateway hung up, no event that was read is lost, and a listener reconnects after the error.
pub Reach-Explained :
    {sent : List GatewayEvent} {s : Stream} → Reach sent s → s.is_closed ≡ true → Explained sent s
Reach-Explained {s} r c =
    let v = Reach-Inv r in
    let (h, late) = nothing_held s.pc (sym v.channel ∙ c) in
    record {
      after = s.dropped ++ (held s.pc ++ map forward s.rest);
      in_order = v.whole;
      reason = elim v.cause [
        | inl n ↦ inl (n, v.explained late n)
        | inr (f, hung) ↦ inr (closed_error v f hung h)
      ];
    }
