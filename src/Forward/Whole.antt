-- ===== src/Forward/Whole.antt =====
-- What holds of a stream in every state that it reaches.
use fabricsdk.Base.{
  ℕ, ◌≡◌, ◌⊎◌, refl, sym, ap, ◌∙◌, inl, Bool, true, false, ◌||◌, none, List, [], ◌∷◌, ◌++◌,
  append_assoc, map, arith,
}
use fabricsdk.Events.{ChaincodeEvent, stream_error}
use fabricsdk.Forward.{
  GatewayEvent, forward, Pc, reading, offering, testing_ctx, testing_stream, failing, stopping,
  closing, releasing, done, Stream, Move, read, drained, deliver, give_up, ctx_over, ctx_active,
  stream_over, stream_active, fail, stop, close_channel, release, Act, ctx_ends, close, hang_up,
  Reach, opened, moved, acted,
}

-- The event that the goroutine holds.
abbrev pub held : Pc → List ChaincodeEvent
held (offering out) = out ∷ []
held _ = []

-- Before the goroutine leaves its body.
abbrev pub is_running : Pc → Bool
is_running closing = false
is_running releasing = false
is_running done = false
is_running _ = true

-- Before the error can be set.
abbrev pub is_early : Pc → Bool
is_early stopping = false
is_early closing = false
is_early releasing = false
is_early done = false
is_early _ = true

abbrev pub is_looping : Pc → Bool
is_looping reading = true
is_looping (offering out) = true
is_looping _ = false

abbrev pub is_testing : Pc → Bool
is_testing testing_ctx = true
is_testing testing_stream = true
is_testing failing = true
is_testing _ = false

abbrev pub closes_at : Pc → Bool
closes_at releasing = true
closes_at done = true
closes_at _ = false

abbrev pub releases_at : Pc → ℕ
releases_at done = 1
releases_at _ = 0

-- The caller has ended the stream.
abbrev pub asked : Stream → Bool
asked s = s.ctx_ended || s.closed_early

pub record Inv (sent : List GatewayEvent) (s : Stream) : Type 0 where
  pub whole : map forward sent ≡ s.received ++ (s.dropped ++ (held s.pc ++ map forward s.rest))
  pub kept : is_running s.pc ≡ true → s.dropped ≡ []
  pub dropped_asked : (s.dropped ≡ []) ⊎ (asked s ≡ true)
  pub lossless : (s.dropped ≡ []) ⊎ (s.err ≡ none)
  pub by_close : is_early s.pc ≡ true → s.stopped ≡ s.closed_early
  pub cause : (s.err ≡ none) ⊎ ((s.err ≡ stream_error false false) × (s.hung_up ≡ true))
  pub no_error : is_early s.pc ≡ true → s.err ≡ none
  pub explained : is_early s.pc ≡ false → s.err ≡ none → asked s ≡ true
  pub drained_first : is_testing s.pc ≡ true → s.hung_up ≡ true
  pub over : is_looping s.pc ≡ false → (s.hung_up ≡ true) ⊎ (asked s ≡ true)
  pub channel : s.is_closed ≡ closes_at s.pc
  pub once : s.releases ≡ releases_at s.pc

Act-Inv : {sent : List GatewayEvent} {s t : Stream} → Act s t → Inv sent s → Inv sent t
Act-Inv ctx_ends v = ground arith
Act-Inv close v = ground arith
Act-Inv hang_up v = ground arith

at_offer :
    {sent : List GatewayEvent} {s : Stream} {out : ChaincodeEvent}
    → s.pc ≡ offering out
    → Inv sent s
    → (s.dropped ≡ []) × (map forward sent ≡ s.received ++ (out ∷ map forward s.rest))
at_offer {s} {out} p v =
    let empty : s.dropped ≡ [] = ground (arith, v.kept) in
    (
      empty,
      v.whole
          ∙ ap (λ (x : Pc). s.received ++ (s.dropped ++ (held x ++ map forward s.rest))) p
          ∙ ap (λ (x : List ChaincodeEvent). s.received ++ (x ++ (out ∷ map forward s.rest))) empty,
    )

Move-Inv : {sent : List GatewayEvent} {s t : Stream} → Move s t → Inv sent s → Inv sent t
unfolding stream_error
Move-Inv {sent} {s} (read {ev} {rest} p h e) v = record {
  whole =
      v.whole
      ∙ ap
          (λ (x : Pc × List GatewayEvent).
            s.received ++ (s.dropped ++ (held x.0 ++ map forward x.1)))
          (ap (λ (x : Pc). (x, s.rest)) p ∙ ap (λ x. (reading, x)) e);
  kept = ground arith;
  dropped_asked = ground arith;
  lossless = ground arith;
  by_close = ground arith;
  cause = ground arith;
  no_error = ground arith;
  explained = ground arith;
  drained_first = ground arith;
  over = ground arith;
  channel = ground arith;
  once = ground arith;
}
Move-Inv {sent} {s} (drained p h) v = ground arith
Move-Inv {sent} {s} (deliver {out} p) v = record {
  whole =
      let (empty, w) = at_offer p v in
      w
      ∙ sym (append_assoc s.received (out ∷ []) (map forward s.rest))
      ∙ ap (λ (x : List ChaincodeEvent). (s.received ++ (out ∷ [])) ++ (x ++ map forward s.rest))
          (sym empty);
  kept = ground arith;
  dropped_asked = ground arith;
  lossless = ground arith;
  by_close = ground arith;
  cause = ground arith;
  no_error = ground arith;
  explained = ground arith;
  drained_first = ground arith;
  over = ground arith;
  channel = ground arith;
  once = ground arith;
}
Move-Inv {sent} {s} (give_up {out} p e) v = record {
  whole = (at_offer p v).1;
  kept = ground arith;
  dropped_asked = ground arith;
  lossless = ground arith;
  by_close = ground arith;
  cause = ground arith;
  no_error = ground arith;
  explained = ground arith;
  drained_first = ground arith;
  over = ground arith;
  channel = ground arith;
  once = ground arith;
}
Move-Inv {sent} {s} (ctx_over p e) v = ground arith
Move-Inv {sent} {s} (ctx_active p e) v = ground arith
Move-Inv {sent} {s} (stream_over p e) v = ground arith
Move-Inv {sent} {s} (stream_active p e) v = ground arith
Move-Inv {sent} {s} (fail p) v = ground arith
Move-Inv {sent} {s} (stop p) v = ground arith
Move-Inv {sent} {s} (close_channel p) v = ground arith
Move-Inv {sent} {s} (release p) v = ground arith

-- Every state that a stream reaches has the invariant.
pub Reach-Inv : {sent : List GatewayEvent} {s : Stream} → Reach sent s → Inv sent s
Reach-Inv opened = record {
  whole = refl;
  kept = λ _. refl;
  dropped_asked = inl refl;
  lossless = inl refl;
  by_close = λ _. refl;
  cause = inl refl;
  no_error = λ _. refl;
  explained = λ e. absurd (cc);
  drained_first = λ e. absurd (cc);
  over = λ e. absurd (cc);
  channel = refl;
  once = refl;
}
Reach-Inv (moved r m) = Move-Inv m (Reach-Inv r)
Reach-Inv (acted r a) = Act-Inv a (Reach-Inv r)
