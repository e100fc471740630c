-- ===== src/Forward/Finish.antt =====
-- How many steps the goroutine takes, and that it ends.
use fabricsdk.Base.{
  ℕ, zero, suc, ◌+◌, ◌*◌, ◌≤◌, ◌<◌, ◌≡◌, ◌⊎◌, refl, ap, inl, inr, Bool-cases, true, List, length,
  arith,
}
use fabricsdk.Forward.{
  GatewayEvent, Pc, reading, offering, testing_ctx, testing_stream, failing, stopping, closing,
  releasing, done, Stream, ended, Move, read, drained, deliver, give_up, ctx_over, ctx_active,
  stream_over, stream_active, fail, stop, close_channel, release, Act, ctx_ends, close, hang_up,
  Reach, opened, moved, acted,
}
use fabricsdk.Forward.Whole.{Reach-Inv}

abbrev weight : Pc → ℕ
weight (offering out) = 9
weight reading = 8
weight testing_ctx = 7
weight testing_stream = 6
weight failing = 5
weight stopping = 4
weight closing = 3
weight releasing = 2
weight done = 0

-- A bound on the steps that the goroutine still takes.
abbrev pub steps_left : Stream → ℕ
steps_left s = weight s.pc + 2 * length s.rest

Move-steps_left : {s t : Stream} → Move s t → steps_left t < steps_left s
Move-steps_left {s} (read {ev} {rest} p h e) = ground (arith, ap length e)
Move-steps_left (drained p h) = ground arith
Move-steps_left (deliver p) = ground arith
Move-steps_left (give_up p e) = ground arith
Move-steps_left (ctx_over p e) = ground arith
Move-steps_left (ctx_active p e) = ground arith
Move-steps_left (stream_over p e) = ground arith
Move-steps_left (stream_active p e) = ground arith
Move-steps_left (fail p) = ground arith
Move-steps_left (stop p) = ground arith
Move-steps_left (close_channel p) = ground arith
Move-steps_left (release p) = ground arith

Act-steps_left : {s t : Stream} → Act s t → steps_left t ≡ steps_left s
Act-steps_left ctx_ends = refl
Act-steps_left close = refl
Act-steps_left hang_up = refl

-- The steps of the goroutine in a run.
pub moves_in : {sent : List GatewayEvent} {s : Stream} → Reach sent s → ℕ
moves_in opened = 0
moves_in (moved r m) = moves_in r + 1
moves_in (acted r a) = moves_in r

-- However its steps and those of the others are interleaved, the goroutine takes at most two for each
-- event that the gateway would send, and eight more.
pub moves_in-le :
    {sent : List GatewayEvent} {s : Stream} (r : Reach sent s)
    → moves_in r + steps_left s ≤ 2 * length sent + 8
unfolding moves_in
moves_in-le opened = omega arith
moves_in-le (moved r m) = omega (arith, moves_in-le r, Move-steps_left m)
moves_in-le (acted r a) = omega (arith, moves_in-le r, Act-steps_left a)

-- A step for which the goroutine needs no reader.
pub data Alone (s : Stream) (t : Stream) : Type 0 where
  alone : (m : Move s t) → s.received ≡ t.received → Alone s t

pub data Alones : Stream → ℕ → Stream → Type 0 where
  here : {s : Stream} → Alones s 0 s
  next : {n : ℕ} {s t u : Stream} → Alone s t → Alones t n u → Alones s (suc n) u

-- A stream that has ended, and of which the library has closed its channel.
pub record IsOver (s : Stream) : Type 0 where
  pub ended_now : ended s ≡ true
  pub hung_up_now : s.hung_up ≡ true

-- Such a stream takes a step alone, unless its goroutine is done, and stays over.
IsOver-step : (s : Stream) → IsOver s → (s.pc ≡ done) ⊎ ((t : Stream) × Alone s t × IsOver t)
IsOver-step s v = at s.pc refl
  where
    at : (p : Pc) → s.pc ≡ p → (s.pc ≡ done) ⊎ ((t : Stream) × Alone s t × IsOver t)
    at reading p = inr (_, alone (drained p v.hung_up_now) refl, ground arith)
    at (offering out) p = inr (_, alone (give_up p v.ended_now) refl, ground arith)
    at testing_ctx p = elim (Bool-cases s.ctx_ended) [
      | inl c ↦ inr (_, alone (ctx_over p c) refl, ground arith)
      | inr c ↦ inr (_, alone (ctx_active p c) refl, ground arith)
    ]
    at testing_stream p = inr (_, alone (stream_over p v.ended_now) refl, ground arith)
    at failing p = inr (_, alone (fail p) refl, ground arith)
    at stopping p = inr (_, alone (stop p) refl, ground arith)
    at closing p = inr (_, alone (close_channel p) refl, ground arith)
    at releasing p = inr (_, alone (release p) refl, ground arith)
    at done p = inl p

-- Within as many steps as are left it is done.
IsOver-done :
    (n : ℕ) {sent : List GatewayEvent} {s : Stream}
    → steps_left s ≤ n
    → Reach sent s
    → IsOver s
    → (k : ℕ) × (t : Stream) × (k ≤ n) × Alones s k t × Reach sent t × (t.pc ≡ done)
IsOver-done zero {s} b r v = elim (IsOver-step s v) [
  | inl d ↦ (0, s, omega arith, here, r, d)
  | inr (t, alone m e, w) ↦ absurd (omega (arith, Move-steps_left m, b))
]
IsOver-done (suc n) {s} b r v = elim (IsOver-step s v) [
  | inl d ↦ (0, s, omega arith, here, r, d)
  | inr (t, alone m e, w) ↦
      let (k, u, few, path, reach, d) =
        IsOver-done n (omega (arith, Move-steps_left m, b)) (moved r m) w in
      (suc k, u, omega (arith, few), next (alone m e) path, reach, d)
]

-- Once a stream has ended and the library has closed its channel the goroutine can go on without a
-- reader, in at most two steps for each event that the gateway would send and eight more, until it is
-- done; then the channel is closed and the gateway was released exactly once.
pub Reach-done :
    {sent : List GatewayEvent} {s : Stream}
    → Reach sent s
    → ended s ≡ true
    → s.hung_up ≡ true
    → (k : ℕ) × (t : Stream) × (k ≤ 2 * length sent + 8)
      × Alones s k t
      × Reach sent t
      × (t.pc ≡ done)
      × (t.is_closed ≡ true)
      × (t.releases ≡ 1)
Reach-done {s} r e h =
    let (k, t, few, path, reach, d) =
      IsOver-done (steps_left s) (omega arith) r (record { ended_now = e; hung_up_now = h }) in
    let v = Reach-Inv reach in
    (
      k,
      t,
      omega (arith, few, moves_in-le r),
      path,
      reach,
      d,
      ground (arith, v.channel),
      ground (arith, v.once),
    )
