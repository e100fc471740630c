-- ===== src/Tests/Runs.antt =====
-- Runs of the concurrent parts: an event stream, and a pending transaction with two goroutines.
use fabricsdk.Base.{ℕ, ◌+◌, ◌*◌, ◌≤◌, ◌≡◌, ◌⊎◌, refl, true, false, [], ◌∷◌, codes, length}
use fabricsdk.Events.{stream_error}
use fabricsdk.Forward.{
  GatewayEvent, forward, reading, closing, releasing, done, Stream, read, drained, deliver,
  ctx_active, stream_active, fail, stop, close_channel, close, hang_up, opened_stream, Reach,
  opened, moved, acted,
}
use fabricsdk.Forward.Turns.{Explained, Reach-Explained}
use fabricsdk.Forward.Finish.{Alones, Reach-done}
use fabricsdk.Goroutines.{update}
use fabricsdk.Submit.Threads.{
  Once, over, Pc, idle, locking, asking, entering, unlocking, System, call_wait, call_release, lock,
  answered, first, release, by, pending, start, later,
}
use fabricsdk.Submit.Threads.Exclusion.{is_through, Reach-once}
use fabricsdk.Submit.Threads.Progress.{CanMove, Reach-CanMove}
use fabricsdk.Forward
use fabricsdk.Submit.Threads

abbrev pub sold : GatewayEvent
sold = record {
  block_number = 4;
  transaction_id = codes "tx4";
  chaincode_name = codes "basic";
  event_name = codes "sold";
  payload = [];
}

-- A stream that delivers an event and then finds that the gateway hung up.
abbrev pub dropped_stream : GatewayEvent → Stream
dropped_stream ev = record {
  pc = fabricsdk.Forward.Pc.releasing;
  rest = [];
  hung_up = true;
  ctx_ended = false;
  stopped = true;
  closed_early = false;
  received = forward ev ∷ [];
  dropped = [];
  err = stream_error false false;
  is_closed = true;
  releases = 0;
}

pub dropped_run : (ev : GatewayEvent) → Reach (ev ∷ []) (dropped_stream ev)
dropped_run ev =
    moved
      (moved
        (moved
          (moved
            (moved
              (moved (acted (moved (moved opened (read refl refl refl)) (deliver refl)) hang_up)
                (drained refl refl))
              (ctx_active refl refl))
            (stream_active refl refl))
          (fail refl))
        (stop refl))
      (close_channel refl)

Reach-Explained_example : Explained (sold ∷ []) (dropped_stream sold)
Reach-Explained_example = Reach-Explained (dropped_run sold) refl

-- A stream that its reader closes, with an event that it has not read.
abbrev pub closed_stream : Stream
closed_stream = record (opened_stream (sold ∷ [])) {
  stopped = true;
  closed_early = true;
  hung_up = true;
}

pub closed_run : Reach (sold ∷ []) closed_stream
closed_run = acted (acted opened close) hang_up

Reach-done_example :
    (k : ℕ) × (t : Stream) × (k ≤ 2 * length (sold ∷ []) + 8)
    × Alones closed_stream k t
    × Reach (sold ∷ []) t
    × (t.pc ≡ done)
    × (t.is_closed ≡ true)
    × (t.releases ≡ 1)
Reach-done_example = Reach-done closed_run refl refl

-- One goroutine waits and has released; another one calls `Wait` too.
abbrev waiting : System
waiting = record {
  shared = record { mu = true; once = over; releases = 1 };
  pc =
      update
        (update
          (update (update (update (update (λ i. idle) 0 locking) 0 asking) 0 (entering true)) 0
            (fabricsdk.Submit.Threads.Pc.releasing true))
          0 (unlocking true))
        1 locking;
}

waiting_run : fabricsdk.Submit.Threads.Reach waiting
waiting_run =
    later
      (later
        (later
          (later (later (later start (by 0 (call_wait refl))) (by 0 (lock refl))) (by 0 answered))
          (by 0 (first refl)))
        (by 0 release))
      (by 1 (call_wait refl))

Reach-once_example :
    (waiting.shared.releases ≤ 1)
    × ((is_through (waiting.pc 0) ≡ false) ⊎ (waiting.shared.releases ≡ 1))
Reach-once_example = Reach-once waiting_run 0

Reach-CanMove_example : CanMove waiting
Reach-CanMove_example = Reach-CanMove waiting_run 1 refl
