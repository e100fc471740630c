-- ===== src/Tests/Streams.antt =====
-- The listeners at a short ledger: a checkpoint is the list of the items that follow it.
use fabricsdk.Base.{ℕ, suc, refl, true, false, Option, none, some, List, [], ◌∷◌, pos, All}
use fabricsdk.GoError.{GoError}
use fabricsdk.Events.Backoff.{InRange}
use fabricsdk.Listen.{Session, streamed, Turn, listen_chaincode_events}
use fabricsdk.Listen.Whole.{listen_chaincode_events-sleeps}
use fabricsdk.Events.{EventOption, retry_backoff, event_options}
use fabricsdk.Tests.Sample.{contract}

abbrev handle : ℕ → ℕ → Option GoError × ℕ
handle a h = (none, suc h)

abbrev checkpoint : ℕ → List ℕ → Option GoError × List ℕ
checkpoint a [] = (none, [])
checkpoint a (x ∷ k) = (none, k)

-- A stream that ends after the first item that follows the checkpoint.
abbrev one_item : List ℕ → Session ℕ
one_item [] = streamed [] none
one_item (x ∷ k) = streamed (x ∷ []) none

abbrev short_delays : List EventOption
short_delays = retry_backoff (pos 1) (pos 8) ∷ []

abbrev turn : Turn ℕ (List ℕ)
turn = record { session = one_item; ended = false; slept = true }

abbrev ledger : List ℕ
ledger = 10 ∷ 11 ∷ 12 ∷ []

listen_chaincode_events-sleeps_example :
    All
      (InRange (pos 1) (pos 8))
      (listen_chaincode_events contract short_delays
        (some checkpoint)
        (some handle)
        (turn ∷ turn ∷ [])
        0
        ledger).1.sleeps
unfolding event_options
listen_chaincode_events-sleeps_example =
    listen_chaincode_events-sleeps contract short_delays handle checkpoint (turn ∷ turn ∷ []) 0
      ledger refl
