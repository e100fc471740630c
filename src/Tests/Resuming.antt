-- ===== src/Tests/Resuming.antt =====
-- Listeners that resume from a checkpointer.
use fabricsdk.Base.{
  ℕ, suc, refl, true, false, Option, none, some, List, [], ◌∷◌, Text, codes, arith,
}
use fabricsdk.GoError.{GoError}
use fabricsdk.Events.{ChaincodeEvent, EventOption}
use fabricsdk.Forward.{forward}
use fabricsdk.Listen.{Session, Turn, listen_chaincode_events}
use fabricsdk.Listen.Ends.{OutcomeReason, listen_chaincode_events-Reason}
use fabricsdk.Checkpoints.{InMemory, InMemoryLaws, memory_checkpointer, checkpoint_event}
use fabricsdk.Checkpoints.Resume.{IsLedger, rest_at}
use fabricsdk.Tests.Sample.{contract, unavailable_error}
use fabricsdk.Checkpoints.{Block}
use fabricsdk.Checkpoints.Blocks.{IsChain}
use fabricsdk.Listen.{streamed}
use fabricsdk.Tests.Runs.{sold}

-- A checkpointer in memory: the block and the transaction.
abbrev pub memory : InMemory (ℕ × Text)
memory = record {
  block_number = λ k. k.0;
  transaction_id = λ k. k.1;
  checkpoint_block = λ n k. (suc n, []);
  checkpoint_transaction = λ n tx k. (n, tx);
}

pub memory-Laws : InMemoryLaws memory
memory-Laws = record {
  block_number-checkpoint_block = λ n k. omega arith;
  transaction_id-checkpoint_block = λ n k. refl;
  block_number-checkpoint_transaction = λ n tx k. refl;
  transaction_id-checkpoint_transaction = λ n tx k. refl;
}

abbrev pub ledger : List ChaincodeEvent
ledger = forward sold ∷ record (forward sold) { tx_id = codes "tx5" } ∷ []

pub ledger-IsLedger : IsLedger ledger
unfolding IsLedger
ledger-IsLedger = (refl, (refl, tt), (refl, tt, tt))

-- A stream that brings the first of some events and is dropped; it is refused if there is none.
abbrev first_of : List ChaincodeEvent → Session ChaincodeEvent
first_of [] = Session.refused unavailable_error
first_of (e ∷ es) = streamed (e ∷ []) (some unavailable_error)

abbrev resumed : Turn ChaincodeEvent (ℕ × Text)
resumed = record {
  session = λ k. first_of (rest_at memory memory-Laws ledger 0 k);
  ended = false;
  slept = true;
}

abbrev pub count : ChaincodeEvent → ℕ → Option GoError × ℕ
count e h = (none, suc h)

abbrev pub default_delays : List EventOption
default_delays = []

listen_chaincode_events-Reason_example :
    OutcomeReason count (checkpoint_event (memory_checkpointer memory)) false (
      listen_chaincode_events contract default_delays
        (some (checkpoint_event (memory_checkpointer memory)))
        (some count)
        (resumed ∷ resumed ∷ [])
        0
        (0, []))
listen_chaincode_events-Reason_example =
    listen_chaincode_events-Reason count (checkpoint_event (memory_checkpointer memory)) contract
      default_delays (resumed ∷ resumed ∷ []) 0 (0, [])

abbrev pub chain : List Block
chain =
    record { number = 3; content = codes "a" }
    ∷ record { number = 4; content = codes "b" }
    ∷ record { number = 6; content = codes "c" }
    ∷ []

pub chain-IsChain : IsChain chain
unfolding IsChain
chain-IsChain = ((refl, (refl, tt)), ((refl, tt), (tt, tt)))

abbrev pub count_blocks : Block → ℕ → Option GoError × ℕ
count_blocks b h = (none, suc h)
