-- ===== src/Tests/Rounds.antt =====
-- Listeners over the sample network.
use fabricsdk.Base.{ℕ, suc, ◌+◌, true, false, none, some, List, [], ◌∷◌, Text, codes}
use fabricsdk.Options.{Ctx}
use fabricsdk.Result.{ok}
use fabricsdk.World.{GatewayApi, StreamOption, World}
use fabricsdk.Contract.{Release}
use fabricsdk.World.Open.{Shows}
use fabricsdk.Events.{ChaincodeEvent}
use fabricsdk.Checkpoints.{Block, memory_checkpointer}
use fabricsdk.Checkpoints.Blocks.{blocks_at}
use fabricsdk.Checkpoints.Resume.{rest_at}
use fabricsdk.Listen.Rounds.{Round, listen_chaincode_events, listen_blocks}
use fabricsdk.Listen.Rounds.Delays.{delays_in, Tells}
use fabricsdk.Listen.Rounds.Logged.{listeners-Tells}
use fabricsdk.Listen.Rounds.Open.{listeners-Shows, held_by, all_released}
use fabricsdk.Tests.Sample.{libs, contract, answering, committed_status, world, unavailable_error}
use fabricsdk.Tests.Resuming.{
  memory, memory-Laws, ledger, count, default_delays, count_blocks, chain,
}
use fabricsdk.Tests.Calls.{world-Shows}

abbrev first : {A : Type 0} → List A → List A
first [] = []
first (x ∷ xs) = x ∷ []

-- A network that remembers the options of its last subscription.
abbrev recording : GatewayApi (List StreamOption)
recording = record {
  now = λ n. 0;
  connect = λ id o n. (ok 7, n);
  close = λ g n. (none, n);
  close_connection = λ g n. (none, n);
  close_signer = λ s n. (none, n);
  new_client = λ t o n. (ok 3, n);
  new_proposal = λ g t f o n. (ok 1, n);
  transaction_id = λ p. codes "tx1";
  evaluate = λ ctx p n. (ok (codes "asset"), n);
  endorse = λ ctx p n. (ok 2, n);
  payload = λ t. codes "done";
  submit = λ ctx t n. (ok 5, n);
  chaincode_events = λ ctx g c n o m. (ok 8, o);
  block_events = λ ctx g c o m. (ok 9, o);
  options_of = λ up n. n;
  commit_status = λ ctx c n. (ok committed_status, n);
}

abbrev recorded : World (List StreamOption)
recorded = record { is_closed = false; trace = []; net = [] }

-- The position in the options of a subscription counts, without one the stream brings nothing.
abbrev positioned : {A : Type 0} → List StreamOption → List A → List A
positioned [] xs = []
positioned (o ∷ os) xs = first xs

abbrev background : Ctx
background = record { deadline = none; done = false }

-- A stream that brings one event and is dropped.
abbrev dropping : Round ChaincodeEvent (ℕ × Text) ℕ
dropping = record {
  stream =
      λ asked k n. (first (rest_at memory memory-Laws ledger 0 k), some unavailable_error, suc n);
  ended = false;
  slept = true;
  freed_first = true ∷ [];
  freed = [];
}

abbrev one_block : Round Block (ℕ × Text) ℕ
one_block = record {
  stream = λ asked k n. (record { number = 3; content = codes "a" } ∷ [], none, suc n);
  ended = false;
  slept = true;
  freed_first = true ∷ [];
  freed = [];
}

abbrev rounds : List (Round ChaincodeEvent (ℕ × Text) ℕ)
rounds = dropping ∷ dropping ∷ []

abbrev next_event : Round ChaincodeEvent (ℕ × Text) (List StreamOption)
next_event = record {
  stream = λ asked k n.
      (positioned asked (rest_at memory memory-Laws ledger 0 k), some unavailable_error, n);
  ended = false;
  slept = true;
  freed_first = [];
  freed = false ∷ true ∷ [];
}

abbrev next_block : Round Block (ℕ × Text) (List StreamOption)
next_block = record {
  stream = λ asked k n. (positioned asked (blocks_at memory memory-Laws chain 0 k), none, n);
  ended = false;
  slept = true;
  freed_first = [];
  freed = [];
}

-- The goroutine of the last stream has still to release its gateway; the one before it has done so.
abbrev heard : List Release × World ℕ
heard =
    (listen_chaincode_events libs answering contract background 1 default_delays
      (some (memory_checkpointer memory)) (some count) rounds 0 (0, []) world).2

listeners-Shows_example :
    Shows (0 + held_by heard.0) [] heard.1
    × Shows 0 [] (all_released libs answering heard.0 heard.1)
    × Shows 0 []
        (listen_blocks libs answering contract background 1 default_delays
          (some (memory_checkpointer memory))
          (some count_blocks)
          (one_block ∷ [])
          0
          (0, [])
          world).2
listeners-Shows_example =
    listeners-Shows libs answering contract background 1 default_delays 0 []
      (some (memory_checkpointer memory)) (some count) (some count_blocks) rounds (one_block ∷ []) 0
      (0, []) world world-Shows

listeners-Tells_example :
    Tells
      (listen_chaincode_events libs answering contract background 1 default_delays
        (some (memory_checkpointer memory))
        (some count)
        rounds
        0
        (0, [])
        world).1.sleeps
      (listen_chaincode_events libs answering contract background 1 default_delays
        (some (memory_checkpointer memory))
        (some count)
        rounds
        0
        (0, [])
        world).2.1
    × Tells
        (listen_blocks libs answering contract background 1 default_delays
          (some (memory_checkpointer memory))
          (some count_blocks)
          (one_block ∷ [])
          0
          (0, [])
          world).1.sleeps
        (listen_blocks libs answering contract background 1 default_delays
          (some (memory_checkpointer memory))
          (some count_blocks)
          (one_block ∷ [])
          0
          (0, [])
          world).2
unfolding delays_in
listeners-Tells_example =
    listeners-Tells libs answering contract background 1 default_delays 0 (0, []) world
      (some (memory_checkpointer memory)) (some count) (some count_blocks) rounds (one_block ∷ [])
