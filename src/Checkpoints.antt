-- ===== src/Checkpoints.antt =====
-- events.go: checkpointers. The one of the gateway library that lives in memory is a parameter, with its
-- documented behaviour as laws; the one in a file is given by how its opening comes out.
pub mod Resume
pub mod Blocks
use fabricsdk.Base.{ℕ, ◌+◌, ◌≡◌, Option, none, some, [], Text}
use fabricsdk.GoError.{GoError, boxed}
use fabricsdk.Errors.{config_error}
use fabricsdk.Events.{ChaincodeEvent}
use fabricsdk.Result.{Result, ok, err}

-- `Checkpointer`, over a state `K`.
pub record Checkpointer (K : Type 0) : Type 0 where
  pub block_number : K → ℕ
  pub transaction_id : K → Text
  pub checkpoint_block : ℕ → K → Option GoError × K
  pub checkpoint_transaction : ℕ → Text → K → Option GoError × K

-- `client.InMemoryCheckpointer`.
pub record InMemory (K : Type 0) : Type 0 where
  pub block_number : K → ℕ
  pub transaction_id : K → Text
  pub checkpoint_block : ℕ → K → K
  pub checkpoint_transaction : ℕ → Text → K → K

-- A block counts as done, so the next one is expected; a transaction is the last of its block so far.
pub record InMemoryLaws {K : Type 0} (m : InMemory K) : Type 0 where
  pub block_number-checkpoint_block :
      (n : ℕ) (k : K) → m.block_number (m.checkpoint_block n k) ≡ n + 1
  pub transaction_id-checkpoint_block :
      (n : ℕ) (k : K) → m.transaction_id (m.checkpoint_block n k) ≡ []
  pub block_number-checkpoint_transaction :
      (n : ℕ) (tx : Text) (k : K) → m.block_number (m.checkpoint_transaction n tx k) ≡ n
  pub transaction_id-checkpoint_transaction :
      (n : ℕ) (tx : Text) (k : K) → m.transaction_id (m.checkpoint_transaction n tx k) ≡ tx

-- The methods of `memoryCheckpointer`, which `NewMemoryCheckpointer` returns.
abbrev pub memory_checkpointer : {K : Type 0} → InMemory K → Checkpointer K
memory_checkpointer m = record {
  block_number = m.block_number;
  transaction_id = m.transaction_id;
  checkpoint_block = λ n k. (none, m.checkpoint_block n k);
  checkpoint_transaction = λ n tx k. (none, m.checkpoint_transaction n tx k);
}

-- `NewFileCheckpointer`, on what `client.NewFileCheckpointer` returns.
pub new_file_checkpointer : Result ℕ → Result ℕ
new_file_checkpointer (ok cp) = ok cp
new_file_checkpointer (err e) = err (boxed (config_error e))

-- The call in `ListenChaincodeEvents`: `cp.CheckpointTransaction(ev.BlockNumber, ev.TxID)`.
abbrev pub checkpoint_event :
    {K : Type 0} → Checkpointer K → ChaincodeEvent → K → Option GoError × K
checkpoint_event cp ev = cp.checkpoint_transaction ev.block_number ev.tx_id

-- A block, by the number in its header and the rest.
pub record Block : Type 0 where
  pub number : ℕ
  pub content : Text

-- The call in `blockSession`: `cp.CheckpointBlock(block.GetHeader().GetNumber())`.
abbrev pub checkpoint_next : {K : Type 0} → Checkpointer K → Block → K → Option GoError × K
checkpoint_next cp block = cp.checkpoint_block block.number
