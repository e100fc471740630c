-- ===== src/Examples/Listener.antt =====
-- examples/events/main.go: a listener that prints each event and keeps its place in a file. The file's
-- checkpointer is one of the gateway library, by what its opening returns and by its operation.
pub mod Ended
use fabricsdk.Base.{ℕ, Option, none, some, List, [], ◌∷◌, ◌++◌, Text}
use fabricsdk.GoError.{GoError}
use fabricsdk.Libs.{Libs}
use fabricsdk.Result.{Result, ok, err}
use fabricsdk.World.{GatewayApi, World}
use fabricsdk.Contract.{FabricClient}
use fabricsdk.Identities.{FileSystem, Pki}
use fabricsdk.Events.{ChaincodeEvent, EventOption, from_block}
use fabricsdk.Listen.{Turn, Listener, Outcome, returned, running}
use fabricsdk.Checkpoints.{Checkpointer, new_file_checkpointer, checkpoint_event}
use fabricsdk.Client.{TlsLib, new, close}
use fabricsdk.Client.Calls.{listen_chaincode_events}
use fabricsdk.Examples.{missing, required, config_from}

-- How the program ends, and that it goes on listening.
pub data Exit : Type 0 where
  finished listening : Exit
  not_set : Text → Exit
  not_connected no_checkpoint stopped : GoError → Exit

-- A call of `fmt.Printf` or `fmt.Println`.
pub data Line : Type 0 where
  listening_from : ℕ → Text → Line
  event : ChaincodeEvent → Line
  end_of_listening : Line

pub record Run (N : Type 0) : Type 0 where
  pub exit : Exit
  pub printed : List Line
  pub world : World N

-- The handler: it prints the event and returns nil.
print_event : ChaincodeEvent → List Line → Option GoError × List Line
print_event ev printed = (none, printed ++ (event ev ∷ []))

module _ (l : Libs) {N : Type 0} (api : GatewayApi N) {K : Type 0} (cp : Checkpointer K) where
  -- On what the listener returns; a normal end runs the deferred `Close`.
  on_returned : FabricClient → Outcome × Listener ChaincodeEvent (List Line) K → World N → Run N
  on_returned fc (running, s) w = record { exit = listening; printed = s.h; world = w }
  on_returned fc (returned none, s) w = record {
    exit = finished;
    printed = s.h ++ (end_of_listening ∷ []);
    world = (close l api fc w).2;
  }
  on_returned fc (returned (some e), s) w = record { exit = stopped e; printed = s.h; world = w }

  module _ (ts : List (Turn ChaincodeEvent K)) (k : K) where
    on_checkpointer : FabricClient → Result ℕ → World N → Run N
    unfolding on_returned print_event
    on_checkpointer fc (err e) w = record { exit = no_checkpoint e; printed = []; world = w }
    on_checkpointer fc (ok file) w =
        on_returned fc
          (listen_chaincode_events fc (from_block 0 ∷ []) (some (checkpoint_event cp))
            (some print_event) ts (listening_from (cp.block_number k) (cp.transaction_id k) ∷ []) k)
          w

    -- `main` on what `New` returns; `file` is what the opening of the file's checkpointer returns.
    on_client : Result ℕ → Result FabricClient × World N → Run N
    unfolding on_checkpointer
    on_client file (err e, w) = record { exit = not_connected e; printed = []; world = w }
    on_client file (ok fc, w) = on_checkpointer fc (new_file_checkpointer file) w

    -- `main`, with the turns of its listener.
    unfoldable pub main : FileSystem → Pki → TlsLib → ℕ → (Text → Text) → Result ℕ → World N → Run N
    unfolding on_client
    main fs pki tls address getenv file w = elim (missing getenv required) [
      | some name ↦ record { exit = not_set name; printed = []; world = w }
      | none ↦ on_client file (new l api fs pki tls address (config_from getenv) w)
    ]
