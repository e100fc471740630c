-- ===== src/Client/Calls.antt =====
-- client.go and events.go: the methods of the client, which use the handle for its default identity and
-- target.
pub mod Refused
pub mod Typed
pub mod Reported
use fabricsdk.Base.{ℕ, Option, none, some, List, [], ◌∷◌, Text}
use fabricsdk.GoError.{GoError}
use fabricsdk.Libs.{Libs}
use fabricsdk.Config.{Identity}
use fabricsdk.Options.{CallOption, Ctx}
use fabricsdk.Result.{Result}
use fabricsdk.World.{GatewayApi, World}
use fabricsdk.Contract.{FabricClient, Contract, Release, default_contract, with_identity}
use fabricsdk.Submit.{PendingTx, TxResult}
use fabricsdk.Ledger.{Decoders, TxStatus}
use fabricsdk.Events.{EventOption}
use fabricsdk.Listen.{Turn, Listener, Outcome}
use fabricsdk.Contract
use fabricsdk.Submit
use fabricsdk.Ledger
use fabricsdk.Streams
use fabricsdk.Listen

pub identity : FabricClient → Identity
identity fc = fc.id

-- `FabricClient.WithIdentity`.
pub signed_by : FabricClient → Option Identity → Contract
signed_by fc id = with_identity (default_contract fc) id

module _ (l : Libs) {N : Type 0} (api : GatewayApi N) (fc : FabricClient) where
  pub evaluate : Option Ctx → Text → List Text → World N → Result Text × World N
  evaluate = fabricsdk.Contract.evaluate l api (default_contract fc)

  pub evaluate_with : Option Ctx → Text → List CallOption → World N → Result Text × World N
  evaluate_with = fabricsdk.Contract.evaluate_with l api (default_contract fc)

  pub submit : Option Ctx → Text → List Text → World N → Result TxResult × World N
  submit = fabricsdk.Submit.submit l api (default_contract fc)

  pub submit_with : Option Ctx → Text → List CallOption → World N → Result TxResult × World N
  submit_with = fabricsdk.Submit.submit_with l api (default_contract fc)

  pub submit_async : Option Ctx → Text → List CallOption → World N → Result PendingTx × World N
  submit_async = fabricsdk.Submit.submit_async l api (default_contract fc)

  -- `Events`, up to the stream's goroutine.
  pub events : Ctx → List EventOption → World N → Result (ℕ × Release) × World N
  events = fabricsdk.Streams.chaincode_events l api (default_contract fc)

  module _ (d : Decoders) where
    pub tx_status : Option Ctx → Text → World N → Result TxStatus × World N
    tx_status = fabricsdk.Ledger.tx_status l api d (default_contract fc)

    pub height : Option Ctx → World N → Result ℕ × World N
    height = fabricsdk.Ledger.height l api d (default_contract fc)

module _ {A H K : Type 0} (fc : FabricClient) (opts : List EventOption) where
  unfoldable pub listen_chaincode_events :
      Option (A → K → Option GoError × K)
      → Option (A → H → Option GoError × H)
      → List (Turn A K)
      → H
      → K
      → Outcome × Listener A H K
  listen_chaincode_events = fabricsdk.Listen.listen_chaincode_events (default_contract fc) opts

  pub listen_blocks :
      Option (A → K → Option GoError × K)
      → Option (A → H → Option GoError × H)
      → List (Turn A K)
      → H
      → K
      → Outcome × Listener A H K
  listen_blocks = fabricsdk.Listen.listen_blocks (default_contract fc) opts
