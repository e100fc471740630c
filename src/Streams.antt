-- ===== src/Streams.antt =====
-- events.go: the opening of a chaincode event stream and of a block stream. What a stream does once it
-- is open is in Forward.
pub mod Returned
pub mod Kept
pub mod Closed
pub mod Typed
pub mod Asked
use fabricsdk.Base.{ℕ, true, Option, none, some, List, [], ◌∷◌, ◌++◌, Text}
use fabricsdk.GoError.{GoError, boxed}
use fabricsdk.Kinds.{Phase}
use fabricsdk.Libs.{Libs}
use fabricsdk.Classify.{classified}
use fabricsdk.Options.{Ctx}
use fabricsdk.Result.{Result, ok, err}
use fabricsdk.World.{GatewayApi, StreamOption, with_start_block, with_checkpoint, World, lift}
use fabricsdk.Contract.{Contract, Release, gateway, release}
use fabricsdk.Events.{EventOptions, EventOption, event_options}

abbrev pub start_option : Option ℕ → List StreamOption
start_option none = []
start_option (some n) = with_start_block n ∷ []

abbrev pub checkpoint_option : Option ℕ → List StreamOption
checkpoint_option none = []
checkpoint_option (some cp) = with_checkpoint cp ∷ []

module _ (l : Libs) {N : Type 0} (api : GatewayApi N) where
  -- On the answer to the subscription; `upstream` is the channel of the gateway library.
  subscribed : Release → Result ℕ × World N → Result (ℕ × Release) × World N
  subscribed rel (ok upstream, w) = (ok (upstream, rel), w)
  subscribed rel (err e, w) =
      (err (boxed (classified l e [] Phase.evaluate true)), release l api rel w)

  subscribe :
      Contract
      → Ctx
      → EventOptions
      → Result (ℕ × Release) × World N
      → Result (ℕ × Release) × World N
  unfolding subscribed
  subscribe c ctx o (err e, w) = (err e, w)
  subscribe c ctx o (ok (gw, rel), w) = subscribed rel (
      lift
        (api.chaincode_events ctx gw c.channel o.chaincode
          (start_option o.start_block ++ checkpoint_option o.checkpoint))
        w)

  -- `ChaincodeEvents` up to the goroutine, which has the upstream channel and the release function.
  unfoldable pub chaincode_events :
      Contract → Ctx → List EventOption → World N → Result (ℕ × Release) × World N
  unfolding subscribe
  chaincode_events c ctx opts w = subscribe c ctx (event_options c opts) (gateway l api c w)

  -- The rest of `blockSession` once it has a gateway. `loop` is the loop over the blocks of an upstream
  -- channel, with its error, on a state of its own; the deferred release runs after it.
  block_loop :
      {S : Type 0}
      → (ℕ → S → World N → Option GoError × S × World N)
      → S
      → Release
      → Result ℕ × World N
      → Option GoError × S × World N
  block_loop loop s rel (err e, w) =
      (some (boxed (classified l e [] Phase.evaluate true)), s, release l api rel w)
  block_loop loop s rel (ok upstream, w) =
      let (e, s', w') = loop upstream s w in (e, s', release l api rel w')

  block_gateway :
      {S : Type 0}
      → (ℕ → S → World N → Option GoError × S × World N)
      → Contract
      → Ctx
      → ℕ
      → EventOptions
      → S
      → Result (ℕ × Release) × World N
      → Option GoError × S × World N
  unfolding block_loop
  block_gateway loop c ctx cp o s (err e, w) = (some e, s, w)
  block_gateway loop c ctx cp o s (ok (gw, rel), w) = block_loop loop s rel (
      lift
        (api.block_events ctx gw c.channel
          (start_option o.start_block ++ (with_checkpoint cp ∷ [])))
        w)

  -- `blockSession` around its loop.
  unfoldable pub block_stream :
      {S : Type 0}
      → (ℕ → S → World N → Option GoError × S × World N)
      → Contract
      → Ctx
      → ℕ
      → EventOptions
      → S
      → World N
      → Option GoError × S × World N
  unfolding block_gateway
  block_stream loop c ctx cp o s w = block_gateway loop c ctx cp o s (gateway l api c w)
