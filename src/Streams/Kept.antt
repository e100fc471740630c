-- ===== src/Streams/Kept.antt =====
-- What the opening of a stream leaves as it is.
use fabricsdk.Base.{ℕ, Option, List}
use fabricsdk.GoError.{GoError}
use fabricsdk.Libs.{Libs}
use fabricsdk.Options.{Ctx}
use fabricsdk.Result.{Result, ok, err}
use fabricsdk.World.{GatewayApi, World}
use fabricsdk.Contract.{Contract, Release}
use fabricsdk.Contract.Kept.{Steady, gateway-Steady, release-Steady}
use fabricsdk.Events.{EventOption, EventOptions, event_options}
use fabricsdk.Streams.{
  subscribed, subscribe, chaincode_events, block_loop, block_gateway, block_stream,
}

module _ (l : Libs) {N : Type 0} (api : GatewayApi N) (P : World N → Type 0)
    (steady : Steady P) where
  subscribed-Steady :
      (rel : Release) (r : Result ℕ × World N) → P r.1 → P (subscribed l api rel r).1
  unfolding subscribed
  subscribed-Steady rel (ok upstream, w) h = h
  subscribed-Steady rel (err e, w) h = release-Steady l api P steady rel w h

  subscribe-Steady :
      (c : Contract) (ctx : Ctx) (o : EventOptions) (r : Result (ℕ × Release) × World N)
      → P r.1
      → P (subscribe l api c ctx o r).1
  unfolding subscribe
  subscribe-Steady c ctx o (err e, w) h = h
  subscribe-Steady c ctx o (ok (gw, rel), w) h = subscribed-Steady rel _ (steady.net w _ h)

  pub chaincode_events-Steady :
      (c : Contract) (ctx : Ctx) (opts : List EventOption) (w : World N)
      → P w
      → P (chaincode_events l api c ctx opts w).1
  unfolding chaincode_events
  chaincode_events-Steady c ctx opts w h =
      subscribe-Steady c ctx (event_options c opts) _ (gateway-Steady l api P steady c w h)

  module _ {S : Type 0} (loop : ℕ → S → World N → Option GoError × S × World N)
      (keeps : (upstream : ℕ) (s : S) (w : World N) → P w → P (loop upstream s w).2) where
    block_loop-Steady :
        (s : S) (rel : Release) (r : Result ℕ × World N)
        → P r.1
        → P (block_loop l api loop s rel r).2
    unfolding block_loop
    block_loop-Steady s rel (err e, w) h = release-Steady l api P steady rel w h
    block_loop-Steady s rel (ok upstream, w) h =
        release-Steady l api P steady rel _ (keeps upstream s w h)

    block_gateway-Steady :
        (c : Contract) (ctx : Ctx) (cp : ℕ) (o : EventOptions) (s : S)
        (r : Result (ℕ × Release) × World N)
        → P r.1
        → P (block_gateway l api loop c ctx cp o s r).2
    unfolding block_gateway
    block_gateway-Steady c ctx cp o s (err e, w) h = h
    block_gateway-Steady c ctx cp o s (ok (gw, rel), w) h =
        block_loop-Steady s rel _ (steady.net w _ h)

    pub block_stream-Steady :
        (c : Contract) (ctx : Ctx) (cp : ℕ) (o : EventOptions) (s : S) (w : World N)
        → P w
        → P (block_stream l api loop c ctx cp o s w).2
    unfolding block_stream
    block_stream-Steady c ctx cp o s w h =
        block_gateway-Steady c ctx cp o s _ (gateway-Steady l api P steady c w h)
