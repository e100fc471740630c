-- ===== src/Streams/Typed.antt =====
-- The errors with which a stream is refused.
use fabricsdk.Base.{ℕ, refl, List}
use fabricsdk.Libs.{Libs}
use fabricsdk.Options.{Ctx}
use fabricsdk.Result.{Result, ok, err}
use fabricsdk.World.{GatewayApi, World}
use fabricsdk.Contract.{Contract, Release, gateway}
use fabricsdk.Contract.Typed.{Typed, gateway-Typed}
use fabricsdk.Events.{EventOption, EventOptions, event_options}
use fabricsdk.Streams.{subscribed, subscribe, chaincode_events}

module _ (l : Libs) {N : Type 0} (api : GatewayApi N) where
  subscribed-Typed : (rel : Release) (r : Result ℕ × World N) → Typed (subscribed l api rel r).0
  unfolding subscribed
  subscribed-Typed rel (ok upstream, w) = tt
  subscribed-Typed rel (err e, w) = (_, refl)

  subscribe-Typed :
      (c : Contract) (ctx : Ctx) (o : EventOptions) (r : Result (ℕ × Release) × World N)
      → Typed r.0
      → Typed (subscribe l api c ctx o r).0
  unfolding subscribe
  subscribe-Typed c ctx o (err e, w) h = h
  subscribe-Typed c ctx o (ok (gw, rel), w) h = subscribed-Typed rel _

  pub chaincode_events-Typed :
      (c : Contract) (ctx : Ctx) (opts : List EventOption) (w : World N)
      → Typed (chaincode_events l api c ctx opts w).0
  unfolding chaincode_events
  chaincode_events-Typed c ctx opts w =
      subscribe-Typed c ctx (event_options c opts) (gateway l api c w) (gateway-Typed l api c w)
