-- ===== src/Streams/Returned.antt =====
-- The gateways that streams leave open.
use fabricsdk.Base.{refl, ◌≡◌, ◌⊎◌, inl, inr, ℕ, ◌+◌, Option, some, List, [], ◌∷◌, ◌++◌, Text}
use fabricsdk.GoError.{GoError}
use fabricsdk.Libs.{Libs}
use fabricsdk.Observe.{CallInfo}
use fabricsdk.Options.{Ctx}
use fabricsdk.Result.{Result, ok, err}
use fabricsdk.World.{GatewayApi, World, with_checkpoint}
use fabricsdk.World.Open.{Shows, Shows-net}
use fabricsdk.Contract.{gateway, Contract, Release}
use fabricsdk.Contract.Evaluate.{GatewayPost, holds, gateway-open, release-open}
use fabricsdk.Events.{EventOptions, EventOption, event_options}
use fabricsdk.Streams.{
  subscribed, subscribe, chaincode_events, block_loop, block_gateway, block_stream, start_option,
}

-- A loop that neither opens nor closes gateways, and observes no call.
abbrev pub Quiet : {N S : Type 0} → (ℕ → S → World N → Option GoError × S × World N) → Type 0
Quiet {N} {S} loop =
    (j upstream : ℕ) (cs : List CallInfo) (s : S) (w : World N)
    → Shows j cs w
    → Shows j cs (loop upstream s w).2

module _ (l : Libs) {N : Type 0} (api : GatewayApi N) (k : ℕ) (cs : List CallInfo) where
  subscribed-open :
      (rel : Release) (r : Result ℕ) (w : World N)
      → Shows (k + holds rel) cs w
      → GatewayPost k cs (subscribed l api rel (r, w))
  unfolding subscribed
  subscribed-open rel (ok upstream) w h = h
  subscribed-open rel (err e) w h = release-open l api rel h

  subscribe-open :
      (c : Contract) (ctx : Ctx) (o : EventOptions) (r : Result (ℕ × Release) × World N)
      → GatewayPost k cs r
      → GatewayPost k cs (subscribe l api c ctx o r)
  unfolding subscribe
  subscribe-open c ctx o (err e, w) h = h
  subscribe-open c ctx o (ok (gw, rel), w) h = subscribed-open rel _ _ (Shows-net h)

  -- `ChaincodeEvents` that fails leaves asked many gateways open asked there were; where it succeeds, one more
  -- is open exactly if the release function that its goroutine gets closes one. No call is observed.
  pub chaincode_events-GatewayPost :
      (c : Contract) (ctx : Ctx) (opts : List EventOption) (w : World N)
      → Shows k cs w
      → GatewayPost k cs (chaincode_events l api c ctx opts w)
  unfolding chaincode_events
  chaincode_events-GatewayPost c ctx opts w h =
      subscribe-open c ctx (event_options c opts) _ (gateway-open l api c w h)

  module _ {S : Type 0} (loop : ℕ → S → World N → Option GoError × S × World N)
      (quiet : Quiet loop) where
    block_loop-open :
        (s : S) (rel : Release) (r : Result ℕ) (w : World N)
        → Shows (k + holds rel) cs w
        → Shows k cs (block_loop l api loop s rel (r, w)).2
    unfolding block_loop
    block_loop-open s rel (err e) w h = release-open l api rel h
    block_loop-open s rel (ok upstream) w h = release-open l api rel (quiet _ upstream cs s w h)

    block_gateway-open :
        (c : Contract) (ctx : Ctx) (cp : ℕ) (o : EventOptions) (s : S)
        (r : Result (ℕ × Release) × World N)
        → GatewayPost k cs r
        → Shows k cs (block_gateway l api loop c ctx cp o s r).2
    unfolding block_gateway
    block_gateway-open c ctx cp o s (err e, w) h = h
    block_gateway-open c ctx cp o s (ok (gw, rel), w) h = block_loop-open s rel _ _ (Shows-net h)

    -- `blockSession` leaves asked many gateways open asked there were, however it ends, if its loop over the
    -- blocks neither opens nor closes any.
    pub block_stream-Shows :
        (c : Contract) (ctx : Ctx) (cp : ℕ) (o : EventOptions) (s : S) (w : World N)
        → Shows k cs w
        → Shows k cs (block_stream l api loop c ctx cp o s w).2
    unfolding block_stream
    block_stream-Shows c ctx cp o s w h =
        block_gateway-open c ctx cp o s _ (gateway-open l api c w h)

-- How a block stream comes out: it is not opened, or its loop ran on an upstream channel for which `P`
-- holds.
abbrev pub BlockOutcome :
    {N S : Type 0}
    → (ℕ → N → Type 0)
    → (ℕ → S → World N → Option GoError × S × World N)
    → S
    → Option GoError × S × World N
    → Type 0
BlockOutcome {N} P loop s (x, s', w') =
    ((e : GoError) × (x ≡ some e) × (s' ≡ s))
    ⊎ ((upstream : ℕ) × (w : World N) × P upstream w.net
        × (x ≡ (loop upstream s w).0)
        × (s' ≡ (loop upstream s w).1))

module _ (l : Libs) {N S : Type 0} (api : GatewayApi N)
    (loop : ℕ → S → World N → Option GoError × S × World N) (P : ℕ → N → Type 0) where
  block_loop-BlockOutcome :
      (s : S) (rel : Release) (r : Result ℕ × World N)
      → ((upstream : ℕ) → r.0 ≡ ok upstream → P upstream r.1.net)
      → BlockOutcome P loop s (block_loop l api loop s rel r)
  unfolding block_loop
  block_loop-BlockOutcome s rel (err e, w) f = inl (_, refl, refl)
  block_loop-BlockOutcome s rel (ok upstream, w) f = inr (upstream, _, f upstream refl, refl, refl)

  -- Where `P` holds for every channel that the gateway library opens with the options of the code.
  abbrev pub Opens : ℕ → EventOptions → Type 0
  Opens cp o =
      (ctx : Ctx) (gw : ℕ) (channel : Text) (n : N) (upstream : ℕ)
      → let asked = start_option o.start_block ++ (with_checkpoint cp ∷ []) in
        (api.block_events ctx gw channel asked n).0 ≡ ok upstream
        → P upstream (api.block_events ctx gw channel asked n).1

  block_gateway-BlockOutcome :
      (c : Contract) (ctx : Ctx) (cp : ℕ) (o : EventOptions) (s : S)
      (r : Result (ℕ × Release) × World N)
      → Opens cp o
      → BlockOutcome P loop s (block_gateway l api loop c ctx cp o s r)
  unfolding block_gateway
  block_gateway-BlockOutcome c ctx cp o s (err e, w) f = inl (e, refl, refl)
  block_gateway-BlockOutcome c ctx cp o s (ok (gw, rel), w) f =
      block_loop-BlockOutcome s rel _ (f ctx gw c.channel w.net)

  pub block_stream-BlockOutcome :
      (c : Contract) (ctx : Ctx) (cp : ℕ) (o : EventOptions) (s : S) (w : World N)
      → Opens cp o
      → BlockOutcome P loop s (block_stream l api loop c ctx cp o s w)
  unfolding block_stream
  block_stream-BlockOutcome c ctx cp o s w f = block_gateway-BlockOutcome c ctx cp o s _ f

module _ (l : Libs) {N : Type 0} (api : GatewayApi N) where
  pub chaincode_events-refused :
      (c : Contract) (ctx : Ctx) (opts : List EventOption) (e : GoError) (w : World N)
      → gateway l api c w ≡ (err e, w)
      → chaincode_events l api c ctx opts w ≡ (err e, w)
  unfolding chaincode_events subscribe
  chaincode_events-refused c ctx opts e w h = rw h refl
