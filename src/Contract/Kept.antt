-- ===== src/Contract/Kept.antt =====
-- What calls of a handle leave as it is: for one, the client's `closed` flag.
use fabricsdk.Base.{ℕ, ◌≡◌, Bool, Option, none, some, List, Text, ◌==◌, if_intro}
use fabricsdk.GoError.{GoError}
use fabricsdk.Libs.{Libs}
use fabricsdk.Observe.{Op}
use fabricsdk.Config.{Identity}
use fabricsdk.Options.{CallOption, Ctx}
use fabricsdk.Result.{Result, ok, err}
use fabricsdk.World.{GatewayApi, opened, closed, World, emit}
use fabricsdk.Contract.{
  FabricClient, Contract, Release, nothing, close_gateway, connect_result, connect, with_release,
  gateway_for, gateway, release, log_failure, observe, evaluate_proposal, release_after,
  evaluate_gateway, evaluate_observed, evaluate_with,
}

-- What calls of the library, and gateways that are opened and closed, leave as it is.
pub record Steady {N : Type 0} (P : World N → Type 0) : Type 0 where
  pub net : (w : World N) (n : N) → P w → P (record w { net = n })
  pub opens : (w : World N) (g : ℕ) → P w → P (emit (opened g) w)
  pub closes : (w : World N) (g : ℕ) → P w → P (emit (closed g) w)

module _ (l : Libs) {N : Type 0} (api : GatewayApi N) (P : World N → Type 0)
    (steady : Steady P) where
  connect_result-Steady :
      (r : Result ℕ × World N) → P r.1 → P (with_release l api (connect_result l api r)).1
  unfolding connect_result with_release
  connect_result-Steady (ok gw, w) h = steady.opens w gw h
  connect_result-Steady (err e, w) h = h

  gateway_for-Steady :
      (fc : FabricClient) (o : Option Identity) (w : World N) → P w → P (gateway_for l api fc o w).1
  unfolding gateway_for connect
  gateway_for-Steady fc none w h = h
  gateway_for-Steady fc (some id) w h =
      if_intro (λ (x : Result (ℕ × Release) × World N). P x.1) (id.address == fc.id.address) h
        (connect_result-Steady _ (steady.net w _ h))

  pub gateway-Steady : (c : Contract) (w : World N) → P w → P (gateway l api c w).1
  unfolding gateway
  gateway-Steady c w h =
      if_intro (λ (x : Result (ℕ × Release) × World N). P x.1) w.is_closed h
        (gateway_for-Steady c.fc c.id w h)

  pub release-Steady : (rel : Release) (w : World N) → P w → P (release l api rel w)
  unfolding release
  release-Steady nothing w h = h
  release-Steady (close_gateway gw) w h = steady.closes _ gw (steady.net w _ h)

-- The flag is as given.
abbrev pub Flag : {N : Type 0} → Bool → World N → Type 0
Flag b w = w.is_closed ≡ b

Flag-Steady : {N : Type 0} (b : Bool) → Steady (Flag {N = N} b)
Flag-Steady b = record { net = λ w n h. h; opens = λ w g h. h; closes = λ w g h. h }

module _ (l : Libs) {N : Type 0} (api : GatewayApi N) (b : Bool) where
  pub gateway-Flag : (c : Contract) (w : World N) → Flag b w → Flag b (gateway l api c w).1
  gateway-Flag c w h = gateway-Steady l api (Flag b) (Flag-Steady b) c w h

  pub release-Flag : (rel : Release) (w : World N) → Flag b w → Flag b (release l api rel w)
  release-Flag rel w h = release-Steady l api (Flag b) (Flag-Steady b) rel w h

  pub observe-Flag :
      (c : Contract) (op : Op) (fn tx : Text) (start : ℕ) (e : Option GoError) (w : World N)
      → Flag b w
      → Flag b (observe l api c op fn tx start e w)
  unfolding observe log_failure
  observe-Flag c op fn tx start none w h = h
  observe-Flag c op fn tx start (some e) w h = h

  evaluate_proposal-Flag :
      (c : Contract) (ctx : Option Ctx) (r : Result ℕ × World N)
      → Flag b r.1
      → Flag b (evaluate_proposal l api c ctx r).2
  unfolding evaluate_proposal
  evaluate_proposal-Flag c ctx (err e, w) h = h
  evaluate_proposal-Flag c ctx (ok p, w) h = h

  evaluate_gateway-Flag :
      (c : Contract) (ctx : Option Ctx) (fn : Text) (opts : List CallOption)
      (r : Result (ℕ × Release) × World N)
      → Flag b r.1
      → Flag b (evaluate_gateway l api c ctx fn opts r).2
  unfolding evaluate_gateway release_after
  evaluate_gateway-Flag c ctx fn opts (err e, w) h = h
  evaluate_gateway-Flag c ctx fn opts (ok (gw, rel), w) h =
      release-Flag rel _ (evaluate_proposal-Flag c ctx _ h)

  pub evaluate_with-Flag :
      (c : Contract) (ctx : Option Ctx) (fn : Text) (opts : List CallOption) (w : World N)
      → Flag b w
      → Flag b (evaluate_with l api c ctx fn opts w).1
  unfolding evaluate_with evaluate_observed
  evaluate_with-Flag c ctx fn opts w h =
      observe-Flag c _ fn _ _ _ _ (evaluate_gateway-Flag c ctx fn opts _ (gateway-Flag c w h))
