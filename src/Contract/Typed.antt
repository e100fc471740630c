-- ===== src/Contract/Typed.antt =====
-- The errors that a handle returns.
use fabricsdk.Base.{false, ℕ, ◌≡◌, refl, ◌==◌, Option, none, some, List, Text, if_intro}
use fabricsdk.GoError.{GoError, Error, boxed}
use fabricsdk.Kinds.{Kind, ErrorSource}
use fabricsdk.Errors.{config_error, new_error}
use fabricsdk.Libs.{Libs}
use fabricsdk.Options.{CallOption, Ctx}
use fabricsdk.Config.{Identity}
use fabricsdk.Result.{Result, ok, err}
use fabricsdk.World.{GatewayApi, World}
use fabricsdk.Contract.{
  Contract, FabricClient, Release, gateway, gateway_for, with_release, connect, connect_result,
  evaluate_with, evaluate_gateway, evaluate_proposal, evaluate_observed, release_after, evaluated,
}

-- A failure is an error of the package.
abbrev pub Typed : {A : Type 0} → Result A → Type 0
Typed (ok a) = Unit
Typed (err e) = (x : Error) × (e ≡ boxed x)

-- A failure is an error of the package whose outcome is known.
abbrev pub Known : {A : Type 0} → Result A → Type 0
Known (ok a) = Unit
Known (err e) = (x : Error) × (e ≡ boxed x) × (x.outcome_unknown ≡ false)

pub config_error-outcome_unknown : (e : GoError) → (config_error e).outcome_unknown ≡ false
unfolding config_error
config_error-outcome_unknown e = refl

new_error-outcome_unknown :
    (k : Kind) (s : ErrorSource) (text : Text) → (new_error k s text).outcome_unknown ≡ false
unfolding new_error
new_error-outcome_unknown k s text = refl

module _ (l : Libs) {N : Type 0} (api : GatewayApi N) where
  connect_result-Known : (r : Result ℕ × World N) → Known (connect_result l api r).0
  unfolding connect_result
  connect_result-Known (ok gw, w) = tt
  connect_result-Known (err e, w) = (_, refl, config_error-outcome_unknown _)

  with_release-Known : (r : Result ℕ × World N) → Known r.0 → Known (with_release l api r).0
  unfolding with_release
  with_release-Known (ok gw, w) h = tt
  with_release-Known (err e, w) h = h

  gateway_for-Known :
      (fc : FabricClient) (id : Option Identity) (w : World N) → Known (gateway_for l api fc id w).0
  unfolding gateway_for connect
  gateway_for-Known fc none w = (_, refl, config_error-outcome_unknown _)
  gateway_for-Known fc (some id) w =
      if_intro (λ (r : Result (ℕ × Release) × World N). Known r.0) (id.address == fc.id.address) tt
        (with_release-Known _ (connect_result-Known _))

  -- A handle gets no gateway only with an error of the package whose outcome is known.
  pub gateway-Known : (c : Contract) (w : World N) → Known (gateway l api c w).0
  unfolding gateway
  gateway-Known c w =
      if_intro (λ (r : Result (ℕ × Release) × World N). Known r.0) w.is_closed
        (_, refl, new_error-outcome_unknown _ _ _) (gateway_for-Known c.fc c.id w)

  Known-Typed : {A : Type 0} (r : Result A) → Known r → Typed r
  Known-Typed (ok a) h = tt
  Known-Typed (err e) (x, b, k) = (x, b)

  pub gateway-Typed : (c : Contract) (w : World N) → Typed (gateway l api c w).0
  gateway-Typed c w = Known-Typed (gateway l api c w).0 (gateway-Known c w)

  evaluated-Typed : (c : Contract) (tx : Text) (r : Result Text) → Typed (evaluated l api c tx r)
  unfolding evaluated
  evaluated-Typed c tx (ok payload) = tt
  evaluated-Typed c tx (err e) = (_, refl)

  evaluate_proposal-Typed :
      (c : Contract) (ctx : Option Ctx) (r : Result ℕ × World N)
      → Typed (evaluate_proposal l api c ctx r).1
  unfolding evaluate_proposal
  evaluate_proposal-Typed c ctx (err e, w) = (_, refl)
  evaluate_proposal-Typed c ctx (ok p, w) = evaluated-Typed c _ _

  evaluate_gateway-Typed :
      (c : Contract) (ctx : Option Ctx) (fn : Text) (opts : List CallOption)
      (r : Result (ℕ × Release) × World N)
      → Typed r.0
      → Typed (evaluate_gateway l api c ctx fn opts r).1
  unfolding evaluate_gateway release_after
  evaluate_gateway-Typed c ctx fn opts (err e, w) h = h
  evaluate_gateway-Typed c ctx fn opts (ok (gw, rel), w) h = evaluate_proposal-Typed c ctx _

  pub evaluate_with-Typed :
      (c : Contract) (ctx : Option Ctx) (fn : Text) (opts : List CallOption) (w : World N)
      → Typed (evaluate_with l api c ctx fn opts w).0
  unfolding evaluate_with evaluate_observed
  evaluate_with-Typed c ctx fn opts w =
      evaluate_gateway-Typed c ctx fn opts (gateway l api c w) (gateway-Typed c w)
