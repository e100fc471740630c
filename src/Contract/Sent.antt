-- ===== src/Contract/Sent.antt =====
-- What the calls of a handle do to a count of the requests to the ordering service.
use fabricsdk.Base.{ℕ, ◌+◌, ◌≡◌, ◌∙◌, Option, none, some, Text, ◌==◌, if_intro}
use fabricsdk.GoError.{GoError}
use fabricsdk.Libs.{Libs}
use fabricsdk.Observe.{Op}
use fabricsdk.Config.{Identity}
use fabricsdk.Options.{Ctx, ProposalOption}
use fabricsdk.Result.{Result, ok, err}
use fabricsdk.World.{GatewayApi, ConnectOptions, Target, World}
use fabricsdk.Contract.{
  FabricClient, Contract, Release, nothing, close_gateway, connect_result, connect, with_release,
  gateway_for, gateway, release, log_failure, observe,
}
use fabricsdk.Base.{List}

-- A count of the requests to the ordering service: a call of `Submit` of the gateway library sends one,
-- and the other calls of a submission send none.
pub record Counts {N : Type 0} (api : GatewayApi N) (sent : N → ℕ) : Type 0 where
  pub submit : (ctx : Ctx) (tx : ℕ) (n : N) → sent (api.submit ctx tx n).1 ≡ sent n + 1
  pub connect : (id : Identity) (o : ConnectOptions) (n : N) → sent (api.connect id o n).1 ≡ sent n
  pub close : (g : ℕ) (n : N) → sent (api.close g n).1 ≡ sent n
  pub new_proposal :
      (g : ℕ) (t : Target) (fn : Text) (os : List ProposalOption) (n : N)
      → sent (api.new_proposal g t fn os n).1 ≡ sent n
  pub endorse : (ctx : Ctx) (p : ℕ) (n : N) → sent (api.endorse ctx p n).1 ≡ sent n
  pub commit_status : (ctx : Ctx) (c : ℕ) (n : N) → sent (api.commit_status ctx c n).1 ≡ sent n

module _ (l : Libs) {N : Type 0} (api : GatewayApi N) (sent : N → ℕ)
    (counts : Counts api sent) where
  -- `j` requests have been sent.
  abbrev Sent : ℕ → World N → Type 0
  Sent j w = sent w.net ≡ j

  connect_result-Sent :
      (k : ℕ) (r : Result ℕ × World N)
      → Sent k r.1
      → Sent k (with_release l api (connect_result l api r)).1
  unfolding connect_result with_release
  connect_result-Sent k (ok gw, w) h = h
  connect_result-Sent k (err e, w) h = h

  gateway_for-Sent :
      (k : ℕ) (fc : FabricClient) (o : Option Identity) (w : World N)
      → Sent k w
      → Sent k (gateway_for l api fc o w).1
  unfolding gateway_for connect
  gateway_for-Sent k fc none w h = h
  gateway_for-Sent k fc (some id) w h =
      if_intro (λ (x : Result (ℕ × Release) × World N). Sent k x.1) (id.address == fc.id.address) h
        (connect_result-Sent k _ (counts.connect id _ w.net ∙ h))

  pub gateway-Sent : (k : ℕ) (c : Contract) (w : World N) → Sent k w → Sent k (gateway l api c w).1
  unfolding gateway
  gateway-Sent k c w h =
      if_intro (λ (x : Result (ℕ × Release) × World N). Sent k x.1) w.is_closed h
        (gateway_for-Sent k c.fc c.id w h)

  pub release-Sent : (j : ℕ) (rel : Release) (w : World N) → Sent j w → Sent j (release l api rel w)
  unfolding release
  release-Sent j nothing w h = h
  release-Sent j (close_gateway gw) w h = counts.close gw w.net ∙ h

  pub observe-Sent :
      (j : ℕ) (c : Contract) (op : Op) (fn tx : Text) (start : ℕ) (e : Option GoError) (w : World N)
      → Sent j w
      → Sent j (observe l api c op fn tx start e w)
  unfolding observe log_failure
  observe-Sent j c op fn tx start none w h = h
  observe-Sent j c op fn tx start (some e) w h = h
