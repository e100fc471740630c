-- ===== src/Contract/Evaluate.antt =====
-- What `gateway`, `release`, `observe` and `EvaluateWith` do to the gateways that are open, and to the
-- calls that are observed.
use fabricsdk.Base.{
  ℕ, ◌+◌, ◌-◌, ◌≡◌, refl, ◌==◌, Bool-cases, inl, inr, Option, none, some, List, [], ◌∷◌, ◌++◌,
  arith, Text, if_intro,
}
use fabricsdk.GoError.{GoError}
use fabricsdk.Libs.{Libs}
use fabricsdk.Observe.{Op, CallInfo}
use fabricsdk.Options.{CallOption, Ctx}
use fabricsdk.Config.{Identity}
use fabricsdk.Result.{Result, ok, err, error_of}
use fabricsdk.World.{GatewayApi, World}
use fabricsdk.World.Open.{
  Shows, emit-opened, emit-closed, emit-observed, emit-failed, Shows-net, Shows-eq,
}
use fabricsdk.Contract.{
  Contract, FabricClient, Release, nothing, close_gateway, gateway, gateway_for, with_release,
  connect, connect_result, release, observe, log_failure, evaluate_with, evaluate_gateway,
  evaluate_proposal, evaluate_observed, release_after, msp_id_of,
}

-- The gateways that a release function closes.
abbrev pub holds : Release → ℕ
holds nothing = 0
holds (close_gateway g) = 1

-- A gateway is open beside the `k` of before if one was handed out to be closed.
abbrev pub GatewayPost : {N : Type 0} → ℕ → List CallInfo → Result (ℕ × Release) × World N → Type 0
GatewayPost k cs (ok (g, rel), w) = Shows (k + holds rel) cs w
GatewayPost k cs (err e, w) = Shows k cs w

module _ (l : Libs) {N : Type 0} (api : GatewayApi N) where
  connect-open :
      {k : ℕ} {cs : List CallInfo} (r : Result ℕ) (w : World N)
      → Shows k cs w
      → GatewayPost k cs (with_release l api (connect_result l api (r, w)))
  unfolding with_release connect_result
  connect-open (ok g) w h = emit-opened g h
  connect-open (err e) w h = h

  gateway_for-open :
      {k : ℕ} {cs : List CallInfo} (fc : FabricClient) (id : Option Identity) (w : World N)
      → Shows k cs w
      → GatewayPost k cs (gateway_for l api fc id w)
  unfolding gateway_for connect
  gateway_for-open fc none w h = h
  gateway_for-open fc (some id) w h = elim (Bool-cases (id.address == fc.id.address)) [
    | inl e ↦ rw e (Shows-eq (omega arith) h)
    | inr n ↦ rw n (connect-open _ _ (Shows-net h))
  ]

  pub gateway-open :
      {k : ℕ} {cs : List CallInfo} (c : Contract) (w : World N)
      → Shows k cs w
      → GatewayPost k cs (gateway l api c w)
  unfolding gateway
  gateway-open {k} {cs} c w h =
      if_intro (GatewayPost k cs) w.is_closed h (gateway_for-open c.fc c.id w h)

  pub release-open :
      {k : ℕ} {cs : List CallInfo} (r : Release) {w : World N}
      → Shows (k + holds r) cs w
      → Shows k cs (release l api r w)
  unfolding release
  release-open nothing h = Shows-eq (omega arith) h
  release-open (close_gateway g) h = emit-closed g (Shows-net h)

  log_failure-open :
      {k : ℕ} {cs : List CallInfo} (op : Op) (fn tx : Text) (e : Option GoError) {w : World N}
      → Shows k cs w
      → Shows k cs (log_failure l api op fn tx e w)
  unfolding log_failure
  log_failure-open op fn tx none h = h
  log_failure-open op fn tx (some e) h = emit-failed op fn tx _ h

  -- The call that `observe` passes on.
  abbrev pub call_info : Contract → Op → Text → Text → ℕ → Option GoError → World N → CallInfo
  call_info c op fn tx start e w = record {
    operation = op;
    channel = c.channel;
    chaincode = c.chaincode;
    contract = c.contract;
    function = fn;
    msp_id = msp_id_of c.id;
    tx_id = tx;
    duration = api.now w.net - start;
    err = e;
  }

  pub observe-open :
      {k : ℕ} {cs : List CallInfo} (c : Contract) (op : Op) (fn tx : Text) (start : ℕ)
      (e : Option GoError) {w : World N}
      → Shows k cs w
      → Shows k (cs ++ (call_info c op fn tx start e w ∷ [])) (observe l api c op fn tx start e w)
  unfolding observe
  observe-open c op fn tx start e h = log_failure-open op fn tx e (emit-observed _ h)

  evaluate_proposal-open :
      {k : ℕ} {cs : List CallInfo} (c : Contract) (ctx : Option Ctx) (r : Result ℕ × World N)
      → Shows k cs r.1
      → Shows k cs (evaluate_proposal l api c ctx r).2
  unfolding evaluate_proposal
  evaluate_proposal-open c ctx (ok p, w) h = Shows-net h
  evaluate_proposal-open c ctx (err e, w) h = h

  evaluate_gateway-open :
      {k : ℕ} {cs : List CallInfo} (c : Contract) (ctx : Option Ctx) (fn : Text)
      (opts : List CallOption) (r : Result (ℕ × Release) × World N)
      → GatewayPost k cs r
      → Shows k cs (evaluate_gateway l api c ctx fn opts r).2
  unfolding evaluate_gateway release_after
  evaluate_gateway-open c ctx fn opts (err e, w) h = h
  evaluate_gateway-open c ctx fn opts (ok (g, rel), w) h =
      release-open rel (evaluate_proposal-open c ctx _ (Shows-net h))

  -- `EvaluateWith` leaves as many gateways open as there were and is observed as exactly one call, of
  -- its function and channel with the error that it returns, whatever fails.
  pub evaluate_with-Shows :
      {k : ℕ} {cs : List CallInfo} (c : Contract) (ctx : Option Ctx) (fn : Text)
      (opts : List CallOption) {w : World N}
      → Shows k cs w
      → (i : CallInfo) × Shows k (cs ++ (i ∷ [])) (evaluate_with l api c ctx fn opts w).1
        × (i.operation ≡ Op.evaluate)
        × (i.function ≡ fn)
        × (i.channel ≡ c.channel)
        × (i.err ≡ error_of (evaluate_with l api c ctx fn opts w).0)
  unfolding evaluate_with evaluate_observed
  evaluate_with-Shows c ctx fn opts {w} h = (
    _,
    observe-open c Op.evaluate fn _ _ _
        (evaluate_gateway-open c ctx fn opts (gateway l api c w) (gateway-open c w h)),
    refl,
    refl,
    refl,
    refl,
  )

  observe-net :
      (c : Contract) (op : Op) (fn tx : Text) (start : ℕ) (e : Option GoError) (w : World N)
      → (observe l api c op fn tx start e w).net ≡ w.net
  unfolding observe log_failure
  observe-net c op fn tx start none w = refl
  observe-net c op fn tx start (some e) w = refl

  -- Without a gateway nothing is asked of a peer.
  pub evaluate_with-refused :
      (c : Contract) (ctx : Option Ctx) (fn : Text) (opts : List CallOption) (e : GoError)
      (w : World N)
      → gateway l api c w ≡ (err e, w)
      → ((evaluate_with l api c ctx fn opts w).0 ≡ err e)
        × ((evaluate_with l api c ctx fn opts w).1.net ≡ w.net)
  unfolding evaluate_with evaluate_gateway evaluate_observed
  evaluate_with-refused c ctx fn opts e w h = rw h (refl, observe-net _ _ _ _ _ _ _)
