-- ===== src/Contract.antt =====
-- contract.go: the handle, the gateway that it signs with, the hooks, and read-only queries.
pub mod Evaluate
pub mod Kept
pub mod Sent
pub mod Typed
use fabricsdk.Base.{
  ℕ, ◌-◌, Bool, true, false, Option, none, some, List, [], ◌∷◌, ◌++◌, ◌==◌, Text, codes, is_empty,
  if◌then◌else◌,
}
use fabricsdk.GoError.{GoError, other, also, end, boxed, text_of}
use fabricsdk.Kinds.{Kind, ErrorSource, Phase}
use fabricsdk.Errors.{new_error, config_error, kind_of}
use fabricsdk.Libs.{Libs}
use fabricsdk.Classify.{classified}
use fabricsdk.Observe.{Op, CallInfo}
use fabricsdk.Config.{Config, Identity, new_go_error}
use fabricsdk.Options.{CallOption, args, proposal_options, Ctx, with_default_timeout}
use fabricsdk.Result.{Result, ok, err, error_of}
use fabricsdk.World.{
  GatewayApi, ConnectOptions, Target, Event, opened, closed, observed, failed, World, emit, lift,
}

-- The fields of `FabricClient` that do not change once it is built; `closed` is in the world.
pub record FabricClient : Type 0 where
  pub cfg : Config
  pub conn : ℕ
  pub owned_conn : Option ℕ
  pub id : Identity
  pub owns_id : Bool
  pub gw : ℕ
  pub tls_hash : Text

-- `Contract`; a nil identity is `none`.
pub record Contract : Type 0 where
  pub fc : FabricClient
  pub id : Option Identity
  pub channel : Text
  pub chaincode : Text
  pub contract : Text

-- `WithIdentity`, `WithTarget`, and the client's `Contract` and `Target`.
pub with_identity : Contract → Option Identity → Contract
with_identity c id = record c { id = id }

pub with_target : Contract → Text → Text → Text → Contract
with_target c channel chaincode contract_name = record c {
  channel = channel;
  chaincode = chaincode;
  contract = contract_name;
}

pub default_contract : FabricClient → Contract
default_contract fc = record {
  fc = fc;
  id = some fc.id;
  channel = fc.cfg.channel_name;
  chaincode = fc.cfg.chaincode_name;
  contract = fc.cfg.contract_name;
}

pub target_contract : FabricClient → Text → Text → Text → Contract
unfolding default_contract with_target
target_contract fc = with_target (default_contract fc)

-- The function that gives a gateway back: it does nothing, or closes it.
pub data Release : Type 0 where
  nothing : Release
  close_gateway : ℕ → Release

-- `target`.
unfoldable pub target : Contract → Target
target c = record {
  channel = c.channel;
  chaincode = c.chaincode;
  contract = if is_empty c.contract then none else some c.contract;
}

abbrev hash_option : Text → Option Text
hash_option [] = none
hash_option (b ∷ bs) = some (b ∷ bs)

-- The options that `connect` makes.
unfoldable pub connect_options : FabricClient → Identity → ConnectOptions
connect_options fc id = record {
  sign = id.sign;
  connection = fc.conn;
  evaluate_timeout = fc.cfg.evaluate_timeout;
  endorse_timeout = fc.cfg.endorse_timeout;
  submit_timeout = fc.cfg.submit_timeout;
  commit_status_timeout = fc.cfg.commit_status_timeout;
  tls_certificate_hash = hash_option fc.tls_hash;
}

-- `fmt.Errorf` of a text with the error behind it, wrapped.
abbrev pub wrap_error : Text → GoError → GoError
wrap_error text e = other 0 (text ++ text_of e) (also e end)

abbrev pub msp_id_of : Option Identity → Text
msp_id_of none = []
msp_id_of (some id) = id.msp_id

abbrev pub closed_error : GoError
closed_error = boxed (new_error Kind.config ErrorSource.sdk (codes "client is closed"))

abbrev pub nil_identity_error : GoError
nil_identity_error = boxed (config_error (new_go_error (codes "identity is nil")))

module _ (l : Libs) {N : Type 0} (api : GatewayApi N) where
  unfoldable pub connect_result : Result ℕ × World N → Result ℕ × World N
  connect_result (ok gw, w) = (ok gw, emit (opened gw) w)
  connect_result (err e, w) =
      (err (boxed (config_error (wrap_error (codes "connect gateway: ") e))), w)

  -- `FabricClient.connect`.
  unfoldable pub connect : FabricClient → Identity → World N → Result ℕ × World N
  unfolding connect_result
  connect fc id w = connect_result (lift (api.connect id (connect_options fc id)) w)

  with_release : Result ℕ × World N → Result (ℕ × Release) × World N
  with_release (ok gw, w) = (ok (gw, close_gateway gw), w)
  with_release (err e, w) = (err e, w)

  gateway_for : FabricClient → Option Identity → World N → Result (ℕ × Release) × World N
  unfolding with_release
  gateway_for fc none w = (err nil_identity_error, w)
  gateway_for fc (some id) w =
      if id.address == fc.id.address
      then (ok (fc.gw, nothing), w)
      else with_release (connect fc id w)

  -- `Contract.gateway`.
  unfoldable pub gateway : Contract → World N → Result (ℕ × Release) × World N
  unfolding gateway_for
  gateway c w = if w.is_closed then (err closed_error, w) else gateway_for c.fc c.id w

  -- A call of the release function; the result of `Close` is dropped.
  unfoldable pub release : Release → World N → World N
  release nothing w = w
  release (close_gateway gw) w = emit (closed gw) (lift (api.close gw) w).1

  log_failure : Op → Text → Text → Option GoError → World N → World N
  log_failure op fn tx none w = w
  log_failure op fn tx (some e) w = emit (failed op fn tx (kind_of (some e))) w

  -- `Contract.observe`.
  unfoldable pub observe : Contract → Op → Text → Text → ℕ → Option GoError → World N → World N
  unfolding log_failure
  observe c op fn tx start e w = log_failure op fn tx e (
      emit
        (observed (record {
          operation = op;
          channel = c.channel;
          chaincode = c.chaincode;
          contract = c.contract;
          function = fn;
          msp_id = msp_id_of c.id;
          tx_id = tx;
          duration = api.now w.net - start;
          err = e;
        }))
        w)

  abbrev pub now : World N → ℕ
  now w = api.now w.net

  -- What is done with the answer of an evaluation.
  evaluated : Contract → Text → Result Text → Result Text
  evaluated c tx (ok payload) = ok payload
  evaluated c tx (err e) =
      err (boxed (classified l e tx Phase.evaluate c.fc.cfg.strict_error_codes))

  evaluate_proposal : Contract → Option Ctx → Result ℕ × World N → Text × Result Text × World N
  unfolding evaluated
  evaluate_proposal c ctx (err e, w) = ([], err (boxed (config_error e)), w)
  evaluate_proposal c ctx (ok p, w) =
      let tx = api.transaction_id p in
      let ectx = with_default_timeout (now w) ctx c.fc.cfg.evaluate_timeout in
      let (r, w') = lift (api.evaluate ectx p) w in (tx, evaluated c tx r, w')

  release_after : Release → Text × Result Text × World N → Text × Result Text × World N
  release_after rel (tx, r, w) = (tx, r, release rel w)

  evaluate_gateway :
      Contract
      → Option Ctx
      → Text
      → List CallOption
      → Result (ℕ × Release) × World N
      → Text × Result Text × World N
  unfolding release_after evaluate_proposal
  evaluate_gateway c ctx fn opts (err e, w) = ([], err e, w)
  evaluate_gateway c ctx fn opts (ok (gw, rel), w) =
      release_after rel (
        evaluate_proposal c ctx
          (lift (api.new_proposal gw (target c) fn (proposal_options opts)) w))

  evaluate_observed : Contract → Text → ℕ → Text × Result Text × World N → Result Text × World N
  evaluate_observed c fn start (tx, r, w) = (r, observe c Op.evaluate fn tx start (error_of r) w)

  -- `EvaluateWith`: the deferred calls run in the order release, observe.
  unfoldable pub evaluate_with :
      Contract → Option Ctx → Text → List CallOption → World N → Result Text × World N
  unfolding evaluate_gateway evaluate_observed
  evaluate_with c ctx fn opts w =
      evaluate_observed c fn (now w) (evaluate_gateway c ctx fn opts (gateway c w))

  -- `Evaluate`.
  unfoldable pub evaluate :
      Contract → Option Ctx → Text → List Text → World N → Result Text × World N
  evaluate c ctx fn xs = evaluate_with c ctx fn (args xs ∷ [])
