-- ===== src/Ledger.antt =====
-- contract.go: ledger queries through the system chaincode qscc. `proto.Unmarshal` is a parameter.
pub mod Resolve
pub mod Typed
use fabricsdk.Base.{
  ℕ, Bool, true, false, ◌||◌, Option, none, some, List, [], ◌∷◌, ◌++◌, map, Text, codes, exists,
  if◌then◌else◌,
}
use fabricsdk.GoStrings.{contains}
use fabricsdk.GoError.{GoError, Error, ErrorDetail, Info, boxed, text_of}
use fabricsdk.Kinds.{Kind, ErrorSource, Phase, GrpcCode, TxValidationCode}
use fabricsdk.Errors.{config_error, new_error}
use fabricsdk.Libs.{Libs}
use fabricsdk.Classify.{classified, gateway_details}
use fabricsdk.Observe.{Op}
use fabricsdk.Options.{ProposalOption, bytes_arguments, Ctx, with_default_timeout}
use fabricsdk.Result.{Result, ok, err, error_of}
use fabricsdk.World.{GatewayApi, Target, World, lift}
use fabricsdk.Contract.{Contract, Release, gateway, release, observe, now}

-- `proto.Unmarshal` of a ProcessedTransaction, for its validation code, and of a BlockchainInfo, for
-- its height.
pub record Decoders : Type 0 where
  pub processed_transaction : Text → Result TxValidationCode
  pub blockchain_info : Text → Result ℕ

-- `TxStatus`.
pub record TxStatus : Type 0 where
  pub tx_id : Text
  pub found : Bool
  pub validation_code : TxValidationCode
  pub valid : Bool

abbrev pub no_such_tx : Text
no_such_tx = codes "no such transaction ID"

abbrev is_valid : TxValidationCode → Bool
is_valid TxValidationCode.valid = true
is_valid _ = false

-- The literal of an undecodable answer.
abbrev decode_error : Text → GoError → GoError
decode_error text e =
    boxed (record { info = (new_error Kind.internal ErrorSource.sdk text).info; cause = some e })

-- `mentions`.
unfoldable pub mentions : Libs → GoError → Text → Bool
mentions l e text =
    let st = l.convert e in
    contains st.message text
    || (exists (λ (x : Text). contains x text)
          (map (λ (x : ErrorDetail). x.message) (gateway_details st.details))
        || contains (text_of e) text)

module _ (l : Libs) {N : Type 0} (api : GatewayApi N) (d : Decoders) where
  query_proposal : Contract → Option Ctx → Result ℕ × World N → Result Text × World N
  query_proposal c ctx (err e, w) = (err (boxed (config_error e)), w)
  query_proposal c ctx (ok p, w) =
      let ectx = with_default_timeout (now l api w) ctx c.fc.cfg.evaluate_timeout in
      lift (api.evaluate ectx p) w

  query_release : Release → Result Text × World N → Result Text × World N
  query_release rel (r, w) = (r, release l api rel w)

  query_gateway :
      Contract
      → Option Ctx
      → Text
      → List Text
      → Result (ℕ × Release) × World N
      → Result Text × World N
  unfolding query_proposal query_release
  query_gateway c ctx fn xs (err e, w) = (err e, w)
  query_gateway c ctx fn xs (ok (gw, rel), w) =
      let target : Target = record {
        channel = c.channel;
        chaincode = codes "qscc";
        contract = none;
      } in
      query_release rel
        (query_proposal c ctx (lift (api.new_proposal gw target fn (bytes_arguments xs ∷ [])) w))

  -- `qscc`.
  unfoldable pub qscc : Contract → Option Ctx → Text → List Text → World N → Result Text × World N
  unfolding query_gateway
  qscc c ctx fn xs w = query_gateway c ctx fn xs (gateway l api c w)

  decoded_status : Text → Result TxValidationCode → Result TxStatus
  decoded_status tx (err e) = err (decode_error (codes "decode ProcessedTransaction") e)
  decoded_status tx (ok vc) =
      ok (record { tx_id = tx; found = true; validation_code = vc; valid = is_valid vc })

  not_found : Text → TxStatus
  not_found tx = record {
    tx_id = tx;
    found = false;
    validation_code = TxValidationCode.valid;
    valid = false;
  }

  -- What `TxStatus` makes of the answer of qscc.
  unfoldable pub status_answer : Text → Result Text → Result TxStatus
  unfolding decoded_status not_found mentions
  status_answer tx (ok raw) = decoded_status tx (d.processed_transaction raw)
  status_answer tx (err e) =
      if mentions l e no_such_tx
      then ok (not_found tx)
      else err (boxed (classified l e [] Phase.evaluate true))

  status_observed : Contract → Text → ℕ → Result Text × World N → Result TxStatus × World N
  unfolding status_answer
  status_observed c tx start (raw, w) =
      let r = status_answer tx raw in
      (r, observe l api c Op.tx_status (codes "GetTransactionByID") tx start (error_of r) w)

  -- `TxStatus`.
  unfoldable pub tx_status : Contract → Option Ctx → Text → World N → Result TxStatus × World N
  unfolding qscc status_observed
  tx_status c ctx tx w =
      status_observed c tx (now l api w)
        (qscc c ctx (codes "GetTransactionByID") (c.channel ∷ tx ∷ []) w)

  decoded_height : Result ℕ → Result ℕ
  decoded_height (err e) = err (decode_error (codes "decode BlockchainInfo") e)
  decoded_height (ok h) = ok h

  height_answer : Result Text → Result ℕ
  unfolding decoded_height
  height_answer (ok raw) = decoded_height (d.blockchain_info raw)
  height_answer (err e) = err (boxed (classified l e [] Phase.evaluate true))

  -- `Height`.
  unfoldable pub height : Contract → Option Ctx → World N → Result ℕ × World N
  unfolding qscc height_answer
  height c ctx w =
      let (raw, w') = qscc c ctx (codes "GetChainInfo") (c.channel ∷ []) w in
      (height_answer raw, w')
