-- ===== src/Classify.antt =====
-- errors.go: the classification of an error from the Fabric Gateway client.
pub mod Settled
pub mod Consistent
pub mod Outcome
pub mod Chaincode
pub mod Context
use fabricsdk.Base.{
  Bool, true, false, ◌&&◌, ◌||◌, not, Option, none, some, List, [], ◌∷◌, ◌++◌, map, Text, codes,
  is_empty, if◌then◌else◌,
}
use fabricsdk.GoStrings.{has_prefix, trim_prefix, cut}
use fabricsdk.Ccerr
use fabricsdk.Ccerr.{response_prefix}
use fabricsdk.Kinds.{
  Kind, ErrorSource, Phase, GrpcCode, TxValidationCode, is_unknown, is_aborted_or_unknown, cc_kind,
}
use fabricsdk.GoError.{
  GoError, Error, Info, ErrorDetail, as_error, find, to_commit, to_canceled, to_deadline_exceeded,
  is_some, text_of,
}
use fabricsdk.Errors.{new_error}
use fabricsdk.Keywords.{legacy_kind}
use fabricsdk.Libs.{Libs, Status, Detail, gateway_detail, other_detail}

-- `gatewayDetails`: the details that are of the Gateway's type.
unfoldable pub gateway_details : List Detail → List ErrorDetail
gateway_details [] = []
gateway_details (gateway_detail d ∷ ds) = d ∷ gateway_details ds
gateway_details (other_detail ∷ ds) = gateway_details ds

-- `kindFromCode`.
unfoldable pub kind_from_code : GrpcCode → Phase → Kind
kind_from_code GrpcCode.invalid_argument ph = Kind.invalid_argument
kind_from_code GrpcCode.permission_denied ph = Kind.unauthorized
kind_from_code GrpcCode.unauthenticated ph = Kind.unauthorized
kind_from_code GrpcCode.not_found ph = Kind.not_found
kind_from_code GrpcCode.deadline_exceeded ph = Kind.timeout
kind_from_code GrpcCode.canceled ph = Kind.canceled
kind_from_code GrpcCode.unavailable ph = Kind.unavailable
kind_from_code GrpcCode.failed_precondition ph = Kind.failed_precondition
kind_from_code GrpcCode.aborted Phase.endorse = Kind.endorsement
kind_from_code GrpcCode.aborted Phase.evaluate = Kind.endorsement
kind_from_code GrpcCode.unknown Phase.endorse = Kind.endorsement
kind_from_code GrpcCode.unknown Phase.evaluate = Kind.endorsement
kind_from_code _ ph = Kind.internal

-- The texts that may come from chaincode.
abbrev pub evaluate_prefix : Text
evaluate_prefix = codes "evaluate call to endorser returned error: "

unfoldable pub candidates : Text → List ErrorDetail → List Text
candidates msg details =
    map (λ (d : ErrorDetail). d.message) details
    ++ (if is_empty msg then [] else trim_prefix msg evaluate_prefix ∷ [])

-- Loop 1: the first candidate with a code of ccerr.
coded_or : Ccerr.Code × Text × Bool → Option Error → Option Error
coded_or (c, t, true) rest = some (new_error (cc_kind c) ErrorSource.chaincode t)
coded_or (c, t, false) rest = rest

unfoldable pub first_coded : List Text → Option Error
unfolding coded_or
first_coded [] = none
first_coded (m ∷ ms) = coded_or (Ccerr.parse m) (first_coded ms)

-- `if k := legacyKind(text); k != "" { return newError(k, …) }`
keyword_or : Kind → Text → Option Error → Option Error
keyword_or Kind.unset t rest = rest
keyword_or k t rest = some (new_error k ErrorSource.chaincode t)

-- The body of loop 2 for a candidate with the prefix.
response_error : Bool → Text → Option Error
unfolding keyword_or
response_error strict t =
    let plain = some (new_error Kind.chaincode ErrorSource.chaincode t) in
    if not strict then keyword_or (legacy_kind t) t plain else plain

-- Loop 2: the first candidate that is a chaincode response.
unfoldable pub first_response : Bool → List Text → Option Error
unfolding response_error
first_response strict [] = none
first_response strict (m ∷ ms) =
    let rest = first_response strict ms in
    if has_prefix m response_prefix then response_error strict (cut m (codes ", ")).1 else rest

-- Loop 3: the first detail that keywords classify.
unfoldable pub first_keyword : List ErrorDetail → Option Error
unfolding keyword_or
first_keyword [] = none
first_keyword (d ∷ ds) = keyword_or (legacy_kind d.message) d.message (first_keyword ds)

abbrev no_details : List ErrorDetail → Bool
no_details [] = true
no_details (d ∷ ds) = false

keywords_unless : Bool → List ErrorDetail → Option Error
keywords_unless strict details =
    if strict || no_details details then none else first_keyword details

abbrev or_next : Option Error → Option Error → Option Error
or_next none next = next
or_next (some e) next = some e

-- `chaincodeError`; `none` is a nil result.
unfoldable pub chaincode_error : Status → List ErrorDetail → Bool → Option Error
unfolding keywords_unless
chaincode_error st details strict =
    if not (is_aborted_or_unknown st.code)
    then none
    else let texts = candidates st.message details in
      or_next (first_coded texts)
        (or_next (first_response strict texts) (keywords_unless strict details))

-- `e.TxID, e.GRPCCode, e.Details, e.Cause = txID, code, details, err`
abbrev pub with_status : Error → Text → GrpcCode → List ErrorDetail → GoError → Error
with_status e tx code details err = record {
  info = record e.info { tx_id = tx; grpc_code = code; details = details };
  cause = some err;
}

abbrev with_outcome_unknown : Error → Error
with_outcome_unknown e = record e { info = record e.info { outcome_unknown = true } }

-- The switch on the code in phase submit.
unfoldable pub submit_error : GrpcCode → Text → Error
submit_error GrpcCode.invalid_argument msg = new_error Kind.submit ErrorSource.network msg
submit_error GrpcCode.failed_precondition msg = new_error Kind.submit ErrorSource.network msg
submit_error GrpcCode.aborted msg = new_error Kind.submit ErrorSource.network msg
submit_error _ msg = with_outcome_unknown (
    new_error Kind.outcome_unknown ErrorSource.network
      (codes "submit to orderer did not complete: " ++ msg))

-- The switch on the phase.
unfoldable pub network_error : Phase → GrpcCode → Text → Error
unfolding submit_error kind_from_code
network_error Phase.commit_status code msg = with_outcome_unknown (
    new_error Kind.outcome_unknown ErrorSource.network
      (codes "could not confirm commit status: " ++ msg))
network_error Phase.submit code msg = submit_error code msg
network_error Phase.evaluate code msg =
    new_error (kind_from_code code Phase.evaluate) ErrorSource.network msg
network_error Phase.endorse code msg =
    new_error (kind_from_code code Phase.endorse) ErrorSource.network msg

-- `ph == phaseEvaluate || ph == phaseEndorse`
abbrev before_ordering : Phase → Bool
before_ordering Phase.evaluate = true
before_ordering Phase.endorse = true
before_ordering _ = false

-- Chaincode errors can only appear in evaluate and endorse responses.
from_chaincode : Phase → Status → List ErrorDetail → Bool → Option Error
from_chaincode ph st details strict =
    if before_ordering ph then chaincode_error st details strict else none

abbrev chosen : Option Error → Error → Error
chosen none network = network
chosen (some e) network = e

module _ (l : Libs) where
  open l use {convert, new_status, tx_code_name, tx_code_number}

  commit_conflict : TxValidationCode → Error
  commit_conflict vc = new_error Kind.conflict ErrorSource.network (
      codes "transaction invalidated at commit by "
      ++ (tx_code_name vc ++ codes "; re-read and retry"))

  -- The switch of `commitFailure`.
  commit_error : TxValidationCode → Error
  unfolding commit_conflict
  commit_error TxValidationCode.mvcc_read_conflict =
      commit_conflict TxValidationCode.mvcc_read_conflict
  commit_error TxValidationCode.phantom_read_conflict =
      commit_conflict TxValidationCode.phantom_read_conflict
  commit_error vc = new_error Kind.commit_failed ErrorSource.network (
      codes "transaction committed as invalid: "
      ++ (tx_code_name vc ++ (codes " (" ++ (tx_code_number vc ++ codes ")"))))

  -- `commitFailure`; the cause may be nil.
  unfoldable pub commit_failure : Text → TxValidationCode → Option GoError → Error
  unfolding commit_error
  commit_failure tx vc cause =
      let e = commit_error vc in
      record { info = record e.info { tx_id = tx; validation_code = vc }; cause = cause }

  -- The status of an error: context errors raised before any RPC get their codes.
  unfoldable pub status_of : GoError → Status
  status_of err =
      let st = convert err in
      if is_some (find to_canceled err) && is_unknown st.code
      then new_status GrpcCode.canceled (text_of err)
      else if is_some (find to_deadline_exceeded err) && is_unknown st.code
      then new_status GrpcCode.deadline_exceeded (text_of err)
      else st

  -- `classify` once the error is neither an `*Error` nor a commit error.
  unfoldable pub classify_status : Status → GoError → Text → Phase → Bool → Error
  unfolding chaincode_error network_error from_chaincode
  classify_status st err tx ph strict =
      let details = gateway_details st.details in
      with_status
        (chosen (from_chaincode ph st details strict) (network_error ph st.code st.message)) tx
        st.code details err

  classify_commit : Option (Text × TxValidationCode) → GoError → Text → Phase → Bool → Error
  unfolding commit_failure status_of classify_status
  classify_commit (some (t, c)) err tx ph strict = commit_failure t c (some err)
  classify_commit none err tx ph strict = classify_status (status_of err) err tx ph strict

  classify_error : Option Error → GoError → Text → Phase → Bool → Error
  unfolding classify_commit
  classify_error (some e) err tx ph strict = e
  classify_error none err tx ph strict = classify_commit (find to_commit err) err tx ph strict

  -- `classify` of an error that is not nil.
  unfoldable pub classified : GoError → Text → Phase → Bool → Error
  unfolding classify_error
  classified err tx ph strict = classify_error (as_error err) err tx ph strict

  -- `classify`.
  unfoldable pub classify : Option GoError → Text → Phase → Bool → Option Error
  unfolding classified
  classify none tx ph strict = none
  classify (some err) tx ph strict = some (classified err tx ph strict)
