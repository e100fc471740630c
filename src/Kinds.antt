-- ===== src/Kinds.antt =====
-- errors.go, the enumerations: the category of an error, the layer that it comes from, the phase of
-- a call, and the two tables. The gRPC status codes and the transaction validation codes are those
-- that the package names; `other` stands for all the rest.
use fabricsdk.Base.{ℕ, Bool, true, false, Text, codes, text_eq, if◌then◌else◌}
use fabricsdk.Ccerr

-- `Kind`; `unset` is the empty string, the zero value.
pub data Kind : Type 0 where
  unset invalid_argument not_found already_exists conflict unauthorized failed_precondition : Kind
  chaincode endorsement submit commit_failed outcome_unknown timeout unavailable canceled : Kind
  config internal : Kind

unfoldable pub kind_text : Kind → Text
kind_text Kind.unset = codes ""
kind_text Kind.invalid_argument = codes "invalid_argument"
kind_text Kind.not_found = codes "not_found"
kind_text Kind.already_exists = codes "already_exists"
kind_text Kind.conflict = codes "conflict"
kind_text Kind.unauthorized = codes "unauthorized"
kind_text Kind.failed_precondition = codes "failed_precondition"
kind_text Kind.chaincode = codes "chaincode"
kind_text Kind.endorsement = codes "endorsement"
kind_text Kind.submit = codes "submit"
kind_text Kind.commit_failed = codes "commit_failed"
kind_text Kind.outcome_unknown = codes "outcome_unknown"
kind_text Kind.timeout = codes "timeout"
kind_text Kind.unavailable = codes "unavailable"
kind_text Kind.canceled = codes "canceled"
kind_text Kind.config = codes "config"
kind_text Kind.internal = codes "internal"

-- `==` on kinds, which are strings.
unfoldable pub kind_eq : Kind → Kind → Bool
unfolding kind_text
kind_eq a b = text_eq (kind_text a) (kind_text b)

-- `kindCode`; a missing key gives 0.
unfoldable pub kind_code : Kind → ℕ
kind_code Kind.unset = 0
kind_code Kind.invalid_argument = 400
kind_code Kind.not_found = 404
kind_code Kind.already_exists = 409
kind_code Kind.conflict = 409
kind_code Kind.unauthorized = 403
kind_code Kind.failed_precondition = 422
kind_code Kind.chaincode = 400
kind_code Kind.endorsement = 502
kind_code Kind.submit = 502
kind_code Kind.commit_failed = 500
kind_code Kind.outcome_unknown = 504
kind_code Kind.timeout = 504
kind_code Kind.unavailable = 503
kind_code Kind.canceled = 499
kind_code Kind.config = 500
kind_code Kind.internal = 500

-- `ccKind`; a missing key gives the zero value.
unfoldable pub cc_kind : Ccerr.Code → Kind
cc_kind c =
    if text_eq c Ccerr.invalid_argument
    then Kind.invalid_argument
    else if text_eq c Ccerr.not_found
    then Kind.not_found
    else if text_eq c Ccerr.already_exists
    then Kind.already_exists
    else if text_eq c Ccerr.conflict
    then Kind.conflict
    else if text_eq c Ccerr.unauthorized
    then Kind.unauthorized
    else if text_eq c Ccerr.failed_precondition
    then Kind.failed_precondition
    else Kind.unset

pub data ErrorSource : Type 0 where
  sdk chaincode network : ErrorSource

pub data Phase : Type 0 where
  evaluate endorse submit commit_status : Phase

-- `codes.Code` of gRPC; `ok` is its zero value.
pub data GrpcCode : Type 0 where
  ok canceled unknown invalid_argument deadline_exceeded not_found permission_denied : GrpcCode
  failed_precondition aborted unavailable unauthenticated : GrpcCode
  other : ℕ → GrpcCode

-- `peer.TxValidationCode`; `valid` is its zero value.
pub data TxValidationCode : Type 0 where
  valid mvcc_read_conflict phantom_read_conflict : TxValidationCode
  other : ℕ → TxValidationCode

-- `st.Code() == codes.Unknown`.
abbrev pub is_unknown : GrpcCode → Bool
is_unknown GrpcCode.unknown = true
is_unknown _ = false

-- `st.Code() == codes.Aborted || st.Code() == codes.Unknown`.
abbrev pub is_aborted_or_unknown : GrpcCode → Bool
is_aborted_or_unknown GrpcCode.aborted = true
is_aborted_or_unknown GrpcCode.unknown = true
is_aborted_or_unknown _ = false
