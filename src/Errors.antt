-- ===== src/Errors.antt =====
-- errors.go: what callers ask of an error, and how the package makes one.
use fabricsdk.Base.{
  Bool, true, false, Option, none, some, [], Text, codes, text_eq, ◌++◌, if◌then◌else◌,
}
use fabricsdk.Kinds.{Kind, kind_eq, kind_code, ErrorSource, GrpcCode, TxValidationCode}
use fabricsdk.GoError.{GoError, Error, as_error, find, to_chaincode, text_of}
use fabricsdk.Ccerr

-- The kinds that the switch in `Retryable` names.
abbrev pub retryable_kind : Kind → Bool
retryable_kind Kind.conflict = true
retryable_kind Kind.unavailable = true
retryable_kind Kind.timeout = true
retryable_kind Kind.endorsement = true
retryable_kind Kind.submit = true
retryable_kind _ = false

unfoldable pub retryable : Error → Bool
retryable e = if e.outcome_unknown then false else retryable_kind e.kind

unfoldable pub kind_of : Option GoError → Kind
kind_of none = Kind.unset
kind_of (some err) = elim (as_error err) [ none ↦ Kind.unset | some e ↦ e.kind ]

unfoldable pub tx_id_of : Option GoError → Text
tx_id_of none = []
tx_id_of (some err) = elim (as_error err) [ none ↦ [] | some e ↦ e.tx_id ]

unfoldable pub is_kind : Option GoError → Kind → Bool
unfolding kind_of
is_kind err k = kind_eq (kind_of err) k

unfoldable pub is_not_found : Option GoError → Bool
unfolding is_kind
is_not_found err = is_kind err Kind.not_found

unfoldable pub is_already_exists : Option GoError → Bool
unfolding is_kind
is_already_exists err = is_kind err Kind.already_exists

unfoldable pub is_conflict : Option GoError → Bool
unfolding is_kind
is_conflict err = is_kind err Kind.conflict

unfoldable pub is_unauthorized : Option GoError → Bool
unfolding is_kind
is_unauthorized err = is_kind err Kind.unauthorized

unfoldable pub is_invalid_argument : Option GoError → Bool
unfolding is_kind
is_invalid_argument err = is_kind err Kind.invalid_argument

unfoldable pub is_timeout : Option GoError → Bool
unfolding is_kind
is_timeout err = is_kind err Kind.timeout

-- `IsOutcomeUnknown`, `IsRetryable` and `IsChaincode` on what `asError` gives.
unfoldable pub is_outcome_unknown : Option GoError → Bool
is_outcome_unknown none = false
is_outcome_unknown (some err) = elim (as_error err) [ none ↦ false | some e ↦ e.outcome_unknown ]

unfoldable pub is_retryable : Option GoError → Bool
unfolding retryable
is_retryable none = false
is_retryable (some err) = elim (as_error err) [ none ↦ false | some e ↦ retryable e ]

abbrev is_chaincode_source : ErrorSource → Bool
is_chaincode_source ErrorSource.chaincode = true
is_chaincode_source _ = false

unfoldable pub is_chaincode : Option GoError → Bool
is_chaincode none = false
is_chaincode (some err) = elim (as_error err) [
  | none ↦ false
  | some e ↦ is_chaincode_source e.source
]

-- ccerr/ccerr.go, `Is`, on what `errors.As` finds.
unfoldable pub is_code : Option GoError → Ccerr.Code → Bool
unfolding find
is_code none c = false
is_code (some err) c = elim (find to_chaincode err) [ none ↦ false | some e ↦ text_eq e.code c ]

-- `newError`: the zero value in every field that the literal does not name.
unfoldable pub new_error : Kind → ErrorSource → Text → Error
unfolding kind_code
new_error kind source msg = record {
  info = record {
    kind = kind;
    source = source;
    code = kind_code kind;
    message = msg;
    tx_id = [];
    validation_code = TxValidationCode.valid;
    grpc_code = GrpcCode.ok;
    details = [];
    outcome_unknown = false;
  };
  cause = none;
}

-- config.go, `configError`.
unfoldable pub config_error : GoError → Error
config_error err = record {
  info = record {
    kind = Kind.config;
    source = ErrorSource.sdk;
    code = 500;
    message = codes "invalid configuration: " ++ text_of err;
    tx_id = [];
    validation_code = TxValidationCode.valid;
    grpc_code = GrpcCode.ok;
    details = [];
    outcome_unknown = false;
  };
  cause = some err;
}
