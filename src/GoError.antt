-- ===== src/GoError.antt =====
-- Go's error values: the package's `*Error` and `handlerError` (errors.go, events.go), `*ccerr.Error`,
-- the gateway's `*client.CommitError`, the two errors of package context, and every other value as a
-- tag with its text and what its `Unwrap` gives. `errors.As` and `errors.Is` walk the tree as Go does,
-- depth first. Error types with an `As` or `Is` method of their own are not modelled.
pub mod Wraps
use fabricsdk.Base.{
  ℕ, Bool, true, false, Option, none, some, List, [], ◌∷◌, ◌++◌, Text, codes, is_empty,
  if◌then◌else◌,
}
use fabricsdk.Ccerr
use fabricsdk.Kinds.{Kind, ErrorSource, GrpcCode, TxValidationCode, kind_text}

pub record ErrorDetail : Type 0 where
  pub address : Text
  pub msp_id : Text
  pub message : Text

-- The fields of the struct `Error`, but for its cause.
pub record Info : Type 0 where
  pub kind : Kind
  pub source : ErrorSource
  pub code : ℕ
  pub message : Text
  pub tx_id : Text
  pub validation_code : TxValidationCode
  pub grpc_code : GrpcCode
  pub details : List ErrorDetail
  pub outcome_unknown : Bool

mutual
  -- A non-nil `error`. `fabric` is `*Error` with its `Cause`, if any; `handler` is `handlerError`,
  -- which has no `Unwrap`; `commit` has the transaction, the code and the text.
  pub data GoError : Type 0 where
    fabric : Info → GoErrors → GoError
    chaincode : Ccerr.Error → GoError
    handler : GoError → GoError
    commit : Text → TxValidationCode → Text → GoError
    canceled : GoError
    deadline_exceeded : GoError
    other : ℕ → Text → GoErrors → GoError

  -- What `Unwrap` gives: no error, one, or several.
  pub data GoErrors : Type 0 where
    end : GoErrors
    also : GoError → GoErrors → GoErrors

-- The struct `Error`.
pub record Error : Type 0 where
  pub info : Info
  pub open info use *
  pub cause : Option GoError

abbrev unwrap_list : Option GoError → GoErrors
unwrap_list none = end
unwrap_list (some e) = also e end

abbrev first_of_list : GoErrors → Option GoError
first_of_list end = none
first_of_list (also e es) = some e

-- An `*Error` as an `error`.
abbrev pub boxed : Error → GoError
boxed e = fabric e.info (unwrap_list e.cause)

abbrev pub or_else : {A : Type 0} → Option A → Option A → Option A
or_else none y = y
or_else (some x) y = some x

-- `errors.As`: the first value of the tree that the test takes.
unfoldable mutual
  pub find : {A : Type 0} → (GoError → Option A) → GoError → Option A
  find test (fabric i c) = or_else (test (fabric i c)) (find_in test c)
  find test (chaincode e) = test (chaincode e)
  find test (handler e) = test (handler e)
  find test (commit t c m) = test (commit t c m)
  find test canceled = test canceled
  find test deadline_exceeded = test deadline_exceeded
  find test (other n m c) = or_else (test (other n m c)) (find_in test c)

  pub find_in : {A : Type 0} → (GoError → Option A) → GoErrors → Option A
  find_in test end = none
  find_in test (also e es) = or_else (find test e) (find_in test es)

abbrev pub to_error : GoError → Option Error
to_error (fabric i c) = some (record { info = i; cause = first_of_list c })
to_error _ = none

abbrev pub to_commit : GoError → Option (Text × TxValidationCode)
to_commit (commit t c m) = some (t, c)
to_commit _ = none

abbrev pub to_chaincode : GoError → Option Ccerr.Error
to_chaincode (chaincode e) = some e
to_chaincode _ = none

abbrev pub to_handler : GoError → Option GoError
to_handler (handler e) = some e
to_handler _ = none

abbrev pub to_canceled : GoError → Option (Unit {0})
to_canceled canceled = some tt
to_canceled _ = none

abbrev pub to_deadline_exceeded : GoError → Option (Unit {0})
to_deadline_exceeded deadline_exceeded = some tt
to_deadline_exceeded _ = none

abbrev pub is_some : {A : Type 0} → Option A → Bool
is_some none = false
is_some (some x) = true

-- `asError`.
unfoldable pub as_error : GoError → Option Error
unfolding find
as_error = find to_error

-- `Error.Error`.
unfoldable pub info_text : Info → Text
unfolding kind_text
info_text e =
    (codes "fabricsdk: " ++ kind_text e.kind)
    ++ ((if is_empty e.tx_id then [] else codes " (tx " ++ (e.tx_id ++ codes ")"))
        ++ (if is_empty e.message then [] else codes ": " ++ e.message))

-- `err.Error()`.
unfoldable pub text_of : GoError → Text
unfolding info_text
text_of (fabric i c) = info_text i
text_of (chaincode e) = Ccerr.error_text e
text_of (handler e) = text_of e
text_of (commit t c m) = m
text_of canceled = codes "context canceled"
text_of deadline_exceeded = codes "context deadline exceeded"
text_of (other n m c) = m

-- `Error.Unwrap`.
pub unwrap : Error → Option GoError
unwrap e = e.cause
