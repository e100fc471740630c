-- ===== src/Classify/Outcome.antt =====
-- What a classified error promises about the fate of the transaction.
use fabricsdk.Base.{
  inl, inr, Option-cases, ◌≡◌, ◌⊎◌, ◌↔◌, refl, ◌∙◌, Bool, true, false, not, Option, none, some,
  Text, arith, List,
}
use fabricsdk.Kinds.{Phase, GrpcCode, TxValidationCode}
use fabricsdk.GoError.{GoError, Error, ErrorDetail, as_error, find, to_commit, boxed}
use fabricsdk.GoError.Wraps.{Wraps, as_error-Wraps, as_error-boxed}
use fabricsdk.Errors.{new_error, retryable, is_retryable, is_outcome_unknown}
use fabricsdk.Libs.{Libs, Status}
use fabricsdk.Classify.{
  gateway_details, network_error, submit_error, commit_failure, commit_error, commit_conflict,
  status_of, classify_status, classified, from_chaincode, chosen,
}
use fabricsdk.Classify.Settled.{AllChaincode, chaincode_error-AllChaincode}

-- The codes with which the orderer rejects a transaction before ordering it.
abbrev pub rejected : GrpcCode → Bool
rejected GrpcCode.invalid_argument = true
rejected GrpcCode.failed_precondition = true
rejected GrpcCode.aborted = true
rejected _ = false

submit_error-rejected :
    (c : GrpcCode) (m : Text)
    → (retryable (submit_error c m) ≡ rejected c)
      × ((submit_error c m).outcome_unknown ≡ not (rejected c))
unfolding submit_error retryable new_error
submit_error-rejected GrpcCode.aborted m = (refl, refl)
submit_error-rejected _ m = (refl, refl)

-- Whether the fate of the transaction is open after a failure in a phase.
abbrev pub open_after : Phase → GrpcCode → Bool
open_after Phase.evaluate c = false
open_after Phase.endorse c = false
open_after Phase.submit c = not (rejected c)
open_after Phase.commit_status c = true

network_error-open_after :
    (ph : Phase) (c : GrpcCode) (m : Text)
    → (network_error ph c m).outcome_unknown ≡ open_after ph c
unfolding network_error new_error
network_error-open_after Phase.evaluate c m = refl
network_error-open_after Phase.endorse c m = refl
network_error-open_after Phase.submit c m = (submit_error-rejected c m).1
network_error-open_after Phase.commit_status c m = refl

chosen-settled :
    (found : Option Error) (e : Error)
    → AllChaincode found
    → e.outcome_unknown ≡ false
    → (chosen found e).outcome_unknown ≡ false
chosen-settled none e p q = q
chosen-settled (some f) e p q = p.0.1

chosen-open_after :
    (ph : Phase) (st : Status) (ds : List ErrorDetail) (strict : Bool) (e : Error)
    → e.outcome_unknown ≡ open_after ph st.code
    → (chosen (from_chaincode ph st ds strict) e).outcome_unknown ≡ open_after ph st.code
unfolding from_chaincode
chosen-open_after Phase.evaluate st ds strict e h =
    chosen-settled _ e (chaincode_error-AllChaincode st ds strict) h
chosen-open_after Phase.endorse st ds strict e h =
    chosen-settled _ e (chaincode_error-AllChaincode st ds strict) h
chosen-open_after Phase.submit st ds strict e h = h
chosen-open_after Phase.commit_status st ds strict e h = h

module _ (l : Libs) where
  classify_status-open_after :
      (st : Status) (err : GoError) (tx : Text) (ph : Phase) (strict : Bool)
      → (classify_status l st err tx ph strict).outcome_unknown ≡ open_after ph st.code
  unfolding classify_status
  classify_status-open_after st err tx ph strict =
      chosen-open_after ph st (gateway_details st.details) strict _
        (network_error-open_after ph st.code st.message)

  commit_failure-retryable :
      (t : Text) (c : TxValidationCode) (cause : Option GoError)
      → ((commit_failure l t c cause).tx_id ≡ t)
        × ((commit_failure l t c cause).validation_code ≡ c)
        × ((commit_failure l t c cause).outcome_unknown ≡ false)
        × ((retryable (commit_failure l t c cause) ≡ true) ↔ (
            (c ≡ TxValidationCode.mvcc_read_conflict)
            ⊎ (c ≡ TxValidationCode.phantom_read_conflict)))
  unfolding commit_failure commit_error commit_conflict new_error retryable
  commit_failure-retryable t c cause = ground arith

  -- Neither an error of this package nor a commit error stands anywhere in `err`.
  pub record IsForeign (err : GoError) : Type 0 where
    pub no_error : as_error err ≡ none
    pub no_commit : find to_commit err ≡ none

  pub classified-foreign :
      {err : GoError} (tx : Text) (ph : Phase) (strict : Bool)
      → IsForeign err
      → classified l err tx ph strict ≡ classify_status l (status_of l err) err tx ph strict
  unfolding classified
  classified-foreign {err} tx ph strict h = rw (h.no_error) (rw h.no_commit)

  -- After a failure of evaluate or endorse the outcome is known. After a failure of submit it is open
  -- unless the orderer's status code says that it rejected the transaction, and after a failure of
  -- commit status it is open. This is for an error with no error of the package and no commit error
  -- in it.
  pub classified-open_after :
      {err : GoError} (tx : Text) (ph : Phase) (strict : Bool)
      → IsForeign err
      → (classified l err tx ph strict).outcome_unknown ≡ open_after ph (status_of l err).code
  classified-open_after {err} tx ph strict h =
      rw (classified-foreign tx ph strict h)
        (classify_status-open_after (status_of l err) err tx ph strict)

  -- A classified error keeps the transaction ID, the status code, the Gateway's details and, as the
  -- cause, the error, if that has no error of the package and no commit error in it.
  pub classified-evidence :
      {err : GoError} (tx : Text) (ph : Phase) (strict : Bool)
      → IsForeign err
      → ((classified l err tx ph strict).tx_id ≡ tx)
        × ((classified l err tx ph strict).grpc_code ≡ (status_of l err).code)
        × ((classified l err tx ph strict).details ≡ gateway_details (status_of l err).details)
        × ((classified l err tx ph strict).cause ≡ some err)
  unfolding classify_status
  classified-evidence {err} tx ph strict h =
      rw (classified-foreign tx ph strict h) (refl, refl, refl, refl)

  -- After a failure in phase submit the error is retryable exactly when the orderer's status code says
  -- that it rejected the transaction, and after a failure in phase commit status it never is. This is
  -- for an error with no error of the package and no commit error in it.
  pub classified-retryable :
      {err : GoError} (tx : Text) (strict : Bool)
      → IsForeign err
      → (retryable (classified l err tx Phase.submit strict) ≡ rejected (status_of l err).code)
        × (retryable (classified l err tx Phase.commit_status strict) ≡ false)
  unfolding classify_status from_chaincode network_error retryable new_error
  classified-retryable {err} tx strict h = (
    rw (classified-foreign tx Phase.submit strict h)
        (submit_error-rejected (status_of l err).code (status_of l err).message).0,
    rw (classified-foreign tx Phase.commit_status strict h) refl,
  )

  -- Classifying an error of the package again, wrapped or not, in any phase, gives it back.
  pub classified-Wraps :
      (e : Error) {err : GoError} (tx : Text) (ph : Phase) (strict : Bool)
      → Wraps (boxed e) err
      → classified l err tx ph strict ≡ e
  unfolding classified
  classified-Wraps e tx ph strict w = rw (as_error-Wraps w ∙ as_error-boxed e)

  -- An error with a commit error in it, and no error of the package, is classified as retryable exactly
  -- for the codes of the two read conflicts. It has the transaction ID and the code of the commit
  -- error, whatever ID was passed, and its outcome is never open.
  pub classified-commit :
      (err : GoError) (tx : Text) (ph : Phase) (strict : Bool) (t : Text) (c : TxValidationCode)
      → as_error err ≡ none
      → find to_commit err ≡ some (t, c)
      → ((classified l err tx ph strict).tx_id ≡ t)
        × ((classified l err tx ph strict).validation_code ≡ c)
        × ((classified l err tx ph strict).outcome_unknown ≡ false)
        × ((retryable (classified l err tx ph strict) ≡ true) ↔ (
            (c ≡ TxValidationCode.mvcc_read_conflict)
            ⊎ (c ≡ TxValidationCode.phantom_read_conflict)))
  unfolding classified commit_failure commit_conflict new_error retryable
  classified-commit err tx ph strict t c n m = rw n (rw m (commit_failure-retryable t c (some err)))

  -- An error with no error of the package in it is classified as one whose outcome is known or which
  -- has the transaction ID that was passed.
  pub classified-tx_id :
      (err : GoError) (tx : Text) (ph : Phase) (strict : Bool)
      → as_error err ≡ none
      → ((classified l err tx ph strict).outcome_unknown ≡ false)
        ⊎ ((classified l err tx ph strict).tx_id ≡ tx)
  classified-tx_id err tx ph strict n = elim (Option-cases (find to_commit err)) [
    | inl m ↦ inr (classified-evidence tx ph strict (record { no_error = n; no_commit = m })).0
    | inr ((t, c), m) ↦ inl (classified-commit err tx ph strict t c n m).2
  ]

-- The outcome of an error that `IsRetryable` accepts is not open by `IsOutcomeUnknown`.
pub is_retryable-settled :
    (err : Option GoError) → is_retryable err ≡ true → is_outcome_unknown err ≡ false
unfolding is_retryable is_outcome_unknown
is_retryable-settled none h = refl
is_retryable-settled (some err) h = ground arith
