-- ===== src/Classify/Context.antt =====
-- Calls that the caller's context ends before the network answers.
use fabricsdk.Base.{◌≡◌, refl, Bool, none, some, Text}
use fabricsdk.Kinds.{Kind, Phase, GrpcCode}
use fabricsdk.GoError.{GoError, find, to_canceled, to_deadline_exceeded}
use fabricsdk.Errors.{new_error}
use fabricsdk.Libs.{Libs, LibsLaws, Status}
use fabricsdk.Classify.{
  classified, status_of, classify_status, from_chaincode, chaincode_error, network_error,
  kind_from_code,
}
use fabricsdk.Classify.Outcome.{IsForeign, classified-foreign}

-- The error of a context: it was canceled, or its deadline has passed and it was not canceled.
pub data Interrupted (err : GoError) : GrpcCode → Type 0 where
  canceled : find to_canceled err ≡ some tt → Interrupted err GrpcCode.canceled
  late :
      find to_canceled err ≡ none
      → find to_deadline_exceeded err ≡ some tt
      → Interrupted err GrpcCode.deadline_exceeded

-- The kind of an interrupted query or endorsement.
abbrev pub interrupted_kind : GrpcCode → Kind
interrupted_kind GrpcCode.canceled = Kind.canceled
interrupted_kind _ = Kind.timeout

module _ (l : Libs) (laws : LibsLaws l) where
  status_of-Interrupted :
      {err : GoError} {c : GrpcCode}
      → Interrupted err c
      → (l.convert err).code ≡ GrpcCode.unknown
      → (status_of l err).code ≡ c
  unfolding status_of
  status_of-Interrupted (canceled p) u = rw p (rw u (laws.code-new_status GrpcCode.canceled _))
  status_of-Interrupted (late n p) u =
      rw n (rw p (rw u (laws.code-new_status GrpcCode.deadline_exceeded _)))

  classify_status-Interrupted :
      {err : GoError} {c : GrpcCode} (st : Status) (tx : Text) (strict : Bool)
      → Interrupted err c
      → st.code ≡ c
      → ((classify_status l st err tx Phase.evaluate strict).kind ≡ interrupted_kind c)
        × ((classify_status l st err tx Phase.endorse strict).kind ≡ interrupted_kind c)
  unfolding classify_status from_chaincode chaincode_error network_error kind_from_code new_error
  classify_status-Interrupted st tx strict (canceled p) h = (rw h refl, rw h refl)
  classify_status-Interrupted st tx strict (late n p) h = (rw h refl, rw h refl)

  -- If `status.Convert` gives code Unknown for the error of a context, which has no error of the package
  -- and no commit error in it, then a query or an endorsement fails with kind canceled if the context
  -- was canceled, and with kind timeout if its deadline has passed and it was not canceled.
  pub classified-Interrupted :
      {err : GoError} {c : GrpcCode} (tx : Text) (strict : Bool)
      → IsForeign l err
      → Interrupted err c
      → (l.convert err).code ≡ GrpcCode.unknown
      → ((classified l err tx Phase.evaluate strict).kind ≡ interrupted_kind c)
        × ((classified l err tx Phase.endorse strict).kind ≡ interrupted_kind c)
  classified-Interrupted {err} tx strict f i u =
      rw (classified-foreign l tx Phase.evaluate strict f) (
        rw (classified-foreign l tx Phase.endorse strict f)
          (classify_status-Interrupted (status_of l err) tx strict i (status_of-Interrupted i u)))
