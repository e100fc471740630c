-- ===== src/Classify/Consistent.antt =====
-- The fields of a classified error agree with one another.
use fabricsdk.Base.{
  ◌≡◌, ◌↔◌, inl, inr, Bool, true, Option, none, some, Text, arith, Option-cases, List,
}
use fabricsdk.Kinds.{Kind, kind_code, ErrorSource, Phase, GrpcCode, TxValidationCode}
use fabricsdk.GoError.{GoError, Error, ErrorDetail, as_error, find, to_commit}
use fabricsdk.Errors.{new_error}
use fabricsdk.Libs.{Libs, Status}
use fabricsdk.Classify.{
  gateway_details, network_error, submit_error, commit_failure, commit_error, commit_conflict,
  status_of, classify_status, classified, from_chaincode, chosen,
}
use fabricsdk.Classify.Settled.{
  IsSettled, new_error-IsSettled, kind_from_code-settled, AllChaincode,
  chaincode_error-AllChaincode,
}

-- The suggested status code is that of the kind, and the flag says what the kind says.
pub record IsConsistent (e : Error) : Type 0 where
  pub code_is : e.code ≡ kind_code e.kind
  pub unknown_iff : (e.outcome_unknown ≡ true) ↔ (e.kind ≡ Kind.outcome_unknown)

IsSettled-IsConsistent : (e : Error) → IsSettled e → IsConsistent e
IsSettled-IsConsistent e h = record {
  code_is = h.0;
  unknown_iff = (λ p. absurd (cc), λ p. absurd (h.2 p));
}

submit_error-IsConsistent : (c : GrpcCode) (m : Text) → IsConsistent (submit_error c m)
unfolding submit_error new_error kind_code
submit_error-IsConsistent c m = ground arith

network_error-IsConsistent :
    (ph : Phase) (c : GrpcCode) (m : Text) → IsConsistent (network_error ph c m)
unfolding network_error new_error kind_code
network_error-IsConsistent Phase.evaluate c m =
    IsSettled-IsConsistent _
      (new_error-IsSettled _ ErrorSource.network m (kind_from_code-settled c Phase.evaluate))
network_error-IsConsistent Phase.endorse c m =
    IsSettled-IsConsistent _
      (new_error-IsSettled _ ErrorSource.network m (kind_from_code-settled c Phase.endorse))
network_error-IsConsistent Phase.submit c m = submit_error-IsConsistent c m
network_error-IsConsistent Phase.commit_status c m = ground arith

from_chaincode-AllChaincode :
    (ph : Phase) (st : Status) (ds : List ErrorDetail) (strict : Bool)
    → AllChaincode (from_chaincode ph st ds strict)
unfolding from_chaincode
from_chaincode-AllChaincode Phase.evaluate st ds strict = chaincode_error-AllChaincode st ds strict
from_chaincode-AllChaincode Phase.endorse st ds strict = chaincode_error-AllChaincode st ds strict
from_chaincode-AllChaincode Phase.submit st ds strict = tt
from_chaincode-AllChaincode Phase.commit_status st ds strict = tt

chosen-IsConsistent :
    (found : Option Error) (e : Error)
    → AllChaincode found
    → IsConsistent e
    → IsConsistent (chosen found e)
chosen-IsConsistent none e h k = k
chosen-IsConsistent (some f) e h k = IsSettled-IsConsistent f h.0

module _ (l : Libs) where
  classify_status-IsConsistent :
      (st : Status) (err : GoError) (tx : Text) (ph : Phase) (strict : Bool)
      → IsConsistent (classify_status l st err tx ph strict)
  unfolding classify_status
  classify_status-IsConsistent st err tx ph strict =
      let ds = gateway_details st.details in
      let e = chosen (from_chaincode ph st ds strict) (network_error ph st.code st.message) in
      let h : IsConsistent e =
        chosen-IsConsistent _ _ (from_chaincode-AllChaincode ph st ds strict)
          (network_error-IsConsistent ph st.code st.message) in
      record { code_is = h.code_is; unknown_iff = h.unknown_iff }

  pub commit_failure-IsConsistent :
      (tx : Text) (c : TxValidationCode) (cause : Option GoError)
      → IsConsistent (commit_failure l tx c cause)
  unfolding commit_failure commit_error commit_conflict new_error kind_code
  commit_failure-IsConsistent tx c cause = ground arith

  -- Every classified error has the status code of its kind, and is flagged as open exactly when its
  -- kind says so, provided that an error of the package inside `err` does.
  pub classified-IsConsistent :
      (err : GoError) (tx : Text) (ph : Phase) (strict : Bool)
      → ((e : Error) → as_error err ≡ some e → IsConsistent e)
      → IsConsistent (classified l err tx ph strict)
  unfolding classified
  classified-IsConsistent err tx ph strict h = elim (Option-cases (as_error err)) [
    | inr (e, p) ↦ rw p (h e p)
    | inl n ↦ rw n (elim (Option-cases (find to_commit err)) [
      | inl m ↦ rw m (classify_status-IsConsistent (status_of l err) err tx ph strict)
      | inr ((t, c), m) ↦ rw m (commit_failure-IsConsistent t c (some err))
    ])
  ]
