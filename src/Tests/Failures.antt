-- ===== src/Tests/Failures.antt =====
-- The classification of errors at concrete errors.
use fabricsdk.Base.{◌≡◌, ◌↔◌, ◌⊎◌, refl, true, false, some, [], Text, codes}
use fabricsdk.GoStrings.{to_lower, trim_space}
use fabricsdk.Ccerr
use fabricsdk.Ccerr.Parse.{parse-error_text}
use fabricsdk.Kinds.{cc_kind, Kind, ErrorSource, Phase, GrpcCode, TxValidationCode}
use fabricsdk.GoError.{
  deadline_exceeded, Error, ErrorDetail, GoError, boxed, other, also, end, as_error, find,
}
use fabricsdk.Errors.{new_error, retryable, is_kind}
use fabricsdk.Libs.{LibsLaws, Status}
use fabricsdk.Classify.{gateway_details, classified, status_of}
use fabricsdk.Classify.Consistent.{IsConsistent, classified-IsConsistent}
use fabricsdk.Classify.Outcome.{
  IsForeign, classified-open_after, classified-retryable, classified-commit,
}
use fabricsdk.Classify.Chaincode.{responded, classified-Reports, PeerSide}
use fabricsdk.Tests.Sample.{
  libs, aborted_error, unavailable_error, conflict_error, chaincode_detail,
}

abbrev tx9 : Text
tx9 = codes "tx9"

aborted-IsForeign : IsForeign libs aborted_error
unfolding as_error find
aborted-IsForeign = record { no_error = refl; no_commit = refl }

unavailable-IsForeign : IsForeign libs unavailable_error
unfolding as_error find
unavailable-IsForeign = record { no_error = refl; no_commit = refl }

-- The orderer could not be reached: the outcome is open.
classified-open_after_example :
    (classified libs unavailable_error tx9 Phase.submit true).outcome_unknown ≡ true
unfolding status_of find
classified-open_after_example =
    classified-open_after libs tx9 Phase.submit true unavailable-IsForeign

classified-retryable_example :
    (retryable (classified libs aborted_error tx9 Phase.submit false) ≡ true)
    × (retryable (classified libs aborted_error tx9 Phase.commit_status false) ≡ false)
unfolding status_of find
classified-retryable_example = classified-retryable libs tx9 false aborted-IsForeign

classified-commit_example :
    ((classified libs conflict_error [] Phase.submit true).tx_id ≡ tx9)
    × ((classified libs conflict_error [] Phase.submit true).validation_code
        ≡ TxValidationCode.mvcc_read_conflict)
    × ((classified libs conflict_error [] Phase.submit true).outcome_unknown ≡ false)
    × ((retryable (classified libs conflict_error [] Phase.submit true) ≡ true) ↔ (
        (TxValidationCode.mvcc_read_conflict ≡ TxValidationCode.mvcc_read_conflict)
        ⊎ (TxValidationCode.mvcc_read_conflict ≡ TxValidationCode.phantom_read_conflict)))
unfolding as_error find
classified-commit_example =
    classified-commit libs conflict_error [] Phase.submit true tx9
      TxValidationCode.mvcc_read_conflict refl refl

abbrev conflict : Error
conflict = new_error Kind.conflict ErrorSource.network (codes "read conflict")

abbrev not_found_error : Error
not_found_error = new_error Kind.not_found ErrorSource.chaincode (codes "asset 7")

no_error_inside : (e : Error) → as_error aborted_error ≡ some e → IsConsistent e
unfolding as_error find
no_error_inside e h = absurd (cc)

classified-IsConsistent_example :
    IsConsistent (classified libs aborted_error tx9 Phase.endorse false)
classified-IsConsistent_example =
    classified-IsConsistent libs aborted_error tx9 Phase.endorse false no_error_inside

-- The peer's detail is a chaincode response with a code.
classified-Reports_example :
    ((classified libs aborted_error tx9 Phase.endorse true).kind ≡ Kind.not_found)
    × ((classified libs aborted_error tx9 Phase.endorse true).source ≡ ErrorSource.chaincode)
    × ((classified libs aborted_error tx9 Phase.endorse true).message ≡ codes "asset 7")
    × (is_kind (some (boxed (classified libs aborted_error tx9 Phase.endorse true))) Kind.not_found
        ≡ true)
unfolding status_of gateway_details cc_kind trim_space Ccerr.known Ccerr.error_text find
classified-Reports_example =
    classified-Reports libs tx9 Phase.endorse true [] [] chaincode_detail Ccerr.not_found
      (codes "asset 7") aborted-IsForeign refl refl refl tt refl (responded (codes "500") refl refl)

abbrev coded_status : Status
coded_status = record {
  code = GrpcCode.aborted;
  message = codes "CONFLICT: version 3";
  details = [];
}

abbrev peer_detail : ErrorDetail
peer_detail = record {
  address = [];
  msp_id = [];
  message = codes "access denied: channel not found";
}

abbrev peer_status : Status
peer_status = record { code = GrpcCode.aborted; message = []; details = [] }

peer_detail-PeerSide : PeerSide peer_detail
unfolding to_lower
peer_detail-PeerSide = (codes "access denied", refl, ([], codes ": channel not found", refl))

parse-error_text_example :
    Ccerr.parse (codes "CONFLICT:  version 3 ") ≡ (Ccerr.conflict, codes "version 3", true)
unfolding Ccerr.known Ccerr.error_text trim_space
parse-error_text_example = parse-error_text Ccerr.conflict (codes " version 3 ") refl

libs-LibsLaws : LibsLaws libs
libs-LibsLaws = record {
  code-new_status = λ c m. refl;
  message-new_status = λ c m. refl;
  details-new_status = λ c m. refl;
}

abbrev late_error : GoError
late_error = other 7 (codes "call: ") (also deadline_exceeded end)

late_error-IsForeign : IsForeign libs late_error
unfolding as_error find
late_error-IsForeign = record { no_error = refl; no_commit = refl }
