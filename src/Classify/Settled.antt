-- ===== src/Classify/Settled.antt =====
-- An error that is attributed to chaincode says that nothing was ordered.
use fabricsdk.Base.{
  ◌≡◌, ◌≢◌, refl, Bool, true, false, not, Option, none, some, List, [], ◌∷◌, Text, arith,
  if◌then◌else◌,
}
use fabricsdk.Ccerr
use fabricsdk.Ccerr.{response_prefix}
use fabricsdk.GoStrings.{has_prefix}
use fabricsdk.Kinds.{Kind, ErrorSource, kind_code, Phase, GrpcCode, cc_kind, is_aborted_or_unknown}
use fabricsdk.GoError.{Error, ErrorDetail}
use fabricsdk.Errors.{new_error}
use fabricsdk.Keywords.{legacy_kind}
use fabricsdk.Libs.{Status}
use fabricsdk.Classify.{
  kind_from_code, chaincode_error, first_coded, first_response, first_keyword, coded_or, keyword_or,
  response_error, candidates, or_next,
}

-- An error whose transaction is not on the ledger, with the status code of its kind.
abbrev pub IsSettled : Error → Type 0
IsSettled e =
    (e.code ≡ kind_code e.kind) × (e.outcome_unknown ≡ false) × (e.kind ≢ Kind.outcome_unknown)

pub new_error-IsSettled :
    (k : Kind) (s : ErrorSource) (m : Text) → k ≢ Kind.outcome_unknown → IsSettled (new_error k s m)
unfolding new_error
new_error-IsSettled k s m h = (refl, refl, h)

cc_kind-settled : (c : Text) → cc_kind c ≢ Kind.outcome_unknown
unfolding cc_kind
cc_kind-settled c = ground arith

legacy_kind-settled : (m : Text) → legacy_kind m ≢ Kind.outcome_unknown
unfolding legacy_kind
legacy_kind-settled m = ground arith

pub kind_from_code-settled :
    (c : GrpcCode) (ph : Phase) → kind_from_code c ph ≢ Kind.outcome_unknown
unfolding kind_from_code
kind_from_code-settled c ph = ground arith

-- A chaincode error, if there is one, is settled and has the source chaincode.
abbrev pub AllChaincode : Option Error → Type 0
AllChaincode none = Unit
AllChaincode (some e) = IsSettled e × (e.source ≡ ErrorSource.chaincode)

new_error-AllChaincode :
    (k : Kind) (m : Text)
    → k ≢ Kind.outcome_unknown
    → AllChaincode (some (new_error k ErrorSource.chaincode m))
unfolding new_error
new_error-AllChaincode k m h = ((refl, refl, h), refl)

coded_or-AllChaincode :
    (p : Ccerr.Code × Text × Bool) (rest : Option Error)
    → AllChaincode rest
    → AllChaincode (coded_or p rest)
unfolding coded_or
coded_or-AllChaincode (c, t, true) rest h = new_error-AllChaincode (cc_kind c) t (cc_kind-settled c)
coded_or-AllChaincode (c, t, false) rest h = h

keyword_or-AllChaincode :
    (k : Kind) (t : Text) (rest : Option Error)
    → k ≢ Kind.outcome_unknown
    → AllChaincode rest
    → AllChaincode (keyword_or k t rest)
unfolding keyword_or
keyword_or-AllChaincode Kind.unset t rest n h = h
keyword_or-AllChaincode k t rest n h = new_error-AllChaincode _ t n

first_coded-AllChaincode : (ms : List Text) → AllChaincode (first_coded ms)
unfolding first_coded
first_coded-AllChaincode [] = tt
first_coded-AllChaincode (m ∷ ms) =
    coded_or-AllChaincode (Ccerr.parse m) _ (first_coded-AllChaincode ms)

first_keyword-AllChaincode : (ds : List ErrorDetail) → AllChaincode (first_keyword ds)
unfolding first_keyword
first_keyword-AllChaincode [] = tt
first_keyword-AllChaincode (d ∷ ds) =
    keyword_or-AllChaincode _ _ _ (legacy_kind-settled d.message) (first_keyword-AllChaincode ds)

response_error-AllChaincode : (strict : Bool) (t : Text) → AllChaincode (response_error strict t)
unfolding response_error
response_error-AllChaincode true t = new_error-AllChaincode Kind.chaincode t (λ e. cc)
response_error-AllChaincode false t =
    keyword_or-AllChaincode _ t _ (legacy_kind-settled t)
      (new_error-AllChaincode Kind.chaincode t (λ e. cc))

if-AllChaincode :
    (b : Bool) (x y : Option Error)
    → AllChaincode x
    → AllChaincode y
    → AllChaincode (if b then x else y)
if-AllChaincode true x y p q = p
if-AllChaincode false x y p q = q

or_next-AllChaincode :
    (x y : Option Error) → AllChaincode x → AllChaincode y → AllChaincode (or_next x y)
or_next-AllChaincode none y p q = q
or_next-AllChaincode (some e) y p q = p

first_response-AllChaincode :
    (strict : Bool) (ms : List Text) → AllChaincode (first_response strict ms)
unfolding first_response
first_response-AllChaincode strict [] = tt
first_response-AllChaincode strict (m ∷ ms) =
    if-AllChaincode (has_prefix m response_prefix) _ _ (response_error-AllChaincode strict _)
      (first_response-AllChaincode strict ms)

pub chaincode_error-AllChaincode :
    (st : Status) (ds : List ErrorDetail) (strict : Bool)
    → AllChaincode (chaincode_error st ds strict)
unfolding chaincode_error
chaincode_error-AllChaincode st ds strict =
    if-AllChaincode (not (is_aborted_or_unknown st.code)) _ _ tt (
      or_next-AllChaincode _ _ (first_coded-AllChaincode (candidates st.message ds)) (
        or_next-AllChaincode _ _ (first_response-AllChaincode strict (candidates st.message ds))
          (if-AllChaincode _ none (first_keyword ds) tt (first_keyword-AllChaincode ds))))
