-- ===== src/Classify/Chaincode.antt =====
-- Which errors are attributed to chaincode, and as what.
use mathlib.Core.Path.{subst}
use fabricsdk.Base.{
  ◌≡◌, refl, sym, ap, ◌∙◌, ◌⊎◌, Bool, true, false, ◌||◌, Option, none, some, List, [], ◌∷◌, ◌++◌,
  map, Text, All, arith, Bool-cases, inl, inr, exists, ◌==◌, text_eq,
}
use fabricsdk.GoStrings.{trim_space, has_prefix, to_lower}
use fabricsdk.GoStrings.Parts.{Occurs}
use fabricsdk.Ccerr
use fabricsdk.Ccerr.{known, parse, error_text, response_prefix}
use fabricsdk.Ccerr.Parse.{response, parse-error_text, parse-response}
use fabricsdk.Kinds.{Kind, kind_eq, ErrorSource, Phase, cc_kind, is_aborted_or_unknown}
use fabricsdk.GoError.{GoError, Error, ErrorDetail, boxed}
use fabricsdk.GoError.Wraps.{as_error-boxed}
use fabricsdk.Errors.{new_error, is_kind}
use fabricsdk.Keywords.{peer_side_phrases}
use fabricsdk.Keywords.Phrases.{legacy_kind-peer_side}
use fabricsdk.Libs.{Libs, Status}
use fabricsdk.Classify.{
  gateway_details, chaincode_error, first_coded, first_response, first_keyword, coded_or,
  candidates, keywords_unless, or_next, keyword_or, from_chaincode, status_of, classify_status,
  classified, before_ordering,
}
use fabricsdk.Classify.Outcome.{IsForeign, classified-foreign}

-- `m` is what the Gateway reports for the chaincode error with code `c` and message `msg`: its text,
-- or its text behind "chaincode response NNN, ".
pub data Reports (c msg : Text) (m : Text) : Type 0 where
  plain : m ≡ error_text (record { code = c; message = msg }) → Reports c msg m
  responded :
      (n : Text)
      → exists (λ x. x == b',') n ≡ false
      → m ≡ response n (error_text (record { code = c; message = msg }))
      → Reports c msg m

parse-Reports :
    (c msg m : Text) → known c ≡ true → Reports c msg m → parse m ≡ (c, trim_space msg, true)
parse-Reports c msg m h (plain e) = rw e (parse-error_text c msg h)
parse-Reports c msg m h (responded n k e) = rw e (parse-response n c msg k h)

-- `Parse` finds no code in `m`.
abbrev pub IsUncoded : Text → Type 0
IsUncoded m = (parse m).2 ≡ false

coded_or-uncoded :
    (p : Ccerr.Code × Text × Bool) (rest : Option Error) → p.2 ≡ false → coded_or p rest ≡ rest
unfolding coded_or
coded_or-uncoded (c, t, true) rest h = absurd (cc)
coded_or-uncoded (c, t, false) rest h = refl

first_coded-skip :
    (pre ms : List Text) → All IsUncoded pre → first_coded (pre ++ ms) ≡ first_coded ms
unfolding first_coded
first_coded-skip [] ms h = refl
first_coded-skip (m ∷ pre) ms h = coded_or-uncoded (parse m) _ h.0 ∙ first_coded-skip pre ms h.1

first_coded-here :
    (c t m : Text) (ms : List Text)
    → parse m ≡ (c, t, true)
    → first_coded (m ∷ ms) ≡ some (new_error (cc_kind c) ErrorSource.chaincode t)
unfolding first_coded coded_or
first_coded-here c t m ms h = rw h

abbrev messages : List ErrorDetail → List Text
messages = map (λ (d : ErrorDetail). d.message)

candidates-details :
    (msg : Text) (pre post : List ErrorDetail) (d : ErrorDetail)
    → (ms : List Text) × (candidates msg (pre ++ (d ∷ post)) ≡ messages pre ++ (d.message ∷ ms))
unfolding candidates
candidates-details msg [] post d = (_, refl)
candidates-details msg (x ∷ pre) post d =
    let (ms, e) = candidates-details msg pre post d in (ms, ap (◌∷◌ x.message) e)

-- The first detail that reports a chaincode error decides, in strict mode and out of it.
chaincode_error-Reports :
    (st : Status) (strict : Bool) (pre post : List ErrorDetail) (d : ErrorDetail) (c msg : Text)
    → is_aborted_or_unknown st.code ≡ true
    → All IsUncoded (messages pre)
    → known c ≡ true
    → Reports c msg d.message
    → chaincode_error st (pre ++ (d ∷ post)) strict
      ≡ some (new_error (cc_kind c) ErrorSource.chaincode (trim_space msg))
unfolding chaincode_error
chaincode_error-Reports st strict pre post d c msg a u h r =
    let (ms, e) = candidates-details st.message pre post d in
    rw a (
      rw e (
        rw (first_coded-skip (messages pre) (d.message ∷ ms) u) (
          rw (
            first_coded-here c (trim_space msg) d.message ms (parse-Reports c msg d.message h r)))))

kind_eq_refl : (k : Kind) → kind_eq k k ≡ true
unfolding kind_eq
kind_eq_refl Kind.unset = refl
kind_eq_refl _ = refl

is_kind-boxed : (e : Error) → is_kind (some (boxed e)) e.kind ≡ true
unfolding is_kind
is_kind-boxed e =
    subst
      (λ x. kind_eq (elim x as (λ _. Kind) [ none ↦ Kind.unset | some e ↦ e.kind ]) e.kind ≡ true)
      (sym (as_error-boxed e)) (kind_eq_refl e.kind)

module _ (l : Libs) where
  classified-new_error :
      {err : GoError} (tx : Text) (ph : Phase) (strict : Bool) (k : Kind) (t : Text)
      → IsForeign l err
      → before_ordering ph ≡ true
      → chaincode_error (status_of l err) (gateway_details (status_of l err).details) strict
        ≡ some (new_error k ErrorSource.chaincode t)
      → ((classified l err tx ph strict).kind ≡ k)
        × ((classified l err tx ph strict).source ≡ ErrorSource.chaincode)
        × ((classified l err tx ph strict).message ≡ t)
  unfolding classify_status from_chaincode new_error
  classified-new_error {err} tx ph strict k t f b e =
      rw (classified-foreign l tx ph strict f) (rw b (rw e (refl, refl, refl)))

  -- An error of evaluate or endorse with status Aborted or Unknown, with no error of the package and no
  -- commit error in it, whose first coded detail reports a chaincode error made with package ccerr, as
  -- it is or behind "chaincode response" and a text without a comma, is classified by its code, with the chaincode's message
  -- without the spaces around it and source chaincode, whether or not the classification is strict;
  -- the test for that kind sees it.
  pub classified-Reports :
      {err : GoError} (tx : Text) (ph : Phase) (strict : Bool) (pre post : List ErrorDetail)
      (d : ErrorDetail) (c msg : Text)
      → IsForeign l err
      → before_ordering ph ≡ true
      → is_aborted_or_unknown (status_of l err).code ≡ true
      → gateway_details (status_of l err).details ≡ pre ++ (d ∷ post)
      → All IsUncoded (messages pre)
      → known c ≡ true
      → Reports c msg d.message
      → ((classified l err tx ph strict).kind ≡ cc_kind c)
        × ((classified l err tx ph strict).source ≡ ErrorSource.chaincode)
        × ((classified l err tx ph strict).message ≡ trim_space msg)
        × (is_kind (some (boxed (classified l err tx ph strict))) (cc_kind c) ≡ true)
  classified-Reports {err} tx ph strict pre post d c msg f b a g u h r =
      let (k, o, m) =
        classified-new_error tx ph strict (cc_kind c) (trim_space msg) f b
          (rw g (chaincode_error-Reports (status_of l err) strict pre post d c msg a u h r)) in
      let e = classified l err tx ph strict in
      (k, o, m, subst (λ x. is_kind (some (boxed e)) x ≡ true) k (is_kind-boxed e))

-- A text that strict mode takes for chaincode's: it has a code, or is a chaincode response.
abbrev pub is_marked : Text → Bool
is_marked m = (parse m).2 || has_prefix m response_prefix

coded_or-some :
    (p : Ccerr.Code × Text × Bool) (rest : Option Error) (e : Error)
    → coded_or p rest ≡ some e
    → (p.2 ≡ true) ⊎ (rest ≡ some e)
unfolding coded_or
coded_or-some (c, t, true) rest e h = inl refl
coded_or-some (c, t, false) rest e h = inr h

first_coded-is_marked :
    (ms : List Text) (e : Error) → first_coded ms ≡ some e → exists is_marked ms ≡ true
unfolding first_coded
first_coded-is_marked [] e h = absurd (cc)
first_coded-is_marked (m ∷ ms) e h = elim (coded_or-some (parse m) (first_coded ms) e h) [
  | inl p ↦ rw p refl
  | inr k ↦ ground (arith, first_coded-is_marked ms e k)
]

first_response-is_marked :
    (ms : List Text) (e : Error) → first_response true ms ≡ some e → exists is_marked ms ≡ true
unfolding first_response
first_response-is_marked [] e h = absurd (cc)
first_response-is_marked (m ∷ ms) e h = ground (arith, first_response-is_marked ms e)

or_next-some : (x y : Option Error) (e : Error) → or_next x y ≡ some e → (x ≡ some e) ⊎ (y ≡ some e)
or_next-some none y e h = inr h
or_next-some (some a) y e h = inl h

-- In strict mode an error is attributed to chaincode only if a detail, or the status message, has a
-- known code or is marked as a chaincode response.
pub chaincode_error-strict :
    (st : Status) (ds : List ErrorDetail) (e : Error)
    → chaincode_error st ds true ≡ some e
    → exists is_marked (candidates st.message ds) ≡ true
unfolding chaincode_error keywords_unless
chaincode_error-strict st ds e h = elim (Bool-cases (is_aborted_or_unknown st.code)) [
  | inr n ↦ absurd (cc (rw n at h))
  | inl a ↦ elim (or_next-some (first_coded (candidates st.message ds)) _ e (rw a at h)) [
    | inl p ↦ first_coded-is_marked (candidates st.message ds) e p
    | inr q ↦ elim (or_next-some (first_response true (candidates st.message ds)) none e q) [
      | inl p ↦ first_response-is_marked (candidates st.message ds) e p
      | inr p ↦ absurd (cc)
    ]
  ]
]

-- No text of a list is marked: no code, and no chaincode response.
abbrev pub IsUnmarked : List Text → Type 0
IsUnmarked ms = exists is_marked ms ≡ false

-- A detail whose message, in lower case, has one of the peer-side phrases.
abbrev pub PeerSide : ErrorDetail → Type 0
PeerSide d =
    (p : Text) × (exists (text_eq p) peer_side_phrases ≡ true) × Occurs p (to_lower d.message)

first_keyword-PeerSide : (ds : List ErrorDetail) → All PeerSide ds → first_keyword ds ≡ none
unfolding first_keyword keyword_or
first_keyword-PeerSide [] h = refl
first_keyword-PeerSide (d ∷ ds) ((p, listed, occ), h) =
    rw (legacy_kind-peer_side d.message p listed occ) (first_keyword-PeerSide ds h)

first_coded-unmarked : (ms : List Text) → IsUnmarked ms → first_coded ms ≡ none
unfolding first_coded
first_coded-unmarked [] h = refl
first_coded-unmarked (m ∷ ms) h =
    coded_or-uncoded (parse m) _ (ground arith) ∙ first_coded-unmarked ms (ground arith)

first_response-unmarked :
    (strict : Bool) (ms : List Text) → IsUnmarked ms → first_response strict ms ≡ none
unfolding first_response
first_response-unmarked strict [] h = refl
first_response-unmarked strict (m ∷ ms) h = ground (arith, first_response-unmarked strict ms)

-- Without a mark in the details or the status message, and with peer-side wording in every detail,
-- an error is not attributed to chaincode, in strict mode or out of it.
pub chaincode_error-PeerSide :
    (st : Status) (ds : List ErrorDetail) (strict : Bool)
    → IsUnmarked (candidates st.message ds)
    → All PeerSide ds
    → chaincode_error st ds strict ≡ none
unfolding chaincode_error keywords_unless
chaincode_error-PeerSide st ds strict u p = ground (
  arith,
  first_coded-unmarked (candidates st.message ds) u,
  first_response-unmarked strict (candidates st.message ds) u,
  first_keyword-PeerSide ds p,
)
