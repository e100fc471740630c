-- ===== src/Ccerr/Parse.antt =====
-- `Parse` against the wire format that `Error` writes.
use fabricsdk.Base.{
  ◌≡◌, refl, sym, ap, ◌∙◌, Bool, true, false, [], ◌∷◌, ◌++◌, append_assoc, exists, arith, ◌==◌,
  Bool-cases, inl, inr, Text, All, All-exists,
}
use fabricsdk.GoStrings.{is_space, trim_space, trim_right, has_prefix, cut}
use fabricsdk.GoStrings.Parts.{split_first-char, split_first-pair, has_prefix-append}
use fabricsdk.GoStrings.Trim.{
  trim_space_front, trim_right-append, trim_space-trim_right, trim_space-space, trim_space_idem,
  NoSpaceFirst,
}
use fabricsdk.Ccerr.{
  Code, known, known_codes, error_text, response_prefix, strip_response, after_comma, parse_parts,
  parse,
}

-- What `Parse` needs of a code: trimming does not change it, nor what stands before it in a message,
-- it holds no colon, and no message with it in front looks like a chaincode response.
record IsPlain (c : Code) : Type 0 where
  trimmed : trim_space c ≡ c
  no_colon : exists (λ x. x == b':') c ≡ false
  front : (t : Text) → NoSpaceFirst (c ++ t)
  bare : (t : Text) → has_prefix (c ++ t) response_prefix ≡ false

known_codes-IsPlain : All IsPlain known_codes
unfolding trim_space has_prefix is_space
known_codes-IsPlain = (
  record { trimmed = refl; no_colon = refl; front = λ t. refl; bare = λ t. refl },
  (
    record { trimmed = refl; no_colon = refl; front = λ t. refl; bare = λ t. refl },
    (
      record { trimmed = refl; no_colon = refl; front = λ t. refl; bare = λ t. refl },
      (
        record { trimmed = refl; no_colon = refl; front = λ t. refl; bare = λ t. refl },
        (
          record { trimmed = refl; no_colon = refl; front = λ t. refl; bare = λ t. refl },
          (record { trimmed = refl; no_colon = refl; front = λ t. refl; bare = λ t. refl }, tt),
        ),
      ),
    ),
  ),
)

known-IsPlain : (c : Code) → known c ≡ true → IsPlain c
unfolding known
known-IsPlain c h = All-exists IsPlain c known_codes known_codes-IsPlain h

-- The parts of a message that starts with a known code.
parse_parts-known :
    (m c t : Text)
    → known c ≡ true
    → parse_parts m (cut (c ++ (b':' ∷ t)) (b':' ∷ [])) ≡ (c, trim_space t, true)
unfolding parse_parts cut
parse_parts-known m c t h =
    let p = known-IsPlain c h in
    rw (split_first-char c b':' t p.no_colon, cut) (rw p.trimmed (rw h))

trim_space-coded :
    (c t : Text) → known c ≡ true → trim_space (c ++ (b':' ∷ t)) ≡ c ++ (b':' ∷ trim_right t)
unfolding is_space
trim_space-coded c t h =
    trim_space_front _ ((known-IsPlain c h).front _) ∙ trim_right-append c b':' t refl

-- `Parse` of what is left of a message that starts with a known code once the end is trimmed.
strip-coded : (c t : Text) → known c ≡ true → strip_response (c ++ t) ≡ c ++ t
unfolding strip_response
strip-coded c t h = rw (known-IsPlain c h).bare

parse_parts-trimmed :
    (m c msg : Text)
    → known c ≡ true
    → parse_parts m (cut (c ++ (b':' ∷ trim_right (b' ' ∷ msg))) (b':' ∷ []))
      ≡ (c, trim_space msg, true)
unfolding is_space
parse_parts-trimmed m c msg h =
    parse_parts-known m c _ h ∙ rw trim_space-trim_right (rw (trim_space-space b' ' msg refl))

-- A known code and its message come back from the text that `Error.Error` writes, the message
-- without the spaces around it.
pub parse-error_text :
    (c : Code) (msg : Text)
    → known c ≡ true
    → parse (error_text (record { code = c; message = msg })) ≡ (c, trim_space msg, true)
unfolding parse error_text
parse-error_text c msg h =
    rw (trim_space-coded c _ h) (rw (strip-coded c _ h) (parse_parts-trimmed _ c msg h))

-- The message of a chaincode response with status text `n`.
abbrev pub response : Text → Text → Text
response n m = response_prefix ++ (n ++ (b',' ∷ b' ' ∷ m))

no_comma :
    (a n : Text)
    → exists (λ x. x == b',') a ≡ false
    → exists (λ x. x == b',') n ≡ false
    → exists (λ x. x == b',') (a ++ n) ≡ false
no_comma [] n h k = k
no_comma (x ∷ a) n h k = ground (arith, no_comma a n)

strip-response :
    (n m : Text) → exists (λ x. x == b',') n ≡ false → strip_response (response n m) ≡ m
unfolding strip_response after_comma
strip-response n m h = rw (has_prefix-append response_prefix (n ++ (b',' ∷ b' ' ∷ m))) (
    rw (← append_assoc response_prefix n (b',' ∷ b' ' ∷ m)) (
      rw (
        split_first-pair (response_prefix ++ n) b',' b' ' m (no_comma response_prefix n refl h),
        after_comma,
      )))

response-append : (n m t : Text) → response n m ++ t ≡ response n (m ++ t)
response-append n m t = ap (λ (x : Text). response_prefix ++ x) (append_assoc n (b',' ∷ b' ' ∷ m) t)

trim_space-response :
    (n c t : Text)
    → trim_space (response n (c ++ (b':' ∷ t))) ≡ response n (c ++ (b':' ∷ trim_right t))
unfolding is_space
trim_space-response n c t =
    trim_space_front _ refl
    ∙ ap trim_right (sym (response-append n c (b':' ∷ t)))
    ∙ trim_right-append (response n c) b':' t refl
    ∙ response-append n c (b':' ∷ trim_right t)

-- The prefix that the Gateway puts before a chaincode response is stripped: `Parse` finds the same
-- code and message behind it, whatever status text without a comma it names.
pub parse-response :
    (n : Text) (c : Code) (msg : Text)
    → exists (λ x. x == b',') n ≡ false
    → known c ≡ true
    → parse (response n (error_text (record { code = c; message = msg })))
      ≡ (c, trim_space msg, true)
unfolding parse error_text
parse-response n c msg k h =
    rw (trim_space-response n c (b' ' ∷ msg))
      (rw (strip-response n _ k) (parse_parts-trimmed _ c msg h))

-- The outcome of `Parse`: a known code with a trimmed text, or no code and the message unchanged.
abbrev pub Parsed : Text → Code × Text × Bool → Type 0
Parsed message (c, t, true) = (known c ≡ true) × (trim_space c ≡ c) × (trim_space t ≡ t)
Parsed message (c, t, false) = (c ≡ []) × (t ≡ message)

parse_parts-Parsed :
    (message : Text) (parts : Text × Text × Bool) → Parsed message (parse_parts message parts)
unfolding parse_parts
parse_parts-Parsed message (head, rest, false) = (refl, refl)
parse_parts-Parsed message (head, rest, true) = elim (Bool-cases (known (trim_space head))) [
  | inl h ↦ rw h (h, trim_space_idem head, trim_space_idem rest)
  | inr h ↦ rw h (refl, refl)
]

-- `Parse` reports only known codes, with a text that has no space around it; where it reports none
-- it returns the empty code and the message as it came.
pub parse-Parsed : (message : Text) → Parsed message (parse message)
unfolding parse
parse-Parsed message = parse_parts-Parsed message _
