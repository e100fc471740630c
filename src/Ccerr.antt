-- ===== src/Ccerr.antt =====
-- ccerr/ccerr.go: the error codes that chaincode puts in front of its messages.
-- The type `Code` is a string there, and so it is here.
pub mod Parse
use fabricsdk.Base.{
  Bool, true, false, none, some, List, [], ◌∷◌, ◌++◌, exists, text_eq, codes, if◌then◌else◌, Text,
}
use fabricsdk.GoStrings.{trim_space, has_prefix, split_first, cut}

abbrev pub Code : Type 0
Code = Text

abbrev pub invalid_argument : Code
invalid_argument = codes "INVALID_ARGUMENT"

abbrev pub not_found : Code
not_found = codes "NOT_FOUND"

abbrev pub already_exists : Code
already_exists = codes "ALREADY_EXISTS"

abbrev pub conflict : Code
conflict = codes "CONFLICT"

abbrev pub unauthorized : Code
unauthorized = codes "UNAUTHORIZED"

abbrev pub failed_precondition : Code
failed_precondition = codes "FAILED_PRECONDITION"

-- The keys of the map `known`, and the test whether a code is one of them.
abbrev pub known_codes : List Code
known_codes =
    invalid_argument ∷ not_found ∷ already_exists ∷ conflict ∷ unauthorized ∷ failed_precondition
    ∷ []

unfoldable pub known : Code → Bool
known c = exists (text_eq c) known_codes

pub record Error : Type 0 where
  pub code : Code
  pub message : Text

-- `Error.Error`.
unfoldable pub error_text : Error → Text
error_text e = e.code ++ (b':' ∷ b' ' ∷ e.message)

-- `New`, for the message that `fmt.Sprintf` makes of the format and its arguments.
unfoldable pub new : Code → Text → Error
new code message = record { code = code; message = message }

abbrev pub response_prefix : Text
response_prefix = codes "chaincode response "

-- `m[i+2:]` for the first `", "` of `m`, if there is one.
after_comma : Text → Text
after_comma m = elim (split_first m (codes ", ")) [ none ↦ m | some (a, b) ↦ b ]

strip_response : Text → Text
unfolding after_comma
strip_response m = if has_prefix m response_prefix then after_comma m else m

-- The end of `Parse`, on the parts that `strings.Cut` returns.
parse_parts : Text → Text × Text × Bool → Code × Text × Bool
parse_parts message (head, rest, false) = ([], message, false)
parse_parts message (head, rest, true) =
    let c = trim_space head in if known c then (c, trim_space rest, true) else ([], message, false)

unfoldable pub parse : Text → Code × Text × Bool
unfolding strip_response parse_parts known
parse message = parse_parts message (cut (strip_response (trim_space message)) (b':' ∷ []))
