-- ===== src/GoStrings.antt =====
-- What the package uses of Go's `strings`: HasPrefix, TrimPrefix, Index, Cut, Contains, LastIndex,
-- TrimSpace, ToLower and Join, over texts as lists of code points. The Go functions work on bytes;
-- on valid UTF-8 they agree with these. `index` is given as the two parts around the match, which
-- is what every caller slices out.
pub mod Parts
pub mod Trim
use fabricsdk.Base.{
  ℕ, ◌+◌, Bool, true, false, ◌&&◌, ◌||◌, Option, none, some, List, [], ◌∷◌, ◌++◌, map, leb, ◌==◌,
  if◌then◌else◌, is_empty, Text,
}

-- What follows prefix `p` in `s`.
unfoldable pub strip_prefix : Text → Text → Option Text
strip_prefix s [] = some s
strip_prefix [] (y ∷ p) = none
strip_prefix (x ∷ s) (y ∷ p) = if x == y then strip_prefix s p else none

unfoldable pub has_prefix : Text → Text → Bool
unfolding strip_prefix
has_prefix s p = elim (strip_prefix s p) [ none ↦ false | some r ↦ true ]

unfoldable pub trim_prefix : Text → Text → Text
unfolding strip_prefix
trim_prefix s p = elim (strip_prefix s p) [ none ↦ s | some r ↦ r ]

abbrev pub push_front : ℕ → Option (Text × Text) → Option (Text × Text)
push_front c none = none
push_front c (some (a, b)) = some (c ∷ a, b)

-- The parts before and after the first match of `sep`; `none` where `Index` gives -1.
unfoldable pub split_first : Text → Text → Option (Text × Text)
unfolding strip_prefix
split_first [] sep = elim (strip_prefix [] sep) [ none ↦ none | some r ↦ some ([], r) ]
split_first (c ∷ s) sep =
    let rest = split_first s sep in
    elim (strip_prefix (c ∷ s) sep) [ none ↦ push_front c rest | some r ↦ some ([], r) ]

unfoldable pub cut : Text → Text → Text × Text × Bool
unfolding split_first
cut s sep = elim (split_first s sep) [ none ↦ (s, [], false) | some (a, b) ↦ (a, b, true) ]

unfoldable pub contains : Text → Text → Bool
unfolding split_first
contains s sub = elim (split_first s sub) [ none ↦ false | some ab ↦ true ]

-- The parts around the last `sep`; `none` where `LastIndex` gives -1.
unfoldable pub split_last : Text → ℕ → Option (Text × Text)
split_last [] sep = none
split_last (c ∷ s) sep =
    let rest = split_last s sep in
    elim rest [ none ↦ if c == sep then some ([], s) else none | some (a, b) ↦ some (c ∷ a, b) ]

-- `unicode.IsSpace`.
unfoldable pub is_space : ℕ → Bool
is_space c =
    (leb 9 c && leb c 13)
    || c == 0x20
    || c == 0x85
    || c == 0xa0
    || c == 0x1680
    || (leb 0x2000 c && leb c 0x200a)
    || c == 0x2028
    || c == 0x2029
    || c == 0x202f
    || c == 0x205f
    || c == 0x3000

unfoldable pub trim_left : Text → Text
unfolding is_space
trim_left [] = []
trim_left (c ∷ s) = if is_space c then trim_left s else c ∷ s

unfoldable pub trim_right : Text → Text
unfolding is_space
trim_right [] = []
trim_right (c ∷ s) = let r = trim_right s in if is_space c && is_empty r then [] else c ∷ r

unfoldable pub trim_space : Text → Text
unfolding trim_left trim_right
trim_space s = trim_right (trim_left s)

-- `unicode.ToLower` where its result is ASCII: the letters, and the two other code points whose
-- lower case is an ASCII letter. Other code points go to code points outside ASCII, and are left as
-- they are: the results are only searched for ASCII phrases.
unfoldable pub lower : ℕ → ℕ
lower c =
    if leb b'A' c && leb c b'Z'
    then c + 32
    else if c == 0x130
    then b'i'
    else if c == 0x212a
    then b'k'
    else c

unfoldable pub to_lower : Text → Text
unfolding lower
to_lower = map lower

unfoldable pub join : List Text → Text → Text
join [] sep = []
join (x ∷ []) sep = x
join (x ∷ y ∷ xs) sep = x ++ (sep ++ join (y ∷ xs) sep)
