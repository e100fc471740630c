-- ===== src/GoStrings/Parts.antt =====
-- The searching functions against the equations that they stand for.
use fabricsdk.Base.{
  ℕ, ◌≡◌, ◌↔◌, refl, ap, ◌∙◌, true, false, none, some, [], ◌∷◌, ◌++◌, arith, ◌==◌, ==_iff,
  Option-cases, inl, inr, Text, exists,
}
use fabricsdk.GoStrings.{
  strip_prefix, has_prefix, trim_prefix, split_first, contains, split_last, push_front,
}

pub strip_prefix-append : (p s : Text) → strip_prefix (p ++ s) p ≡ some s
unfolding strip_prefix
strip_prefix-append [] s = refl
strip_prefix-append (x ∷ p) s = rw ((==_iff x x).1 refl) (strip_prefix-append p s)

pub strip_prefix_sound : (s p r : Text) → strip_prefix s p ≡ some r → s ≡ p ++ r
unfolding strip_prefix
strip_prefix_sound s [] r e = cc
strip_prefix_sound [] (y ∷ p) r e = cc
strip_prefix_sound (x ∷ s) (y ∷ p) r e = ground (arith, strip_prefix_sound s p r)

pub has_prefix-append : (p s : Text) → has_prefix (p ++ s) p ≡ true
unfolding has_prefix
has_prefix-append p s = rw (strip_prefix-append p s, has_prefix)

pub trim_prefix-append : (p s : Text) → trim_prefix (p ++ s) p ≡ s
unfolding trim_prefix
trim_prefix-append p s = rw (strip_prefix-append p s, trim_prefix)

pub has_prefix_sound : (s p : Text) → has_prefix s p ≡ true → (r : Text) × (s ≡ p ++ r)
unfolding has_prefix
has_prefix_sound s p h = elim (Option-cases (strip_prefix s p)) [
  | inl e ↦ absurd (cc)
  | inr (r, e) ↦ (r, strip_prefix_sound s p r e)
]

split_first_here : (s sep r : Text) → strip_prefix s sep ≡ some r → split_first s sep ≡ some ([], r)
unfolding split_first
split_first_here [] sep r e = rw (e, split_first)
split_first_here (c ∷ s) sep r e = rw (e, split_first)

-- One step of the search, when the separator does not stand at the front.
split_first_there :
    (c : ℕ) (s sep : Text)
    → strip_prefix (c ∷ s) sep ≡ none
    → split_first (c ∷ s) sep ≡ push_front c (split_first s sep)
unfolding split_first
split_first_there c s sep e = rw (e, split_first)

-- What the search returns is a split of the text around the separator.
pub split_first_sound : (s sep a b : Text) → split_first s sep ≡ some (a, b) → s ≡ a ++ (sep ++ b)
unfolding split_first
split_first_sound [] sep a b e = elim (Option-cases (strip_prefix [] sep)) [
  | inl n ↦ absurd (cc)
  | inr (r, f) ↦ ground (arith, strip_prefix_sound [] sep r f, split_first_here [] sep r f)
]
split_first_sound (c ∷ s) sep a b e = elim (Option-cases (strip_prefix (c ∷ s) sep)) [
  | inr (r, f) ↦
      ground (arith, strip_prefix_sound (c ∷ s) sep r f, split_first_here (c ∷ s) sep r f)
  | inl n ↦ elim (Option-cases (split_first s sep)) [
    | inl m ↦ absurd (cc (split_first_there c s sep n, ap (push_front c) m))
    | inr ((a', b'), f) ↦
        ground (arith, split_first_sound s sep a' b' f, split_first_there c s sep n)
  ]
]

-- The search does not miss a separator.
pub split_first_found :
    (a sep b : Text) → (ab : Text × Text) × (split_first (a ++ (sep ++ b)) sep ≡ some ab)
split_first_found [] sep b =
    (([], b), split_first_here (sep ++ b) sep b (strip_prefix-append sep b))
split_first_found (c ∷ a) sep b = elim (Option-cases (strip_prefix (c ∷ (a ++ (sep ++ b))) sep)) [
  | inr (r, f) ↦ (([], r), split_first_here _ sep r f)
  | inl n ↦
      let (ab, found) = split_first_found a sep b in
      ((c ∷ ab.0, ab.1), split_first_there c _ sep n ∙ ap (push_front c) found)
]

-- `sub` occurs in `s`.
abbrev pub Occurs : Text → Text → Type 0
Occurs sub s = (a : Text) × (b : Text) × (s ≡ a ++ (sub ++ b))

pub contains_iff : (s sub : Text) → (contains s sub ≡ true) ↔ Occurs sub s
unfolding contains
contains_iff s sub = (to, from)
  where
    to : contains s sub ≡ true → Occurs sub s
    to h = elim (Option-cases (split_first s sub)) [
      | inl n ↦ absurd (cc)
      | inr ((a, b), f) ↦ (a, b, split_first_sound s sub a b f)
    ]

    from : Occurs sub s → contains s sub ≡ true
    from (a, b, e) = rw e (rw ((split_first_found a sub b).1, contains))

-- So is a separator of two characters, if the first of them does not occur earlier.
pub split_first-pair :
    (a : Text) (c d : ℕ) (b : Text)
    → exists (λ x. x == c) a ≡ false
    → split_first (a ++ (c ∷ d ∷ b)) (c ∷ d ∷ []) ≡ some (a, b)
unfolding split_first strip_prefix
split_first-pair [] c d b h = ground arith
split_first-pair (x ∷ a) c d b h = ground (arith, split_first-pair a c d b)

pub split_last-absent : (b : Text) (c : ℕ) → exists (λ x. x == c) b ≡ false → split_last b c ≡ none
unfolding split_last
split_last-absent [] c h = refl
split_last-absent (x ∷ b) c h = ground (arith, split_last-absent b c)

-- A separator of one character is found at its first occurrence.
pub split_first-char :
    (a : Text) (c : ℕ) (b : Text)
    → exists (λ x. x == c) a ≡ false
    → split_first (a ++ (c ∷ b)) (c ∷ []) ≡ some (a, b)
unfolding split_first strip_prefix
split_first-char [] c b h = ground arith
split_first-char (x ∷ a) c b h = ground (arith, split_first-char a c b)

pub split_last-char :
    (a : Text) (c : ℕ) (b : Text)
    → exists (λ x. x == c) b ≡ false
    → split_last (a ++ (c ∷ b)) c ≡ some (a, b)
unfolding split_last
split_last-char [] c b h = ground (arith, split_last-absent b c h)
split_last-char (x ∷ a) c b h = rw (split_last-char a c b h)
