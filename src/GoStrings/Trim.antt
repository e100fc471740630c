-- ===== src/GoStrings/Trim.antt =====
-- `TrimSpace` and `Join`.
use fabricsdk.Base.{
  not, exists, ℕ, ◌≡◌, refl, ap, ◌∙◌, true, false, ◌&&◌, [], ◌∷◌, ◌++◌, arith, if◌then◌else◌,
  Bool-cases, inl, inr, Text, is_empty,
}
use fabricsdk.GoStrings.{is_space, trim_left, trim_right, trim_space}

-- The text is empty or starts with a character that is not a space.
abbrev pub NoSpaceFirst : Text → Type 0
NoSpaceFirst [] = Unit
NoSpaceFirst (c ∷ s) = is_space c ≡ false

trim_left-NoSpaceFirst : (s : Text) → NoSpaceFirst (trim_left s)
unfolding trim_left
trim_left-NoSpaceFirst [] = tt
trim_left-NoSpaceFirst (c ∷ s) = elim (Bool-cases (is_space c)) [
  | inl h ↦ rw h (trim_left-NoSpaceFirst s)
  | inr h ↦ rw h h
]

trim_left_id : (s : Text) → NoSpaceFirst s → trim_left s ≡ s
unfolding trim_left
trim_left_id [] h = refl
trim_left_id (c ∷ s) h = rw h

trim_right-NoSpaceFirst : (s : Text) → NoSpaceFirst s → NoSpaceFirst (trim_right s)
unfolding trim_right
trim_right-NoSpaceFirst [] h = tt
trim_right-NoSpaceFirst (c ∷ s) h = rw h h

trim_right_idem : (s : Text) → trim_right (trim_right s) ≡ trim_right s
unfolding trim_right
trim_right_idem [] = refl
trim_right_idem (c ∷ s) = elim (Bool-cases (is_space c && is_empty (trim_right s))) [
  | inl h ↦ rw h
  | inr h ↦ rw h (rw (trim_right_idem s, h))
]

pub trim_space_idem : (s : Text) → trim_space (trim_space s) ≡ trim_space s
unfolding trim_space
trim_space_idem s =
    ap trim_right
      (trim_left_id _ (trim_right-NoSpaceFirst (trim_left s) (trim_left-NoSpaceFirst s)))
    ∙ trim_right_idem (trim_left s)

-- A text with no space at its front is trimmed at its end only.
pub trim_space_front : (s : Text) → NoSpaceFirst s → trim_space s ≡ trim_right s
unfolding trim_space
trim_space_front s h = ap trim_right (trim_left_id s h)

-- What ends in something else than space is not trimmed there.
pub trim_right-append :
    (s : Text) (c : ℕ) (t : Text)
    → is_space c ≡ false
    → trim_right (s ++ (c ∷ t)) ≡ s ++ (c ∷ trim_right t)
unfolding trim_right
trim_right-append [] c t h = rw h
trim_right-append (x ∷ s) c t h =
    rw (trim_right-append s c t h) (is_empty_append s c (trim_right t) x)
  where
    is_empty_append :
        (s : Text) (c : ℕ) (t : Text) (x : ℕ)
        → (if is_space x && is_empty (s ++ (c ∷ t)) then [] else x ∷ (s ++ (c ∷ t)))
          ≡ x ∷ (s ++ (c ∷ t))
    is_empty_append [] c t x = ground arith
    is_empty_append (y ∷ s) c t x = ground arith

trim_left-trim_right : (s : Text) → trim_left (trim_right s) ≡ trim_right (trim_left s)
unfolding trim_left trim_right
trim_left-trim_right [] = refl
trim_left-trim_right (c ∷ s) = ground (arith, trim_left-trim_right s)

pub trim_space-trim_right : (s : Text) → trim_space (trim_right s) ≡ trim_space s
unfolding trim_space
trim_space-trim_right s = ap trim_right (trim_left-trim_right s) ∙ trim_right_idem (trim_left s)

pub trim_space-space : (c : ℕ) (s : Text) → is_space c ≡ true → trim_space (c ∷ s) ≡ trim_space s
unfolding trim_space trim_left
trim_space-space c s h = rw h

trim_right-is_empty : (s : Text) → is_empty (trim_right s) ≡ not (exists (λ c. not (is_space c)) s)
unfolding trim_right
trim_right-is_empty [] = refl
trim_right-is_empty (c ∷ s) = ground (arith, trim_right-is_empty s)

trim_left-exists :
    (s : Text) → exists (λ c. not (is_space c)) (trim_left s) ≡ exists (λ c. not (is_space c)) s
unfolding trim_left
trim_left-exists [] = refl
trim_left-exists (c ∷ s) = ground (arith, trim_left-exists s)

-- A text trims to nothing exactly when it has no character but spaces.
pub trim_space-is_empty :
    (s : Text) → is_empty (trim_space s) ≡ not (exists (λ c. not (is_space c)) s)
unfolding trim_space
trim_space-is_empty s = trim_right-is_empty (trim_left s) ∙ ap not (trim_left-exists s)
