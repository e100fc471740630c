-- ===== src/Goroutines.antt =====
-- Goroutines by their numbers: where each stands, one step of one of them, and places for one at a time.
use fabricsdk.Base.{
  ℕ, ◌≡◌, ◌⊎◌, sym, ◌∙◌, inl, inr, Bool, Bool-cases, true, false, ◌==◌, ==_iff, if◌then◌else◌,
}

-- Goroutine `i` moves to `p`.
abbrev pub update : {P : Type 0} → (ℕ → P) → ℕ → P → ℕ → P
update f i p j = if j == i then p else f j

-- One goroutine at most is in a kind of place, if a step enters it only when nobody is there.
pub update_unique :
    {P : Type 0} (test : P → Bool) (pc : ℕ → P) (i : ℕ) (p : P)
    → ((a b : ℕ) → test (pc a) ≡ true → test (pc b) ≡ true → a ≡ b)
    → (test p ≡ true → (test (pc i) ≡ true) ⊎ ((a : ℕ) → test (pc a) ≡ false))
    → (a b : ℕ) → test (update pc i p a) ≡ true
    → test (update pc i p b) ≡ true
    → a ≡ b
update_unique test pc i p one enter a b x y = elim (Bool-cases (a == i)) [
  | inl e ↦ elim (Bool-cases (b == i)) [
    | inl f ↦ (==_iff a i).0 e ∙ sym ((==_iff b i).0 f)
    | inr f ↦ (==_iff a i).0 e ∙ came b (rw f at y) (enter (rw e at x))
  ]
  | inr e ↦ elim (Bool-cases (b == i)) [
    | inl f ↦ sym (came a (rw e at x) (enter (rw f at y))) ∙ sym ((==_iff b i).0 f)
    | inr f ↦ one a b (rw e at x) (rw f at y)
  ]
]
  where
    came :
        (c : ℕ)
        → test (pc c) ≡ true
        → (test (pc i) ≡ true) ⊎ ((a : ℕ) → test (pc a) ≡ false)
        → i ≡ c
    came c t (inl h) = one i c h t
    came c t (inr none_there) = absurd (cc (none_there c, t))

-- Nobody else is where a test holds of the goroutine that takes a step.
pub others_apart :
    {P : Type 0} (test : P → Bool) (pc : ℕ → P) (i j : ℕ)
    → ((a b : ℕ) → test (pc a) ≡ true → test (pc b) ≡ true → a ≡ b)
    → (j == i) ≡ false
    → test (pc i) ≡ true
    → test (pc j) ≡ false
others_apart test pc i j one apart h = elim (Bool-cases (test (pc j))) [
  | inl t ↦ absurd (cc ((==_iff j i).1 (one j i t h), apart))
  | inr n ↦ n
]
