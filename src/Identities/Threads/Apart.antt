-- ===== src/Identities/Threads/Apart.antt =====
-- What calls of `Identity.Close` one after another do.
use mathlib.Core.Path.{subst}
use fabricsdk.Base.{
  ℕ, ◌≤◌, ◌≡◌, ◌≢◌, ◌⊎◌, refl, inl, inr, Bool, Bool-cases, true, false, ◌==◌, ==_iff, arith,
}
use fabricsdk.Identities.Threads.{
  Shared, Pc, idle, tested, read, cleared, returned, panicked, is_outside, Move, nothing_held, test,
  fetch, clear, call, call_nil, System, Serial,
}

abbrev pub is_returned : Pc → Bool
is_returned returned = true
is_returned _ = false

abbrev pub is_panicked : Pc → Bool
is_panicked panicked = true
is_panicked _ = false

abbrev is_cleared : Pc → Bool
is_cleared (cleared got) = true
is_cleared _ = false

-- What a goroutine and the shared fields say of each other.
abbrev Fits : Shared → Pc → Type 0
Fits m idle = Unit
Fits m tested = m.set ≡ true
Fits m (read got) = (m.set ≡ true) × (got ≡ true)
Fits m (cleared got) = (m.set ≡ false) × (m.calls ≡ 0) × (got ≡ true)
Fits m returned = (m.set ≡ false) × (m.calls ≡ 1)
Fits m panicked = ⊥

-- The function is called once the field is clear, unless a goroutine is about to call it.
record Inv (s : System) : Type 0 where
  fits : (i : ℕ) → Fits s.shared (s.pc i)
  kept : s.shared.set ≡ true → s.shared.calls ≡ 0
  called : s.shared.set ≡ false → (s.shared.calls ≡ 1) ⊎ ((j : ℕ) × (is_cleared (s.pc j) ≡ true))

record Effect (m : Shared) (m' : Shared) (p' : Pc) : Type 0 where
  own : Fits m' p'
  kept : m'.set ≡ true → m'.calls ≡ 0
  called : m'.set ≡ false → (m'.calls ≡ 1) ⊎ (is_cleared p' ≡ true)
  other : (q : Pc) → is_outside q ≡ true → Fits m q → Fits m' q

Move-Effect :
    {m m' : Shared} {p p' : Pc}
    → Move m p m' p'
    → Fits m p
    → (m.set ≡ true → m.calls ≡ 0)
    → (m.set ≡ false → (m.calls ≡ 1) ⊎ (is_cleared p ≡ true))
    → Effect m m' p'
Move-Effect (nothing_held o e) f k c = ground arith
Move-Effect (test o e) f k c = ground arith
Move-Effect fetch f k c = ground arith
Move-Effect clear f k c = ground arith
Move-Effect call f k c = ground arith
Move-Effect call_nil f k c = ground arith

Serial-Inv : {s : System} → Serial s → Inv s
Serial-Inv Serial.start = record { fits = λ i. tt; kept = λ h. refl; called = λ h. absurd (cc) }
Serial-Inv (Serial.later {s} i {m} {p} r apart mv) =
    let v = Serial-Inv r in
    let x = Move-Effect mv (v.fits i) v.kept (λ h. by_this (v.called h)) in
    record {
      fits = λ j. elim (Bool-cases (j == i)) [
        | inl e ↦ rw e x.own
        | inr n ↦ rw n (x.other (s.pc j) (apart j (different n)) (v.fits j))
      ];
      kept = x.kept;
      called =
          λ h. elim (x.called h) [ inl c ↦ inl c | inr c ↦ inr (i, rw ((==_iff i i).1 refl) c) ];
    }
  where
    different : {j : ℕ} → (j == i) ≡ false → j ≢ i
    different {j} n e = absurd (cc ((==_iff j i).1 e, n))

    inside : (q : Pc) → is_cleared q ≡ true → is_outside q ≡ true → ⊥
    inside (cleared got) c o = absurd (cc)
    inside idle c o = absurd (cc)
    inside tested c o = absurd (cc)
    inside (read got) c o = absurd (cc)
    inside returned c o = absurd (cc)
    inside panicked c o = absurd (cc)

    by_this :
        (s.shared.calls ≡ 1) ⊎ ((j : ℕ) × (is_cleared (s.pc j) ≡ true))
        → (s.shared.calls ≡ 1) ⊎ (is_cleared (s.pc i) ≡ true)
    by_this (inl c) = inl c
    by_this (inr (j, c)) = elim (Bool-cases (j == i)) [
      | inl e ↦ inr (subst (λ x. is_cleared (s.pc x) ≡ true) ((==_iff j i).0 e) c)
      | inr n ↦ absurd (inside (s.pc j) c (apart j (different n)))
    ]

-- Calls of `Identity.Close` of which none starts or goes on while another is on its way call the closing
-- function at most once, and exactly once when one of them has returned; none of them panics.
pub Serial-once :
    {s : System}
    → Serial s
    → (i : ℕ)
    → (s.shared.calls ≤ 1)
      × (is_panicked (s.pc i) ≡ false)
      × ((is_returned (s.pc i) ≡ false) ⊎ (s.shared.calls ≡ 1))
Serial-once {s} r i =
    let v = Serial-Inv r in
    (
      at_most v (Bool-cases s.shared.set),
      unbroken (s.pc i) (v.fits i),
      elim (Bool-cases (is_returned (s.pc i))) [
        | inl h ↦ inr (at_return (s.pc i) (v.fits i) h)
        | inr n ↦ inl n
      ],
    )
  where
    unbroken : (q : Pc) → Fits s.shared q → is_panicked q ≡ false
    unbroken q f = ground arith

    at_return : (q : Pc) → Fits s.shared q → is_returned q ≡ true → s.shared.calls ≡ 1
    at_return q f h = ground arith

    before_call : (q : Pc) → Fits s.shared q → is_cleared q ≡ true → s.shared.calls ≡ 0
    before_call q f h = ground arith

    at_most : Inv s → (s.shared.set ≡ true) ⊎ (s.shared.set ≡ false) → s.shared.calls ≤ 1
    at_most v (inl h) = omega (arith, v.kept h)
    at_most v (inr h) = elim (v.called h) [
      | inl c ↦ omega (arith, c)
      | inr (j, c) ↦ omega (arith, before_call (s.pc j) (v.fits j) c)
    ]
