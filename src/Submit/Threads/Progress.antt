-- ===== src/Submit/Threads/Progress.antt =====
-- Calls of `Wait` and `Release` never block each other for good.
use mathlib.Core.Path.{subst}
use fabricsdk.Base.{
  sym, ℕ, ◌≡◌, ◌⊎◌, refl, inl, inr, Bool, Bool-cases, true, false, ◌==◌, ==_iff, arith,
}
use fabricsdk.Goroutines.{update}
use fabricsdk.Submit.Threads.{
  Once, fresh, running, over, Shared, Pc, locking, asking, entering, releasing, unlocking,
  is_outside, Move, call_wait, call_release, lock, answered, unanswered, first, again, release,
  unlock, System, Step, by, Reach, start, later,
}
use fabricsdk.Submit.Threads.Exclusion.{is_releasing, is_inside}

-- Somebody is in a kind of place.
abbrev Someone : (Pc → Bool) → (ℕ → Pc) → Type 0
Someone test pc = (j : ℕ) × (test (pc j) ≡ true)

-- A mutex that is held is held by a goroutine, and a `once.Do` that runs is run by one.
record Held (s : System) : Type 0 where
  by_someone : s.shared.mu ≡ true → Someone is_inside s.pc
  run_by_someone : s.shared.once ≡ running → Someone is_releasing s.pc

-- What a step does to the two: they come with the goroutine that takes it, or were there without it.
record Kept (m : Shared) (p : Pc) (m' : Shared) (p' : Pc) : Type 0 where
  mutex : m'.mu ≡ true → (is_inside p' ≡ true) ⊎ ((m.mu ≡ true) × (is_inside p ≡ false))
  run :
      m'.once ≡ running → (is_releasing p' ≡ true) ⊎ ((m.once ≡ running) × (is_releasing p ≡ false))

Move-Kept : {m m' : Shared} {p p' : Pc} → Move m p m' p' → Kept m p m' p'
Move-Kept (call_wait o) = ground arith
Move-Kept (call_release o) = ground arith
Move-Kept (lock e) = ground arith
Move-Kept answered = ground arith
Move-Kept unanswered = ground arith
Move-Kept (first e) = ground arith
Move-Kept (again e) = ground arith
Move-Kept release = ground arith
Move-Kept unlock = ground arith

here :
    (test : Pc → Bool) (pc : ℕ → Pc) (i : ℕ) (p : Pc) → test p ≡ true → Someone test (update pc i p)
here test pc i p h = (i, rw ((==_iff i i).1 refl) h)

elsewhere :
    (test : Pc → Bool) (pc : ℕ → Pc) (i : ℕ) (p : Pc)
    → Someone test pc
    → test (pc i) ≡ false
    → Someone test (update pc i p)
elsewhere test pc i p (j, h) n = elim (Bool-cases (j == i)) [
  | inl e ↦ absurd (cc ((==_iff j i).0 e, h, n))
  | inr e ↦ (j, rw e h)
]

Step-Held : {s t : System} → Step s t → Held s → Held t
Step-Held {s} (by i {m} {p} mv) v =
    let k = Move-Kept mv in
    record {
      by_someone = λ h. elim (k.mutex h) [
        | inl n ↦ here is_inside s.pc i p n
        | inr (o, n) ↦ elsewhere is_inside s.pc i p (v.by_someone o) n
      ];
      run_by_someone = λ h. elim (k.run h) [
        | inl n ↦ here is_releasing s.pc i p n
        | inr (o, n) ↦ elsewhere is_releasing s.pc i p (v.run_by_someone o) n
      ];
    }

Reach-Held : {s : System} → Reach s → Held s
Reach-Held start = record { by_someone = λ h. absurd (cc); run_by_someone = λ h. absurd (cc) }
Reach-Held (later r st) = Step-Held st (Reach-Held r)

-- A goroutine that is within a call can take a step of that call.
pub data CanMove (s : System) : Type 0 where
  can_move :
      (j : ℕ) {m : Shared} {p : Pc}
      → is_outside (s.pc j) ≡ false
      → Move s.shared (s.pc j) m p
      → CanMove s

-- Where a goroutine stands, as an equation.
moves_at :
    {s : System} (j : ℕ) (q : Pc) {m : Shared} {p : Pc}
    → s.pc j ≡ q
    → is_outside q ≡ false
    → Move s.shared q m p
    → CanMove s
moves_at {s} j q {m} {p} e o mv =
    can_move j (rw e o) (subst (λ (x : Pc). Move s.shared x m p) (sym e) mv)

module _ {s : System} (v : Held s) where
  releasing_moves : (j : ℕ) (q : Pc) → s.pc j ≡ q → is_releasing q ≡ true → CanMove s
  releasing_moves j (releasing w) e h = moves_at j (releasing w) e refl release
  releasing_moves j _ e h = absurd (cc)

  entering_moves : (j : ℕ) (w : Bool) → s.pc j ≡ entering w → CanMove s
  entering_moves j w e = at s.shared.once refl
    where
      at : (o : Once) → s.shared.once ≡ o → CanMove s
      at fresh h = moves_at j (entering w) e refl (first h)
      at running h = let (k, r) = v.run_by_someone h in releasing_moves k (s.pc k) refl r
      at over h = moves_at j (entering w) e refl (again h)

  inside_moves : (j : ℕ) (q : Pc) → s.pc j ≡ q → is_inside q ≡ true → CanMove s
  inside_moves j asking e h = moves_at j asking e refl answered
  inside_moves j (entering w) e h = entering_moves j w e
  inside_moves j (releasing w) e h = moves_at j (releasing w) e refl release
  inside_moves j (unlocking known) e h = moves_at j (unlocking known) e refl unlock
  inside_moves j _ e h = absurd (cc)

  outside_or_moves : (j : ℕ) (q : Pc) → s.pc j ≡ q → is_outside q ≡ false → CanMove s
  outside_or_moves j locking e h = elim (Bool-cases s.shared.mu) [
    | inl held ↦ let (k, r) = v.by_someone held in inside_moves k (s.pc k) refl r
    | inr free ↦ moves_at j locking e refl (lock free)
  ]
  outside_or_moves j asking e h = moves_at j asking e refl answered
  outside_or_moves j (entering w) e h = entering_moves j w e
  outside_or_moves j (releasing w) e h = moves_at j (releasing w) e refl release
  outside_or_moves j (unlocking known) e h = moves_at j (unlocking known) e refl unlock
  outside_or_moves j _ e h = absurd (cc)

-- Calls of `Wait` and `Release` do not deadlock: in every state that is reached, if some goroutine is
-- within a call then one that is within a call can take its next step.
pub Reach-CanMove : {s : System} → Reach s → (i : ℕ) → is_outside (s.pc i) ≡ false → CanMove s
Reach-CanMove {s} r i h = outside_or_moves (Reach-Held r) i (s.pc i) refl h
