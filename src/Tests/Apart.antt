-- ===== src/Tests/Apart.antt =====
-- An identity that is closed by one goroutine after another.
use fabricsdk.Base.{◌⊎◌, ℕ, ◌≤◌, ◌≡◌, ◌≢◌, refl, Bool-cases, inl, inr, true, false, ◌==◌, ==_iff}
use fabricsdk.Goroutines.{update}
use fabricsdk.Identities.Threads.{
  Pc, idle, tested, read, cleared, returned, is_outside, nothing_held, test, fetch, clear, call,
  System, Serial, start, later,
}
use fabricsdk.Identities.Threads.Apart.{is_returned, is_panicked, Serial-once}

-- The others are outside if they were and one goroutine took a step.
still_outside :
    (pc : ℕ → Pc) (i : ℕ) (p : Pc)
    → ((j : ℕ) → (j ≢ i) → is_outside (pc j) ≡ true)
    → (j : ℕ) → (j ≢ i)
    → is_outside (update pc i p j) ≡ true
still_outside pc i p h j n = elim (Bool-cases (j == i)) [
  | inl e ↦ absurd (n ((==_iff j i).0 e))
  | inr e ↦ rw e (h j n)
]

-- So is everybody if the one is outside again.
all_outside :
    (pc : ℕ → Pc) (i : ℕ) (p : Pc)
    → ((j : ℕ) → (j ≢ i) → is_outside (pc j) ≡ true)
    → is_outside p ≡ true
    → (j : ℕ) → is_outside (update pc i p j) ≡ true
all_outside pc i p h o j = elim (Bool-cases (j == i)) [
  | inl e ↦ rw e o
  | inr e ↦ rw e (h j (λ q. absurd (cc ((==_iff j i).1 q, e))))
]

-- The goroutines while the first of them closes the identity.
abbrev after_test : ℕ → Pc
after_test = update (λ i. idle) 0 tested

abbrev after_read : ℕ → Pc
after_read = update after_test 0 (read true)

abbrev after_clear : ℕ → Pc
after_clear = update after_read 0 (cleared true)

abbrev after_call : ℕ → Pc
after_call = update after_clear 0 returned

tested_outside : (j : ℕ) → (j ≢ 0) → is_outside (after_test j) ≡ true
tested_outside = still_outside (λ i. idle) 0 tested (λ j n. refl)

read_outside : (j : ℕ) → (j ≢ 0) → is_outside (after_read j) ≡ true
read_outside = still_outside after_test 0 (read true) tested_outside

cleared_outside : (j : ℕ) → (j ≢ 0) → is_outside (after_clear j) ≡ true
cleared_outside = still_outside after_read 0 (cleared true) read_outside

-- Goroutine 0 has closed the identity, and then goroutine 1 has found nothing to close.
abbrev closed : System
closed = record { shared = record { set = false; calls = 1 }; pc = update after_call 1 returned }

closed_run : Serial closed
closed_run =
    later 1
      (later 0
        (later 0 (later 0 (later 0 start (λ j n. refl) (test refl refl)) tested_outside fetch)
          read_outside clear)
        cleared_outside call)
      (λ j n. all_outside after_clear 0 returned cleared_outside refl j) (nothing_held refl refl)

Serial-once_example :
    (closed.shared.calls ≤ 1)
    × (is_panicked (closed.pc 0) ≡ false)
    × ((is_returned (closed.pc 0) ≡ false) ⊎ (closed.shared.calls ≡ 1))
Serial-once_example = Serial-once closed_run 0
