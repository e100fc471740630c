-- ===== src/Identities/Threads.antt =====
-- identity.go: `Identity.Close` from several goroutines, as interleaved steps. Its reads and its write of
-- the field `close` have no lock around them, so that another goroutine can step between any two.
pub mod Racing
pub mod Apart
use fabricsdk.Base.{ℕ, suc, ◌≡◌, ◌≢◌, Bool, true, false}
use fabricsdk.Goroutines.{update}

-- Whether the field `close` has a function still, and how often that function was called.
pub record Shared : Type 0 where
  pub set : Bool
  pub calls : ℕ

-- Where a goroutine stands: outside, after the test of the field, after the read and after the write,
-- each with whether it read a function, after the call, and in a panic.
pub data Pc : Type 0 where
  idle tested : Pc
  read cleared : (got : Bool) → Pc
  returned panicked : Pc

abbrev pub is_outside : Pc → Bool
is_outside idle = true
is_outside returned = true
is_outside _ = false

-- One step of one goroutine; a call of a nil function is a panic.
pub data Move (m : Shared) : Pc → Shared → Pc → Type 0 where
  nothing_held : {p : Pc} → is_outside p ≡ true → m.set ≡ false → Move m p m returned
  test : {p : Pc} → is_outside p ≡ true → m.set ≡ true → Move m p m tested
  fetch : Move m tested m (read m.set)
  clear : {got : Bool} → Move m (read got) (record m { set = false }) (cleared got)
  call : Move m (cleared true) (record m { calls = suc m.calls }) returned
  call_nil : Move m (cleared false) m panicked

-- An identity and the goroutines that close it.
pub record System : Type 0 where
  pub shared : Shared
  pub pc : ℕ → Pc

pub data Step (s : System) : System → Type 0 where
  by :
      (i : ℕ) {m : Shared} {p : Pc}
      → Move s.shared (s.pc i) m p
      → Step s (record { shared = m; pc = update s.pc i p })

-- An identity that holds a session.
abbrev pub loaded : System
loaded = record { shared = record { set = true; calls = 0 }; pc = λ i. idle }

pub data Reach : System → Type 0 where
  start : Reach loaded
  later : {s t : System} → Reach s → Step s t → Reach t

-- Runs in which a goroutine takes a step only while no other is in a call of `Close`.
pub data Serial : System → Type 0 where
  start : Serial loaded
  later :
      {s : System} (i : ℕ) {m : Shared} {p : Pc}
      → Serial s
      → ((j : ℕ) → (j ≢ i) → is_outside (s.pc j) ≡ true)
      → Move s.shared (s.pc i) m p
      → Serial (record { shared = m; pc = update s.pc i p })
