-- ===== src/Submit/Threads.antt =====
-- contract.go: `Wait` and `Release` of one pending transaction from several goroutines, as interleaved
-- steps. The status that `Wait` asks for is the environment's choice; `sync.Mutex` and `sync.Once` are as
-- documented.
pub mod Exclusion
pub mod Progress
use fabricsdk.Base.{ℕ, ◌+◌, ◌≡◌, Bool, true, false}
use fabricsdk.Goroutines.{update}

-- `sync.Once`: nobody has called, the function runs, or it has run.
pub data Once : Type 0 where
  fresh running over : Once

-- The fields `mu` and `once`, and how often the release function has run.
pub record Shared : Type 0 where
  pub mu : Bool
  pub once : Once
  pub releases : ℕ

-- Where a goroutine stands: outside, before `Lock`, at the status call, before `once.Do` and in the
-- release function (of `Wait` or of `Release`), before `Unlock` (with the status known or not), and
-- after a call that has gone through `once.Do`.
pub data Pc : Type 0 where
  idle locking asking : Pc
  entering releasing : (in_wait : Bool) → Pc
  unlocking : (known : Bool) → Pc
  returned : Pc

abbrev pub after_once : Bool → Pc
after_once true = unlocking true
after_once false = returned

abbrev pub after_unlock : Bool → Pc
after_unlock true = returned
after_unlock false = idle

abbrev pub is_outside : Pc → Bool
is_outside idle = true
is_outside returned = true
is_outside _ = false

-- One step of one goroutine.
pub data Move (m : Shared) : Pc → Shared → Pc → Type 0 where
  call_wait : {p : Pc} → is_outside p ≡ true → Move m p m locking
  call_release : {p : Pc} → is_outside p ≡ true → Move m p m (entering false)
  lock : m.mu ≡ false → Move m locking (record m { mu = true }) asking
  answered : Move m asking m (entering true)
  unanswered : Move m asking m (unlocking false)
  first :
      {w : Bool} → m.once ≡ fresh → Move m (entering w) (record m { once = running }) (releasing w)
  again : {w : Bool} → m.once ≡ over → Move m (entering w) m (after_once w)
  release :
      {w : Bool}
      → Move m (releasing w) (record m { once = over; releases = m.releases + 1 }) (after_once w)
  unlock : {known : Bool} → Move m (unlocking known) (record m { mu = false }) (after_unlock known)

-- The pending transaction and its goroutines.
pub record System : Type 0 where
  pub shared : Shared
  pub pc : ℕ → Pc

pub data Step (s : System) : System → Type 0 where
  by :
      (i : ℕ) {m : Shared} {p : Pc}
      → Move s.shared (s.pc i) m p
      → Step s (record { shared = m; pc = update s.pc i p })

-- As `SubmitAsync` returns it.
abbrev pub pending : System
pending = record { shared = record { mu = false; once = fresh; releases = 0 }; pc = λ i. idle }

pub data Reach : System → Type 0 where
  start : Reach pending
  later : {s t : System} → Reach s → Step s t → Reach t
