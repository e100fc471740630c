-- ===== src/Identities/Threads/Racing.antt =====
-- What calls of `Identity.Close` at the same time can do.
use mathlib.Core.Path.{subst}
use fabricsdk.Base.{
  ℕ, zero, suc, ◌<◌, ◌≤◌, ◌≡◌, ◌≢◌, refl, sym, inl, inr, Bool, Bool-cases, true, false, ◌==◌,
  ==_iff, arith,
}
use fabricsdk.Goroutines.{update}
use fabricsdk.Identities.Threads.{
  Pc, idle, tested, read, cleared, returned, panicked, Move, test, fetch, clear, call, call_nil,
  System, by, Reach, loaded,
}

-- A state that is reached with these fields, in which the goroutine of a number is at a place.
record At (set : Bool) (calls : ℕ) (place : ℕ → Pc → Type 0) : Type 0 where
  state : System
  path : Reach state
  fields : state.shared ≡ record { set = set; calls = calls }
  places : (j : ℕ) → place j (state.pc j)

-- One goroutine takes a step, and the others stay.
step_from :
    {set set' : Bool} {calls calls' : ℕ} {place place' : ℕ → Pc → Type 0} (i : ℕ) (p p' : Pc)
    → (from : At set calls place) → (from.state.pc i ≡ p)
    → Move (record { set = set; calls = calls }) p (record { set = set'; calls = calls' }) p'
    → place' i p'
    → ((j : ℕ) → (j ≢ i) → (q : Pc) → place j q → place' j q)
    → At set' calls' place'
step_from {set} {set'} {calls} {calls'} {place} {place'} i p p' from e mv own others = record {
  state = record { shared = record { set = set'; calls = calls' }; pc = update from.state.pc i p' };
  path = Reach.later from.path (
      by i (
        subst (λ x. Move x (from.state.pc i) (record { set = set'; calls = calls' }) p')
          (sym from.fields)
          (subst
            (λ x.
              Move (record { set = set; calls = calls }) x (record { set = set'; calls = calls' })
                p')
            (sym e) mv)));
  fields = refl;
  places = λ j. elim (Bool-cases (j == i)) [
    | inl h ↦ rw h (subst (λ x. place' x p') (sym ((==_iff j i).0 h)) own)
    | inr h ↦ rw h (others j (λ e'. absurd (cc ((==_iff j i).1 e', h))) _ (from.places j))
  ];
}

-- The first `a` goroutines are at one place, those from there to `b` at another, and goroutine `b` at a
-- third.
abbrev Zones : ℕ → Pc → ℕ → Pc → Pc → ℕ → Pc → Type 0
Zones a x b y z j p = (j < a → p ≡ x) × (a ≤ j → j < b → p ≡ y) × (j ≡ b → p ≡ z)

abbrev FirstZone : ℕ → ℕ → Pc → Type 0
FirstZone a j p = (j < a → p ≡ tested) × (a ≤ j → p ≡ idle)

-- Any number of goroutines can pass the test before one of them reads the field.
all_tested : (a : ℕ) → At true 0 (FirstZone a)
all_tested zero = record {
  state = loaded;
  path = Reach.start;
  fields = refl;
  places = λ j. ((λ h. absurd (omega arith)), (λ h. refl));
}
all_tested (suc a) =
    let from = all_tested a in
    step_from a idle tested from ((from.places a).1 (omega arith)) (test refl refl)
      ((λ h. refl), (λ h. absurd (omega arith)))
      (λ j n q z. ((λ h. z.0 (omega (arith, n))), (λ h. z.1 (omega (arith, n)))))

-- The goroutine at the border of the first two zones moves to the first.
moved :
    {a b : ℕ} {x y z : Pc}
    → a < b
    → Zones (suc a) x b y z a x
      × ((j : ℕ) → (j ≢ a) → (q : Pc) → Zones a x b y z j q → Zones (suc a) x b y z j q)
moved l = (
  ((λ h. refl), (λ h k. absurd (omega arith)), (λ h. absurd (omega arith))),
  λ j n q t. ((λ h. t.0 (omega (arith, n))), (λ h k. t.1 (omega (arith, n)) k), t.2),
)

-- So each but one of them can read the function that is in it.
all_read : (b a : ℕ) → a ≤ b → At true 0 (Zones a (read true) b tested tested)
all_read b zero l =
    let from = all_tested (suc b) in
    record {
      state = from.state;
      path = from.path;
      fields = from.fields;
      places = λ j. (
        (λ h. absurd (omega arith)),
        (λ h k. (from.places j).0 (omega arith)),
        (λ h. (from.places j).0 (omega arith)),
      );
    }
all_read b (suc a) l =
    let from = all_read b a (omega arith) in
    let (own, others) =
      moved {a = a} {b = b} {x = read true} {y = tested} {z = tested} (omega arith) in
    step_from a tested (read true) from ((from.places a).1 (omega arith) (omega arith)) fetch own
      others

-- Nobody has called the function yet, or the field is clear.
abbrev is_zero : ℕ → Bool
is_zero zero = true
is_zero (suc n) = false

-- And each of those calls it.
all_called : (b a : ℕ) → a ≤ b → At (is_zero a) a (Zones a returned b (read true) tested)
all_called b zero l =
    let from = all_read b b (omega arith) in
    record {
      state = from.state;
      path = from.path;
      fields = from.fields;
      places = λ j. ((λ h. absurd (omega arith)), (λ h k. (from.places j).0 k), (from.places j).2);
    }
all_called b (suc a) l =
    let from = all_called b a (omega arith) in
    let middle =
      step_from {set' = false}
        {place' = λ j q.
          (j ≡ a → q ≡ cleared true) × ((j ≢ a) → Zones a returned b (read true) tested j q)}
        a (read true) (cleared true) from ((from.places a).1 (omega arith) (omega arith)) clear
        ((λ h. refl), (λ h. absurd (h refl))) (λ j n q z. ((λ e. absurd (n e)), (λ _. z))) in
    let (own, others) =
      moved {a = a} {b = b} {x = returned} {y = read true} {z = tested} (omega arith) in
    step_from {calls' = suc a} a (cleared true) returned middle ((middle.places a).0 refl) call own
      (λ j n q z. others j n q (z.1 n))

-- A step of which only the goroutine that takes it is remembered.
alone :
    {calls : ℕ} {place : ℕ → Pc → Type 0} (i : ℕ) (p p' : Pc) (from : At false calls place)
    → (from.state.pc i ≡ p)
    → Move (record { set = false; calls = calls }) p (record { set = false; calls = calls }) p'
    → At false calls (λ j q. j ≡ i → q ≡ p')
alone i p p' from e mv = step_from i p p' from e mv (λ h. refl) (λ j n q z h. absurd (n h))

-- Calls of `Close` at the same time can call the closing function of an identity any number of times,
-- and one more such call can panic: for every number of calls there is a run in which so many goroutines
-- have called the function and another has called nil.
pub Reach-raced :
    (n : ℕ) → (s : System) × Reach s × (s.shared.calls ≡ suc n) × (s.pc (suc n) ≡ panicked)
Reach-raced n =
    let b = suc n in
    let from = all_called b b (omega arith) in
    let one = alone b tested (read false) from ((from.places b).2 refl) fetch in
    let two = alone b (read false) (cleared false) one ((one.places b) refl) clear in
    let end = alone b (cleared false) panicked two ((two.places b) refl) call_nil in
    (end.state, end.path, cc (end.fields), end.places b refl)
