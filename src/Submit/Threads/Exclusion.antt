-- ===== src/Submit/Threads/Exclusion.antt =====
-- The release function runs at most once, and `Wait` asks for the status one call at a time.
use fabricsdk.Base.{
  ℕ, ◌≤◌, ◌≡◌, ◌⊎◌, refl, inl, inr, Bool, Bool-cases, true, false, ◌==◌, ◌&&◌, ==_iff, arith,
}
use fabricsdk.Goroutines.{update_unique, others_apart}
use fabricsdk.Submit.Threads.{
  Once, fresh, running, over, Shared, Pc, asking, entering, releasing, unlocking, returned, Move,
  call_wait, call_release, lock, answered, unanswered, first, again, release, unlock, System, Step,
  by, Reach, start, later,
}

abbrev pub is_releasing : Pc → Bool
is_releasing (releasing w) = true
is_releasing _ = false

-- A call has gone through `once.Do`.
abbrev pub is_through : Pc → Bool
is_through returned = true
is_through (unlocking known) = known
is_through _ = false

-- Between `Lock` and `Unlock`.
abbrev pub is_inside : Pc → Bool
is_inside asking = true
is_inside (entering w) = w
is_inside (releasing w) = w
is_inside (unlocking known) = true
is_inside _ = false

abbrev times : Once → ℕ
times over = 1
times _ = 0

-- What a goroutine and the shared fields say of each other.
record Fits (m : Shared) (p : Pc) : Type 0 where
  at_release : is_releasing p ≡ true → m.once ≡ running
  past_once : is_through p ≡ true → m.once ≡ over
  in_lock : is_inside p ≡ true → m.mu ≡ true

-- What a step does to the goroutine that takes it, and leaves to the others.
record Effect (m : Shared) (p : Pc) (m' : Shared) (p' : Pc) : Type 0 where
  counted : m.releases ≡ times m.once → m'.releases ≡ times m'.once
  own : Fits m' p'
  alone_at_release : is_releasing p' ≡ true → (is_releasing p ≡ true) ⊎ (m.once ≡ fresh)
  alone_inside : is_inside p' ≡ true → (is_inside p ≡ true) ⊎ (m.mu ≡ false)
  other :
      (q : Pc)
      → Fits m q
      → (is_releasing p ≡ true → is_releasing q ≡ false)
      → (is_inside p ≡ true → is_inside q ≡ false)
      → Fits m' q

Move-Effect : {m m' : Shared} {p p' : Pc} → Move m p m' p' → Fits m p → Effect m p m' p'
Move-Effect (call_wait o) f = ground arith
Move-Effect (call_release o) f = ground arith
Move-Effect (lock e) f = ground arith
Move-Effect answered f = ground arith
Move-Effect unanswered f = ground arith
Move-Effect (first e) f = ground arith
Move-Effect (again e) f = ground arith
Move-Effect release f = ground arith
Move-Effect unlock f = ground arith

record Inv (s : System) : Type 0 where
  counted : s.shared.releases ≡ times s.shared.once
  fits : (i : ℕ) → Fits s.shared (s.pc i)
  one_release : (i j : ℕ) → is_releasing (s.pc i) ≡ true → is_releasing (s.pc j) ≡ true → i ≡ j
  one_inside : (i j : ℕ) → is_inside (s.pc i) ≡ true → is_inside (s.pc j) ≡ true → i ≡ j

Step-Inv : {s t : System} → Step s t → Inv s → Inv t
Step-Inv {s} (by i {m} {p} mv) v =
    let x = Move-Effect mv (v.fits i) in
    record {
      counted = x.counted v.counted;
      fits = λ j. elim (Bool-cases (j == i)) [
        | inl e ↦ rw e x.own
        | inr n ↦ rw n (
            x.other (s.pc j) (v.fits j) (others_apart is_releasing s.pc i j v.one_release n)
              (others_apart is_inside s.pc i j v.one_inside n))
      ];
      one_release = update_unique is_releasing s.pc i p v.one_release (λ h.
          elim (x.alone_at_release h) [
            | inl r ↦ inl r
            | inr f ↦ inr (λ a. not_releasing (s.pc a) (v.fits a) f)
          ]);
      one_inside = update_unique is_inside s.pc i p v.one_inside (λ h. elim (x.alone_inside h) [
        | inl r ↦ inl r
        | inr f ↦ inr (λ a. not_inside (s.pc a) (v.fits a) f)
      ]);
    }
  where
    not_releasing : (q : Pc) → Fits s.shared q → s.shared.once ≡ fresh → is_releasing q ≡ false
    not_releasing q f e = ground (arith, f.at_release)

    not_inside : (q : Pc) → Fits s.shared q → s.shared.mu ≡ false → is_inside q ≡ false
    not_inside q f e = ground (arith, f.in_lock)

Reach-Inv : {s : System} → Reach s → Inv s
Reach-Inv start = record {
  counted = refl;
  fits = λ i. record {
    at_release = λ h. absurd (cc);
    past_once = λ h. absurd (cc);
    in_lock = λ h. absurd (cc);
  };
  one_release = λ i j h. absurd (cc);
  one_inside = λ i j h. absurd (cc);
}
Reach-Inv (later r st) = Step-Inv st (Reach-Inv r)

-- However the calls of `Wait` and `Release` interleave, the release function has run at most once, and
-- exactly once if a call has gone through `once.Do`.
pub Reach-once :
    {s : System}
    → Reach s
    → (i : ℕ) → (s.shared.releases ≤ 1) × ((is_through (s.pc i) ≡ false) ⊎ (s.shared.releases ≡ 1))
Reach-once {s} r i =
    let v = Reach-Inv r in
    (
      ground (arith, v.counted),
      elim (Bool-cases (is_through (s.pc i))) [
        | inl h ↦ inr (ground (arith, v.counted, (v.fits i).past_once h))
        | inr n ↦ inl n
      ],
    )

-- Of two goroutines at most one is between `Lock` and `Unlock` of `Wait`.
pub Reach-exclusive :
    {s : System}
    → Reach s
    → (i j : ℕ) → (i == j) ≡ false
    → (is_inside (s.pc i) && is_inside (s.pc j)) ≡ false
Reach-exclusive {s} r i j apart = elim (Bool-cases (is_inside (s.pc i) && is_inside (s.pc j))) [
  | inl y ↦
      let both : (is_inside (s.pc i) ≡ true) × (is_inside (s.pc j) ≡ true) = and_both y in
      absurd (cc ((==_iff i j).1 ((Reach-Inv r).one_inside i j both.0 both.1), apart))
  | inr n ↦ n
]
  where
    and_both : {x y : Bool} → (x && y) ≡ true → (x ≡ true) × (y ≡ true)
    and_both h = (ground arith, ground arith)
