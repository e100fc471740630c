-- ===== src/Client/Threads/Closing.antt =====
-- What calls of `Close` at the same time close.
use fabricsdk.Base.{ℕ, ◌≤◌, ◌≡◌, ◌⊎◌, inl, inr, Bool, Bool-cases, true, false, ◌==◌, arith}
use fabricsdk.Goroutines.{update_unique, others_apart}
use fabricsdk.Submit.Threads.{fresh, running, over}
use fabricsdk.Client.Threads.{
  Owned, Shared, Pc, using, storing, closing_gateway, closing_connection, closing_identity, leaving,
  returned, Move, load, refuse, finish, call_close, first, again, store, close_gateway,
  close_connection, keep_connection, close_identity, keep_identity, leave, System, Step, by, Reach,
  start, later,
}

-- In the function behind `closeOnce`.
abbrev is_running : Pc → Bool
is_running storing = true
is_running closing_gateway = true
is_running closing_connection = true
is_running closing_identity = true
is_running leaving = true
is_running _ = false

abbrev pub is_returned : Pc → Bool
is_returned returned = true
is_returned _ = false

-- One for what is the client's own.
abbrev pub bit : Bool → ℕ
bit true = 1
bit false = 0

-- What has been closed when the function behind `closeOnce` stands at a statement.
abbrev At : Owned → Shared → Pc → Type 0
At o m storing = (m.gateways ≡ 0) × (m.connections ≡ 0) × (m.identities ≡ 0)
At o m closing_gateway =
    (m.is_closed ≡ true) × (m.gateways ≡ 0) × (m.connections ≡ 0) × (m.identities ≡ 0)
At o m closing_connection =
    (m.is_closed ≡ true) × (m.gateways ≡ 1) × (m.connections ≡ 0) × (m.identities ≡ 0)
At o m closing_identity =
    (m.is_closed ≡ true)
    × (m.gateways ≡ 1)
    × (m.connections ≡ bit o.connection)
    × (m.identities ≡ 0)
At o m leaving =
    (m.is_closed ≡ true)
    × (m.gateways ≡ 1)
    × (m.connections ≡ bit o.connection)
    × (m.identities ≡ bit o.identity)
At o m _ = Unit

-- Everything that is the client's own has been closed, once.
pub record AllClosed (o : Owned) (m : Shared) : Type 0 where
  pub is_closed : m.is_closed ≡ true
  pub gateways : m.gateways ≡ 1
  pub connections : m.connections ≡ bit o.connection
  pub identities : m.identities ≡ bit o.identity

-- Nothing has been closed twice, nor anything that is not the client's own.
pub record Bounded (o : Owned) (m : Shared) : Type 0 where
  pub gateways : m.gateways ≤ 1
  pub connections : m.connections ≤ bit o.connection
  pub identities : m.identities ≤ bit o.identity

record Whole (o : Owned) (m : Shared) : Type 0 where
  untouched : m.once ≡ fresh → (m.gateways ≡ 0) × (m.connections ≡ 0) × (m.identities ≡ 0)
  bounded : Bounded o m
  closed : m.once ≡ over → AllClosed o m

-- What a goroutine and the shared fields say of each other.
record Fits (o : Owned) (m : Shared) (p : Pc) : Type 0 where
  running : is_running p ≡ true → m.once ≡ running
  past : is_returned p ≡ true → m.once ≡ over
  at_statement : At o m p

record Effect (o : Owned) (m : Shared) (p : Pc) (m' : Shared) (p' : Pc) : Type 0 where
  whole : Whole o m'
  own : Fits o m' p'
  alone : is_running p' ≡ true → (is_running p ≡ true) ⊎ (m.once ≡ fresh)
  other : (q : Pc) → Fits o m q → (is_running p ≡ true → is_running q ≡ false) → Fits o m' q

Move-Effect :
    {o : Owned} {m m' : Shared} {p p' : Pc}
    → Move o m p m' p'
    → Whole o m
    → Fits o m p
    → Effect o m p m' p'
Move-Effect (load out e) w f = ground arith
Move-Effect (refuse out e) w f = ground arith
Move-Effect finish w f = ground arith
Move-Effect (call_close out) w f = ground arith
Move-Effect (first e) w f = ground arith
Move-Effect (again e) w f = ground arith
Move-Effect store w f = ground arith
Move-Effect close_gateway w f = ground arith
Move-Effect (close_connection e) w f = ground arith
Move-Effect (keep_connection e) w f = ground arith
Move-Effect (close_identity e) w f = ground arith
Move-Effect (keep_identity e) w f = ground arith
Move-Effect leave w f = ground arith

record Inv (o : Owned) (s : System) : Type 0 where
  whole : Whole o s.shared
  fits : (i : ℕ) → Fits o s.shared (s.pc i)
  one : (i j : ℕ) → is_running (s.pc i) ≡ true → is_running (s.pc j) ≡ true → i ≡ j

Step-Inv : {o : Owned} {s t : System} → Step o s t → Inv o s → Inv o t
Step-Inv {o} {s} (by i {m} {p} mv) v =
    let x = Move-Effect mv v.whole (v.fits i) in
    record {
      whole = x.whole;
      fits = λ j. elim (Bool-cases (j == i)) [
        | inl e ↦ rw e x.own
        | inr n ↦ rw n (x.other (s.pc j) (v.fits j) (others_apart is_running s.pc i j v.one n))
      ];
      one = update_unique is_running s.pc i p v.one (λ h. elim (x.alone h) [
        | inl r ↦ inl r
        | inr f ↦ inr (λ a. unstarted (s.pc a) f (v.fits a))
      ]);
    }
  where
    unstarted : (q : Pc) → s.shared.once ≡ fresh → Fits o s.shared q → is_running q ≡ false
    unstarted q e f = ground (arith, f.running)

Reach-Inv : {o : Owned} {s : System} → Reach o s → Inv o s
Reach-Inv start = record {
  whole = ground arith;
  fits = λ i. record { running = λ h. absurd (cc); past = λ h. absurd (cc); at_statement = tt };
  one = λ i j h. absurd (cc);
}
Reach-Inv (later r st) = Step-Inv st (Reach-Inv r)

-- However calls of `Close` and calls that use the client interleave, the client closes its gateway, its
-- connection and its identity at most once, and none that is not its own; once any call of `Close` has
-- returned, each of those that are its own has been closed exactly once, and the client hands out its
-- gateway no more.
pub Reach-closing :
    {o : Owned} {s : System}
    → Reach o s
    → (i j : ℕ) (m : Shared)
    → Bounded o s.shared
      × ((is_returned (s.pc i) ≡ false)
          ⊎ (AllClosed o s.shared × (¬ Move o s.shared (s.pc j) m using)))
Reach-closing {o} {s} r i j m =
    let v = Reach-Inv r in
    (
      v.whole.bounded,
      elim (Bool-cases (is_returned (s.pc i))) [
        | inl h ↦ let c = v.whole.closed ((v.fits i).past h) in inr (c, no_gateway (s.pc j) m c)
        | inr n ↦ inl n
      ],
    )
  where
    no_gateway : (p : Pc) (m : Shared) → AllClosed o s.shared → ¬ Move o s.shared p m using
    no_gateway p m c (load out e) = absurd (cc (e, c.is_closed))
