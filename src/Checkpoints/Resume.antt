-- ===== src/Checkpoints/Resume.antt =====
-- Where a listener resumes: the events that follow a position in the ledger.
use mathlib.Core.Path.{subst}
use fabricsdk.Base.{
  ℕ, ◌≡◌, refl, sym, ap, ◌∙◌, Bool, Bool-cases, inl, inr, true, false, ◌&&◌, Option, none, some,
  List, [], ◌∷◌, ◌++◌, Text, text_eq, text_eq_iff, is_empty, leb, ◌==◌, ==_iff, if◌then◌else◌,
  if_intro, All, arith,
}
use fabricsdk.GoError.{GoError}
use fabricsdk.Events.{ChaincodeEvent}
use fabricsdk.Checkpoints.{InMemory, InMemoryLaws, memory_checkpointer, checkpoint_event}

-- The event of transaction `tx` in block `b`.
abbrev pub is_at : ℕ → Text → ChaincodeEvent → Bool
is_at b tx e = (e.block_number == b) && text_eq e.tx_id tx

-- What follows that event, and nothing if it is not there.
pub after_event : ℕ → Text → List ChaincodeEvent → List ChaincodeEvent
after_event b tx [] = []
after_event b tx (e ∷ es) = let rest = after_event b tx es in if is_at b tx e then es else rest

-- The events from block `b` on, of events in the order of their blocks.
pub from_block_on : ℕ → List ChaincodeEvent → List ChaincodeEvent
from_block_on b [] = []
from_block_on b (e ∷ es) =
    let rest = from_block_on b es in if leb b e.block_number then e ∷ es else rest

-- What is still to come at a position: with a transaction the events after it, without one those from
-- the block on.
pub after_position : List ChaincodeEvent → ℕ → Text → List ChaincodeEvent
unfolding after_event from_block_on
after_position ledger b [] = from_block_on b ledger
after_position ledger b (c ∷ tx) = after_event b (c ∷ tx) ledger

-- No event has the block and the transaction of a later one, and each transaction has an ID.
unfoldable pub IsLedger : List ChaincodeEvent → Type 0
IsLedger [] = Unit
IsLedger (e ∷ es) =
    (is_empty e.tx_id ≡ false)
    × All (λ (x : ChaincodeEvent). is_at x.block_number x.tx_id e ≡ false) es
    × IsLedger es

is_at_refl : (e : ChaincodeEvent) → is_at e.block_number e.tx_id e ≡ true
is_at_refl e =
    ground
      (arith, (==_iff e.block_number e.block_number).1 refl, (text_eq_iff e.tx_id e.tx_id).1 refl)

All-suffix :
    {A : Type 0} (P : A → Type 0) (pre : List A) (a : A) (post : List A)
    → All P (pre ++ (a ∷ post))
    → P a
All-suffix P [] a post h = h.0
All-suffix P (x ∷ pre) a post h = All-suffix P pre a post h.1

after_event-here :
    (pre : List ChaincodeEvent) (a : ChaincodeEvent) (post : List ChaincodeEvent)
    → IsLedger (pre ++ (a ∷ post))
    → after_event a.block_number a.tx_id (pre ++ (a ∷ post)) ≡ post
unfolding after_event IsLedger
after_event-here [] a post h = rw (is_at_refl a) refl
after_event-here (e ∷ pre) a post (n, d, h) =
    rw (All-suffix (λ (x : ChaincodeEvent). is_at x.block_number x.tx_id e ≡ false) pre a post d)
      (after_event-here pre a post h)

named :
    (pre : List ChaincodeEvent) (a : ChaincodeEvent) (post : List ChaincodeEvent)
    → IsLedger (pre ++ (a ∷ post))
    → is_empty a.tx_id ≡ false
unfolding IsLedger
named [] a post h = h.0
named (e ∷ pre) a post h = named pre a post h.2

-- The events that follow a position are the last ones of the ledger.
after_event-suffix :
    (b : ℕ) (tx : Text) (l : List ChaincodeEvent)
    → (pre : List ChaincodeEvent) × (l ≡ pre ++ after_event b tx l)
unfolding after_event
after_event-suffix b tx [] = ([], refl)
after_event-suffix b tx (e ∷ es) = elim (Bool-cases (is_at b tx e)) [
  | inl y ↦ (e ∷ [], rw y refl)
  | inr n ↦
      let (pre, h) = after_event-suffix b tx es in
      (e ∷ pre, rw n (ap (λ (x : List ChaincodeEvent). e ∷ x) h))
]

from_block_on-suffix :
    (b : ℕ) (l : List ChaincodeEvent) → (pre : List ChaincodeEvent) × (l ≡ pre ++ from_block_on b l)
unfolding from_block_on
from_block_on-suffix b [] = ([], refl)
from_block_on-suffix b (e ∷ es) = elim (Bool-cases (leb b e.block_number)) [
  | inl y ↦ ([], rw y refl)
  | inr n ↦
      let (pre, h) = from_block_on-suffix b es in
      (e ∷ pre, rw n (ap (λ (x : List ChaincodeEvent). e ∷ x) h))
]

after_position-suffix :
    (l : List ChaincodeEvent) (b : ℕ) (tx : Text)
    → (pre : List ChaincodeEvent) × (l ≡ pre ++ after_position l b tx)
unfolding after_position
after_position-suffix l b [] = from_block_on-suffix b l
after_position-suffix l b (c ∷ tx) = after_event-suffix b (c ∷ tx) l

after_position-event :
    (l : List ChaincodeEvent) (b : ℕ) (tx : Text)
    → is_empty tx ≡ false
    → after_position l b tx ≡ after_event b tx l
unfolding after_position
after_position-event l b [] h = absurd (cc)
after_position-event l b (c ∷ tx) h = refl

module _ {K : Type 0} (m : InMemory K) (laws : InMemoryLaws m) (ledger : List ChaincodeEvent) where
  -- The events that a subscription brings at the position of a checkpointer: those from block `first` on
  -- at the zero position, which the gateway library takes for none, and else those that follow it.
  abbrev pub rest_at : ℕ → K → List ChaincodeEvent
  rest_at first k =
      if is_empty (m.transaction_id k) && (m.block_number k == 0)
      then from_block_on first ledger
      else after_position ledger (m.block_number k) (m.transaction_id k)

  rest_at-suffix :
      (first : ℕ) (k : K) → (pre : List ChaincodeEvent) × (ledger ≡ pre ++ rest_at first k)
  rest_at-suffix first k =
      if_intro (λ (x : List ChaincodeEvent). (pre : List ChaincodeEvent) × (ledger ≡ pre ++ x))
        (is_empty (m.transaction_id k) && (m.block_number k == 0))
        (from_block_on-suffix first ledger)
        (after_position-suffix ledger (m.block_number k) (m.transaction_id k))

  rest_at-checkpoint_transaction :
      (first : ℕ) (a : ChaincodeEvent) (k : K)
      → is_empty a.tx_id ≡ false
      → rest_at first (m.checkpoint_transaction a.block_number a.tx_id k)
        ≡ after_event a.block_number a.tx_id ledger
  rest_at-checkpoint_transaction first a k n =
      rw (laws.block_number-checkpoint_transaction a.block_number a.tx_id k) (
        rw (laws.transaction_id-checkpoint_transaction a.block_number a.tx_id k)
          (rw n (after_position-event ledger a.block_number a.tx_id n)))

  -- Recording the next event moves the position behind it.
  pub rest_at-records :
      (first : ℕ)
      → IsLedger ledger
      → (a : ChaincodeEvent) (as' : List ChaincodeEvent) (k k' : K) → rest_at first k ≡ a ∷ as'
      → checkpoint_event (memory_checkpointer m) a k ≡ (none, k')
      → rest_at first k' ≡ as'
  rest_at-records first sound a as' k k' e c =
      let (pre, h) = rest_at-suffix first k in
      let split : ledger ≡ pre ++ (a ∷ as') = h ∙ ap (λ (x : List ChaincodeEvent). pre ++ x) e in
      let sound' = subst IsLedger split sound in
      ap (rest_at first) (sym (ap (λ (x : Option GoError × K). x.1) c))
      ∙ rest_at-checkpoint_transaction first a k (named pre a as' sound')
      ∙ ap (after_event a.block_number a.tx_id) split
      ∙ after_event-here pre a as' sound'

  -- Recording in memory does not fail.
  pub rest_at-keeps :
      (first : ℕ) (a : ChaincodeEvent) (k k' : K) (e : GoError)
      → checkpoint_event (memory_checkpointer m) a k ≡ (some e, k')
      → rest_at first k' ≡ rest_at first k
  rest_at-keeps first a k k' e h =
      let p : none ≡ some e = ap (λ (x : Option GoError × K). x.0) h in absurd (cc)
