-- ===== src/Checkpoints/Blocks.antt =====
-- Where `ListenBlocks` resumes: the blocks from the number of the checkpointer on.
use mathlib.Core.Path.{subst}
use fabricsdk.Base.{
  ℕ, ◌+◌, ◌≡◌, refl, sym, ap, ◌∙◌, Bool-cases, inl, inr, true, false, Option, none, some, List, [],
  ◌∷◌, ◌++◌, leb, ◌==◌, ◌&&◌, is_empty, if_intro, if_cases, if◌then◌else◌, All, arith,
}
use fabricsdk.GoError.{GoError}
use fabricsdk.Checkpoints.{InMemory, InMemoryLaws, memory_checkpointer, Block, checkpoint_next}

-- The blocks from a number on, of blocks in their order.
pub from_number : ℕ → List Block → List Block
from_number n [] = []
from_number n (b ∷ bs) = let rest = from_number n bs in if leb n b.number then b ∷ bs else rest

-- The numbers of the blocks ascend.
unfoldable pub IsChain : List Block → Type 0
IsChain [] = Unit
IsChain (b ∷ bs) = All (λ (x : Block). leb (b.number + 1) x.number ≡ true) bs × IsChain bs

from_number-suffix : (n : ℕ) (l : List Block) → (pre : List Block) × (l ≡ pre ++ from_number n l)
unfolding from_number
from_number-suffix n [] = ([], refl)
from_number-suffix n (b ∷ bs) = elim (Bool-cases (leb n b.number)) [
  | inl y ↦ ([], rw y refl)
  | inr f ↦
      let (pre, h) = from_number-suffix n bs in (b ∷ pre, rw f (ap (λ (x : List Block). b ∷ x) h))
]

leb_self : (n : ℕ) → leb (n + 1) n ≡ false
leb_self n = ground arith

leb_below : (a e : ℕ) → leb (e + 1) a ≡ true → leb (a + 1) e ≡ false
leb_below a e h = ground arith

from_number-All :
    (n : ℕ) (bs : List Block)
    → All (λ (x : Block). leb n x.number ≡ true) bs
    → from_number n bs ≡ bs
unfolding from_number
from_number-All n [] h = refl
from_number-All n (b ∷ bs) h = rw h.0 refl

above :
    (e : Block) (pre : List Block) (a : Block) (post : List Block)
    → All (λ (x : Block). leb (e.number + 1) x.number ≡ true) (pre ++ (a ∷ post))
    → leb (e.number + 1) a.number ≡ true
above e [] a post h = h.0
above e (x ∷ pre) a post h = above e pre a post h.1

from_number-next :
    (pre : List Block) (a : Block) (post : List Block)
    → IsChain (pre ++ (a ∷ post))
    → from_number (a.number + 1) (pre ++ (a ∷ post)) ≡ post
unfolding from_number IsChain
from_number-next [] a post (h, c) = rw (leb_self a.number) (from_number-All (a.number + 1) post h)
from_number-next (e ∷ pre) a post (h, c) =
    rw (leb_below a.number e.number (above e pre a post h)) (from_number-next pre a post c)

module _ {K : Type 0} (m : InMemory K) (laws : InMemoryLaws m) (chain : List Block) where
  -- The blocks that a subscription brings at the position of a checkpointer: those from block `first` on
  -- at the zero position, which the gateway library takes for none, and else those from its number on.
  abbrev pub blocks_at : ℕ → K → List Block
  blocks_at first k =
      if is_empty (m.transaction_id k) && (m.block_number k == 0)
      then from_number first chain
      else from_number (m.block_number k) chain

  blocks_at-suffix : (first : ℕ) (k : K) → (pre : List Block) × (chain ≡ pre ++ blocks_at first k)
  blocks_at-suffix first k =
      if_intro (λ (x : List Block). (pre : List Block) × (chain ≡ pre ++ x))
        (is_empty (m.transaction_id k) && (m.block_number k == 0)) (from_number-suffix first chain)
        (from_number-suffix (m.block_number k) chain)

  blocks_at-checkpoint_block :
      (first n : ℕ) (k : K) → blocks_at first (m.checkpoint_block n k) ≡ from_number (n + 1) chain
  blocks_at-checkpoint_block first n k = rw (laws.block_number-checkpoint_block n k) (
      if_cases (λ (x : List Block). x ≡ from_number (n + 1) chain)
        (is_empty (m.transaction_id (m.checkpoint_block n k)) && ((n + 1) == 0))
        (λ y. absurd (ground arith)) (λ y. refl))

  -- Recording the next block moves the position behind it.
  pub blocks_at-records :
      (first : ℕ)
      → IsChain chain
      → (a : Block) (as' : List Block) (k k' : K) → blocks_at first k ≡ a ∷ as'
      → checkpoint_next (memory_checkpointer m) a k ≡ (none, k')
      → blocks_at first k' ≡ as'
  blocks_at-records first sound a as' k k' e c =
      let (pre, h) = blocks_at-suffix first k in
      let split : chain ≡ pre ++ (a ∷ as') = h ∙ ap (λ (x : List Block). pre ++ x) e in
      ap (blocks_at first) (sym (ap (λ (x : Option GoError × K). x.1) c))
      ∙ blocks_at-checkpoint_block first a.number k
      ∙ ap (from_number (a.number + 1)) split
      ∙ from_number-next pre a as' (subst IsChain split sound)

  -- Recording in memory does not fail.
  pub blocks_at-keeps :
      (first : ℕ) (a : Block) (k k' : K) (e : GoError)
      → checkpoint_next (memory_checkpointer m) a k ≡ (some e, k')
      → blocks_at first k' ≡ blocks_at first k
  blocks_at-keeps first a k k' e h =
      let p : none ≡ some e = ap (λ (x : Option GoError × K). x.0) h in absurd (cc)
