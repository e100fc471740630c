-- ===== src/Listen/Rounds/Order.antt =====
-- What the listeners deliver in a world, with the checkpointer in memory.
use fabricsdk.Base.{◌≡◌, ℕ, Option, none, some, List, ◌++◌}
use fabricsdk.GoError.{GoError}
use fabricsdk.Libs.{Libs}
use fabricsdk.World.{StreamOption, World}
use fabricsdk.Contract.{Contract}
use fabricsdk.Listen.Rounds.{Round}

-- Opened with these options, each stream of a round brings items that follow the position, in order;
-- nothing is said of a stream that is opened with others.
abbrev pub Brings : {A K N : Type 0} → List StreamOption → (K → List A) → Round A K N → Type 0
Brings {A} {K} {N} asked rest r =
    (k : K) (n : N) → (after : List A) × (rest k ≡ (r.stream asked k n).0 ++ after)

-- The first block of a subscription without a position: the start block, if the options have one, and
-- else the block that the gateway library starts with by itself.
abbrev pub first_block : Option ℕ → ℕ → ℕ
first_block (some n) first = n
first_block none first = first
