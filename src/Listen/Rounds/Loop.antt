-- ===== src/Listen/Rounds/Loop.antt =====
-- A loop of rounds of which each is a turn runs as the loop of these turns.
use fabricsdk.Base.{◌≡◌, ◌⊎◌, refl, sym, Option, List, [], ◌∷◌, ◌∙◌}
use fabricsdk.GoError.{GoError}
use fabricsdk.World.{StreamOption}
use fabricsdk.Listen.{
  Session, refused, streamed, Turn, Listener, Verdict, stop, again, Outcome, returned, listen,
}
use fabricsdk.Listen.Rounds.{Round, loop_rounds}

module _ {A K N : Type 0} (asked : List StreamOption) where
  -- The session of a turn is one of the round: refused, or items that its stream brings on these options.
  abbrev pub OfRound : Round A K N → (K → Session A) → Type 0
  OfRound r session =
      ((e : GoError) × ((k : K) → session k ≡ refused e))
      ⊎ ((n : N) × (x : K → Option GoError) × ((k : K)
            → session k ≡ streamed (r.stream asked k n).0 (x k)))

  -- A turn that a round can come to.
  pub record Induced (r : Round A K N) (t : Turn A K) : Type 0 where
    pub ended : t.ended ≡ r.ended
    pub slept : t.slept ≡ r.slept
    pub session : OfRound r t.session

  abbrev pub AllInduced : List (Round A K N) → List (Turn A K) → Type 0
  AllInduced [] [] = Unit
  AllInduced (r ∷ rs) (t ∷ ts) = Induced r t × AllInduced rs ts
  AllInduced _ _ = ⊥

-- Listeners with the same outcome.
abbrev pub Alike :
    {A H K W : Type 0} → Outcome × Listener A H K → Outcome × Listener A H K × W → Type 0
Alike (v, s) (v', s', w) = (v ≡ v') × (s ≡ s')

-- A function of a pair at equal pairs.
pub at_pair :
    {A B C : Type 0} (f : A × B → C) {a a' : A} {b b' : B} → a ≡ a' → b ≡ b' → f (a', b') ≡ f (a, b)
at_pair f p q = rw p (rw q refl)

-- Each round is a turn, as far as the verdict and the listener go.
abbrev pub Follows :
    {A H K N W : Type 0}
    → List StreamOption
    → (Round A K N → Listener A H K → W → Verdict × Listener A H K × W)
    → (Turn A K → Listener A H K → Verdict × Listener A H K)
    → Type 0
Follows {A} {H} {K} {N} {W} asked round turn =
    (r : Round A K N) (s : Listener A H K) (w : W)
    → (t : Turn A K) × Induced asked r t
      × ((turn t s).0 ≡ (round r s w).0)
      × ((turn t s).1 ≡ (round r s w).1)

module _ {A H K N W : Type 0} (asked : List StreamOption)
    (round : Round A K N → Listener A H K → W → Verdict × Listener A H K × W)
    (turn : Turn A K → Listener A H K → Verdict × Listener A H K)
    (follows : Follows asked round turn) where
  chosen :
      (v : Verdict) (s : Listener A H K) (w : W) (next : Outcome × Listener A H K)
      (next' : Outcome × Listener A H K × W)
      → next.0 ≡ next'.0
      → next.1 ≡ next'.1
      → ((elim v as (λ _. Outcome × Listener A H K) [ stop x ↦ (returned x, s) | again ↦ next ]).0
          ≡ (elim v as (λ _. Outcome × Listener A H K × W) [
            | stop x ↦ (returned x, s, w)
            | again ↦ next'
          ]).0)
        × ((elim v as (λ _. Outcome × Listener A H K) [ stop x ↦ (returned x, s) | again ↦ next ]).1
            ≡ (elim v as (λ _. Outcome × Listener A H K × W) [
              | stop x ↦ (returned x, s, w)
              | again ↦ next'
            ]).1)
  chosen (stop x) s w next next' p q = (refl, refl)
  chosen again s w next next' p q = (p, q)

  -- `listen` after its first turn.
  abbrev after_turn : List (Turn A K) → Verdict × Listener A H K → Outcome × Listener A H K
  after_turn ts (v, s) = elim v as (λ _. Outcome × Listener A H K) [
    | stop x ↦ (returned x, s)
    | again ↦ listen turn ts s
  ]

  -- The run of the turns is that of the rounds.
  pub loop_rounds-Alike :
      (rs : List (Round A K N)) (s : Listener A H K) (w : W)
      → (ts : List (Turn A K)) × AllInduced asked rs ts
        × Alike (listen turn ts s) (loop_rounds round rs s w)
  unfolding loop_rounds listen
  loop_rounds-Alike [] s w = ([], tt, (refl, refl))
  loop_rounds-Alike (r ∷ rs) s w =
      let (t, i, v, q) = follows r s w in
      let (ts, is, (p, e)) = loop_rounds-Alike rs (round r s w).1 (round r s w).2 in
      let (a, b) = chosen (round r s w).0 (round r s w).1 (round r s w).2 _ _ p e in
      (
        t ∷ ts,
        (i, is),
        (
          at_pair (λ y. (after_turn ts y).0) (sym v) (sym q) ∙ a,
          at_pair (λ y. (after_turn ts y).1) (sym v) (sym q) ∙ b,
        ),
      )
