-- ===== src/Listen/Rounds/Delays.antt =====
-- The lines of a trace about streams that ended.
use fabricsdk.Listen.{Listener, Verdict, stop, again, Outcome, returned}
use fabricsdk.Listen.Rounds.{Round, loop_rounds}
use fabricsdk.Base.{ℤ, ◌≡◌, sym, ap, ◌∙◌, List, [], ◌∷◌, ◌++◌, append-nil, append_assoc}
use fabricsdk.World.{Event, opened, closed, stream_ended, World}
use fabricsdk.Contract.Kept.{Steady}

abbrev delay_of : Event → List ℤ
delay_of (stream_ended c n d) = d ∷ []
delay_of _ = []

-- The delays of the lines about streams that ended.
unfoldable pub delays_in : List Event → List ℤ
delays_in [] = []
delays_in (e ∷ es) = delay_of e ++ delays_in es

pub delays_in-concat :
    (t : List Event) (e : Event) → delays_in (t ++ (e ∷ [])) ≡ delays_in t ++ delay_of e
unfolding delays_in
delays_in-concat [] e = append-nil (delay_of e)
delays_in-concat (x ∷ t) e =
    ap (λ (y : List ℤ). delay_of x ++ y) (delays_in-concat t e)
    ∙ sym (append_assoc (delay_of x) (delays_in t) (delay_of e))

-- The log tells of sleeps of these delays.
abbrev pub Tells : {N : Type 0} → List ℤ → World N → Type 0
Tells ds w = delays_in w.trace ≡ ds

pub Tells-Steady : {N : Type 0} (ds : List ℤ) → Steady (Tells {N = N} ds)
Tells-Steady ds = record {
  net = λ w n h. h;
  opens = λ w g h. delays_in-concat w.trace (opened g) ∙ append-nil (delays_in w.trace) ∙ h;
  closes = λ w g h. delays_in-concat w.trace (closed g) ∙ append-nil (delays_in w.trace) ∙ h;
}

-- A loop tells of its sleeps if its rounds do.
pub loop_rounds-Tells :
    {A H K N W : Type 0} (at : W → World N) (ds : List ℤ)
    (round : Round A K N → Listener A H K → W → Verdict × Listener A H K × W)
    → ((r : Round A K N) (s : Listener A H K) (w : W)
        → Tells (ds ++ s.sleeps) (at w)
        → Tells (ds ++ (round r s w).1.sleeps) (at (round r s w).2))
    → (rs : List (Round A K N)) (s : Listener A H K) (w : W) → Tells (ds ++ s.sleeps) (at w)
    → Tells (ds ++ (loop_rounds round rs s w).1.sleeps) (at (loop_rounds round rs s w).2)
unfolding loop_rounds
loop_rounds-Tells at ds round keep [] s w h = h
loop_rounds-Tells at ds round keep (r ∷ rs) s w h =
    verdict at ds (round r s w) _ (keep r s w h)
      (loop_rounds-Tells at ds round keep rs (round r s w).1 (round r s w).2 (keep r s w h))
  where
    verdict :
        {A H K N W : Type 0} (at : W → World N) (ds : List ℤ) (x : Verdict × Listener A H K × W)
        (next : Outcome × Listener A H K × W)
        → Tells (ds ++ x.1.sleeps) (at x.2)
        → Tells (ds ++ next.1.sleeps) (at next.2)
        → let y = elim x.0 as (λ _. Outcome × Listener A H K × W) [
          | stop e ↦ (returned e, x.1, x.2)
          | again ↦ next
        ] in
          Tells (ds ++ y.1.sleeps) (at y.2)
    verdict at ds (stop e, s, w) next p q = p
    verdict at ds (again, s, w) next p q = q
