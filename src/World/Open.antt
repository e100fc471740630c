-- ===== src/World/Open.antt =====
-- How many gateways are open, and which calls were observed, by the trace.
use fabricsdk.Base.{
  ℕ, ◌+◌, ◌≡◌, refl, sym, ap, ◌∙◌, append-nil, List, [], ◌∷◌, ◌++◌, Option, ℤ, arith, Text,
}
use fabricsdk.Kinds.{Kind}
use fabricsdk.Observe.{CallInfo, Op}
use fabricsdk.World.{
  Event, opened, closed, dialled, disconnected, signer_closed, observed, failed, committed,
  stream_ended, ready, World, emit,
}

abbrev is_opened : Event → ℕ
is_opened (opened g) = 1
is_opened _ = 0

abbrev is_closing : Event → ℕ
is_closing (closed g) = 1
is_closing _ = 0

abbrev pub call_of : Event → List CallInfo
call_of (observed i) = i ∷ []
call_of _ = []

pub opens_in : List Event → ℕ
opens_in [] = 0
opens_in (e ∷ es) = is_opened e + opens_in es

pub closes_in : List Event → ℕ
closes_in [] = 0
closes_in (e ∷ es) = is_closing e + closes_in es

unfoldable pub calls_in : List Event → List CallInfo
calls_in [] = []
calls_in (e ∷ es) = call_of e ++ calls_in es

opens_in-concat : (t : List Event) (e : Event) → opens_in (t ++ (e ∷ [])) ≡ opens_in t + is_opened e
unfolding opens_in
opens_in-concat [] e = omega arith
opens_in-concat (x ∷ t) e = omega (arith, opens_in-concat t e)

closes_in-concat :
    (t : List Event) (e : Event) → closes_in (t ++ (e ∷ [])) ≡ closes_in t + is_closing e
unfolding closes_in
closes_in-concat [] e = omega arith
closes_in-concat (x ∷ t) e = omega (arith, closes_in-concat t e)

calls_in-concat : (t : List Event) (e : Event) → calls_in (t ++ (e ∷ [])) ≡ calls_in t ++ call_of e
unfolding calls_in
calls_in-concat [] (observed i) = refl
calls_in-concat [] (opened g) = refl
calls_in-concat [] _ = refl
calls_in-concat (observed i ∷ t) e = ap (◌∷◌ i) (calls_in-concat t e)
calls_in-concat (opened g ∷ t) e = calls_in-concat t e
calls_in-concat (_ ∷ t) e = calls_in-concat t e

module _ {N : Type 0} where
  -- Exactly `k` gateways were opened and not closed, and the observer got the calls `cs`, in order.
  pub record Shows (k : ℕ) (cs : List CallInfo) (w : World N) : Type 0 where
    pub balance : opens_in w.trace ≡ closes_in w.trace + k
    pub heard : calls_in w.trace ≡ cs

  pub Shows-start : (w : World N) → w.trace ≡ [] → Shows 0 [] w
  unfolding opens_in closes_in calls_in
  Shows-start w h = record { balance = rw h refl; heard = rw h refl }

  pub Shows-eq : {k j : ℕ} {cs : List CallInfo} {w : World N} → k ≡ j → Shows k cs w → Shows j cs w
  Shows-eq e h = record { balance = omega (arith, h.balance); heard = h.heard }

  pub Shows-calls :
      {k : ℕ} {cs ds : List CallInfo} {w : World N} → cs ≡ ds → Shows k cs w → Shows k ds w
  Shows-calls e h = record { balance = h.balance; heard = h.heard ∙ e }

  -- What a world shows is in its trace.
  pub Shows-same :
      {k : ℕ} {cs : List CallInfo} {w w' : World N}
      → w.trace ≡ w'.trace
      → Shows k cs w
      → Shows k cs w'
  Shows-same e h = record { balance = rw (sym e) h.balance; heard = rw (sym e) h.heard }

  -- A change of the network leaves no trace.
  pub Shows-net :
      {k : ℕ} {cs : List CallInfo} {w : World N} {n : N}
      → Shows k cs w
      → Shows k cs (record w { net = n })
  Shows-net h = record { balance = h.balance; heard = h.heard }

silent :
    {N : Type 0} {j : ℕ} {w : World N} (cs : List CallInfo) (e : Event)
    → call_of e ≡ []
    → Shows j (cs ++ call_of e) w
    → Shows j cs w
silent cs e n h = record {
  balance = h.balance;
  heard = h.heard ∙ ap (λ (x : List CallInfo). cs ++ x) n ∙ append-nil cs;
}

module _ {N : Type 0} {k : ℕ} {cs : List CallInfo} {w : World N} where
  emit-Shows :
      (e : Event) (j : ℕ)
      → k + is_opened e ≡ j + is_closing e
      → Shows k cs w
      → Shows j (cs ++ call_of e) (emit e w)
  emit-Shows e j a h = record {
    balance = omega (arith, h.balance, opens_in-concat w.trace e, closes_in-concat w.trace e);
    heard = calls_in-concat w.trace e ∙ ap (λ (x : List CallInfo). x ++ call_of e) h.heard;
  }

  pub emit-opened : (g : ℕ) → Shows k cs w → Shows (k + 1) cs (emit (opened g) w)
  emit-opened g h = silent cs (opened g) refl (emit-Shows (opened g) (k + 1) (omega arith) h)

  pub emit-observed : (i : CallInfo) → Shows k cs w → Shows k (cs ++ (i ∷ [])) (emit (observed i) w)
  emit-observed i h = emit-Shows (observed i) k refl h

  pub emit-failed :
      (o : Op) (f t : Text) (c : Kind) → Shows k cs w → Shows k cs (emit (failed o f t c) w)
  emit-failed o f t c h = silent cs (failed o f t c) refl (emit-Shows (failed o f t c) k refl h)

  pub emit-committed : (f t : Text) (b : ℕ) → Shows k cs w → Shows k cs (emit (committed f t b) w)
  emit-committed f t b h = silent cs (committed f t b) refl (emit-Shows (committed f t b) k refl h)

  pub emit-dialled : (c : ℕ) → Shows k cs w → Shows k cs (emit (dialled c) w)
  emit-dialled c h = silent cs (dialled c) refl (emit-Shows (dialled c) k refl h)

  pub emit-disconnected : (c : ℕ) → Shows k cs w → Shows k cs (emit (disconnected c) w)
  emit-disconnected c h = silent cs (disconnected c) refl (emit-Shows (disconnected c) k refl h)

  pub emit-signer_closed : (s : ℕ) → Shows k cs w → Shows k cs (emit (signer_closed s) w)
  emit-signer_closed s h = silent cs (signer_closed s) refl (emit-Shows (signer_closed s) k refl h)

  pub emit-ready : (p m c n : Text) → Shows k cs w → Shows k cs (emit (ready p m c n) w)
  emit-ready p m c n h = silent cs (ready p m c n) refl (emit-Shows (ready p m c n) k refl h)

  pub emit-stream_ended :
      (c : Option Text) (b : ℕ) (d : ℤ) → Shows k cs w → Shows k cs (emit (stream_ended c b d) w)
  emit-stream_ended c b d h =
      silent cs (stream_ended c b d) refl (emit-Shows (stream_ended c b d) k refl h)

pub emit-closed :
    {N : Type 0} {k : ℕ} {cs : List CallInfo} {w : World N} (g : ℕ)
    → Shows (k + 1) cs w
    → Shows k cs (emit (closed g) w)
emit-closed {k} {cs} g h = silent cs (closed g) refl (emit-Shows (closed g) k (omega arith) h)
