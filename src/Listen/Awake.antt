-- ===== src/Listen/Awake.antt =====
-- A listener does not sleep while it reads a stream.
use fabricsdk.Base.{ℤ, ◌≡◌, refl, ◌∙◌, Option, none, some, List, [], ◌∷◌, ◌++◌}
use fabricsdk.GoError.{GoError}
use fabricsdk.Listen.{
  Session, refused, streamed, Listener, recorded_item, handled_item, deliver, run_session,
  block_session,
}

module _ {A H K : Type 0} (handle : A → H → Option GoError × H)
    (checkpoint : A → K → Option GoError × K) (lo hi : ℤ) where
  recorded_item-sleeps :
      (a : A) (s : Listener A H K) (r : Option GoError × K)
      → (recorded_item lo a s r).1.sleeps ≡ s.sleeps
  unfolding recorded_item
  recorded_item-sleeps a s (some e, k) = refl
  recorded_item-sleeps a s (none, k) = refl

  handled_item-sleeps :
      (a : A) (s : Listener A H K) (r : Option GoError × H)
      → (handled_item handle checkpoint lo hi a s r).1.sleeps ≡ s.sleeps
  unfolding handled_item
  handled_item-sleeps a s (some e, h) = refl
  handled_item-sleeps a s (none, h) =
      recorded_item-sleeps a (record s { h = h; delivered = s.delivered ++ (a ∷ []) })
        (checkpoint a s.k)

  stopped_or :
      (ds : List ℤ) (e : Option GoError) (s : Listener A H K)
      (next : Option GoError × Listener A H K)
      → s.sleeps ≡ ds
      → next.1.sleeps ≡ ds
      → (elim e as (λ _. Option GoError × Listener A H K) [
        | some x ↦ (some x, s)
        | none ↦ next
      ]).1.sleeps
        ≡ ds
  stopped_or ds none s next p q = q
  stopped_or ds (some e) s next p q = p

  deliver-sleeps :
      (items : List A) (s : Listener A H K)
      → (deliver handle checkpoint lo hi items s).1.sleeps ≡ s.sleeps
  unfolding deliver
  deliver-sleeps [] s = refl
  deliver-sleeps (a ∷ as') s =
      let q = handled_item-sleeps a s (handle a s.h) in
      stopped_or s.sleeps _ _ _ q (deliver-sleeps as' _ ∙ q)

  pub run_session-sleeps :
      (n : Session A) (s : Listener A H K)
      → (run_session handle checkpoint lo hi n s).2.sleeps ≡ s.sleeps
  unfolding run_session
  run_session-sleeps (refused e) s = refl
  run_session-sleeps (streamed items x) s = deliver-sleeps items s

  pub block_session-sleeps :
      (r : Option GoError × Option GoError × Listener A H K)
      → (block_session handle checkpoint lo hi r).1.sleeps ≡ r.2.sleeps
  unfolding block_session
  block_session-sleeps (some e, x, s) = refl
  block_session-sleeps (none, x, s) = refl
