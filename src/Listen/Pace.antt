-- ===== src/Listen/Pace.antt =====
-- How long a listener sleeps, and how it ends when the handler or the checkpointer fails.
use fabricsdk.Base.{
  ◌≡◌, refl, ap, ◌∙◌, Bool, not, true, false, Option, none, some, List, [], ◌∷◌, ◌++◌, ℤ, ltbℤ, All,
  if◌then◌else◌, if_intro,
}
use fabricsdk.GoError.{GoError, find, handler}
use fabricsdk.Events.Backoff.{InRange, max_delay, next_backoff-InRange}
use fabricsdk.Listen.{
  Session, refused, streamed, Turn, Listener, Verdict, stop, again, Outcome, returned,
  recorded_item, retry, handled_item, deliver, run_session, after_events, block_session,
  after_blocks, events_turn, blocks_turn, listen, start, chaincode_events_loop, blocking,
}

All-concat {ℓ} :
    {A : Type 0} (P : A → Type ℓ) (xs : List A) (a : A) → All P xs → P a → All P (xs ++ (a ∷ []))
All-concat P [] a h p = (p, tt)
All-concat P (x ∷ xs) a h p = (h.0, All-concat P xs a h.1 p)

module _ {A H K : Type 0} (handle : A → H → Option GoError × H)
    (checkpoint : A → K → Option GoError × K) (lo hi : ℤ) (range : InRange lo hi lo)
    (small : ltbℤ max_delay hi ≡ false) where
  -- The delay and all sleeps so far are within the range.
  record Paced (s : Listener A H K) : Type 0 where
    delay : InRange lo hi s.backoff
    slept_well : All (InRange lo hi) s.sleeps

  recorded_item-Paced :
      (a : A) (s : Listener A H K) (r : Option GoError × K)
      → Paced s
      → Paced (recorded_item lo a s r).1
  unfolding recorded_item
  recorded_item-Paced a s (some e, k) p = record { delay = p.delay; slept_well = p.slept_well }
  recorded_item-Paced a s (none, k) p = record { delay = range; slept_well = p.slept_well }

  handled_item-Paced :
      (a : A) (s : Listener A H K) (r : Option GoError × H)
      → Paced s
      → Paced (handled_item handle checkpoint lo hi a s r).1
  unfolding handled_item
  handled_item-Paced a s (some e, h) p = record { delay = p.delay; slept_well = p.slept_well }
  handled_item-Paced a s (none, h) p =
      let s' = record s { h = h; delivered = s.delivered ++ (a ∷ []) } in
      recorded_item-Paced a s' (checkpoint a s.k)
        (record { delay = p.delay; slept_well = p.slept_well })

  stopped_or :
      (e : Option GoError) (s : Listener A H K) (next : Option GoError × Listener A H K)
      → Paced s
      → Paced next.1
      → Paced
          (elim e as (λ _. Option GoError × Listener A H K) [
            | some x ↦ (some x, s)
            | none ↦ next
          ]).1
  stopped_or none s next p q = q
  stopped_or (some e) s next p q = p

  deliver-Paced :
      (items : List A) (s : Listener A H K)
      → Paced s
      → Paced (deliver handle checkpoint lo hi items s).1
  unfolding deliver
  deliver-Paced [] s p = p
  deliver-Paced (a ∷ as') s p =
      let q = handled_item-Paced a s (handle a s.h) p in stopped_or _ _ _ q (deliver-Paced as' _ q)

  run_session-Paced :
      (n : Session A) (s : Listener A H K)
      → Paced s
      → Paced (run_session handle checkpoint lo hi n s).2
  unfolding run_session
  run_session-Paced (refused e) s p = p
  run_session-Paced (streamed items err) s p = deliver-Paced items s p

  retry-Paced :
      (slept : Bool) (err : Option GoError) (s : Listener A H K)
      → Paced s
      → Paced (retry hi slept err s).1
  unfolding retry
  retry-Paced slept err s p =
      let longer = All-concat (InRange lo hi) s.sleeps s.backoff p.slept_well p.delay in
      if_intro (λ (r : Verdict × Listener A H K). Paced r.1) (blocking err) p
        (if_intro (λ (r : Verdict × Listener A H K). Paced r.1) (not slept)
          (record { delay = p.delay; slept_well = longer })
          (record {
            delay = (next_backoff-InRange lo hi s.backoff small p.delay).0;
            slept_well = longer;
          }))

  after_events-Paced :
      (ended slept : Bool) (r : Option GoError × Option GoError × Listener A H K)
      → Paced r.2
      → Paced (after_events handle checkpoint lo hi ended slept r).1
  unfolding after_events
  after_events-Paced ended slept (some e, err, s) p = p
  after_events-Paced ended slept (none, err, s) p =
      if_intro (λ (r : Verdict × Listener A H K). Paced r.1) ended p (retry-Paced slept err s p)

  listen-Paced :
      (turn : Turn A K → Listener A H K → Verdict × Listener A H K)
      → ((t : Turn A K) (s : Listener A H K) → Paced s → Paced (turn t s).1)
      → (ts : List (Turn A K)) (s : Listener A H K) → Paced s
      → Paced (listen turn ts s).1
  unfolding listen
  listen-Paced turn keep [] s p = p
  listen-Paced turn keep (t ∷ ts) s p =
      verdict (turn t s).0 _ _ (keep t s p) (listen-Paced turn keep ts (turn t s).1 (keep t s p))
    where
      verdict :
          (v : Verdict) (s : Listener A H K) (next : Outcome × Listener A H K)
          → Paced s
          → Paced next.1
          → Paced
              (elim v as (λ _. Outcome × Listener A H K) [
                | stop x ↦ (returned x, s)
                | again ↦ next
              ]).1
      verdict (stop x) s next p q = p
      verdict again s next p q = q

  pub chaincode_events_loop-sleeps :
      (ts : List (Turn A K)) (h : H) (k : K)
      → All (InRange lo hi) (chaincode_events_loop handle checkpoint lo hi ts h k).1.sleeps
  unfolding chaincode_events_loop
  chaincode_events_loop-sleeps ts h k =
      (listen-Paced (events_turn handle checkpoint lo hi)
        (λ t s p. after_events-Paced t.ended t.slept _ (run_session-Paced (t.session s.k) s p)) ts
        (start lo h k) (record { delay = range; slept_well = tt })).slept_well

module _ {A H K : Type 0} (handle : A → H → Option GoError × H)
    (checkpoint : A → K → Option GoError × K) (lo hi : ℤ) where
  session_failed :
      (n : Session A) (s s' : Listener A H K) (items : List A) (err : Option GoError) (e : GoError)
      → n ≡ streamed items err
      → deliver handle checkpoint lo hi items s ≡ (some e, s')
      → run_session handle checkpoint lo hi n s ≡ (some e, err, s')
  unfolding run_session
  session_failed n s s' items err e q f =
      ap (λ m. run_session handle checkpoint lo hi m s) q
      ∙ ap (λ (r : Option GoError × Listener A H K). (r.0, err, r.1)) f

  -- An error of the handler or the checkpointer ends both listeners in that turn.
  -- `ListenChaincodeEvents` returns it in any case, `ListenBlocks` only while the caller's context is
  -- active: if that has ended too, it returns nil.
  pub failure_ends :
      (t : Turn A K) (s s' : Listener A H K) (items : List A) (err : Option GoError) (e : GoError)
      → t.session s.k ≡ streamed items err
      → deliver handle checkpoint lo hi items s ≡ (some e, s')
      → ((events_turn handle checkpoint lo hi t s).0 ≡ stop (some e))
        × ((blocks_turn handle checkpoint lo hi t s).0
            ≡ (if t.ended then stop none else stop (some e)))
  unfolding events_turn blocks_turn run_session block_session after_events after_blocks find
  failure_ends t s s' items err e q f =
      let failed = session_failed (t.session s.k) s s' items err e q f in
      (
        ap (λ r. (after_events handle checkpoint lo hi t.ended t.slept r).0) failed,
        ap
              (λ r.
                (after_blocks handle checkpoint lo hi t.ended t.slept
                  (block_session handle checkpoint lo hi r)).0)
              failed
            ∙ ended_case t.ended,
      )
    where
      ended_case :
          (b : Bool)
          → (after_blocks handle checkpoint lo hi b t.slept (some (handler e), s')).0
            ≡ (if b then stop none else stop (some e))
      ended_case true = refl
      ended_case false = refl
