-- ===== src/Listen/Order.antt =====
-- The items that reach the handler: in the order of the ledger, none left out and none repeated within
-- one run, and the checkpoint never ahead of them.
use fabricsdk.Base.{
  ◌≡◌, ◌⊎◌, refl, sym, ap, ◌∙◌, inl, inr, Bool, not, Option, none, some, List, [], ◌∷◌, ◌++◌,
  append_assoc, ℤ, All, if_intro,
}
use fabricsdk.GoError.{GoError, find}
use fabricsdk.Listen.{
  Session, refused, streamed, Turn, Listener, Verdict, stop, again, Outcome, returned,
  recorded_item, retry, handled_item, deliver, run_session, after_events, block_session,
  after_blocks, events_turn, blocks_turn, listen, start, chaincode_events_loop, blocks_loop,
  blocking, marked,
}

-- `rest k` is the ledger after checkpoint `k`. Recording the next item moves the checkpoint behind it, and
-- recording that fails leaves it where it is.
module _ {A H K : Type 0} (handle : A → H → Option GoError × H)
    (checkpoint : A → K → Option GoError × K) (lo hi : ℤ) (rest : K → List A) (k0 : K)
    (records : (a : A) (as' : List A) (k k' : K)
      → rest k ≡ a ∷ as'
      → checkpoint a k ≡ (none, k')
      → rest k' ≡ as')
    (keeps : (a : A) (k k' : K) (e : GoError)
      → checkpoint a k ≡ (some e, k')
      → rest k' ≡ rest k) where
  -- Between items: what was recorded, and no more, was delivered, and the checkpoint is behind it.
  pub record Level (s : Listener A H K) : Type 0 where
    pub same : s.delivered ≡ s.recorded
    pub whole : rest k0 ≡ s.recorded ++ rest s.k

  -- After a failure: one more item was delivered than recorded, and the checkpoint is still before it.
  pub record Ahead (s : Listener A H K) : Type 0 where
    pub item : A
    pub after : List A
    pub one_more : s.delivered ≡ s.recorded ++ (item ∷ [])
    pub whole : rest k0 ≡ s.recorded ++ (item ∷ after)
    pub position : rest s.k ≡ item ∷ after

  abbrev DeliverPost : Option GoError × Listener A H K → Type 0
  DeliverPost (none, s) = Level s
  DeliverPost (some e, s) = Ahead s

  -- After one item of a stream, with the items that follow it.
  abbrev ItemPost : List A → Option GoError × Listener A H K → Type 0
  ItemPost tail (none, s) = Level s × (rest s.k ≡ tail)
  ItemPost tail (some e, s) = Ahead s

  recorded_item-post :
      (a : A) (tail : List A) (s : Listener A H K) (r : Option GoError × K)
      → checkpoint a s.k ≡ r
      → rest s.k ≡ a ∷ tail
      → s.delivered ≡ s.recorded ++ (a ∷ [])
      → rest k0 ≡ s.recorded ++ rest s.k
      → ItemPost tail (recorded_item lo a s r)
  unfolding recorded_item
  recorded_item-post a tail s (some e, k) c e' d w = record {
    item = a;
    after = tail;
    one_more = d;
    whole = w ∙ ap (λ (x : List A). s.recorded ++ x) e';
    position = keeps a s.k k e c ∙ e';
  }
  recorded_item-post a tail s (none, k) c e' d w =
      let moved = records a tail s.k k e' c in
      (
        record {
          same = d;
          whole =
              w
              ∙ ap (λ (x : List A). s.recorded ++ x) (e' ∙ ap (λ (x : List A). a ∷ x) (sym moved))
              ∙ sym (append_assoc s.recorded (a ∷ []) (rest k));
        },
        moved,
      )

  handled_item-post :
      (a : A) (tail : List A) (s : Listener A H K) (r : Option GoError × H)
      → rest s.k ≡ a ∷ tail
      → Level s
      → ItemPost tail (handled_item handle checkpoint lo hi a s r)
  unfolding handled_item
  handled_item-post a tail s (some e, h) e' v = record {
    item = a;
    after = tail;
    one_more = ap (λ (x : List A). x ++ (a ∷ [])) v.same;
    whole = v.whole ∙ ap (λ (x : List A). s.recorded ++ x) e';
    position = e';
  }
  handled_item-post a tail s (none, h) e' v =
      recorded_item-post a tail _ (checkpoint a s.k) refl e'
        (ap (λ (x : List A). x ++ (a ∷ [])) v.same) v.whole

  stopped_or :
      (tail : List A) (r next : Option GoError × Listener A H K)
      → ItemPost tail r
      → (Level r.1 → rest r.1.k ≡ tail → DeliverPost next)
      → DeliverPost (elim r.0 [ some x ↦ (some x, r.1) | none ↦ next ])
  stopped_or tail (some e, s) next h f = h
  stopped_or tail (none, s) next h f = f h.0 h.1

  deliver-post :
      (items after : List A) (s : Listener A H K)
      → rest s.k ≡ items ++ after
      → Level s
      → DeliverPost (deliver handle checkpoint lo hi items s)
  unfolding deliver
  deliver-post [] after s e v = v
  deliver-post (a ∷ as') after s e v =
      let r = handled_item handle checkpoint lo hi a s (handle a s.h) in
      stopped_or (as' ++ after) r _ (handled_item-post a (as' ++ after) s (handle a s.h) e v)
        (λ v' e'. deliver-post as' after r.1 e' v')

  abbrev SessionPost : Option GoError × Option GoError × Listener A H K → Type 0
  SessionPost (none, err, s) = Level s
  SessionPost (some e, err, s) = Ahead s

  -- What a turn leaves: level if the listener goes on.
  abbrev TurnPost : Verdict × Listener A H K → Type 0
  TurnPost (again, s) = Level s
  TurnPost (stop r, s) = Level s ⊎ Ahead s

  Level-asleep :
      (s : Listener A H K) (b : ℤ) (d : List ℤ)
      → Level s
      → Level (record s { backoff = b; sleeps = d })
  Level-asleep s b d v = record { same = v.same; whole = v.whole }

  retry-post :
      (slept : Bool) (err : Option GoError) (s : Listener A H K)
      → Level s
      → TurnPost (retry hi slept err s)
  unfolding retry
  retry-post slept err s v =
      if_intro TurnPost (blocking err) (inl v)
        (if_intro TurnPost (not slept) (inl (Level-asleep s _ _ v)) (Level-asleep s _ _ v))

  after_events-post :
      (ended slept : Bool) (r : Option GoError × Option GoError × Listener A H K)
      → SessionPost r
      → TurnPost (after_events handle checkpoint lo hi ended slept r)
  unfolding after_events
  after_events-post ended slept (some e, err, s) h = inr h
  after_events-post ended slept (none, err, s) h =
      if_intro TurnPost ended (inl h) (retry-post slept err s h)

  marked-post :
      (m : Option GoError) (slept : Bool) (err : Option GoError) (s : Listener A H K)
      → Level s
      → TurnPost (elim m [ some e ↦ (stop (some e), s) | none ↦ retry hi slept err s ])
  marked-post none slept err s v = retry-post slept err s v
  marked-post (some e) slept err s v = inl v

  after_blocks-post :
      (ended slept : Bool) (r : Option GoError × Option GoError × Listener A H K)
      → SessionPost r
      → TurnPost (
          after_blocks handle checkpoint lo hi ended slept
            (block_session handle checkpoint lo hi r))
  unfolding after_blocks block_session find
  after_blocks-post ended slept (some e, err, s) h = if_intro TurnPost ended (inr h) (inr h)
  after_blocks-post ended slept (none, err, s) h =
      if_intro TurnPost ended (inl h) (marked-post (marked err) slept err s h)

  -- A stream delivers items that follow the checkpoint.
  abbrev pub Feeds : Turn A K → Type 0
  Feeds t =
      (k : K) (items : List A) (err : Option GoError)
      → t.session k ≡ streamed items err
      → (after : List A) × (rest k ≡ items ++ after)

  delivered-post :
      (err : Option GoError) (r : Option GoError × Listener A H K)
      → DeliverPost r
      → SessionPost (r.0, err, r.1)
  delivered-post err (none, s) h = h
  delivered-post err (some e, s) h = h

  run_session-post :
      (t : Turn A K) (s : Listener A H K) (n : Session A)
      → t.session s.k ≡ n
      → Feeds t
      → Level s
      → SessionPost (run_session handle checkpoint lo hi n s)
  unfolding run_session
  run_session-post t s (refused e) q f v = v
  run_session-post t s (streamed items err) q f v =
      let (after, e) = f s.k items err q in
      delivered-post err (deliver handle checkpoint lo hi items s) (deliver-post items after s e v)

  -- A loop whose turns keep the order keeps it.
  listen-post :
      (turn : Turn A K → Listener A H K → Verdict × Listener A H K)
      → ((t : Turn A K) (s : Listener A H K) → Feeds t → Level s → TurnPost (turn t s))
      → (ts : List (Turn A K)) (s : Listener A H K) → All Feeds ts
      → Level s
      → Level (listen turn ts s).1 ⊎ Ahead (listen turn ts s).1
  unfolding listen
  listen-post turn keep [] s f v = inl v
  listen-post turn keep (t ∷ ts) s f v =
      verdict (turn t s) _ (keep t s f.0 v) (λ v'. listen-post turn keep ts (turn t s).1 f.1 v')
    where
      verdict :
          (r : Verdict × Listener A H K) (next : Outcome × Listener A H K)
          → TurnPost r
          → (Level r.1 → Level next.1 ⊎ Ahead next.1)
          → Level
              (elim r.0 as (λ _. Outcome × Listener A H K) [
                | stop x ↦ (returned x, r.1)
                | again ↦ next
              ]).1
            ⊎ Ahead
                (elim r.0 as (λ _. Outcome × Listener A H K) [
                  | stop x ↦ (returned x, r.1)
                  | again ↦ next
                ]).1
      verdict (stop x, s) next h g = h
      verdict (again, s) next h g = g h

  -- The items delivered are the first of those that followed the checkpoint at the start, in their
  -- order; all of them were recorded, and the checkpoint stands behind them, or all but the last, and the
  -- checkpoint stands before that one.
  abbrev pub InOrder : Listener A H K → Type 0
  InOrder s = (after : List A) × (rest k0 ≡ s.delivered ++ after) × (Level s ⊎ Ahead s)

  in_order : (s : Listener A H K) → Level s ⊎ Ahead s → InOrder s
  in_order s (inl v) = (rest s.k, v.whole ∙ ap (λ (x : List A). x ++ rest s.k) (sym v.same), inl v)
  in_order s (inr v) = (
    v.after,
    v.whole
        ∙ sym (append_assoc s.recorded (v.item ∷ []) v.after)
        ∙ ap (λ (x : List A). x ++ v.after) (sym v.one_more),
    inr v,
  )

  pub chaincode_events_loop-InOrder :
      (ts : List (Turn A K)) (h : H)
      → All Feeds ts
      → InOrder (chaincode_events_loop handle checkpoint lo hi ts h k0).1
  unfolding chaincode_events_loop
  chaincode_events_loop-InOrder ts h f = in_order _ (
      listen-post (events_turn handle checkpoint lo hi)
        (λ t s g v.
          after_events-post t.ended t.slept _ (run_session-post t s (t.session s.k) refl g v))
        ts (start lo h k0) f (record { same = refl; whole = refl }))

  pub blocks_loop-InOrder :
      (ts : List (Turn A K)) (h : H)
      → All Feeds ts
      → InOrder (blocks_loop handle checkpoint lo hi ts h k0).1
  unfolding blocks_loop
  blocks_loop-InOrder ts h f = in_order _ (
      listen-post (blocks_turn handle checkpoint lo hi)
        (λ t s g v.
          after_blocks-post t.ended t.slept _ (run_session-post t s (t.session s.k) refl g v))
        ts (start lo h k0) f (record { same = refl; whole = refl }))
