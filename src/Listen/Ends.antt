-- ===== src/Listen/Ends.antt =====
-- When `ListenChaincodeEvents` returns, and with what.
use fabricsdk.Base.{
  ◌≡◌, ◌⊎◌, refl, ap, inl, inr, Bool, Bool-cases, not, true, false, ◌||◌, Option, none, some, List,
  [], ◌∷◌, ◌++◌, ℤ, exists, if_cases, arith,
}
use fabricsdk.GoError.{GoError}
use fabricsdk.Contract.{Contract}
use fabricsdk.Events.{EventOption, event_options, reconnectable}
use fabricsdk.Listen.{
  Session, refused, streamed, Turn, Listener, Verdict, stop, again, Outcome, returned, running,
  recorded_item, retry, handled_item, deliver, run_session, after_events, events_turn, listen,
  chaincode_events_loop, listen_chaincode_events, blocks_turn, after_blocks, listen_blocks,
  blocks_loop, blocking,
}

-- The context ends in the turn, or the sleep at its end is cut short.
abbrev pub is_interrupted : {A K : Type 0} → Turn A K → Bool
is_interrupted t = t.ended || not t.slept

module _ {A H K : Type 0} (handle : A → H → Option GoError × H)
    (checkpoint : A → K → Option GoError × K) where
  -- The handler or the checkpointer can fail with this error.
  abbrev pub Fails : GoError → Type 0
  Fails e =
      ((a : A) × (h : H) × ((handle a h).0 ≡ some e))
      ⊎ ((a : A) × (k : K) × ((checkpoint a k).0 ≡ some e))

  -- Why a listener returns: with nil, as a turn was interrupted, or with an error of the handler or the
  -- checkpointer, or with one after which it does not reconnect.
  abbrev pub Reason : Bool → Option GoError → Type 0
  Reason interrupted none = interrupted ≡ true
  Reason interrupted (some e) = Fails e ⊎ (reconnectable e ≡ false)

  abbrev TurnReason : Bool → Verdict × Listener A H K → Type 0
  TurnReason b (stop r, s) = Reason b r
  TurnReason b (again, s) = Unit

  -- What an outcome says of the turns, of which some was interrupted or none; nothing of a listener
  -- that goes on.
  abbrev pub OutcomeReason : Bool → Outcome × Listener A H K → Type 0
  OutcomeReason b (returned r, s) = Reason b r
  OutcomeReason b (running, s) = Unit

  -- What is known of an error that stops a session at once.
  abbrev FailPost : Option GoError → Type 0
  FailPost none = Unit
  FailPost (some e) = Fails e

  module _ (lo hi : ℤ) where
    recorded_item-Fails :
        (a : A) (s : Listener A H K) (k0 : K) (r : Option GoError × K)
        → checkpoint a k0 ≡ r
        → FailPost (recorded_item lo a s r).0
    unfolding recorded_item
    recorded_item-Fails a s k0 (some e, k) q = inr (a, k0, ap (λ (x : Option GoError × K). x.0) q)
    recorded_item-Fails a s k0 (none, k) q = tt

    handled_item-Fails :
        (a : A) (s : Listener A H K) (h0 : H) (r : Option GoError × H)
        → handle a h0 ≡ r
        → FailPost (handled_item handle checkpoint lo hi a s r).0
    unfolding handled_item
    handled_item-Fails a s h0 (some e, h) q = inl (a, h0, ap (λ (x : Option GoError × H). x.0) q)
    handled_item-Fails a s h0 (none, h) q =
        recorded_item-Fails a (record s { h = h; delivered = s.delivered ++ (a ∷ []) }) s.k _ refl

    stopped_or-Fails :
        (r next : Option GoError × Listener A H K)
        → FailPost r.0
        → FailPost next.0
        → FailPost
            (elim r.0 as (λ _. Option GoError × Listener A H K) [
              | some x ↦ (some x, r.1)
              | none ↦ next
            ]).0
    stopped_or-Fails (some e, s) next p q = p
    stopped_or-Fails (none, s) next p q = q

    deliver-Fails :
        (items : List A) (s : Listener A H K) → FailPost (deliver handle checkpoint lo hi items s).0
    unfolding deliver
    deliver-Fails [] s = tt
    deliver-Fails (a ∷ as') s =
        let r = handled_item handle checkpoint lo hi a s (handle a s.h) in
        stopped_or-Fails r _ (handled_item-Fails a s s.h _ refl) (deliver-Fails as' r.1)

    run_session-Fails :
        (n : Session A) (s : Listener A H K) → FailPost (run_session handle checkpoint lo hi n s).0
    unfolding run_session
    run_session-Fails (refused e) s = tt
    run_session-Fails (streamed items err) s = deliver-Fails items s

    blocking-Reason : (b : Bool) (err : Option GoError) → blocking err ≡ true → Reason b err
    blocking-Reason b none h = absurd (cc)
    blocking-Reason b (some e) h = inr (ground arith)

    retry-Reason :
        (ended slept : Bool) (err : Option GoError) (s : Listener A H K)
        → TurnReason (ended || not slept) (retry hi slept err s)
    unfolding retry
    retry-Reason ended slept err s =
        if_cases (TurnReason (ended || not slept)) (blocking err)
          (λ b. blocking-Reason (ended || not slept) err b)
          (λ _.
            if_cases (TurnReason (ended || not slept)) (not slept) (λ n. ground arith) (λ _. tt))

    after_events-Reason :
        (ended slept : Bool) (r : Option GoError × Option GoError × Listener A H K)
        → FailPost r.0
        → TurnReason (ended || not slept) (after_events handle checkpoint lo hi ended slept r)
    unfolding after_events
    after_events-Reason ended slept (some e, err, s) p = inl p
    after_events-Reason ended slept (none, err, s) p =
        if_cases (TurnReason (ended || not slept)) ended (λ e. ground arith)
          (λ _. retry-Reason ended slept err s)

    events_turn-Reason :
        (t : Turn A K) (s : Listener A H K)
        → TurnReason (is_interrupted t) (events_turn handle checkpoint lo hi t s)
    unfolding events_turn
    events_turn-Reason t s =
        after_events-Reason t.ended t.slept _ (run_session-Fails (t.session s.k) s)

    from_rest :
        (b c : Bool) (o : Outcome × Listener A H K) → OutcomeReason c o → OutcomeReason (b || c) o
    from_rest b c (returned none, s) h = ground arith
    from_rest b c (returned (some e), s) h = h
    from_rest b c (running, s) h = tt

    from_first : (b c : Bool) (r : Option GoError) → Reason b r → Reason (b || c) r
    from_first b c none h = ground arith
    from_first b c (some e) h = h

    listen-Reason :
        (ts : List (Turn A K)) (s : Listener A H K)
        → OutcomeReason
            (exists is_interrupted ts)
            (listen (events_turn handle checkpoint lo hi) ts s)
    unfolding listen
    listen-Reason [] s = tt
    listen-Reason (t ∷ ts) s =
        verdict (events_turn handle checkpoint lo hi t s) _ (events_turn-Reason t s)
          (listen-Reason ts (events_turn handle checkpoint lo hi t s).1)
      where
        verdict :
            (r : Verdict × Listener A H K) (next : Outcome × Listener A H K)
            → TurnReason (is_interrupted t) r
            → OutcomeReason (exists is_interrupted ts) next
            → OutcomeReason
                (is_interrupted t || exists is_interrupted ts)
                (elim r.0 as (λ _. Outcome × Listener A H K) [
                  | stop x ↦ (returned x, r.1)
                  | again ↦ next
                ])
        verdict (stop x, s) next p q = from_first (is_interrupted t) (exists is_interrupted ts) x p
        verdict (again, s) next p q = from_rest (is_interrupted t) (exists is_interrupted ts) next q

  -- With a checkpointer and a handler, `ListenChaincodeEvents` returns nil only if in some turn the
  -- context ended or the sleep was cut short; an error that it returns is one that the handler or the
  -- checkpointer gives, or one after which it does not reconnect.
  pub listen_chaincode_events-Reason :
      (c : Contract) (opts : List EventOption) (ts : List (Turn A K)) (h : H) (k : K)
      → OutcomeReason
          (exists is_interrupted ts)
          (listen_chaincode_events c opts (some checkpoint) (some handle) ts h k)
  unfolding listen_chaincode_events chaincode_events_loop
  listen_chaincode_events-Reason c opts ts h k =
      let o = event_options c opts in listen-Reason o.min_backoff o.max_backoff ts _

-- A loop whose turn stops when the context has ended in it returns once that happens.
stops_or_later :
    {L : Type 0} (v : Verdict) (s : L) (next : Outcome × L)
    → ((r : Option GoError) × (v ≡ stop r)) ⊎ ((r : Option GoError) × (next.0 ≡ returned r))
    → (r : Option GoError) × ((elim v as (λ _. Outcome × L) [
      | stop x ↦ (returned x, s)
      | again ↦ next
    ]).0
        ≡ returned r)
stops_or_later (stop x) s next p = (x, refl)
stops_or_later again s next (inl (r, p)) = absurd (cc)
stops_or_later again s next (inr p) = p

listen-returned :
    {A H K : Type 0} (turn : Turn A K → Listener A H K → Verdict × Listener A H K)
    → (stops : (t : Turn A K) (s : Listener A H K)
        → t.ended ≡ true
        → (r : Option GoError) × ((turn t s).0 ≡ stop r))
    → (ts : List (Turn A K)) (s : Listener A H K) → exists (λ t. t.ended) ts ≡ true
    → (r : Option GoError) × ((listen turn ts s).0 ≡ returned r)
unfolding listen
listen-returned turn stops [] s h = absurd (cc)
listen-returned turn stops (t ∷ ts) s h =
    stops_or_later (turn t s).0 (turn t s).1 _ (elim (Bool-cases t.ended) [
      | inl e ↦ inl (stops t s e)
      | inr e ↦ inr (listen-returned turn stops ts (turn t s).1 (ground arith))
    ])

module _ {A H K : Type 0} (handle : A → H → Option GoError × H)
    (checkpoint : A → K → Option GoError × K) (lo hi : ℤ) where
  events_turn-stop :
      (t : Turn A K) (s : Listener A H K)
      → t.ended ≡ true
      → (r : Option GoError) × ((events_turn handle checkpoint lo hi t s).0 ≡ stop r)
  unfolding events_turn after_events
  events_turn-stop t s h = after _ (run_session handle checkpoint lo hi (t.session s.k) s)
    where
      after :
          (slept : Bool) (r : Option GoError × Option GoError × Listener A H K)
          → (x : Option GoError) × ((after_events handle checkpoint lo hi t.ended slept r).0
              ≡ stop x)
      after slept (some e, err, s) = (some e, refl)
      after slept (none, err, s) = (none, ground arith)

  blocks_turn-stop :
      (t : Turn A K) (s : Listener A H K)
      → t.ended ≡ true
      → (r : Option GoError) × ((blocks_turn handle checkpoint lo hi t s).0 ≡ stop r)
  unfolding blocks_turn after_blocks
  blocks_turn-stop t s h = (none, ground arith)

module _ {A H K : Type 0} (c : Contract) (opts : List EventOption)
    (checkpoint : A → K → Option GoError × K) (handle : A → H → Option GoError × H) where
  -- Neither listener outlives its context: whatever the streams deliver and the checkpointer and the
  -- handler answer, if the context ends in one of the turns then `ListenChaincodeEvents` returns, and so
  -- does `ListenBlocks`.
  pub listen-ended :
      (ts : List (Turn A K)) (h : H) (k : K)
      → exists (λ t. t.ended) ts ≡ true
      → ((r : Option GoError) × ((listen_chaincode_events c opts
              (some checkpoint)
              (some handle)
              ts
              h
              k).0
            ≡ returned r))
        × ((r : Option GoError) × ((listen_blocks c opts (some checkpoint) (some handle) ts h k).0
              ≡ returned r))
  unfolding listen_chaincode_events chaincode_events_loop listen_blocks blocks_loop
  listen-ended ts h k e =
      let o = event_options c opts in
      (
        listen-returned _ (events_turn-stop handle checkpoint o.min_backoff o.max_backoff) ts _ e,
        listen-returned _ (blocks_turn-stop handle checkpoint o.min_backoff o.max_backoff) ts _ e,
      )
