-- ===== src/Listen/Rounds/Logged.antt =====
-- What the log tells of the sleeps of the listeners.
use fabricsdk.Base.{
  ℕ, ℤ, ◌≡◌, sym, ap, ◌∙◌, inl, inr, Bool, Bool-cases, Option, none, some, List, [], ◌∷◌, ◌++◌,
  true, false, append-nil, append_assoc, Text,
}
use fabricsdk.GoError.{GoError}
use fabricsdk.Libs.{Libs}
use fabricsdk.Options.{Ctx}
use fabricsdk.Result.{Result, ok, err}
use fabricsdk.World.{GatewayApi, stream_ended, World, emit}
use fabricsdk.Contract.{Contract, Release}
use fabricsdk.Contract.Kept.{release-Steady}
use fabricsdk.Events.{ChaincodeEvent, EventOption, EventOptions, event_options, with_checkpointer}
use fabricsdk.Checkpoints.{Checkpointer, Block, checkpoint_event, checkpoint_next}
use fabricsdk.Listen.{
  Listener, Verdict, stop, retry, after_events, after_blocks, blocking, marked, start,
}
use fabricsdk.Streams.{chaincode_events, block_stream}
use fabricsdk.Streams.Kept.{chaincode_events-Steady, block_stream-Steady}
use fabricsdk.Streams.Returned.{BlockOutcome, block_stream-BlockOutcome}
use fabricsdk.Listen.Awake.{run_session-sleeps, block_session-sleeps}
use fabricsdk.Listen.Rounds.Delays.{
  delays_in, delays_in-concat, Tells, Tells-Steady, loop_rounds-Tells,
}
use fabricsdk.Listen.Rounds.{
  Round, released, log_ended, log_events, log_blocks, opened_events, finish_events, events_round,
  blocks_body, finish_blocks, blocks_round, listen_chaincode_events, listen_blocks,
}

-- A goroutine that gives its gateway back logs nothing about a stream.
released-Tells :
    (l : Libs) {N : Type 0} (api : GatewayApi N) (es : List ℤ) (bs : List Bool)
    (rels : List Release) (w : World N)
    → Tells es w
    → Tells es (released l api bs rels w).1
unfolding released
released-Tells l api es [] rels w h = h
released-Tells l api es (b ∷ bs) [] w h = h
released-Tells l api es (true ∷ bs) (rel ∷ rels) w h =
    released-Tells l api es bs rels _ (release-Steady l api (Tells es) (Tells-Steady es) rel _ h)
released-Tells l api es (false ∷ bs) (rel ∷ rels) w h = released-Tells l api es bs rels w h

module _ (l : Libs) {H K N : Type 0} (api : GatewayApi N) (c : Contract) (ctx : Ctx)
    (cp : Checkpointer K) (ds : List ℤ) where
  -- The line comes with the sleep.
  log_ended-Tells :
      {A : Type 0} (hi : ℤ) (name : Option Text) (slept : Bool) (x : Option GoError)
      (s : Listener A H K) (w : World N)
      → Tells (ds ++ s.sleeps) w
      → Tells (ds ++ (retry hi slept x s).1.sleeps) (log_ended l api c ctx cp name x s w)
  unfolding log_ended retry
  log_ended-Tells hi name slept x s w h = elim (Bool-cases (blocking x)) [
    | inl b ↦ rw b h
    | inr b ↦ rw b (elim (Bool-cases slept) [ inl y ↦ rw y longer | inr n ↦ rw n longer ])
  ]
    where
      longer :
          Tells
            (ds ++ (s.sleeps ++ (s.backoff ∷ [])))
            (emit (stream_ended name (cp.block_number s.k) s.backoff) w)
      longer =
          delays_in-concat w.trace _
          ∙ ap (λ (y : List ℤ). y ++ (s.backoff ∷ [])) h
          ∙ append_assoc ds s.sleeps (s.backoff ∷ [])

  log_events-Tells :
      (handle : ChaincodeEvent → H → Option GoError × H) (o : EventOptions) (ended slept : Bool)
      (x : Option GoError × Option GoError × Listener ChaincodeEvent H K) (w : World N)
      → Tells (ds ++ x.2.sleeps) w
      → Tells
          (ds
            ++ (after_events handle
                (checkpoint_event cp)
                o.min_backoff
                o.max_backoff
                ended
                slept
                x).1.sleeps)
          (log_events l api c ctx cp o.chaincode ended x w)
  unfolding log_events after_events
  log_events-Tells handle o ended slept (some e, x, s) w h = h
  log_events-Tells handle o ended slept (none, x, s) w h = elim (Bool-cases ended) [
    | inl y ↦ rw y h
    | inr n ↦ rw n (log_ended-Tells o.max_backoff (some o.chaincode) slept x s w h)
  ]

  log_marked :
      (hi : ℤ) (slept : Bool) (m x : Option GoError) (s : Listener Block H K) (w : World N)
      → Tells (ds ++ s.sleeps) w
      → Tells
          (ds
            ++ (elim m as (λ _. Verdict × Listener Block H K) [
              | some e ↦ (stop (some e), s)
              | none ↦ retry hi slept x s
            ]).1.sleeps)
          (elim m [ some e ↦ w | none ↦ log_ended l api c ctx cp none x s w ])
  log_marked hi slept none x s w h = log_ended-Tells hi none slept x s w h
  log_marked hi slept (some e) x s w h = h

  log_blocks-Tells :
      (handle : Block → H → Option GoError × H) (o : EventOptions) (ended slept : Bool)
      (x : Option GoError × Listener Block H K) (w : World N)
      → Tells (ds ++ x.1.sleeps) w
      → Tells
          (ds
            ++ (after_blocks handle
                (checkpoint_next cp)
                o.min_backoff
                o.max_backoff
                ended
                slept
                x).1.sleeps)
          (log_blocks l api c ctx cp ended x w)
  unfolding log_blocks after_blocks
  log_blocks-Tells handle o ended slept (x, s) w h = elim (Bool-cases ended) [
    | inl y ↦ rw y h
    | inr n ↦ rw n (log_marked o.max_backoff slept (marked x) x s w h)
  ]

  module _ (handle : ChaincodeEvent → H → Option GoError × H) (o : EventOptions) where
    opened_events-Tells :
        (r : Round ChaincodeEvent K N) (p : K) (rels : List Release) (es : List ℤ)
        (x : Result (ℕ × Release) × World N)
        → Tells es x.1
        → Tells es (opened_events l api c ctx cp handle o r p rels x).1.1
    unfolding opened_events
    opened_events-Tells r p rels es (err e, w) h = h
    opened_events-Tells r p rels es (ok (upstream, rel), w) h = h

    events_round-Tells :
        (opts : List EventOption) (r : Round ChaincodeEvent K N) (s : Listener ChaincodeEvent H K)
        (x : List Release × World N)
        → Tells (ds ++ s.sleeps) x.1
        → let (v, s', x') = events_round l api c ctx cp handle o opts r s x in
          Tells (ds ++ s'.sleeps) x'.1
    unfolding events_round finish_events
    events_round-Tells opts r s (rels, w) h =
        let es = ds ++ s.sleeps in
        let first = released l api r.freed_first rels w in
        let opening = chaincode_events l api c ctx opts first.1 in
        let x = opened_events l api c ctx cp handle o r s.k first.0 opening in
        let told = opened_events-Tells r s.k first.0 es opening (
          chaincode_events-Steady l api (Tells es) (Tells-Steady es) c ctx opts _
            (released-Tells l api es r.freed_first rels w h)) in
        let awake =
          run_session-sleeps handle (checkpoint_event cp) o.min_backoff o.max_backoff x.0 s in
        log_events-Tells handle o r.ended r.slept _ _ (
          released-Tells l api es r.freed x.1.0 x.1.1 told
          ∙ ap (λ (y : List ℤ). ds ++ y) (sym awake))

  module _ (handle : Block → H → Option GoError × H) (tag : ℕ) (o : EventOptions) where
    blocks_body-sleeps :
        (r : Round Block K N) (s : Listener Block H K)
        (x : Option GoError × Listener Block H K × World N)
        → BlockOutcome (λ _ _. Unit) (blocks_body l api c ctx cp handle tag o r) s x
        → x.1.sleeps ≡ s.sleeps
    unfolding blocks_body
    blocks_body-sleeps r s (x, s', w') (inl (e, p, q)) = ap (λ (y : Listener Block H K). y.sleeps) q
    blocks_body-sleeps r s (x, s', w') (inr (upstream, w, _, p, q)) =
        ap (λ (y : Listener Block H K). y.sleeps) q
        ∙ block_session-sleeps handle (checkpoint_next cp) o.min_backoff o.max_backoff _
        ∙ run_session-sleeps handle (checkpoint_next cp) o.min_backoff o.max_backoff _ s

    blocks_round-Tells :
        (r : Round Block K N) (s : Listener Block H K) (w : World N)
        → Tells (ds ++ s.sleeps) w
        → let (v, s', w') = blocks_round l api c ctx cp handle tag o r s w in
          Tells (ds ++ s'.sleeps) w'
    unfolding blocks_round finish_blocks blocks_body
    blocks_round-Tells r s w h =
        let es = ds ++ s.sleeps in
        let body = blocks_body l api c ctx cp handle tag o r in
        let x = block_stream l api body c ctx tag o s w in
        let told =
          block_stream-Steady l api (Tells es) (Tells-Steady es) body (λ upstream s' w' g. g) c ctx
            tag o s w h in
        let awake = blocks_body-sleeps r s x (
          block_stream-BlockOutcome l api body (λ _ _. Unit) c ctx tag o s w (λ _ _ _ _ _ _. tt)) in
        log_blocks-Tells handle o r.ended r.slept (x.0, x.1) x.2
          (told ∙ ap (λ (y : List ℤ). ds ++ y) (sym awake))

module _ (l : Libs) {H K N : Type 0} (api : GatewayApi N) (c : Contract) (ctx : Ctx) (tag : ℕ)
    (opts : List EventOption) (h : H) (p : K) (w : World N) where
  -- A listener before its first round has not slept.
  awake : (A : Type 0) (lo : ℤ) → Tells (delays_in w.trace ++ (start {A = A} lo h p).sleeps) w
  awake A lo = sym (append-nil (delays_in w.trace))

  listen_chaincode_events-Tells :
      (cp : Option (Checkpointer K)) (f : Option (ChaincodeEvent → H → Option GoError × H))
      (rs : List (Round ChaincodeEvent K N))
      → let (v, s, x) = listen_chaincode_events l api c ctx tag opts cp f rs h p w in
        Tells (delays_in w.trace ++ s.sleeps) x.1
  unfolding listen_chaincode_events
  listen_chaincode_events-Tells (some cp) (some f) rs =
      let o = event_options c opts in
      let ds = delays_in w.trace in
      let more = opts ++ (with_checkpointer tag ∷ []) in
      loop_rounds-Tells (λ (x : List Release × World N). x.1) ds
        (events_round l api c ctx cp f o more) (events_round-Tells l api c ctx cp ds f o more) rs
        (start o.min_backoff h p) ([], w) (awake ChaincodeEvent o.min_backoff)
  listen_chaincode_events-Tells (some cp) none rs =
      awake ChaincodeEvent (event_options c opts).min_backoff
  listen_chaincode_events-Tells none f rs = awake ChaincodeEvent (event_options c opts).min_backoff

  listen_blocks-Tells :
      (cp : Option (Checkpointer K)) (f : Option (Block → H → Option GoError × H))
      (rs : List (Round Block K N))
      → let (v, s, w') = listen_blocks l api c ctx tag opts cp f rs h p w in
        Tells (delays_in w.trace ++ s.sleeps) w'
  unfolding listen_blocks
  listen_blocks-Tells (some cp) (some f) rs =
      let o = event_options c opts in
      let ds = delays_in w.trace in
      loop_rounds-Tells (λ (x : World N). x) ds (blocks_round l api c ctx cp f tag o)
        (blocks_round-Tells l api c ctx cp ds f tag o) rs (start o.min_backoff h p) w
        (awake Block o.min_backoff)
  listen_blocks-Tells (some cp) none rs = awake Block (event_options c opts).min_backoff
  listen_blocks-Tells none f rs = awake Block (event_options c opts).min_backoff

  -- `ListenChaincodeEvents` and `ListenBlocks` log one line for each of their sleeps, with its delay, in
  -- the order of the sleeps, and no other line about a stream, whatever happens in the given rounds,
  -- with or without a checkpointer and a handler.
  pub listeners-Tells :
      (cp : Option (Checkpointer K)) (on_event : Option (ChaincodeEvent → H → Option GoError × H))
      (on_block : Option (Block → H → Option GoError × H))
      (events : List (Round ChaincodeEvent K N)) (blocks : List (Round Block K N))
      → Tells
          (delays_in w.trace
            ++ (listen_chaincode_events l api c ctx tag opts cp on_event events h p w).1.sleeps)
          (listen_chaincode_events l api c ctx tag opts cp on_event events h p w).2.1
        × Tells
            (delays_in w.trace
              ++ (listen_blocks l api c ctx tag opts cp on_block blocks h p w).1.sleeps)
            (listen_blocks l api c ctx tag opts cp on_block blocks h p w).2
  listeners-Tells cp on_event on_block events blocks =
      (listen_chaincode_events-Tells cp on_event events, listen_blocks-Tells cp on_block blocks)
