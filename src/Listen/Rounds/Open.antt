-- ===== src/Listen/Rounds/Open.antt =====
-- The gateways that the listeners open, and those that their goroutines still hold, over any rounds.
use fabricsdk.Base.{
  ℕ, ◌+◌, ◌≡◌, true, false, arith, Bool, Option, none, some, List, [], ◌∷◌, ◌++◌, Text, if_intro,
}
use fabricsdk.GoError.{GoError}
use fabricsdk.Libs.{Libs}
use fabricsdk.Observe.{CallInfo}
use fabricsdk.Options.{Ctx}
use fabricsdk.Result.{Result, ok, err}
use fabricsdk.World.{GatewayApi, World}
use fabricsdk.World.Open.{Shows, Shows-net, Shows-eq, emit-stream_ended}
use fabricsdk.Contract.{Contract, Release, release}
use fabricsdk.Contract.Evaluate.{GatewayPost, holds, release-open}
use fabricsdk.Events.{ChaincodeEvent, EventOption, EventOptions, event_options, with_checkpointer}
use fabricsdk.Checkpoints.{Checkpointer, Block}
use fabricsdk.Listen.{Listener, Verdict, stop, again, Outcome, returned, blocking, marked, start}
use fabricsdk.Streams.{block_stream}
use fabricsdk.Streams.Returned.{chaincode_events-GatewayPost, block_stream-Shows}
use fabricsdk.Listen.Rounds.{
  Round, released, loop_rounds, log_ended, log_events, log_blocks, opened_events, finish_events,
  events_round, blocks_body, finish_blocks, blocks_round, listen_chaincode_events, listen_blocks,
}

-- A loop keeps what its rounds keep.
loop_rounds-keeps :
    {A H K N W : Type 0} (P : W → Type 0)
    (round : Round A K N → Listener A H K → W → Verdict × Listener A H K × W)
    → ((r : Round A K N) (s : Listener A H K) (w : W) → P w → P (round r s w).2)
    → (rs : List (Round A K N)) (s : Listener A H K) (w : W) → P w
    → P (loop_rounds round rs s w).2
unfolding loop_rounds
loop_rounds-keeps P round keep [] s w h = h
loop_rounds-keeps P round keep (r ∷ rs) s w h =
    verdict P (round r s w) _ (keep r s w h)
      (loop_rounds-keeps P round keep rs (round r s w).1 (round r s w).2 (keep r s w h))
  where
    verdict :
        {A H K W : Type 0} (P : W → Type 0) (x : Verdict × Listener A H K × W)
        (next : Outcome × Listener A H K × W)
        → P x.2
        → P next.2
        → P
            (elim x.0 as (λ _. Outcome × Listener A H K × W) [
              | stop y ↦ (returned y, x.1, x.2)
              | again ↦ next
            ]).2
    verdict P (stop y, s, w) next p q = p
    verdict P (again, s, w) next p q = q

-- The gateways that goroutines hold, by their release functions.
abbrev pub held_by : List Release → ℕ
held_by [] = 0
held_by (rel ∷ rels) = holds rel + held_by rels

-- The world once all of them have released.
pub all_released : (l : Libs) {N : Type 0} (api : GatewayApi N) → List Release → World N → World N
all_released l api [] w = w
all_released l api (rel ∷ rels) w = all_released l api rels (release l api rel w)

-- The gateways of the goroutines are open beside the `k` of before.
abbrev pub Holding : {N : Type 0} → ℕ → List CallInfo → List Release × World N → Type 0
Holding k cs (rels, w) = Shows (k + held_by rels) cs w

held_by-concat :
    (rels : List Release) (rel : Release) → held_by (rels ++ (rel ∷ [])) ≡ held_by rels + holds rel
held_by-concat [] rel = omega arith
held_by-concat (r ∷ rels) rel = omega (arith, held_by-concat rels rel)

module _ (l : Libs) {N : Type 0} (api : GatewayApi N) (cs : List CallInfo) where
  released-Holding :
      (k : ℕ) (bs : List Bool) (rels : List Release) (w : World N)
      → Holding k cs (rels, w)
      → Holding k cs (released l api bs rels w)
  unfolding released
  released-Holding k [] rels w h = h
  released-Holding k (b ∷ bs) [] w h = h
  released-Holding k (true ∷ bs) (rel ∷ rels) w h =
      released-Holding k bs rels _ (release-open l api rel (Shows-eq (omega arith) h))
  released-Holding k (false ∷ bs) (rel ∷ rels) w h =
      Shows-eq (omega arith) (released-Holding (k + holds rel) bs rels w (Shows-eq (omega arith) h))

  all_released-Shows :
      (k : ℕ) (rels : List Release) (w : World N)
      → Holding k cs (rels, w)
      → Shows k cs (all_released l api rels w)
  unfolding all_released
  all_released-Shows k [] w h = Shows-eq (omega arith) h
  all_released-Shows k (rel ∷ rels) w h =
      all_released-Shows k rels _ (release-open l api rel (Shows-eq (omega arith) h))

module _ (l : Libs) {H K N : Type 0} (api : GatewayApi N) (c : Contract) (ctx : Ctx)
    (cp : Checkpointer K) (k : ℕ) (cs : List CallInfo) where
  log_ended-Shows :
      {A : Type 0} (name : Option Text) (x : Option GoError) (s : Listener A H K) (w : World N)
      → Shows k cs w
      → Shows k cs (log_ended l api c ctx cp name x s w)
  unfolding log_ended
  log_ended-Shows name x s w h =
      if_intro (Shows k cs) (blocking x) h
        (emit-stream_ended name (cp.block_number s.k) s.backoff h)

  log_events-Shows :
      (name : Text) (ended : Bool)
      (x : Option GoError × Option GoError × Listener ChaincodeEvent H K) (w : World N)
      → Shows k cs w
      → Shows k cs (log_events l api c ctx cp name ended x w)
  unfolding log_events
  log_events-Shows name ended (some e, x, s) w h = h
  log_events-Shows name ended (none, x, s) w h =
      if_intro (Shows k cs) ended h (log_ended-Shows (some name) x s w h)

  log_marked :
      (m x : Option GoError) (s : Listener Block H K) (w : World N)
      → Shows k cs w
      → Shows k cs (elim m [ some e ↦ w | none ↦ log_ended l api c ctx cp none x s w ])
  log_marked none x s w h = log_ended-Shows none x s w h
  log_marked (some e) x s w h = h

  log_blocks-Shows :
      (ended : Bool) (x : Option GoError × Listener Block H K) (w : World N)
      → Shows k cs w
      → Shows k cs (log_blocks l api c ctx cp ended x w)
  unfolding log_blocks
  log_blocks-Shows ended (x, s) w h = if_intro (Shows k cs) ended h (log_marked (marked x) x s w h)

module _ (l : Libs) {H K N : Type 0} (api : GatewayApi N) (c : Contract) (ctx : Ctx)
    (cp : Checkpointer K) (k : ℕ) (cs : List CallInfo) where
  module _ (handle : ChaincodeEvent → H → Option GoError × H) (o : EventOptions) where
    opened_events-Holding :
        (r : Round ChaincodeEvent K N) (p : K) (rels : List Release)
        (x : Result (ℕ × Release) × World N)
        → GatewayPost (k + held_by rels) cs x
        → Holding k cs (opened_events l api c ctx cp handle o r p rels x).1
    unfolding opened_events
    opened_events-Holding r p rels (err e, w) h = h
    opened_events-Holding r p rels (ok (upstream, rel), w) h =
        Shows-eq (omega (arith, held_by-concat rels rel)) (Shows-net h)

    events_round-Holding :
        (opts : List EventOption) (r : Round ChaincodeEvent K N) (s : Listener ChaincodeEvent H K)
        (x : List Release × World N)
        → Holding k cs x
        → Holding k cs (events_round l api c ctx cp handle o opts r s x).2
    unfolding events_round finish_events
    events_round-Holding opts r s (rels, w) h =
        let first = released l api r.freed_first rels w in
        log_events-Shows l api c ctx cp _ cs o.chaincode r.ended _ _ (
          released-Holding l api cs k r.freed _ _ (
            opened_events-Holding r s.k first.0 _ (
              chaincode_events-GatewayPost l api (k + held_by first.0) cs c ctx opts first.1
                (released-Holding l api cs k r.freed_first rels w h))))

  module _ (handle : Block → H → Option GoError × H) (tag : ℕ) (o : EventOptions) where
    blocks_round-Shows :
        (r : Round Block K N) (s : Listener Block H K) (w : World N)
        → Shows k cs w
        → Shows k cs (blocks_round l api c ctx cp handle tag o r s w).2
    unfolding blocks_round finish_blocks blocks_body
    blocks_round-Shows r s w h =
        let body = blocks_body l api c ctx cp handle tag o r in
        let x = block_stream l api body c ctx tag o s w in
        log_blocks-Shows l api c ctx cp k cs r.ended (x.0, x.1) x.2
          (block_stream-Shows l api k cs body (λ j upstream ds s' w' g. Shows-net g) c ctx tag o s w
            h)

module _ (l : Libs) {H K N : Type 0} (api : GatewayApi N) (c : Contract) (ctx : Ctx) (tag : ℕ)
    (opts : List EventOption) (k : ℕ) (cs : List CallInfo) where
  listen_chaincode_events-Holding :
      (cp : Option (Checkpointer K)) (f : Option (ChaincodeEvent → H → Option GoError × H))
      (rs : List (Round ChaincodeEvent K N)) (h : H) (p : K) (w : World N)
      → Shows k cs w
      → Holding k cs (listen_chaincode_events l api c ctx tag opts cp f rs h p w).2
  unfolding listen_chaincode_events
  listen_chaincode_events-Holding (some cp) (some f) rs h p w g =
      let o = event_options c opts in
      loop_rounds-keeps (Holding k cs)
        (events_round l api c ctx cp f o (opts ++ (with_checkpointer tag ∷ [])))
        (events_round-Holding l api c ctx cp k cs f o (opts ++ (with_checkpointer tag ∷ []))) rs
        (start o.min_backoff h p) ([], w) (Shows-eq (omega arith) g)
  listen_chaincode_events-Holding (some cp) none rs h p w g = Shows-eq (omega arith) g
  listen_chaincode_events-Holding none f rs h p w g = Shows-eq (omega arith) g

  listen_blocks-Shows :
      (cp : Option (Checkpointer K)) (f : Option (Block → H → Option GoError × H))
      (rs : List (Round Block K N)) (h : H) (p : K) (w : World N)
      → Shows k cs w
      → Shows k cs (listen_blocks l api c ctx tag opts cp f rs h p w).2
  unfolding listen_blocks
  listen_blocks-Shows (some cp) (some f) rs h p w g =
      let o = event_options c opts in
      loop_rounds-keeps (Shows k cs) (blocks_round l api c ctx cp f tag o)
        (blocks_round-Shows l api c ctx cp k cs f tag o) rs (start o.min_backoff h p) w g
  listen_blocks-Shows (some cp) none rs h p w g = g
  listen_blocks-Shows none f rs h p w g = g

  -- However the streams, the checkpointer and the handler come out in the given rounds, and also without
  -- a checkpointer or a handler: when `ListenChaincodeEvents` returns, the gateways that are open beside
  -- those of before are exactly those that the goroutines of its ended streams have still to release,
  -- and none is left once they all have, whenever each of them did; `ListenBlocks` leaves as many
  -- gateways open as there were; and the observer hears of no call.
  pub listeners-Shows :
      (cp : Option (Checkpointer K)) (on_event : Option (ChaincodeEvent → H → Option GoError × H))
      (on_block : Option (Block → H → Option GoError × H))
      (events : List (Round ChaincodeEvent K N)) (blocks : List (Round Block K N)) (h : H) (p : K)
      (w : World N)
      → Shows k cs w
      → let (v, s, (rels, w')) =
          listen_chaincode_events l api c ctx tag opts cp on_event events h p w in
        Shows (k + held_by rels) cs w'
        × Shows k cs (all_released l api rels w')
        × Shows k cs (listen_blocks l api c ctx tag opts cp on_block blocks h p w).2
  listeners-Shows cp on_event on_block events blocks h p w g =
      let held = listen_chaincode_events-Holding cp on_event events h p w g in
      (held, all_released-Shows l api cs k _ _ held, listen_blocks-Shows cp on_block blocks h p w g)
