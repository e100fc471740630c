-- ===== src/Listen/Rounds.antt =====
-- events.go: the two resilient listeners with the gateways that they open and the lines that they log.
-- A round is what the environment does in one round of the endless loop; Listen has the rest of it.
pub mod Loop
pub mod Turns
pub mod Open
pub mod Order
pub mod Delays
pub mod Logged
use fabricsdk.Base.{
  ℕ, Bool, true, false, Option, none, some, List, [], ◌∷◌, ◌++◌, ℤ, Text, codes, if◌then◌else◌,
}
use fabricsdk.GoError.{GoError}
use fabricsdk.Libs.{Libs}
use fabricsdk.Options.{Ctx}
use fabricsdk.Result.{Result, ok, err}
use fabricsdk.World.{GatewayApi, StreamOption, World, emit, stream_ended}
use fabricsdk.Contract.{Contract, Release, release}
use fabricsdk.Events.{ChaincodeEvent, EventOption, EventOptions, with_checkpointer, event_options}
use fabricsdk.Checkpoints.{Checkpointer, checkpoint_event, Block, checkpoint_next}
use fabricsdk.Listen.{
  Session, refused, streamed, Listener, Verdict, stop, again, Outcome, returned, running,
  run_session, after_events, block_session, after_blocks, blocking, marked, start, needs,
}
use fabricsdk.Streams.{chaincode_events, block_stream}

-- The environment in one round: the items that an upstream channel brings until the stream ends, from
-- the options that it was opened with, the state of the checkpointer and that of the network, with the
-- error that the stream then reports and the network after it; whether the caller's context has ended by
-- then; whether the sleep before the next round runs to its end; and which of the goroutines of
-- `ChaincodeEvents` that still hold a gateway give it back before the round opens a stream
-- (`freed_first`), and which before the round goes on after its stream (`freed`).
pub record Round (A K N : Type 0) : Type 0 where
  pub stream : List StreamOption → K → N → List A × Option GoError × N
  pub ended : Bool
  pub slept : Bool
  pub freed_first : List Bool
  pub freed : List Bool

-- The endless loop, for the rounds that are given.
unfoldable pub loop_rounds :
    {A H K N W : Type 0}
    → (Round A K N → Listener A H K → W → Verdict × Listener A H K × W)
    → List (Round A K N)
    → Listener A H K
    → W
    → Outcome × Listener A H K × W
loop_rounds round [] s w = (running, s, w)
loop_rounds round (r ∷ rs) s w =
    let (v, s', w') = round r s w in
    let rest = loop_rounds round rs s' w' in elim v [ stop x ↦ (returned x, s', w') | again ↦ rest ]

-- The goroutines of `ChaincodeEvents` that still hold a gateway, by their release functions: those
-- that are marked release, the others go on. `close(s.ch)` comes before the release and nothing waits for
-- it, so it may come at any time after the stream has ended, also after the listener has returned.
unfoldable pub released :
    (l : Libs) {N : Type 0} (api : GatewayApi N)
    → List Bool
    → List Release
    → World N
    → List Release × World N
released l api [] rels w = (rels, w)
released l api (b ∷ bs) [] w = ([], w)
released l api (true ∷ bs) (rel ∷ rels) w = released l api bs rels (release l api rel w)
released l api (false ∷ bs) (rel ∷ rels) w =
    let (rest, w') = released l api bs rels w in (rel ∷ rest, w')

module _ (l : Libs) {H K N : Type 0} (api : GatewayApi N) (c : Contract) (ctx : Ctx)
    (cp : Checkpointer K) where
  -- The line about a stream that ended, with an error or none, before the sleep.
  log_ended : {A : Type 0} → Option Text → Option GoError → Listener A H K → World N → World N
  log_ended name x s w =
      if blocking x then w else emit (stream_ended name (cp.block_number s.k) s.backoff) w

  -- `ListenChaincodeEvents` after the stream of a round: an error of the handler or the checkpointer
  -- returns without a line, and so does the end of the context.
  log_events :
      Text
      → Bool
      → Option GoError × Option GoError × Listener ChaincodeEvent H K
      → World N
      → World N
  unfolding log_ended
  log_events name ended (some e, x, s) w = w
  log_events name ended (none, x, s) w = if ended then w else log_ended (some name) x s w

  -- `ListenBlocks` after `blockSession`.
  log_blocks : Bool → Option GoError × Listener Block H K → World N → World N
  unfolding log_ended
  log_blocks ended (x, s) w =
      if ended then w else elim (marked x) [ some e ↦ w | none ↦ log_ended none x s w ]

  module _ (handle : ChaincodeEvent → H → Option GoError × H) (o : EventOptions) where
    -- The session of a round, on what `ChaincodeEvents` returned, with the world after it: the goroutine
    -- of a stream that has ended joins those that still hold a gateway.
    pub opened_events :
        Round ChaincodeEvent K N
        → K
        → List Release
        → Result (ℕ × Release) × World N
        → Session ChaincodeEvent × (List Release × World N)
    opened_events r k rels (err e, w) = (refused e, (rels, w))
    opened_events r k rels (ok (upstream, rel), w) =
        let (items, x, n) = r.stream (api.options_of upstream w.net) k w.net in
        (streamed items x, (rels ++ (rel ∷ []), record w { net = n }))

    finish_events :
        Round ChaincodeEvent K N
        → Listener ChaincodeEvent H K
        → Session ChaincodeEvent × (List Release × World N)
        → Verdict × Listener ChaincodeEvent H K × (List Release × World N)
    unfolding log_events released
    finish_events r s (session, (rels, w)) =
        let done = run_session handle (checkpoint_event cp) o.min_backoff o.max_backoff session s in
        let (v, s') =
          after_events handle (checkpoint_event cp) o.min_backoff o.max_backoff r.ended r.slept
            done in
        let (rels', w') = released l api r.freed rels w in
        (v, s', (rels', log_events o.chaincode r.ended done w'))

    -- A round of `ListenChaincodeEvents`, which adds the checkpointer to the options.
    pub events_round :
        List EventOption
        → Round ChaincodeEvent K N
        → Listener ChaincodeEvent H K
        → List Release × World N
        → Verdict × Listener ChaincodeEvent H K × (List Release × World N)
    unfolding opened_events finish_events released
    events_round opts r s (rels, w) =
        let (rels', w') = released l api r.freed_first rels w in
        finish_events r s (opened_events r s.k rels' (chaincode_events l api c ctx opts w'))

  module _ (handle : Block → H → Option GoError × H) (tag : ℕ) (o : EventOptions) where
    -- The loop over the blocks in `blockSession`, which returns nil at the end of the channel.
    pub blocks_body :
        Round Block K N
        → ℕ
        → Listener Block H K
        → World N
        → Option GoError × Listener Block H K × World N
    blocks_body r upstream s w =
        let (items, x, n) = r.stream (api.options_of upstream w.net) s.k w.net in
        let (e, s') = block_session handle (checkpoint_next cp) o.min_backoff o.max_backoff (
          run_session handle (checkpoint_next cp) o.min_backoff o.max_backoff (streamed items none)
            s) in
        (e, s', record w { net = n })

    finish_blocks :
        Round Block K N
        → Option GoError × Listener Block H K × World N
        → Verdict × Listener Block H K × World N
    unfolding log_blocks
    finish_blocks r (e, s, w) =
        let (v, s') =
          after_blocks handle (checkpoint_next cp) o.min_backoff o.max_backoff r.ended r.slept
            (e, s) in
        (v, s', log_blocks r.ended (e, s) w)

    -- A round of `ListenBlocks`.
    pub blocks_round :
        Round Block K N → Listener Block H K → World N → Verdict × Listener Block H K × World N
    unfolding blocks_body finish_blocks
    blocks_round r s w = finish_blocks r (block_stream l api (blocks_body r) c ctx tag o s w)

module _ (l : Libs) {H K N : Type 0} (api : GatewayApi N) (c : Contract) (ctx : Ctx) (tag : ℕ)
    (opts : List EventOption) where
  -- `ListenChaincodeEvents` and `ListenBlocks`; a nil checkpointer or handler is `none`, and `tag` is the
  -- checkpointer as an option has it. With the world, the goroutines that still hold a gateway when
  -- `ListenChaincodeEvents` returns.
  pub listen_chaincode_events :
      Option (Checkpointer K)
      → Option (ChaincodeEvent → H → Option GoError × H)
      → List (Round ChaincodeEvent K N)
      → H
      → K
      → World N
      → Outcome × Listener ChaincodeEvent H K × (List Release × World N)
  unfolding loop_rounds events_round
  listen_chaincode_events (some cp) (some handle) rs h k w =
      let o = event_options c opts in
      loop_rounds (events_round l api c ctx cp handle o (opts ++ (with_checkpointer tag ∷ []))) rs
        (start o.min_backoff h k) ([], w)
  listen_chaincode_events _ _ rs h k w = (
    returned (some (needs (codes "ListenChaincodeEvents"))),
    start (event_options c opts).min_backoff h k,
    ([], w),
  )

  pub listen_blocks :
      Option (Checkpointer K)
      → Option (Block → H → Option GoError × H)
      → List (Round Block K N)
      → H
      → K
      → World N
      → Outcome × Listener Block H K × World N
  unfolding loop_rounds blocks_round
  listen_blocks (some cp) (some handle) rs h k w =
      let o = event_options c opts in
      loop_rounds (blocks_round l api c ctx cp handle tag o) rs (start o.min_backoff h k) w
  listen_blocks _ _ rs h k w = (
    returned (some (needs (codes "ListenBlocks"))),
    start (event_options c opts).min_backoff h k,
    w,
  )
