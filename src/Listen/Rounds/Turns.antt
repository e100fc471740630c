-- ===== src/Listen/Rounds/Turns.antt =====
-- The rounds of a listener are turns: what it decides and passes on is what Listen says of these.
use mathlib.Core.Path.{subst}
use fabricsdk.Base.{ℕ, ◌≡◌, refl, inl, inr, Option, none, some, List, [], ◌∷◌, ◌++◌}
use fabricsdk.GoError.{GoError}
use fabricsdk.Libs.{Libs}
use fabricsdk.Options.{Ctx}
use fabricsdk.Result.{Result, ok, err}
use fabricsdk.World.{GatewayApi, StreamOption, World}
use fabricsdk.Contract.{Contract, Release}
use fabricsdk.Events.{ChaincodeEvent, EventOption, EventOptions, with_checkpointer, event_options}
use fabricsdk.Checkpoints.{Checkpointer, checkpoint_event, Block, checkpoint_next}
use fabricsdk.Listen.{
  Session, refused, streamed, Turn, Listener, Verdict, stop, again, Outcome, returned, running,
  start, listen, events_turn, blocks_turn, run_session, after_blocks, block_session,
  chaincode_events_loop, blocks_loop,
}
use fabricsdk.Streams.{block_stream, start_option, checkpoint_option}
use fabricsdk.Streams.Asked.{
  OptionsLaws, Asked, asked_by, event_options-with_checkpointer, chaincode_events-Asked,
}
use fabricsdk.Streams.Returned.{BlockOutcome, block_stream-BlockOutcome}
use fabricsdk.Listen
use fabricsdk.Listen.Rounds.Loop.{Induced, AllInduced, Alike, Follows, at_pair, loop_rounds-Alike}
use fabricsdk.Listen.Rounds.{
  Round, released, opened_events, finish_events, events_round, blocks_body, finish_blocks,
  blocks_round, listen_chaincode_events, listen_blocks,
}

module _ (l : Libs) {H K N : Type 0} (api : GatewayApi N) (laws : OptionsLaws api) (c : Contract)
    (ctx : Ctx) (cp : Checkpointer K) where
  module _ (handle : ChaincodeEvent → H → Option GoError × H) (opts : List EventOption)
      (o : EventOptions) where
    opened_events-Induced :
        (asked : List StreamOption) (r : Round ChaincodeEvent K N) (rels : List Release)
        (x : Result (ℕ × Release) × World N)
        → Asked api asked x
        → Induced asked r (record {
          session = λ k. (opened_events l api c ctx cp handle o r k rels x).0;
          ended = r.ended;
          slept = r.slept;
        })
    unfolding opened_events
    opened_events-Induced asked r rels (err e, w) h = record {
      ended = refl;
      slept = refl;
      session = inl (e, λ k. refl);
    }
    opened_events-Induced asked r rels (ok (upstream, rel), w) h = record {
      ended = refl;
      slept = refl;
      session = inr (w.net, (λ k. (r.stream asked k w.net).1), λ k. rw h refl);
    }

    events_round-Follows :
        Follows
          (let o' = event_options c opts in
            start_option o'.start_block ++ checkpoint_option o'.checkpoint)
          (events_round l api c ctx cp handle o opts)
          (events_turn handle (checkpoint_event cp) o.min_backoff o.max_backoff)
    unfolding events_round finish_events events_turn
    events_round-Follows r s (rels, w) =
        let first = released l api r.freed_first rels w in
        (
          _,
          opened_events-Induced _ r first.0 _
              (chaincode_events-Asked l api laws c ctx opts first.1),
          refl,
          refl,
        )

  module _ (handle : Block → H → Option GoError × H) (tag : ℕ) (o : EventOptions) where
    finish_blocks-Induced :
        (r : Round Block K N) (s : Listener Block H K)
        (x : Option GoError × Listener Block H K × World N)
        → BlockOutcome
            (λ up n. api.options_of up n ≡ asked_by o.start_block tag)
            (blocks_body l api c ctx cp handle tag o r)
            s
            x
        → (t : Turn Block K) × Induced (asked_by o.start_block tag) r t
          × ((blocks_turn handle (checkpoint_next cp) o.min_backoff o.max_backoff t s).0
              ≡ (finish_blocks l api c ctx cp handle tag o r x).0)
          × ((blocks_turn handle (checkpoint_next cp) o.min_backoff o.max_backoff t s).1
              ≡ (finish_blocks l api c ctx cp handle tag o r x).1)
    unfolding finish_blocks blocks_turn run_session block_session blocks_body
    finish_blocks-Induced r s (x, s', w') (inl (e, p, q)) = (
      record { session = λ _. refused e; ended = r.ended; slept = r.slept },
      record { ended = refl; slept = refl; session = inl (e, λ k. refl) },
      at_pair
          (λ y.
            (after_blocks handle (checkpoint_next cp) o.min_backoff o.max_backoff r.ended r.slept
              y).0)
          p q,
      at_pair
          (λ y.
            (after_blocks handle (checkpoint_next cp) o.min_backoff o.max_backoff r.ended r.slept
              y).1)
          p q,
    )
    finish_blocks-Induced r s (x, s', w') (inr (upstream, w, h, p, q)) = (
      record {
        session = λ k. streamed (r.stream (api.options_of upstream w.net) k w.net).0 none;
        ended = r.ended;
        slept = r.slept;
      },
      record { ended = refl; slept = refl; session = inr (w.net, (λ _. none), λ k. rw h refl) },
      at_pair
          (λ y.
            (after_blocks handle (checkpoint_next cp) o.min_backoff o.max_backoff r.ended r.slept
              y).0)
          p q,
      at_pair
          (λ y.
            (after_blocks handle (checkpoint_next cp) o.min_backoff o.max_backoff r.ended r.slept
              y).1)
          p q,
    )

    blocks_round-Follows :
        Follows
          (asked_by o.start_block tag)
          (blocks_round l api c ctx cp handle tag o)
          (blocks_turn handle (checkpoint_next cp) o.min_backoff o.max_backoff)
    unfolding blocks_round
    blocks_round-Follows r s w =
        finish_blocks-Induced r s
          (block_stream l api (blocks_body l api c ctx cp handle tag o r) c ctx tag o s w)
          (block_stream-BlockOutcome l api (blocks_body l api c ctx cp handle tag o r)
            (λ up n. api.options_of up n ≡ asked_by o.start_block tag) c ctx tag o s w
            (λ ctx' gw channel n. laws.block_events ctx' gw channel _ n))

module _ (l : Libs) {H K N : Type 0} (api : GatewayApi N) (laws : OptionsLaws api) (c : Contract)
    (ctx : Ctx) (tag : ℕ) (opts : List EventOption) (cp : Checkpointer K) (h : H) (k : K)
    (w : World N) where
  -- `ListenChaincodeEvents` in a world is `ListenChaincodeEvents` on turns, in each of which the stream
  -- is refused, or brings what the stream of the round brings on the options with the start block and
  -- the checkpointer of the listener.
  pub listen_chaincode_events-Alike :
      (handle : ChaincodeEvent → H → Option GoError × H) (rs : List (Round ChaincodeEvent K N))
      → (ts : List (Turn ChaincodeEvent K)) × AllInduced
          (asked_by (event_options c opts).start_block tag)
          rs
          ts
        × Alike
            (fabricsdk.Listen.listen_chaincode_events c opts
              (some (checkpoint_event cp))
              (some handle)
              ts
              h
              k)
            (listen_chaincode_events l api c ctx tag opts (some cp) (some handle) rs h k w)
  unfolding listen_chaincode_events fabricsdk.Listen.listen_chaincode_events chaincode_events_loop
  listen_chaincode_events-Alike handle rs =
      let o = event_options c opts in
      loop_rounds-Alike (asked_by o.start_block tag)
        (events_round l api c ctx cp handle o (opts ++ (with_checkpointer tag ∷ [])))
        (events_turn handle (checkpoint_event cp) o.min_backoff o.max_backoff)
        (subst
          (λ (y : List StreamOption).
            Follows y (events_round l api c ctx cp handle o (opts ++ (with_checkpointer tag ∷ [])))
              (events_turn handle (checkpoint_event cp) o.min_backoff o.max_backoff))
          (event_options-with_checkpointer c opts tag)
          (events_round-Follows l api laws c ctx cp handle (opts ++ (with_checkpointer tag ∷ []))
            o))
        rs (start o.min_backoff h k) ([], w)

  -- The same of `ListenBlocks`, where a stream brings blocks.
  pub listen_blocks-Alike :
      (handle : Block → H → Option GoError × H) (rs : List (Round Block K N))
      → (ts : List (Turn Block K)) × AllInduced
          (asked_by (event_options c opts).start_block tag)
          rs
          ts
        × Alike
            (fabricsdk.Listen.listen_blocks c opts (some (checkpoint_next cp)) (some handle) ts h k)
            (listen_blocks l api c ctx tag opts (some cp) (some handle) rs h k w)
  unfolding listen_blocks fabricsdk.Listen.listen_blocks blocks_loop
  listen_blocks-Alike handle rs =
      let o = event_options c opts in
      loop_rounds-Alike (asked_by o.start_block tag) (blocks_round l api c ctx cp handle tag o)
        (blocks_turn handle (checkpoint_next cp) o.min_backoff o.max_backoff)
        (blocks_round-Follows l api laws c ctx cp handle tag o) rs (start o.min_backoff h k) w
