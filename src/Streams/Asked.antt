-- ===== src/Streams/Asked.antt =====
-- The options that streams are opened with.
use fabricsdk.Base.{ℕ, ◌≡◌, refl, Option, none, List, [], ◌∷◌, ◌++◌, Text, if_intro, ltbℤ, pos}
use fabricsdk.Libs.{Libs}
use fabricsdk.Options.{Ctx}
use fabricsdk.Result.{Result, ok, err}
use fabricsdk.World.{GatewayApi, StreamOption, with_checkpoint, World}
use fabricsdk.Contract.{Contract, Release}
use fabricsdk.Events.{
  EventOptions, EventOption, with_checkpointer, apply_event_option, apply_event_options, fix_min,
  fix_max, chosen_options, event_options, second,
}
use fabricsdk.Streams.{start_option, checkpoint_option, subscribed, subscribe, chaincode_events}

-- What the gateway library says of `options_of`.
pub record OptionsLaws {N : Type 0} (api : GatewayApi N) : Type 0 where
  pub chaincode_events :
      (ctx : Ctx) (gw : ℕ) (channel name : Text) (opts : List StreamOption) (n : N) (up : ℕ)
      → (api.chaincode_events ctx gw channel name opts n).0 ≡ ok up
      → api.options_of up (api.chaincode_events ctx gw channel name opts n).1 ≡ opts
  pub block_events :
      (ctx : Ctx) (gw : ℕ) (channel : Text) (opts : List StreamOption) (n : N) (up : ℕ)
      → (api.block_events ctx gw channel opts n).0 ≡ ok up
      → api.options_of up (api.block_events ctx gw channel opts n).1 ≡ opts

-- A subscription, if there is one, has these options.
abbrev pub Asked :
    {N : Type 0} (api : GatewayApi N) → List StreamOption → Result (ℕ × Release) × World N → Type 0
Asked api asked (ok (up, rel), w) = api.options_of up w.net ≡ asked
Asked api asked (err e, w) = Unit

-- The options of a listener, which adds its checkpointer to them.
abbrev pub asked_by : Option ℕ → ℕ → List StreamOption
asked_by start tag = start_option start ++ (with_checkpoint tag ∷ [])

apply_event_options-concat :
    (fs gs : List EventOption) (o : EventOptions)
    → apply_event_options (fs ++ gs) o ≡ apply_event_options gs (apply_event_options fs o)
unfolding apply_event_options
apply_event_options-concat [] gs o = refl
apply_event_options-concat (f ∷ fs) gs o = apply_event_options-concat fs gs _

-- Options with the same position of a stream.
abbrev SamePosition : EventOptions → EventOptions → Type 0
SamePosition o o' = (o.start_block ≡ o'.start_block) × (o.checkpoint ≡ o'.checkpoint)

fix_min-SamePosition : (o : EventOptions) → SamePosition (fix_min o) o
unfolding fix_min
fix_min-SamePosition o =
    if_intro (λ x. SamePosition x o) (ltbℤ (pos 0) o.min_backoff) (refl, refl) (refl, refl)

fix_max-SamePosition : (o o' : EventOptions) → SamePosition o o' → SamePosition (fix_max o) o'
unfolding fix_max
fix_max-SamePosition o o' h =
    if_intro (λ x. SamePosition x o') (ltbℤ o.max_backoff o.min_backoff) h h

-- The corrections of the delays leave the position of a stream as it is.
event_options-SamePosition :
    (c : Contract) (opts : List EventOption)
    → SamePosition (event_options c opts) (chosen_options c opts)
unfolding event_options
event_options-SamePosition c opts =
    fix_max-SamePosition (fix_min (chosen_options c opts)) (chosen_options c opts)
      (fix_min-SamePosition (chosen_options c opts))

-- The last checkpointer counts, and the start block stays.
pub event_options-with_checkpointer :
    (c : Contract) (opts : List EventOption) (tag : ℕ)
    → let o = event_options c (opts ++ (with_checkpointer tag ∷ [])) in
      start_option o.start_block ++ checkpoint_option o.checkpoint
      ≡ asked_by (event_options c opts).start_block tag
unfolding chosen_options apply_event_options apply_event_option
event_options-with_checkpointer c opts tag =
    let more = opts ++ (with_checkpointer tag ∷ []) in
    let (s, p) = event_options-SamePosition c more in
    let (s', _) = event_options-SamePosition c opts in
    let split = apply_event_options-concat opts (with_checkpointer tag ∷ []) (record {
      start_block = none;
      checkpoint = none;
      chaincode = c.chaincode;
      min_backoff = second;
      max_backoff = pos 30_000_000_000;
    }) in
    rw s (rw p (rw s' (rw split refl)))

module _ (l : Libs) {N : Type 0} (api : GatewayApi N) (laws : OptionsLaws api) where
  subscribed-Asked :
      (asked : List StreamOption) (rel : Release) (r : Result ℕ × World N)
      → ((up : ℕ) → r.0 ≡ ok up → api.options_of up r.1.net ≡ asked)
      → Asked api asked (subscribed l api rel r)
  unfolding subscribed
  subscribed-Asked asked rel (ok up, w) f = f up refl
  subscribed-Asked asked rel (err e, w) f = tt

  subscribe-Asked :
      (c : Contract) (ctx : Ctx) (o : EventOptions) (r : Result (ℕ × Release) × World N)
      → Asked api
          (start_option o.start_block ++ checkpoint_option o.checkpoint)
          (subscribe l api c ctx o r)
  unfolding subscribe
  subscribe-Asked c ctx o (err e, w) = tt
  subscribe-Asked c ctx o (ok (gw, rel), w) =
      subscribed-Asked _ rel _ (laws.chaincode_events ctx gw c.channel o.chaincode _ w.net)

  pub chaincode_events-Asked :
      (c : Contract) (ctx : Ctx) (opts : List EventOption) (w : World N)
      → let o = event_options c opts in
        Asked api
          (start_option o.start_block ++ checkpoint_option o.checkpoint)
          (chaincode_events l api c ctx opts w)
  unfolding chaincode_events
  chaincode_events-Asked c ctx opts w = subscribe-Asked c ctx (event_options c opts) _
