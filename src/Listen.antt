-- ===== src/Listen.antt =====
-- events.go: the two resilient listeners. The items are chaincode events or blocks; the handler, the
-- checkpointer and the streams are the caller's and the gateway's. One turn is one round of the
-- endless loop; a list of turns says what the environment does in each.
pub mod Order
pub mod Pace
pub mod Whole
pub mod Ends
pub mod Rounds
pub mod Sleep
pub mod Awake
use fabricsdk.Base.{
  ℕ, Bool, true, false, not, Option, none, some, List, [], ◌∷◌, ◌++◌, ℤ, if◌then◌else◌, Text, codes,
}
use fabricsdk.GoError.{GoError, handler, find, to_handler, boxed}
use fabricsdk.Errors.{config_error}
use fabricsdk.Config.{new_go_error}
use fabricsdk.Contract.{Contract}
use fabricsdk.Events.{EventOption, event_options, reconnectable, next_backoff}

-- What opening a stream comes to: a refusal, or the items that it delivers until it ends, with the
-- error that it then reports.
pub data Session (A : Type 0) : Type 0 where
  refused : GoError → Session A
  streamed : List A → Option GoError → Session A

-- The environment in one turn: the stream opened from a checkpoint, whether the caller's context has
-- ended when the stream has, and whether the sleep before the next turn runs to its end.
pub record Turn (A K : Type 0) : Type 0 where
  pub session : K → Session A
  pub ended : Bool
  pub slept : Bool

-- The state of a listener: the handler's, the checkpointer's, the items passed to the handler, the
-- items recorded at the checkpointer, the backoff, and the sleeps so far.
pub record Listener (A H K : Type 0) : Type 0 where
  pub h : H
  pub k : K
  pub delivered : List A
  pub recorded : List A
  pub backoff : ℤ
  pub sleeps : List ℤ

-- What a turn decides: to return, or to go on.
pub data Verdict : Type 0 where
  stop : Option GoError → Verdict
  again : Verdict

pub data Outcome : Type 0 where
  returned : Option GoError → Outcome
  running : Outcome

-- `err != nil && !reconnectable(err)`
abbrev blocking : Option GoError → Bool
blocking none = false
blocking (some e) = not (reconnectable e)

-- `errors.As(err, &herr)`
abbrev marked : Option GoError → Option GoError
marked none = none
marked (some e) = find to_handler e

-- After the checkpoint of an item that was handled; a success resets the backoff.
recorded_item :
    {A H K : Type 0} → ℤ → A → Listener A H K → Option GoError × K → Option GoError × Listener A H K
recorded_item lo a s (some e, k) = (some e, record s { k = k })
recorded_item lo a s (none, k) =
    (none, record s { k = k; recorded = s.recorded ++ (a ∷ []); backoff = lo })

-- After a stream has ended with an error or none, in a context that is still active: `err != nil &&
-- !reconnectable(err)` returns, and so does a sleep that is cut short; else the backoff is doubled.
retry : {A H K : Type 0} → ℤ → Bool → Option GoError → Listener A H K → Verdict × Listener A H K
retry hi slept err s =
    let asleep = record s { sleeps = s.sleeps ++ (s.backoff ∷ []) } in
    if blocking err
    then (stop err, s)
    else if not slept
    then (stop none, asleep)
    else (again, record asleep { backoff = next_backoff hi s.backoff })

module _ {A H K : Type 0} (handle : A → H → Option GoError × H)
    (checkpoint : A → K → Option GoError × K) (lo hi : ℤ) where
  -- After the handler: an error stops without a checkpoint.
  handled_item : A → Listener A H K → Option GoError × H → Option GoError × Listener A H K
  unfolding recorded_item
  handled_item a s (some e, h) = (some e, record s { h = h; delivered = s.delivered ++ (a ∷ []) })
  handled_item a s (none, h) =
      recorded_item lo a (record s { h = h; delivered = s.delivered ++ (a ∷ []) })
        (checkpoint a s.k)

  -- The loop over the items of a stream; it gives the error of the handler or the checkpointer.
  unfoldable pub deliver : List A → Listener A H K → Option GoError × Listener A H K
  unfolding handled_item
  deliver [] s = (none, s)
  deliver (a ∷ as') s =
      let (e, s') = handled_item a s (handle a s.h) in
      let rest = deliver as' s' in elim e [ some x ↦ (some x, s') | none ↦ rest ]

  -- A stream: the error that stops at once, if any, and the error of the stream.
  pub run_session : Session A → Listener A H K → Option GoError × Option GoError × Listener A H K
  unfolding deliver
  run_session (refused e) s = (none, some e, s)
  run_session (streamed items err) s = let (x, s') = deliver items s in (x, err, s')

  -- The end of a round of `ListenChaincodeEvents`.
  after_events :
      Bool → Bool → Option GoError × Option GoError × Listener A H K → Verdict × Listener A H K
  unfolding retry
  after_events ended slept (some e, err, s) = (stop (some e), s)
  after_events ended slept (none, err, s) = if ended then (stop none, s) else retry hi slept err s

  -- The end of `blockSession`: an error of the handler or the checkpointer is marked as such.
  pub block_session :
      Option GoError × Option GoError × Listener A H K → Option GoError × Listener A H K
  block_session (some e, err, s) = (some (handler e), s)
  block_session (none, err, s) = (err, s)

  -- The end of a round of `ListenBlocks`.
  after_blocks : Bool → Bool → Option GoError × Listener A H K → Verdict × Listener A H K
  unfolding retry
  after_blocks ended slept (err, s) =
      if ended
      then (stop none, s)
      else elim (marked err) [ some e ↦ (stop (some e), s) | none ↦ retry hi slept err s ]

  unfoldable pub events_turn : Turn A K → Listener A H K → Verdict × Listener A H K
  unfolding run_session after_events
  events_turn t s = after_events t.ended t.slept (run_session (t.session s.k) s)

  unfoldable pub blocks_turn : Turn A K → Listener A H K → Verdict × Listener A H K
  unfolding run_session block_session after_blocks
  blocks_turn t s = after_blocks t.ended t.slept (block_session (run_session (t.session s.k) s))

-- The endless loop, for the turns that are given.
unfoldable pub listen :
    {A H K : Type 0}
    → (Turn A K → Listener A H K → Verdict × Listener A H K)
    → List (Turn A K)
    → Listener A H K
    → Outcome × Listener A H K
listen turn [] s = (running, s)
listen turn (t ∷ ts) s =
    let (v, s') = turn t s in
    let rest = listen turn ts s' in elim v [ stop r ↦ (returned r, s') | again ↦ rest ]

-- A listener before its first turn.
abbrev pub start : {A H K : Type 0} → ℤ → H → K → Listener A H K
start lo h k = record { h = h; k = k; delivered = []; recorded = []; backoff = lo; sleeps = [] }

module _ {A H K : Type 0} (handle : A → H → Option GoError × H)
    (checkpoint : A → K → Option GoError × K) (lo hi : ℤ) where
  -- The loops of `ListenChaincodeEvents` and `ListenBlocks`, with their shortest and longest delay.
  unfoldable pub chaincode_events_loop : List (Turn A K) → H → K → Outcome × Listener A H K
  unfolding listen events_turn
  chaincode_events_loop ts h k = listen (events_turn handle checkpoint lo hi) ts (start lo h k)

  unfoldable pub blocks_loop : List (Turn A K) → H → K → Outcome × Listener A H K
  unfolding listen blocks_turn
  blocks_loop ts h k = listen (blocks_turn handle checkpoint lo hi) ts (start lo h k)

-- The error for a nil argument.
abbrev pub needs : Text → GoError
needs name =
    boxed (config_error (new_go_error (name ++ codes " needs a checkpointer and a handler")))

module _ {A H K : Type 0} (c : Contract) (opts : List EventOption) where
  -- `ListenChaincodeEvents` and `ListenBlocks`; a nil checkpointer or handler is `none`.
  unfoldable pub listen_chaincode_events :
      Option (A → K → Option GoError × K)
      → Option (A → H → Option GoError × H)
      → List (Turn A K)
      → H
      → K
      → Outcome × Listener A H K
  unfolding chaincode_events_loop
  listen_chaincode_events (some cp) (some handle) ts h k =
      let o = event_options c opts in
      chaincode_events_loop handle cp o.min_backoff o.max_backoff ts h k
  listen_chaincode_events _ _ ts h k = (
    returned (some (needs (codes "ListenChaincodeEvents"))),
    start (event_options c opts).min_backoff h k,
  )

  unfoldable pub listen_blocks :
      Option (A → K → Option GoError × K)
      → Option (A → H → Option GoError × H)
      → List (Turn A K)
      → H
      → K
      → Outcome × Listener A H K
  unfolding blocks_loop
  listen_blocks (some cp) (some handle) ts h k =
      let o = event_options c opts in blocks_loop handle cp o.min_backoff o.max_backoff ts h k
  listen_blocks _ _ ts h k =
      (returned (some (needs (codes "ListenBlocks"))), start (event_options c opts).min_backoff h k)
