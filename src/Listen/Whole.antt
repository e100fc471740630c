-- ===== src/Listen/Whole.antt =====
-- The two listeners as a whole, with the delays that their options give.
use fabricsdk.Base.{◌≡◌, Option, none, some, List, ◌∷◌, ltbℤ, All, false}
use fabricsdk.GoError.{GoError}
use fabricsdk.Contract.{Contract}
use fabricsdk.Events.{EventOption, event_options}
use fabricsdk.Events.Backoff.{InRange, max_delay, event_options-InRange}
use fabricsdk.Listen.{Turn, listen_chaincode_events, listen_blocks}
use fabricsdk.Listen.Order.{InOrder, Feeds, chaincode_events_loop-InOrder, blocks_loop-InOrder}
use fabricsdk.Listen.Pace.{chaincode_events_loop-sleeps}

module _ {A H K : Type 0} (c : Contract) (opts : List EventOption)
    (handle : A → H → Option GoError × H) (checkpoint : A → K → Option GoError × K) where
  module _ (rest : K → List A) (k0 : K)
      (records : (a : A) (as' : List A) (k k' : K)
        → rest k ≡ a ∷ as'
        → checkpoint a k ≡ (none, k')
        → rest k' ≡ as')
      (keeps : (a : A) (k k' : K) (e : GoError)
        → checkpoint a k ≡ (some e, k')
        → rest k' ≡ rest k) where
    -- If recording an item that follows the checkpoint moves the checkpoint behind that item, recording
    -- that fails leaves it where it is, and each
    -- stream delivers some of the items that follow the checkpoint that it is opened from, in order, then
    -- `ListenChaincodeEvents` passes the items that follow the first checkpoint to the handler in order,
    -- with none left out and none repeated, and its checkpoint is never ahead of what was handled,
    -- whenever the streams end and whatever the handler and the checkpointer refuse.
    pub listen_chaincode_events-InOrder :
        (ts : List (Turn A K)) (h : H)
        → All
            (Feeds handle checkpoint
              (event_options c opts).min_backoff
              (event_options c opts).max_backoff
              rest
              k0
              records
              keeps)
            ts
        → InOrder handle checkpoint
            (event_options c opts).min_backoff
            (event_options c opts).max_backoff
            rest
            k0
            records
            keeps
            (listen_chaincode_events c opts (some checkpoint) (some handle) ts h k0).1
    unfolding listen_chaincode_events
    listen_chaincode_events-InOrder ts h f =
        chaincode_events_loop-InOrder handle checkpoint (event_options c opts).min_backoff
          (event_options c opts).max_backoff rest k0 records keeps ts h f

    -- If recording a block that follows the checkpoint moves the checkpoint behind that block, recording
    -- that fails leaves it where it is, and each
    -- stream delivers some of the blocks that follow the checkpoint that it is opened from, in order, then
    -- `ListenBlocks` passes the blocks that follow the first checkpoint to the handler in order, with none
    -- left out and none repeated, and its checkpoint is never ahead of what was handled.
    pub listen_blocks-InOrder :
        (ts : List (Turn A K)) (h : H)
        → All
            (Feeds handle checkpoint
              (event_options c opts).min_backoff
              (event_options c opts).max_backoff
              rest
              k0
              records
              keeps)
            ts
        → InOrder handle checkpoint
            (event_options c opts).min_backoff
            (event_options c opts).max_backoff
            rest
            k0
            records
            keeps
            (listen_blocks c opts (some checkpoint) (some handle) ts h k0).1
    unfolding listen_blocks
    listen_blocks-InOrder ts h f =
        blocks_loop-InOrder handle checkpoint (event_options c opts).min_backoff
          (event_options c opts).max_backoff rest k0 records keeps ts h f

  -- Whatever the options say, every sleep of `ListenChaincodeEvents` is positive, at least the shortest
  -- delay that the options give and at most the longest, if that is at most about 146 years.
  pub listen_chaincode_events-sleeps :
      (ts : List (Turn A K)) (h : H) (k : K)
      → ltbℤ max_delay (event_options c opts).max_backoff ≡ false
      → All
          (InRange (event_options c opts).min_backoff (event_options c opts).max_backoff)
          (listen_chaincode_events c opts (some checkpoint) (some handle) ts h k).1.sleeps
  unfolding listen_chaincode_events
  listen_chaincode_events-sleeps ts h k small =
      chaincode_events_loop-sleeps handle checkpoint (event_options c opts).min_backoff
        (event_options c opts).max_backoff (event_options-InRange c opts) small ts h k
