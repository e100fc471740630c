-- ===== src/Examples/Listener/Ended.antt =====
-- How a run of the listener example ends.
use fabricsdk.Base.{
  ℕ, ◌≡◌, ◌⊎◌, inl, inr, Bool, true, false, Option, none, some, List, [], ◌∷◌, Text, exists,
}
use fabricsdk.GoError.{GoError}
use fabricsdk.Libs.{Libs}
use fabricsdk.Result.{Result, ok, err}
use fabricsdk.World.{GatewayApi, World}
use fabricsdk.Contract.{FabricClient, default_contract}
use fabricsdk.Identities.{FileSystem, Pki}
use fabricsdk.Events.{ChaincodeEvent, reconnectable, from_block}
use fabricsdk.Listen.{Turn, Listener, Outcome, returned, running}
use fabricsdk.Listen.Ends.{is_interrupted, OutcomeReason, Fails, listen_chaincode_events-Reason}
use fabricsdk.Checkpoints.{Checkpointer, checkpoint_event, new_file_checkpointer}
use fabricsdk.Client.{TlsLib, new}
use fabricsdk.Client.Lifecycle.{close-is_closed}
use fabricsdk.Client.Calls.{listen_chaincode_events}
use fabricsdk.Examples.{missing, required, config_from}
use fabricsdk.Examples.Listener.{
  Exit, finished, listening, not_set, not_connected, no_checkpoint, stopped, Run, print_event,
  on_returned, on_checkpointer, on_client, main, Line, listening_from,
}

module _ (l : Libs) {N : Type 0} (api : GatewayApi N) {K : Type 0} (cp : Checkpointer K) where
  -- Why it ends: by the context or a sleep that was cut short, with the client closed; or on an error of
  -- the checkpointer, or one after which the listener does not reconnect.
  abbrev pub Ended : Bool → Exit → World N → Type 0
  Ended interrupted finished w = (interrupted ≡ true) × (w.is_closed ≡ true)
  Ended interrupted (stopped e) w =
      ((ev : ChaincodeEvent) × (k : K) × ((checkpoint_event cp ev k).0 ≡ some e))
      ⊎ (reconnectable e ≡ false)
  Ended interrupted listening w = Unit
  Ended interrupted (not_set name) w = Unit
  Ended interrupted (not_connected e) w = Unit
  Ended interrupted (no_checkpoint e) w = Unit

  of_checkpointer :
      (e : GoError)
      → Fails print_event (checkpoint_event cp) e ⊎ (reconnectable e ≡ false)
      → ((ev : ChaincodeEvent) × (k : K) × ((checkpoint_event cp ev k).0 ≡ some e))
        ⊎ (reconnectable e ≡ false)
  unfolding print_event
  of_checkpointer e (inl (inl (a, h, p))) = absurd (cc)
  of_checkpointer e (inl (inr p)) = inl p
  of_checkpointer e (inr p) = inr p

  on_returned-Ended :
      (fc : FabricClient) (b : Bool) (o : Outcome × Listener ChaincodeEvent (List Line) K)
      (w : World N)
      → OutcomeReason print_event (checkpoint_event cp) b o
      → let r = on_returned l api cp fc o w in Ended b r.exit r.world
  unfolding on_returned
  on_returned-Ended fc b (running, s) w h = tt
  on_returned-Ended fc b (returned none, s) w h = (h, close-is_closed l api fc w)
  on_returned-Ended fc b (returned (some e), s) w h = of_checkpointer e h

  module _ (ts : List (Turn ChaincodeEvent K)) (k : K) where
    on_checkpointer-Ended :
        (fc : FabricClient) (file : Result ℕ) (w : World N)
        → let r = on_checkpointer l api cp ts k fc file w in
          Ended (exists is_interrupted ts) r.exit r.world
    unfolding on_checkpointer listen_chaincode_events
    on_checkpointer-Ended fc (err e) w = tt
    on_checkpointer-Ended fc (ok file) w = on_returned-Ended fc (exists is_interrupted ts) _ w (
        listen_chaincode_events-Reason print_event (checkpoint_event cp) (default_contract fc)
          (from_block 0 ∷ []) ts (listening_from (cp.block_number k) (cp.transaction_id k) ∷ []) k)

    on_client-Ended :
        (file : Result ℕ) (c : Result FabricClient × World N)
        → let r = on_client l api cp ts k file c in Ended (exists is_interrupted ts) r.exit r.world
    unfolding on_client
    on_client-Ended file (err e, w) = tt
    on_client-Ended file (ok fc, w) = on_checkpointer-Ended fc (new_file_checkpointer file) w

    -- The listener example returns from `main` only after a turn in which its context ended or its
    -- sleep was cut short, and then its client is closed; it stops on an error of its listener only if
    -- the checkpointer gave that error or the listener does not reconnect after it.
    pub main-Ended :
        (fs : FileSystem) (pki : Pki) (tls : TlsLib) (address : ℕ) (getenv : Text → Text)
        (file : Result ℕ) (w : World N)
        → let r = main l api cp ts k fs pki tls address getenv file w in
          Ended (exists is_interrupted ts) r.exit r.world
    unfolding main
    main-Ended fs pki tls address getenv file w = started (missing getenv required)
      where
        started :
            (m : Option Text)
            → let r = elim m as (λ _. Run N) [
              | some name ↦ record { exit = not_set name; printed = []; world = w }
              | none ↦
                  on_client l api cp ts k file (new l api fs pki tls address (config_from getenv) w)
            ] in
              Ended (exists is_interrupted ts) r.exit r.world
        started (some name) = tt
        started none = on_client-Ended file _
