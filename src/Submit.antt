-- ===== src/Submit.antt =====
-- contract.go: transactions. `SubmitAsync` endorses and orders, `Wait` waits for the commit, `Submit`
-- does both.
pub mod Balance
pub mod Wait
pub mod Once
pub mod Sent
pub mod Dropped
pub mod Typed
pub mod Reported
pub mod Threads
use fabricsdk.Base.{
  ℕ, Bool, true, false, Option, none, some, List, [], ◌∷◌, ◌++◌, Text, if◌then◌else◌,
}
use fabricsdk.GoError.{GoError, boxed}
use fabricsdk.Kinds.{Phase}
use fabricsdk.Errors.{config_error}
use fabricsdk.Libs.{Libs}
use fabricsdk.Classify.{classified, commit_failure}
use fabricsdk.Observe.{Op}
use fabricsdk.Options.{CallOption, args, proposal_options, Ctx, with_default_timeout}
use fabricsdk.Result.{Result, ok, err, error_of}
use fabricsdk.World.{GatewayApi, CommitStatus, Event, committed, World, emit, lift}
use fabricsdk.Contract.{Contract, Release, target, gateway, release, observe, now}

-- `PendingTx`; `once` tells whether the release function has run. The mutex makes `Wait` one step.
pub record PendingTx : Type 0 where
  pub tx_id : Text
  pub payload : Text
  pub c : Contract
  pub fn : Text
  pub commit : ℕ
  pub rel : Release
  pub once : Bool

-- `TxResult`.
pub record TxResult : Type 0 where
  pub tx_id : Text
  pub block_number : ℕ
  pub payload : Text

module _ (l : Libs) {N : Type 0} (api : GatewayApi N) where
  -- The end of `SubmitAsync`, on the orderer's answer; `tx` is the endorsed transaction.
  submitted :
      Contract → Text → Text → Release → ℕ → ℕ → Result ℕ × World N → Result PendingTx × World N
  submitted c fn txid rel start tx (ok commit, w) = (
    ok (record {
      tx_id = txid;
      payload = api.payload tx;
      c = c;
      fn = fn;
      commit = commit;
      rel = rel;
      once = false;
    }),
    observe l api c Op.submit fn txid start none w,
  )
  submitted c fn txid rel start tx (err e, w) =
      let f = boxed (classified l e txid Phase.submit c.fc.cfg.strict_error_codes) in
      (err f, release l api rel (observe l api c Op.submit fn txid start (some f) w))

  submit_transaction :
      Contract → Option Ctx → Text → Text → Release → ℕ → World N → Result PendingTx × World N
  unfolding submitted
  submit_transaction c ctx fn txid rel tx w =
      let sctx = with_default_timeout (now l api w) ctx c.fc.cfg.submit_timeout in
      submitted c fn txid rel (now l api w) tx (lift (api.submit sctx tx) w)

  -- On the peers' answer.
  endorsed :
      Contract
      → Option Ctx
      → Text
      → Text
      → Release
      → ℕ
      → Result ℕ × World N
      → Result PendingTx × World N
  unfolding submit_transaction
  endorsed c ctx fn txid rel start (ok tx, w) =
      submit_transaction c ctx fn txid rel tx (observe l api c Op.endorse fn txid start none w)
  endorsed c ctx fn txid rel start (err e, w) =
      let f = boxed (classified l e txid Phase.endorse c.fc.cfg.strict_error_codes) in
      (err f, release l api rel (observe l api c Op.endorse fn txid start (some f) w))

  endorse_proposal :
      Contract → Option Ctx → Text → Release → Result ℕ × World N → Result PendingTx × World N
  unfolding endorsed
  endorse_proposal c ctx fn rel (err e, w) = (err (boxed (config_error e)), release l api rel w)
  endorse_proposal c ctx fn rel (ok p, w) =
      let ectx = with_default_timeout (now l api w) ctx c.fc.cfg.endorse_timeout in
      endorsed c ctx fn (api.transaction_id p) rel (now l api w) (lift (api.endorse ectx p) w)

  submit_gateway :
      Contract
      → Option Ctx
      → Text
      → List CallOption
      → Result (ℕ × Release) × World N
      → Result PendingTx × World N
  unfolding endorse_proposal
  submit_gateway c ctx fn opts (err e, w) = (err e, w)
  submit_gateway c ctx fn opts (ok (gw, rel), w) =
      endorse_proposal c ctx fn rel
        (lift (api.new_proposal gw (target c) fn (proposal_options opts)) w)

  -- `SubmitAsync`: a failure releases the gateway, success leaves that to the pending transaction.
  unfoldable pub submit_async :
      Contract → Option Ctx → Text → List CallOption → World N → Result PendingTx × World N
  unfolding submit_gateway
  submit_async c ctx fn opts w = submit_gateway c ctx fn opts (gateway l api c w)

  -- `p.once.Do(p.release)`, which is also the method `Release`.
  unfoldable pub release_once : PendingTx → World N → PendingTx × World N
  release_once p w = if p.once then (p, w) else (record p { once = true }, release l api p.rel w)

  -- On a known status, with the gateway released.
  settled : CommitStatus → PendingTx × World N → Result TxResult × PendingTx × World N
  settled st (p, w) =
      if st.successful
      then (
        ok (record { tx_id = p.tx_id; block_number = st.block_number; payload = p.payload }),
        p,
        emit (committed p.fn p.tx_id st.block_number) w,
      )
      else (err (boxed (commit_failure l p.tx_id st.code none)), p, w)

  status_known : PendingTx → Result CommitStatus × World N → Result TxResult × PendingTx × World N
  unfolding settled release_once
  status_known p (err e, w) = (err (boxed (classified l e p.tx_id Phase.commit_status true)), p, w)
  status_known p (ok st, w) = settled st (release_once p w)

  wait_observed :
      PendingTx → ℕ → Result TxResult × PendingTx × World N → Result TxResult × PendingTx × World N
  wait_observed p start (r, p', w) =
      (r, p', observe l api p.c Op.commit p.fn p.tx_id start (error_of r) w)

  -- The answer to `StatusWithContext`.
  abbrev pub status_call : PendingTx → Option Ctx → World N → Result CommitStatus × World N
  status_call p ctx w =
      lift
        (api.commit_status (with_default_timeout (now l api w) ctx p.c.fc.cfg.commit_status_timeout)
          p.commit)
        w

  -- `Wait`: the result, the pending transaction afterwards, and the world.
  unfoldable pub wait : PendingTx → Option Ctx → World N → Result TxResult × PendingTx × World N
  unfolding status_known wait_observed
  wait p ctx w = wait_observed p (now l api w) (status_known p (status_call p ctx w))

  wait_dropping : Option Ctx → Result PendingTx × World N → Result TxResult × World N
  wait_dropping ctx (err e, w) = (err e, w)
  wait_dropping ctx (ok p, w) = let (r, p', w') = wait p ctx w in (r, w')

  -- `SubmitWith`: the pending transaction is dropped after one `Wait`.
  unfoldable pub submit_with :
      Contract → Option Ctx → Text → List CallOption → World N → Result TxResult × World N
  unfolding wait_dropping
  submit_with c ctx fn opts w = wait_dropping ctx (submit_async c ctx fn opts w)

  -- `Submit`.
  unfoldable pub submit :
      Contract → Option Ctx → Text → List Text → World N → Result TxResult × World N
  submit c ctx fn xs = submit_with c ctx fn (args xs ∷ [])
