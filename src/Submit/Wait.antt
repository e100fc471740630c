-- ===== src/Submit/Wait.antt =====
-- What `Wait` and `Submit` return for each answer to the question for the commit status.
use fabricsdk.Base.{◌≡◌, refl, true, Option, none, arith, if◌then◌else◌, if_cases}
use fabricsdk.GoError.{GoError, Error, boxed}
use fabricsdk.Libs.{Libs}
use fabricsdk.Kinds.{Phase}
use fabricsdk.Classify.{classified, commit_failure}
use fabricsdk.Classify.Outcome.{IsForeign, classified-open_after, classified-evidence}
use fabricsdk.Options.{Ctx}
use fabricsdk.Result.{Result, ok, err}
use fabricsdk.World.{GatewayApi, CommitStatus, World}
use fabricsdk.Submit.{
  PendingTx, TxResult, release_once, settled, status_known, wait_observed, wait, status_call,
}

module _ (l : Libs) {N : Type 0} (api : GatewayApi N) where
  pub wait-err :
      (p : PendingTx) (ctx : Option Ctx) (w : World N) {e : GoError}
      → (status_call l api p ctx w).0 ≡ err e
      → ((wait l api p ctx w).0 ≡ err (boxed (classified l e p.tx_id Phase.commit_status true)))
        × ((wait l api p ctx w).1 ≡ p)
  unfolding wait wait_observed
  wait-err p ctx w h = (rw (h, status_known) refl, rw (h, status_known) refl)

  -- If the question for the status fails, with no error of the package and no commit error in the
  -- failure, then `Wait` returns an error that is marked as open and has the transaction's ID. The
  -- pending transaction is unchanged, so `Wait` may be called again.
  pub wait-unanswered :
      (p : PendingTx) (ctx : Option Ctx) (w : World N) {e : GoError}
      → (status_call l api p ctx w).0 ≡ err e
      → IsForeign l e
      → (x : Error) × ((wait l api p ctx w).0 ≡ err (boxed x))
        × (x.outcome_unknown ≡ true)
        × (x.tx_id ≡ p.tx_id)
        × ((wait l api p ctx w).1 ≡ p)
  wait-unanswered p ctx w {e} h f = (
    classified l e p.tx_id Phase.commit_status true,
    (wait-err p ctx w h).0,
    classified-open_after l p.tx_id Phase.commit_status true f,
    (classified-evidence l p.tx_id Phase.commit_status true f).0,
    (wait-err p ctx w h).1,
  )

  release_once_keeps :
      (p : PendingTx) (w : World N)
      → ((release_once l api p w).0.once ≡ true)
        × ((release_once l api p w).0.tx_id ≡ p.tx_id)
        × ((release_once l api p w).0.payload ≡ p.payload)
  unfolding release_once
  release_once_keeps p w =
      if_cases
        (λ (x : PendingTx × World N).
          (x.0.once ≡ true) × (x.0.tx_id ≡ p.tx_id) × (x.0.payload ≡ p.payload))
        p.once (λ e. (e, refl, refl)) (λ e. (refl, refl, refl))

  -- The result of a commit whose status is known.
  abbrev pub outcome : PendingTx → CommitStatus → Result TxResult
  outcome p st =
      if st.successful
      then ok (record { tx_id = p.tx_id; block_number = st.block_number; payload = p.payload })
      else err (boxed (commit_failure l p.tx_id st.code none))

  settled-outcome :
      (st : CommitStatus) (p : PendingTx) (q : PendingTx × World N)
      → q.0.once ≡ true
      → q.0.tx_id ≡ p.tx_id
      → q.0.payload ≡ p.payload
      → ((settled l api st q).0 ≡ outcome p st) × ((settled l api st q).1.once ≡ true)
  unfolding settled
  settled-outcome st p (q, w) o t y = ground arith

  -- If the status is known `Wait` leaves the pending transaction marked as released, and returns the transaction with its block
  -- and payload if the commit was successful, and the commit failure by its code if not.
  pub wait-answered :
      (p : PendingTx) (ctx : Option Ctx) (w : World N) {st : CommitStatus}
      → (status_call l api p ctx w).0 ≡ ok st
      → ((wait l api p ctx w).0 ≡ outcome p st) × ((wait l api p ctx w).1.once ≡ true)
  unfolding wait wait_observed
  wait-answered p ctx w {st} h =
      let w' = (status_call l api p ctx w).1 in
      let (o, t, y) = release_once_keeps p w' in
      let (r, s) = settled-outcome st p (release_once l api p w') o t y in
      (rw (h, status_known) r, rw (h, status_known) s)
