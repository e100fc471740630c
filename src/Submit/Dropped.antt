-- ===== src/Submit/Dropped.antt =====
-- `Submit`, which drops the pending transaction after one `Wait`.
use mathlib.Core.Path.{subst}
use fabricsdk.Base.{
  ℕ, ◌+◌, ◌≡◌, refl, ◌∙◌, ◌⊎◌, true, false, inl, inr, Option, List, [], ◌∷◌, ◌++◌, arith, Text,
}
use fabricsdk.GoError.{GoError}
use fabricsdk.Libs.{Libs}
use fabricsdk.Options.{CallOption, Ctx}
use fabricsdk.Result.{Result, ok, err}
use fabricsdk.Observe.{CallInfo}
use fabricsdk.World.{GatewayApi, CommitStatus, World}
use fabricsdk.World.Open.{Shows, Shows-eq}
use fabricsdk.Contract.{gateway, Contract}
use fabricsdk.Contract.Evaluate.{holds}
use fabricsdk.Submit.{
  submit_gateway, PendingTx, TxResult, submit_async, wait, wait_dropping, submit_with, status_call,
}
use fabricsdk.Submit.Balance.{held, wait-Shows, submit_async-AsyncPost, Refused, AsyncPost}
use fabricsdk.Submit.Wait.{wait-err, wait-answered}

Result-cases : {A : Type 0} (r : Result A) → ((a : A) × (r ≡ ok a)) ⊎ ((e : GoError) × (r ≡ err e))
Result-cases (ok a) = inl (a, refl)
Result-cases (err e) = inr (e, refl)

module _ (l : Libs) {N : Type 0} (api : GatewayApi N) where
  -- A success of `Wait` comes from a successful status.
  pub wait-ok :
      (p : PendingTx) (ctx : Option Ctx) (w : World N) (t : TxResult)
      → (wait l api p ctx w).0 ≡ ok t
      → (st : CommitStatus) × ((status_call l api p ctx w).0 ≡ ok st)
        × (st.successful ≡ true)
        × (t.tx_id ≡ p.tx_id)
        × (t.block_number ≡ st.block_number)
        × (t.payload ≡ p.payload)
  wait-ok p ctx w t h = elim (Result-cases (status_call l api p ctx w).0) [
    | inl (st, a) ↦
        let (o, _) = wait-answered l api p ctx w a in
        (st, a, ground (arith, o), ground (arith, o), ground (arith, o), ground (arith, o))
    | inr (e, a) ↦ absurd (cc (wait-err l api p ctx w a).0)
  ]

  wait_dropping-ok :
      (ctx : Option Ctx) (r : Result PendingTx × World N) (t : TxResult)
      → (wait_dropping l api ctx r).0 ≡ ok t
      → (p : PendingTx) × (r.0 ≡ ok p) × ((wait l api p ctx r.1).0 ≡ ok t)
  unfolding wait_dropping
  wait_dropping-ok ctx (err e, w) t h = absurd (cc)
  wait_dropping-ok ctx (ok p, w) t h = (p, refl, h)

  -- `Submit` returns a result only for a transaction that was ordered and whose status the network
  -- reports as successful, with that transaction's ID and payload and the block of the status.
  pub submit_with-ok :
      (c : Contract) (ctx : Option Ctx) (fn : Text) (opts : List CallOption) (w : World N)
      (t : TxResult)
      → (submit_with l api c ctx fn opts w).0 ≡ ok t
      → (p : PendingTx) × (st : CommitStatus) × ((submit_async l api c ctx fn opts w).0 ≡ ok p)
        × ((status_call l api p ctx (submit_async l api c ctx fn opts w).1).0 ≡ ok st)
        × (st.successful ≡ true)
        × (t.tx_id ≡ p.tx_id)
        × (t.block_number ≡ st.block_number)
        × (t.payload ≡ p.payload)
  unfolding submit_with
  submit_with-ok c ctx fn opts w t h =
      let (p, a, b) = wait_dropping-ok ctx (submit_async l api c ctx fn opts w) t h in
      let (st, s, y, i, n, d) = wait-ok p ctx (submit_async l api c ctx fn opts w).1 t b in
      (p, st, a, s, y, i, n, d)

  submit_with-held :
      (k : ℕ) (cs : List CallInfo) (c : Contract) (ctx : Option Ctx) (fn : Text)
      (opts : List CallOption) (w w' : World N) (p : PendingTx)
      → Shows k cs w
      → submit_async l api c ctx fn opts w ≡ (ok p, w')
      → (ds : List CallInfo) × Shows
          (k + held (wait l api p ctx w').1)
          ds
          (submit_with l api c ctx fn opts w).1
        × ((submit_with l api c ctx fn opts w).0 ≡ (wait l api p ctx w').0)
        × (p.once ≡ false)
  unfolding submit_with wait_dropping
  submit_with-held k cs c ctx fn opts w w' p h a =
      let (i, j, s, o, _, _, _, _) =
        subst (AsyncPost (Refused l api c fn opts w) k cs) a
          (submit_async-AsyncPost l api k cs c ctx fn opts h) in
      let (n, s', _, _, _) = wait-Shows l api k p ctx (Shows-eq (ground arith) s) in
      ((cs ++ (i ∷ j ∷ [])) ++ (n ∷ []), rw a s', rw a refl, o)

  -- After a submission that was ordered and whose commit status is known, `Submit` leaves as many
  -- gateways open as there were.
  pub submit_with-closed :
      (k : ℕ) (cs : List CallInfo) (c : Contract) (ctx : Option Ctx) (fn : Text)
      (opts : List CallOption) (w w' : World N) (p : PendingTx) (st : CommitStatus)
      → Shows k cs w
      → submit_async l api c ctx fn opts w ≡ (ok p, w')
      → (status_call l api p ctx w').0 ≡ ok st
      → (ds : List CallInfo) × Shows k ds (submit_with l api c ctx fn opts w).1
  submit_with-closed k cs c ctx fn opts w w' p st h a y =
      let (ds, s, _, _) = submit_with-held k cs c ctx fn opts w w' p h a in
      (ds, Shows-eq (ground (arith, (wait-answered l api p ctx w' y).1)) s)

  -- After a submission that was ordered and for which the question for the commit status failed,
  -- `Submit` returns an error, and the gateway that the pending transaction would release is still
  -- open, though the pending transaction has been dropped.
  pub submit_with-left_open :
      (k : ℕ) (cs : List CallInfo) (c : Contract) (ctx : Option Ctx) (fn : Text)
      (opts : List CallOption) (w w' : World N) (p : PendingTx) (e : GoError)
      → Shows k cs w
      → submit_async l api c ctx fn opts w ≡ (ok p, w')
      → (status_call l api p ctx w').0 ≡ err e
      → (ds : List CallInfo) × Shows (k + holds p.rel) ds (submit_with l api c ctx fn opts w).1
        × ((x : GoError) × ((submit_with l api c ctx fn opts w).0 ≡ err x))
  submit_with-left_open k cs c ctx fn opts w w' p e h a y =
      let (ds, s, r, o) = submit_with-held k cs c ctx fn opts w w' p h a in
      let (r', same) = wait-err l api p ctx w' y in
      (ds, Shows-eq (ground (arith, same, o)) s, (_, r ∙ r'))

  pub submit-refused :
      (c : Contract) (ctx : Option Ctx) (fn : Text) (opts : List CallOption) (e : GoError)
      (w : World N)
      → gateway l api c w ≡ (err e, w)
      → (submit_async l api c ctx fn opts w ≡ (err e, w))
        × (submit_with l api c ctx fn opts w ≡ (err e, w))
  unfolding submit_async submit_with submit_gateway wait_dropping
  submit-refused c ctx fn opts e w h = rw h (refl, refl)
