-- ===== src/Submit/Typed.antt =====
-- The errors that transactions return.
use fabricsdk.Base.{ℕ, refl, Option, List, Text, if_intro}
use fabricsdk.Libs.{Libs}
use fabricsdk.Options.{CallOption, Ctx}
use fabricsdk.Result.{Result, ok, err}
use fabricsdk.World.{GatewayApi, CommitStatus, World}
use fabricsdk.Contract.{Contract, Release, gateway}
use fabricsdk.Contract.Typed.{Typed, gateway-Typed}
use fabricsdk.Submit.{
  PendingTx, TxResult, submitted, submit_transaction, endorsed, endorse_proposal, submit_gateway,
  submit_async, settled, status_known, wait_observed, wait, wait_dropping, submit_with, status_call,
}

module _ (l : Libs) {N : Type 0} (api : GatewayApi N) where
  submitted-Typed :
      (c : Contract) (fn txid : Text) (rel : Release) (start tx : ℕ) (r : Result ℕ × World N)
      → Typed (submitted l api c fn txid rel start tx r).0
  unfolding submitted
  submitted-Typed c fn txid rel start tx (ok commit, w) = tt
  submitted-Typed c fn txid rel start tx (err e, w) = (_, refl)

  endorsed-Typed :
      (c : Contract) (ctx : Option Ctx) (fn txid : Text) (rel : Release) (start : ℕ)
      (r : Result ℕ × World N)
      → Typed (endorsed l api c ctx fn txid rel start r).0
  unfolding endorsed submit_transaction
  endorsed-Typed c ctx fn txid rel start (ok tx, w) = submitted-Typed c fn txid rel _ tx _
  endorsed-Typed c ctx fn txid rel start (err e, w) = (_, refl)

  endorse_proposal-Typed :
      (c : Contract) (ctx : Option Ctx) (fn : Text) (rel : Release) (r : Result ℕ × World N)
      → Typed (endorse_proposal l api c ctx fn rel r).0
  unfolding endorse_proposal
  endorse_proposal-Typed c ctx fn rel (err e, w) = (_, refl)
  endorse_proposal-Typed c ctx fn rel (ok p, w) = endorsed-Typed c ctx fn _ rel _ _

  submit_gateway-Typed :
      (c : Contract) (ctx : Option Ctx) (fn : Text) (opts : List CallOption)
      (r : Result (ℕ × Release) × World N)
      → Typed r.0
      → Typed (submit_gateway l api c ctx fn opts r).0
  unfolding submit_gateway
  submit_gateway-Typed c ctx fn opts (err e, w) h = h
  submit_gateway-Typed c ctx fn opts (ok (gw, rel), w) h = endorse_proposal-Typed c ctx fn rel _

  pub submit_async-Typed :
      (c : Contract) (ctx : Option Ctx) (fn : Text) (opts : List CallOption) (w : World N)
      → Typed (submit_async l api c ctx fn opts w).0
  unfolding submit_async
  submit_async-Typed c ctx fn opts w =
      submit_gateway-Typed c ctx fn opts (gateway l api c w) (gateway-Typed l api c w)

  settled-Typed : (st : CommitStatus) (r : PendingTx × World N) → Typed (settled l api st r).0
  unfolding settled
  settled-Typed st (p, w) =
      if_intro (λ (r : Result TxResult × PendingTx × World N). Typed r.0) st.successful tt (_, refl)

  status_known-Typed :
      (p : PendingTx) (r : Result CommitStatus × World N) → Typed (status_known l api p r).0
  unfolding status_known
  status_known-Typed p (err e, w) = (_, refl)
  status_known-Typed p (ok st, w) = settled-Typed st _

  pub wait-Typed : (p : PendingTx) (ctx : Option Ctx) (w : World N) → Typed (wait l api p ctx w).0
  unfolding wait wait_observed
  wait-Typed p ctx w = status_known-Typed p (status_call l api p ctx w)

  pub submit_with-Typed :
      (c : Contract) (ctx : Option Ctx) (fn : Text) (opts : List CallOption) (w : World N)
      → Typed (submit_with l api c ctx fn opts w).0
  unfolding submit_with
  submit_with-Typed c ctx fn opts w = dropping _ (submit_async-Typed c ctx fn opts w)
    where
      dropping : (r : Result PendingTx × World N) → Typed r.0 → Typed (wait_dropping l api ctx r).0
      dropping (err e, v) h = h
      dropping (ok p, v) h = wait-Typed p ctx v
