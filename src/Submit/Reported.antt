-- ===== src/Submit/Reported.antt =====
-- The transaction that an error of a transaction names.
use fabricsdk.Base.{
  [], ◌∷◌, if_intro, ℕ, ◌≡◌, ◌⊎◌, refl, inl, inr, Bool, true, false, Option, none, List, Text,
}
use fabricsdk.GoError.{GoError, Error, as_error, boxed}
use fabricsdk.Kinds.{Phase, TxValidationCode}
use fabricsdk.Libs.{Libs}
use fabricsdk.Options.{args, CallOption, Ctx, proposal_options}
use fabricsdk.Result.{Result, ok, err}
use fabricsdk.World.{GatewayApi, CommitStatus, World}
use fabricsdk.Errors.{config_error}
use fabricsdk.Contract.{Contract, Release, gateway, target}
use fabricsdk.Contract.Typed.{Known, gateway-Known}
use fabricsdk.Classify.{classified, commit_failure}
use fabricsdk.Classify.Outcome.{classified-tx_id}
use fabricsdk.Submit.{
  submit, release_once, PendingTx, TxResult, submitted, submit_transaction, endorsed,
  endorse_proposal, submit_gateway, submit_async, settled, status_known, wait_observed, wait,
  wait_dropping, submit_with, status_call,
}

-- The gateway library has no error of this package in an error of its own.
pub record ForeignErrors {N : Type 0} (api : GatewayApi N) : Type 0 where
  pub endorse :
      (ctx : Ctx) (p : ℕ) (n : N) (e : GoError)
      → (api.endorse ctx p n).0 ≡ err e
      → as_error e ≡ none
  pub submit :
      (ctx : Ctx) (t : ℕ) (n : N) (e : GoError) → (api.submit ctx t n).0 ≡ err e → as_error e ≡ none
  pub commit_status :
      (ctx : Ctx) (c : ℕ) (n : N) (e : GoError)
      → (api.commit_status ctx c n).0 ≡ err e
      → as_error e ≡ none

-- A transaction ID of a proposal that the gateway library made for a call.
abbrev pub Proposed :
    {N : Type 0} → GatewayApi N → Contract → Text → List CallOption → Text → Type 0
Proposed {N} api c fn opts tx =
    (gw p : ℕ) × (n : N) × ((api.new_proposal gw (target c) fn (proposal_options opts) n).0 ≡ ok p)
    × (tx ≡ api.transaction_id p)

-- A result that is about one transaction, by the ID that a success has; an error is one of the package
-- whose outcome is known or which has the ID of such a transaction.
abbrev pub Reports : {A : Type 0} → (Text → Type 0) → (A → Text) → Result A → Type 0
Reports Tx id_of (ok a) = Tx (id_of a)
Reports Tx id_of (err e) = (x : Error) × (e ≡ boxed x) × ((x.outcome_unknown ≡ false) ⊎ Tx x.tx_id)

abbrev pub pending_id : PendingTx → Text
pending_id p = p.tx_id

abbrev pub result_id : TxResult → Text
result_id r = r.tx_id

commit_failure-tx_id :
    (l : Libs) (tx : Text) (code : TxValidationCode) (cause : Option GoError)
    → (commit_failure l tx code cause).tx_id ≡ tx
unfolding commit_failure
commit_failure-tx_id l tx code cause = refl

release_once-tx_id :
    (l : Libs) {N : Type 0} (api : GatewayApi N) (p : PendingTx) (w : World N)
    → (release_once l api p w).0.tx_id ≡ p.tx_id
unfolding release_once
release_once-tx_id l api p w =
    if_intro (λ (r : PendingTx × World _). r.0.tx_id ≡ p.tx_id) p.once refl refl

module _ (l : Libs) {N : Type 0} (api : GatewayApi N) (foreign : ForeignErrors api) where
  boxed-Reports :
      {A : Type 0} (Tx : Text → Type 0) (id_of : A → Text) (e : GoError) (tx : Text) (ph : Phase)
      (strict : Bool)
      → Tx tx
      → as_error e ≡ none
      → Reports Tx id_of (err (boxed (classified l e tx ph strict)))
  boxed-Reports Tx id_of e tx ph strict h n = (
    classified l e tx ph strict,
    refl,
    elim (classified-tx_id l e tx ph strict n) [ inl k ↦ inl k | inr same ↦ inr (rw same h) ],
  )

  module _ (Tx : Text → Type 0) where
    submitted-Reports :
        (c : Contract) (fn txid : Text) (rel : Release) (start tx : ℕ) (r : Result ℕ × World N)
        → Tx txid
        → ((e : GoError) → r.0 ≡ err e → as_error e ≡ none)
        → Reports Tx pending_id (submitted l api c fn txid rel start tx r).0
    unfolding submitted
    submitted-Reports c fn txid rel start tx (ok commit, w) h f = h
    submitted-Reports c fn txid rel start tx (err e, w) h f =
        boxed-Reports Tx pending_id e txid Phase.submit c.fc.cfg.strict_error_codes h (f e refl)

    endorsed-Reports :
        (c : Contract) (ctx : Option Ctx) (fn txid : Text) (rel : Release) (start : ℕ)
        (r : Result ℕ × World N)
        → Tx txid
        → ((e : GoError) → r.0 ≡ err e → as_error e ≡ none)
        → Reports Tx pending_id (endorsed l api c ctx fn txid rel start r).0
    unfolding endorsed submit_transaction
    endorsed-Reports c ctx fn txid rel start (ok tx, w) h f =
        submitted-Reports c fn txid rel _ tx _ h (λ e. foreign.submit _ tx _ e)
    endorsed-Reports c ctx fn txid rel start (err e, w) h f =
        boxed-Reports Tx pending_id e txid Phase.endorse c.fc.cfg.strict_error_codes h (f e refl)

  endorse_proposal-Reports :
      (c : Contract) (ctx : Option Ctx) (fn : Text) (opts : List CallOption) (gw : ℕ) (n : N)
      (rel : Release) (r : Result ℕ × World N)
      → (api.new_proposal gw (target c) fn (proposal_options opts) n).0 ≡ r.0
      → Reports (Proposed api c fn opts) pending_id (endorse_proposal l api c ctx fn rel r).0
  unfolding endorse_proposal config_error
  endorse_proposal-Reports c ctx fn opts gw n rel (err e, w) h = (config_error e, refl, inl refl)
  endorse_proposal-Reports c ctx fn opts gw n rel (ok p, w) h =
      endorsed-Reports (Proposed api c fn opts) c ctx fn (api.transaction_id p) rel _ _
        (gw, p, n, h, refl) (λ e. foreign.endorse _ p _ e)

  submit_gateway-Reports :
      (c : Contract) (ctx : Option Ctx) (fn : Text) (opts : List CallOption)
      (r : Result (ℕ × Release) × World N)
      → Known r.0
      → Reports (Proposed api c fn opts) pending_id (submit_gateway l api c ctx fn opts r).0
  unfolding submit_gateway
  submit_gateway-Reports c ctx fn opts (err e, w) (x, b, k) = (x, b, inl k)
  submit_gateway-Reports c ctx fn opts (ok (gw, rel), w) h =
      endorse_proposal-Reports c ctx fn opts gw w.net rel _ refl

  submit_async-Reports :
      (c : Contract) (ctx : Option Ctx) (fn : Text) (opts : List CallOption) (w : World N)
      → Reports (Proposed api c fn opts) pending_id (submit_async l api c ctx fn opts w).0
  unfolding submit_async
  submit_async-Reports c ctx fn opts w =
      submit_gateway-Reports c ctx fn opts (gateway l api c w) (gateway-Known l api c w)

  module _ (Tx : Text → Type 0) where
    settled-Reports :
        (st : CommitStatus) (r : PendingTx × World N)
        → Tx r.0.tx_id
        → Reports Tx result_id (settled l api st r).0
    unfolding settled
    settled-Reports st (p, w) h =
        if_intro (λ (r : Result TxResult × PendingTx × World N). Reports Tx result_id r.0)
          st.successful h (_, refl, inr (rw (commit_failure-tx_id l p.tx_id st.code none) h))

    status_known-Reports :
        (p : PendingTx) (r : Result CommitStatus × World N)
        → Tx p.tx_id
        → ((e : GoError) → r.0 ≡ err e → as_error e ≡ none)
        → Reports Tx result_id (status_known l api p r).0
    unfolding status_known release_once
    status_known-Reports p (err e, w) h f =
        boxed-Reports Tx result_id e p.tx_id Phase.commit_status true h (f e refl)
    status_known-Reports p (ok st, w) h f =
        settled-Reports st (release_once l api p w) (rw (release_once-tx_id l api p w) h)

    wait-Reports :
        (p : PendingTx) (ctx : Option Ctx) (w : World N)
        → Tx p.tx_id
        → Reports Tx result_id (wait l api p ctx w).0
    unfolding wait wait_observed
    wait-Reports p ctx w h =
        status_known-Reports p (status_call l api p ctx w) h
          (λ e. foreign.commit_status _ p.commit _ e)

    wait_dropping-Reports :
        (ctx : Option Ctx) (r : Result PendingTx × World N)
        → Reports Tx pending_id r.0
        → Reports Tx result_id (wait_dropping l api ctx r).0
    unfolding wait_dropping
    wait_dropping-Reports ctx (err e, v) h = h
    wait_dropping-Reports ctx (ok p, v) h = wait-Reports p ctx v h

  -- If the gateway library has no error of the package in an error of its own then each outcome of
  -- `Submit` can be looked up: a result has the ID of a proposal that was made for the call, and an error
  -- is one of the package whose outcome is known, or which has the ID of such a proposal.
  pub submit_with-Reports :
      (c : Contract) (ctx : Option Ctx) (fn : Text) (opts : List CallOption) (w : World N)
      → Reports (Proposed api c fn opts) result_id (submit_with l api c ctx fn opts w).0
  unfolding submit_with
  submit_with-Reports c ctx fn opts w =
      wait_dropping-Reports (Proposed api c fn opts) ctx _ (submit_async-Reports c ctx fn opts w)

  pub submit-Reports :
      (c : Contract) (ctx : Option Ctx) (fn : Text) (xs : List Text) (w : World N)
      → Reports (Proposed api c fn (args xs ∷ [])) result_id (submit l api c ctx fn xs w).0
  unfolding submit
  submit-Reports c ctx fn xs w = submit_with-Reports c ctx fn (args xs ∷ []) w
