-- ===== src/Submit/Sent.antt =====
-- How many requests a submission sends to the ordering service.
use fabricsdk.Base.{ℕ, ◌+◌, ◌≤◌, ◌≡◌, refl, ap, ◌∙◌, Option, some, List, Text, if_intro, arith}
use fabricsdk.Libs.{Libs}
use fabricsdk.Observe.{CallInfo}
use fabricsdk.Options.{CallOption, Ctx}
use fabricsdk.Result.{Result, ok, err}
use fabricsdk.World.{GatewayApi, CommitStatus, World}
use fabricsdk.World.Open.{Shows}
use fabricsdk.Contract.{Contract, Release, observe}
use fabricsdk.GoError.{boxed}
use fabricsdk.Kinds.{Phase}
use fabricsdk.Classify.{classified}
use fabricsdk.Observe.{Op}
use fabricsdk.Contract.Sent.{Counts, gateway-Sent, release-Sent, observe-Sent}
use fabricsdk.Submit.{
  PendingTx, TxResult, submitted, submit_transaction, endorsed, endorse_proposal, submit_gateway,
  submit_async, release_once, settled, status_known, wait_observed, wait, wait_dropping,
  submit_with,
}
use fabricsdk.Submit.Once.{SubmitPost, submit_with-SubmitPost}

module _ (l : Libs) {N : Type 0} (api : GatewayApi N) (sent : N → ℕ) (counts : Counts api sent)
    (k : ℕ) where
  -- `k` requests have been sent.
  abbrev Sent : ℕ → World N → Type 0
  Sent j w = sent w.net ≡ j

  -- After `k` requests a call has sent one more, if it returns a result, and else at most one more.
  abbrev pub SentPost : {A : Type 0} → Result A × World N → Type 0
  SentPost (ok x, w) = sent w.net ≡ k + 1
  SentPost (err e, w) = (n : ℕ) × (sent w.net ≡ k + n) × (n ≤ 1)

  submitted-Sent :
      (c : Contract) (fn txid : Text) (rel : Release) (start tx : ℕ) (r : Result ℕ × World N)
      → Sent (k + 1) r.1
      → SentPost (submitted l api c fn txid rel start tx r)
  unfolding submitted
  submitted-Sent c fn txid rel start tx (ok commit, w) h =
      observe-Sent l api sent counts (k + 1) c _ _ _ _ _ w h
  submitted-Sent c fn txid rel start tx (err e, w) h = (
    1,
    release-Sent l api sent counts (k + 1) rel _
        (observe-Sent l api sent counts (k + 1) c _ _ _ _ _ w h),
    omega arith,
  )

  endorsed-Sent :
      (c : Contract) (ctx : Option Ctx) (fn txid : Text) (rel : Release) (start : ℕ)
      (r : Result ℕ × World N)
      → Sent k r.1
      → SentPost (endorsed l api c ctx fn txid rel start r)
  unfolding endorsed submit_transaction
  endorsed-Sent c ctx fn txid rel start (ok tx, w) h =
      submitted-Sent c fn txid rel _ tx _
        (counts.submit _ tx _ ∙ ap (λ j. j + 1) (observe-Sent l api sent counts k c _ _ _ _ _ w h))
  endorsed-Sent c ctx fn txid rel start (err e, w) h =
      let f = boxed (classified l e txid Phase.endorse c.fc.cfg.strict_error_codes) in
      let observed = observe l api c Op.endorse fn txid start (some f) w in
      let same =
        release-Sent l api sent counts k rel observed
          (observe-Sent l api sent counts k c Op.endorse fn txid start (some f) w h) in
      (0, omega (arith, same), omega arith)

  endorse_proposal-Sent :
      (c : Contract) (ctx : Option Ctx) (fn : Text) (rel : Release) (r : Result ℕ × World N)
      → Sent k r.1
      → SentPost (endorse_proposal l api c ctx fn rel r)
  unfolding endorse_proposal
  endorse_proposal-Sent c ctx fn rel (err e, w) h =
      let same = release-Sent l api sent counts k rel w h in (0, omega (arith, same), omega arith)
  endorse_proposal-Sent c ctx fn rel (ok p, w) h =
      endorsed-Sent c ctx fn _ rel _ _ (counts.endorse _ p w.net ∙ h)

  submit_gateway-Sent :
      (c : Contract) (ctx : Option Ctx) (fn : Text) (opts : List CallOption)
      (r : Result (ℕ × Release) × World N)
      → Sent k r.1
      → SentPost (submit_gateway l api c ctx fn opts r)
  unfolding submit_gateway
  submit_gateway-Sent c ctx fn opts (err e, w) h = (0, omega (arith, h), omega arith)
  submit_gateway-Sent c ctx fn opts (ok (g, rel), w) h =
      endorse_proposal-Sent c ctx fn rel _ (counts.new_proposal g _ fn _ w.net ∙ h)

  release_once-Sent :
      (j : ℕ) (p : PendingTx) (w : World N) → Sent j w → Sent j (release_once l api p w).1
  unfolding release_once
  release_once-Sent j p w h =
      if_intro (λ (x : PendingTx × World N). Sent j x.1) p.once h
        (release-Sent l api sent counts j p.rel w h)

  settled-Sent :
      (j : ℕ) (st : CommitStatus) (r : PendingTx × World N)
      → Sent j r.1
      → Sent j (settled l api st r).2
  unfolding settled
  settled-Sent j st (p, w) h =
      if_intro (λ (x : Result TxResult × PendingTx × World N). Sent j x.2) st.successful h h

  status_known-Sent :
      (j : ℕ) (p : PendingTx) (a : Result CommitStatus × World N)
      → Sent j a.1
      → Sent j (status_known l api p a).2
  unfolding status_known
  status_known-Sent j p (err e, w) h = h
  status_known-Sent j p (ok st, w) h = settled-Sent j st _ (release_once-Sent j p w h)

  wait-Sent :
      (j : ℕ) (p : PendingTx) (ctx : Option Ctx) (w : World N)
      → Sent j w
      → Sent j (wait l api p ctx w).2
  unfolding wait wait_observed
  wait-Sent j p ctx w h =
      observe-Sent l api sent counts j p.c _ _ _ _ _ _
        (status_known-Sent j p _ (counts.commit_status _ _ w.net ∙ h))

  result_of_wait : (r : Result TxResult) (w : World N) → Sent (k + 1) w → SentPost (r, w)
  result_of_wait (ok t) w h = h
  result_of_wait (err e) w h = (1, h, omega arith)

  wait_dropping-Sent :
      (ctx : Option Ctx) (r : Result PendingTx × World N)
      → SentPost r
      → SentPost (wait_dropping l api ctx r)
  unfolding wait_dropping
  wait_dropping-Sent ctx (err e, w) h = h
  wait_dropping-Sent ctx (ok p, w) h = result_of_wait _ _ (wait-Sent (k + 1) p ctx w h)

-- `Submit` sends at most one request to the ordering service, whatever comes back, if each call of
-- `Submit` of the gateway library sends one and the other calls of the library send none. Where it
-- returns a result it has sent exactly one, which is observed as one call, and as many gateways are open
-- as before; where it fails, at most one call to the ordering service is observed.
pub submit_with-SentPost :
    (l : Libs) {N : Type 0} (api : GatewayApi N) (sent : N → ℕ) (counts : Counts api sent) (k : ℕ)
    (cs : List CallInfo) (c : Contract) (ctx : Option Ctx) (fn : Text) (opts : List CallOption)
    (w : World N)
    → Shows k cs w
    → SentPost l api sent counts (sent w.net) (submit_with l api c ctx fn opts w)
      × SubmitPost k cs (submit_with l api c ctx fn opts w)
unfolding submit_with submit_async
submit_with-SentPost l api sent counts k cs c ctx fn opts w s = (
  wait_dropping-Sent l api sent counts (sent w.net) ctx _ (
      submit_gateway-Sent l api sent counts (sent w.net) c ctx fn opts _
        (gateway-Sent l api sent counts (sent w.net) c w refl)),
  submit_with-SubmitPost l api k cs c ctx fn opts w s,
)
