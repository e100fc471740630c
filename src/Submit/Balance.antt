-- ===== src/Submit/Balance.antt =====
-- The gateways that a submission leaves open, and the calls that are observed.
use fabricsdk.Base.{
  ℕ, ◌+◌, ◌≡◌, refl, sym, true, false, Option, none, some, List, [], ◌∷◌, ◌++◌, append-nil,
  append_assoc, arith, Text, if◌then◌else◌, if_intro, if_cases, ◌⊎◌, inl, inr,
}
use fabricsdk.GoError.{GoError, boxed}
use fabricsdk.Errors.{config_error}
use fabricsdk.Libs.{Libs}
use fabricsdk.Observe.{Op, CallInfo}
use fabricsdk.Options.{CallOption, Ctx, proposal_options}
use fabricsdk.Result.{Result, ok, err, error_of}
use fabricsdk.World.{GatewayApi, CommitStatus, World}
use fabricsdk.World.Open.{Shows, Shows-net, Shows-eq, Shows-calls, emit-committed}
use fabricsdk.Contract.{Contract, Release, target, gateway}
use fabricsdk.Contract.Evaluate.{holds, GatewayPost, gateway-open, release-open, observe-open}
use fabricsdk.Submit.{
  PendingTx, TxResult, submitted, submit_transaction, endorsed, endorse_proposal, submit_gateway,
  submit_async, release_once, settled, status_known, wait_observed, wait,
}

-- The calls of a submission that failed with `e`: none only if `R` says that it did not get to the peers,
-- else one for each phase, of which only the last has failed.
abbrev pub FailedCalls : (GoError → Type 0) → GoError → List CallInfo → Type 0
FailedCalls R e [] = R e
FailedCalls R e (i ∷ []) = (i.operation ≡ Op.endorse) × (i.err ≡ some e)
FailedCalls R e (i ∷ j ∷ []) =
    (i.operation ≡ Op.endorse) × (i.err ≡ none) × (j.operation ≡ Op.submit) × (j.err ≡ some e)
FailedCalls R e (i ∷ j ∷ k ∷ is) = ⊥

-- After `SubmitAsync`: a pending transaction holds its gateway, and a failure holds none.
abbrev pub AsyncPost :
    {N : Type 0} → (GoError → Type 0) → ℕ → List CallInfo → Result PendingTx × World N → Type 0
AsyncPost R k cs (ok p, w) =
    (i : CallInfo) × (j : CallInfo) × Shows (k + holds p.rel) (cs ++ (i ∷ j ∷ [])) w
    × (p.once ≡ false)
    × (i.operation ≡ Op.endorse)
    × (j.operation ≡ Op.submit)
    × (i.err ≡ none)
    × (j.err ≡ none)
AsyncPost R k cs (err e, w) = (is : List CallInfo) × Shows k (cs ++ is) w × FailedCalls R e is

-- A submission that failed before it got to the peers: it had no gateway, or the gateway library did not
-- make a proposal.
abbrev pub Refused :
    (l : Libs) {N : Type 0} (api : GatewayApi N)
    → Contract
    → Text
    → List CallOption
    → World N
    → GoError
    → Type 0
Refused l {N} api c fn opts w e =
    ((gateway l api c w).0 ≡ err e)
    ⊎ ((g : ℕ) × (rel : Release) × (e' : GoError) × ((gateway l api c w).0 ≡ ok (g, rel))
        × ((api.new_proposal g (target c) fn (proposal_options opts) (gateway l api c w).1.net).0
            ≡ err e')
        × (e ≡ boxed (config_error e')))

module _ (l : Libs) {N : Type 0} (api : GatewayApi N) (R : GoError → Type 0) (k : ℕ)
    (cs : List CallInfo) where
  submitted-post :
      (c : Contract) (fn txid : Text) (rel : Release) (start tx : ℕ) (r : Result ℕ × World N)
      (i : CallInfo)
      → (i.operation ≡ Op.endorse)
      → (i.err ≡ none)
      → Shows (k + holds rel) (cs ++ (i ∷ [])) r.1
      → AsyncPost R k cs (submitted l api c fn txid rel start tx r)
  unfolding submitted
  submitted-post c fn txid rel start tx (ok commit, w) i o n h = (
    i,
    _,
    Shows-calls (append_assoc cs _ _) (observe-open l api c Op.submit fn txid start none h),
    refl,
    o,
    refl,
    n,
    refl,
  )
  submitted-post c fn txid rel start tx (err e, w) i o n h = (
    i ∷ _ ∷ [],
    release-open l api rel
        (Shows-calls (append_assoc cs _ _) (observe-open l api c Op.submit fn txid start _ h)),
    (o, n, refl, refl),
  )

  endorsed-post :
      (c : Contract) (ctx : Option Ctx) (fn txid : Text) (rel : Release) (start : ℕ)
      (r : Result ℕ × World N)
      → Shows (k + holds rel) cs r.1
      → AsyncPost R k cs (endorsed l api c ctx fn txid rel start r)
  unfolding endorsed submit_transaction
  endorsed-post c ctx fn txid rel start (ok tx, w) h =
      submitted-post c fn txid rel _ tx _ _ refl refl
        (Shows-net (observe-open l api c Op.endorse fn txid start none h))
  endorsed-post c ctx fn txid rel start (err e, w) h = (
    _ ∷ [],
    release-open l api rel (observe-open l api c Op.endorse fn txid start _ h),
    (refl, refl),
  )

  endorse_proposal-post :
      (c : Contract) (ctx : Option Ctx) (fn : Text) (rel : Release) (r : Result ℕ × World N)
      → ((e : GoError) → r.0 ≡ err e → R (boxed (config_error e)))
      → Shows (k + holds rel) cs r.1
      → AsyncPost R k cs (endorse_proposal l api c ctx fn rel r)
  unfolding endorse_proposal
  endorse_proposal-post c ctx fn rel (err e, w) f h =
      ([], Shows-calls (sym (append-nil cs)) (release-open l api rel h), f e refl)
  endorse_proposal-post c ctx fn rel (ok p, w) f h = endorsed-post c ctx fn _ rel _ _ (Shows-net h)

  submit_gateway-post :
      (c : Contract) (ctx : Option Ctx) (fn : Text) (opts : List CallOption)
      (r : Result (ℕ × Release) × World N)
      → ((e : GoError) → r.0 ≡ err e → R e)
      → ((g : ℕ) (rel : Release) (e : GoError)
          → r.0 ≡ ok (g, rel)
          → (api.new_proposal g (target c) fn (proposal_options opts) r.1.net).0 ≡ err e
          → R (boxed (config_error e)))
      → GatewayPost k cs r
      → AsyncPost R k cs (submit_gateway l api c ctx fn opts r)
  unfolding submit_gateway
  submit_gateway-post c ctx fn opts (err e, w) f g h =
      ([], Shows-calls (sym (append-nil cs)) h, f e refl)
  submit_gateway-post c ctx fn opts (ok (g, rel), w) f x h =
      endorse_proposal-post c ctx fn rel _ (λ e q. x g rel e refl q) (Shows-net h)

module _ (l : Libs) {N : Type 0} (api : GatewayApi N) (k : ℕ) (cs : List CallInfo) where
  -- `SubmitAsync` observes one call for endorsing and one for submitting, as far as it gets: a failure is
  -- observed as no call only where there was no gateway or no proposal, else as one call for each phase
  -- that was reached, of which only the last has the error that is returned. On failure as many gateways
  -- are open as before; on success the gateway that the pending transaction will release is open too.
  pub submit_async-AsyncPost :
      (c : Contract) (ctx : Option Ctx) (fn : Text) (opts : List CallOption) {w : World N}
      → Shows k cs w
      → AsyncPost (Refused l api c fn opts w) k cs (submit_async l api c ctx fn opts w)
  unfolding submit_async
  submit_async-AsyncPost c ctx fn opts {w} h =
      submit_gateway-post l api (Refused l api c fn opts w) k cs c ctx fn opts _ (λ e q. inl q)
        (λ g rel e q p. inr (g, rel, e, q, p, refl)) (gateway-open l api c w h)

-- The gateways that a pending transaction has still to close.
abbrev pub held : PendingTx → ℕ
held p = if p.once then 0 else holds p.rel

module _ (l : Libs) {N : Type 0} (api : GatewayApi N) (k : ℕ) {cs : List CallInfo} where
  release_once-open :
      (p : PendingTx) {w : World N}
      → Shows (k + held p) cs w
      → Shows k cs (release_once l api p w).1 × ((release_once l api p w).0.once ≡ true)
  unfolding release_once
  release_once-open p {w} h =
      if_cases (λ (x : PendingTx × World N). Shows k cs x.1 × (x.0.once ≡ true)) p.once
        (λ e. (Shows-eq (ground arith) h, e))
        (λ e. (release-open l api p.rel (Shows-eq (ground arith) h), refl))

  settled-post :
      (st : CommitStatus) (r : PendingTx × World N)
      → Shows k cs r.1
      → Shows k cs (settled l api st r).2 × ((settled l api st r).1 ≡ r.0)
  unfolding settled
  settled-post st (p, w) h =
      if_intro (λ (x : Result TxResult × PendingTx × World N). Shows k cs x.2 × (x.1 ≡ p))
        st.successful (emit-committed _ _ _ h, refl) (h, refl)

  status_known-post :
      (p : PendingTx) (a : Result CommitStatus × World N)
      → Shows (k + held p) cs a.1
      → Shows (k + held (status_known l api p a).1) cs (status_known l api p a).2
  unfolding status_known
  status_known-post p (err e, w) h = h
  status_known-post p (ok st, w) h =
      let (s, o) = release_once-open p h in
      let (s', e) = settled-post st (release_once l api p w) s in rw e (Shows-eq (ground arith) s')

  -- `Wait` is observed as exactly one call, with the transaction's ID and the error that it returns;
  -- a gateway is open afterwards beside those of before exactly if the pending transaction has still
  -- to release it.
  pub wait-Shows :
      (p : PendingTx) (ctx : Option Ctx) {w : World N}
      → Shows (k + held p) cs w
      → (i : CallInfo) × Shows
          (k + held (wait l api p ctx w).1)
          (cs ++ (i ∷ []))
          (wait l api p ctx w).2
        × (i.operation ≡ Op.commit)
        × (i.tx_id ≡ p.tx_id)
        × (i.err ≡ error_of (wait l api p ctx w).0)
  unfolding wait wait_observed
  wait-Shows p ctx {w} h = (
    _,
    observe-open l api p.c Op.commit p.fn p.tx_id _ _ (status_known-post p _ (Shows-net h)),
    refl,
    refl,
    refl,
  )

-- Releasing a pending transaction a second time changes neither it nor the world.
pub release_once_idem :
    (l : Libs) {N : Type 0} (api : GatewayApi N) (p : PendingTx) (w : World N)
    → let (p', w') = release_once l api p w in release_once l api p' w' ≡ (p', w')
unfolding release_once
release_once_idem l api p w = ground arith
