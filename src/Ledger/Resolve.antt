-- ===== src/Ledger/Resolve.antt =====
-- What the ledger queries answer, what they leave open, and which calls are observed.
use fabricsdk.Base.{
  ℕ, ◌≡◌, ◌↔◌, refl, true, false, Option, List, [], ◌∷◌, ◌++◌, arith, Text, codes, if_cases, ◌⊎◌,
  inl, inr,
}
use fabricsdk.GoError.{GoError}
use fabricsdk.GoError.{boxed}
use fabricsdk.Classify.{classified}
use fabricsdk.Kinds.{Phase, TxValidationCode}
use fabricsdk.Libs.{Libs}
use fabricsdk.Observe.{Op, CallInfo}
use fabricsdk.Options.{Ctx}
use fabricsdk.Result.{Result, ok, err, error_of}
use fabricsdk.World.{GatewayApi, World}
use fabricsdk.World.Open.{Shows, Shows-net}
use fabricsdk.Contract.{gateway, Contract, Release}
use fabricsdk.Contract.Evaluate.{GatewayPost, gateway-open, release-open, observe-open}
use fabricsdk.Ledger.{
  height_answer, Decoders, TxStatus, no_such_tx, mentions, query_proposal, query_release,
  query_gateway, qscc, decoded_status, not_found, status_answer, status_observed, tx_status, height,
}

-- What a status says: it is about the transaction that was asked for; either it is found, and its code
-- is the one that is decoded from the answer of the ledger, or it is not found, and the query failed with
-- the text for an unknown transaction; and it is valid exactly if it is found with code VALID.
pub record Truthful {N : Type 0} (l : Libs) (api : GatewayApi N) (d : Decoders) (tx : Text)
    (raw : Result Text) (s : TxStatus) : Type 0 where
  pub about : s.tx_id ≡ tx
  pub answer :
      ((s.found ≡ true)
        × ((x : Text) × (raw ≡ ok x) × (d.processed_transaction x ≡ ok s.validation_code)))
      ⊎ ((s.found ≡ false) × ((e : GoError) × (raw ≡ err e) × (mentions l e no_such_tx ≡ true)))
  pub valid_iff :
      (s.valid ≡ true) ↔ ((s.found ≡ true) × (s.validation_code ≡ TxValidationCode.valid))

module _ (l : Libs) {N : Type 0} (api : GatewayApi N) (d : Decoders) where
  abbrev AllTruthful : Text → Result Text → Result TxStatus → Type 0
  AllTruthful tx raw (ok s) = Truthful l api d tx raw s
  AllTruthful tx raw (err e) = Unit

  decoded_status-Truthful :
      (tx : Text) (x : Text) (r : Result TxValidationCode)
      → d.processed_transaction x ≡ r
      → AllTruthful tx (ok x) (decoded_status l api d tx r)
  unfolding decoded_status
  decoded_status-Truthful tx x (err e) q = tt
  decoded_status-Truthful tx x (ok vc) q = record {
    about = refl;
    answer = inl (refl, (x, refl, q));
    valid_iff = ground arith;
  }

  status_answer-AllTruthful :
      (tx : Text) (raw : Result Text) → AllTruthful tx raw (status_answer l api d tx raw)
  unfolding status_answer
  status_answer-AllTruthful tx (ok x) =
      decoded_status-Truthful tx x (d.processed_transaction x) refl
  status_answer-AllTruthful tx (err e) =
      if_cases (AllTruthful tx (err e)) (mentions l e no_such_tx)
        (λ m. record { about = refl; answer = inr (refl, (e, refl, m)); valid_iff = ground arith })
        (λ m. tt)

  -- A status that `TxStatus` returns is about the transaction that was asked for. Either it says that the
  -- transaction is found, the ledger query had an answer, and the validation code is the one decoded from
  -- that answer; or it says that it is not found, and the query failed with the text for an unknown
  -- transaction. It says valid exactly if it is found with code VALID.
  pub tx_status-Truthful :
      (c : Contract) (ctx : Option Ctx) (tx : Text) (w : World N) (s : TxStatus)
      → (tx_status l api d c ctx tx w).0 ≡ ok s
      → Truthful l api d tx
          (qscc l api d c ctx (codes "GetTransactionByID") (c.channel ∷ tx ∷ []) w).0
          s
  unfolding tx_status status_observed
  tx_status-Truthful c ctx tx w s h = rw h at (
      status_answer-AllTruthful tx
        (qscc l api d c ctx (codes "GetTransactionByID") (c.channel ∷ tx ∷ []) w).0)

  -- If the ledger query fails with an error that mentions the text for an unknown transaction then
  -- `TxStatus` reports the transaction as not found, and not an error.
  pub tx_status-unknown :
      (c : Contract) (ctx : Option Ctx) (tx : Text) (w : World N) (e : GoError)
      → (qscc l api d c ctx (codes "GetTransactionByID") (c.channel ∷ tx ∷ []) w).0 ≡ err e
      → mentions l e no_such_tx ≡ true
      → (s : TxStatus) × ((tx_status l api d c ctx tx w).0 ≡ ok s) × (s.found ≡ false)
  unfolding tx_status status_observed status_answer
  tx_status-unknown c ctx tx w e h m =
      (not_found l api d tx, rw (h, status_answer) (rw m refl), refl)

  query_proposal-open :
      {k : ℕ} {cs : List CallInfo} (c : Contract) (ctx : Option Ctx) (r : Result ℕ × World N)
      → Shows k cs r.1
      → Shows k cs (query_proposal l api d c ctx r).1
  unfolding query_proposal
  query_proposal-open c ctx (ok p, w) h = Shows-net h
  query_proposal-open c ctx (err e, w) h = h

  query_gateway-open :
      {k : ℕ} {cs : List CallInfo} (c : Contract) (ctx : Option Ctx) (fn : Text) (xs : List Text)
      (r : Result (ℕ × Release) × World N)
      → GatewayPost k cs r
      → Shows k cs (query_gateway l api d c ctx fn xs r).1
  unfolding query_gateway query_release
  query_gateway-open c ctx fn xs (err e, w) h = h
  query_gateway-open c ctx fn xs (ok (g, rel), w) h =
      release-open l api rel (query_proposal-open c ctx _ (Shows-net h))

  qscc-open :
      {k : ℕ} {cs : List CallInfo} (c : Contract) (ctx : Option Ctx) (fn : Text) (xs : List Text)
      {w : World N}
      → Shows k cs w
      → Shows k cs (qscc l api d c ctx fn xs w).1
  unfolding qscc
  qscc-open c ctx fn xs {w} h = query_gateway-open c ctx fn xs _ (gateway-open l api c w h)

  -- `TxStatus` leaves as many gateways open as there were, and is observed as one call with the
  -- transaction's ID and the error that it returns.
  pub tx_status-Shows :
      {k : ℕ} {cs : List CallInfo} (c : Contract) (ctx : Option Ctx) (tx : Text) {w : World N}
      → Shows k cs w
      → (i : CallInfo) × Shows k (cs ++ (i ∷ [])) (tx_status l api d c ctx tx w).1
        × (i.operation ≡ Op.tx_status)
        × (i.tx_id ≡ tx)
        × (i.err ≡ error_of (tx_status l api d c ctx tx w).0)
  unfolding tx_status status_observed
  tx_status-Shows c ctx tx h =
      (_, observe-open l api c Op.tx_status _ tx _ _ (qscc-open c ctx _ _ h), refl, refl, refl)

  -- `Height` leaves as many gateways open as there were, and is observed as no call at all.
  pub height-Shows :
      {k : ℕ} {cs : List CallInfo} (c : Contract) (ctx : Option Ctx) {w : World N}
      → Shows k cs w
      → Shows k cs (height l api d c ctx w).1
  unfolding height
  height-Shows c ctx h = qscc-open c ctx _ _ h

  pub height-refused :
      (c : Contract) (ctx : Option Ctx) (e : GoError) (w : World N)
      → gateway l api c w ≡ (err e, w)
      → height l api d c ctx w ≡ (err (boxed (classified l e [] Phase.evaluate true)), w)
  unfolding height height_answer qscc query_gateway
  height-refused c ctx e w h = rw h refl
