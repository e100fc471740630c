-- ===== src/Ledger/Typed.antt =====
-- The errors that the ledger queries return.
use fabricsdk.Base.{ℕ, ◌≡◌, refl, Option, some, Text, if_intro, codes}
use fabricsdk.GoError.{GoError, Error, boxed}
use fabricsdk.Libs.{Libs}
use fabricsdk.Errors.{new_error}
use fabricsdk.Kinds.{Kind, ErrorSource, TxValidationCode}
use fabricsdk.Options.{Ctx}
use fabricsdk.Result.{Result, ok, err}
use fabricsdk.World.{GatewayApi, World}
use fabricsdk.Contract.{Contract}
use fabricsdk.Contract.Typed.{Typed}
use fabricsdk.Ledger.{
  Decoders, decode_error, no_such_tx, mentions, status_answer, status_observed, decoded_status,
  decoded_height, height_answer, tx_status, height,
}

decode_error-boxed : (text : Text) (e : GoError) → (x : Error) × (decode_error text e ≡ boxed x)
decode_error-boxed text e =
    (record { info = (new_error Kind.internal ErrorSource.sdk text).info; cause = some e }, refl)

module _ (l : Libs) {N : Type 0} (api : GatewayApi N) (d : Decoders) where
  status_answer-Typed : (tx : Text) (r : Result Text) → Typed (status_answer l api d tx r)
  unfolding status_answer
  status_answer-Typed tx (ok raw) = decoded (d.processed_transaction raw)
    where
      decoded : (r : Result TxValidationCode) → Typed (decoded_status l api d tx r)
      decoded (ok vc) = tt
      decoded (err e) = decode_error-boxed (codes "decode ProcessedTransaction") e
  status_answer-Typed tx (err e) = if_intro Typed (mentions l e no_such_tx) tt (_, refl)

  pub tx_status-Typed :
      (c : Contract) (ctx : Option Ctx) (tx : Text) (w : World N)
      → Typed (tx_status l api d c ctx tx w).0
  unfolding tx_status status_observed
  tx_status-Typed c ctx tx w = status_answer-Typed tx _

  height_answer-Typed : (r : Result Text) → Typed (height_answer l api d r)
  unfolding height_answer
  height_answer-Typed (ok raw) = decoded (d.blockchain_info raw)
    where
      decoded : (r : Result ℕ) → Typed (decoded_height l api d r)
      decoded (ok h) = tt
      decoded (err e) = decode_error-boxed (codes "decode BlockchainInfo") e
  height_answer-Typed (err e) = (_, refl)

  pub height-Typed :
      (c : Contract) (ctx : Option Ctx) (w : World N) → Typed (height l api d c ctx w).0
  unfolding height
  height-Typed c ctx w = height_answer-Typed _
