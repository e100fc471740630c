-- ===== src/Examples/Basic/Finished.antt =====
-- What a run of the basic example has printed and closed when it ends.
use mathlib.Core.Path.{subst}
use fabricsdk.Base.{
  sym, ap, ◌∙◌, ◌⊎◌, inl, inr, false, codes, ℕ, ◌≡◌, refl, true, Option, none, some, List, [], ◌∷◌,
  Text, if_intro,
}
use fabricsdk.GoError.{GoError, Error, as_error, boxed}
use fabricsdk.GoError.Wraps.{as_error-boxed}
use fabricsdk.Libs.{Libs}
use fabricsdk.Options.{args, Ctx}
use fabricsdk.Result.{Result, ok, err}
use fabricsdk.World.{GatewayApi, World}
use fabricsdk.Contract.{FabricClient, default_contract}
use fabricsdk.Identities.{FileSystem, Pki}
use fabricsdk.Submit.{TxResult}
use fabricsdk.Ledger.{Decoders}
use fabricsdk.Submit.Reported.{ForeignErrors, Reports, Proposed, result_id}
use fabricsdk.Client.Calls.Reported.{submit-Reports}
use fabricsdk.Client.{TlsLib, new}
use fabricsdk.Client.Lifecycle.{close-is_closed}
use fabricsdk.Examples.{missing, required, config_from}
use fabricsdk.Examples.Basic.{
  Line, committed_in, asset, Exit, finished, not_set, not_connected, not_created, not_read,
  unknown_outcome, Run, last_queries, read_asset, not_committed, on_submitted, on_client, main,
  asset_arguments,
}

-- The ID of a proposal for `CreateAsset` that the gateway library made.
abbrev pub Created : {N : Type 0} → GatewayApi N → Text → Type 0
Created api tx =
    (fc : FabricClient) × (asset_id : Text) × Proposed api (default_contract fc)
      (codes "CreateAsset") (args (asset_arguments asset_id) ∷ []) tx

module _ {N : Type 0} (api : GatewayApi N) where
  -- A run that finishes has printed the transaction and the asset first, and has closed its client; one
  -- that stops at the first query has printed the transaction; one that stops at an outcome that is
  -- unknown names the transaction; those and all others have printed nothing else.
  abbrev pub Printed : Exit → List Line → World N → Type 0
  Printed finished lines w =
      ((tx : Text) × (n : ℕ) × (raw : Text) × (rest : List Line) × Created api tx
        × (lines ≡ committed_in tx n ∷ asset raw ∷ rest))
      × (w.is_closed ≡ true)
  Printed (not_read e) lines w =
      (tx : Text) × (n : ℕ) × Created api tx × (lines ≡ committed_in tx n ∷ [])
  Printed (unknown_outcome tx st) lines w = Created api tx × (lines ≡ [])
  Printed (not_set name) lines w = lines ≡ []
  Printed (not_connected e) lines w = lines ≡ []
  Printed (not_created e) lines w = lines ≡ []

  abbrev pub RunPost : Run N → Type 0
  RunPost r = Printed r.exit r.lines r.world

-- Of an error with an error of the package in it, that one is found.
known_or_created :
    (Tx : Text → Type 0) (e : GoError) (fe : Error)
    → (x : Error) × (e ≡ boxed x) × ((x.outcome_unknown ≡ false) ⊎ Tx x.tx_id)
    → as_error e ≡ some fe
    → (fe.outcome_unknown ≡ false) ⊎ Tx fe.tx_id
known_or_created Tx e fe (x, b, k) f =
    subst (λ (y : Error). (y.outcome_unknown ≡ false) ⊎ Tx y.tx_id) same k
  where
    the : Option Error → Error
    the none = x
    the (some y) = y

    same : x ≡ fe
    same = sym (ap the (ap as_error b ∙ as_error-boxed x)) ∙ ap the f

-- An outcome about a proposal for the asset.
Reports-Created :
    {N : Type 0} (api : GatewayApi N) (fc : FabricClient) (asset_id : Text) (r : Result TxResult)
    → Reports
        (Proposed api
          (default_contract fc)
          (codes "CreateAsset")
          (args (asset_arguments asset_id) ∷ []))
        result_id
        r
    → Reports (Created api) result_id r
Reports-Created api fc asset_id (ok res) h = (fc, asset_id, h)
Reports-Created api fc asset_id (err e) (x, b, inl k) = (x, b, inl k)
Reports-Created api fc asset_id (err e) (x, b, inr h) = (x, b, inr (fc, asset_id, h))

module _ (l : Libs) {N : Type 0} (api : GatewayApi N) (foreign : ForeignErrors api) (d : Decoders)
    (fs : FileSystem) where
  module _ (fc : FabricClient) (ctx : Option Ctx) where
    read_asset-RunPost :
        (tx : Text) (n : ℕ) (r : Result Text × World N)
        → Created api tx
        → RunPost api (read_asset l api d fs fc ctx (committed_in tx n ∷ []) r)
    unfolding read_asset last_queries
    read_asset-RunPost tx n (ok raw, w) c = ((tx, n, raw, _, c, refl), close-is_closed l api fc _)
    read_asset-RunPost tx n (err e, w) c = (tx, n, c, refl)

    not_committed-RunPost :
        (e : GoError) (o : Option Error) (w : World N)
        → as_error e ≡ o
        → (x : Error) × (e ≡ boxed x) × ((x.outcome_unknown ≡ false) ⊎ Created api x.tx_id)
        → RunPost api (not_committed l api d fs fc ctx e o w)
    unfolding not_committed
    not_committed-RunPost e none w f h = refl
    not_committed-RunPost e (some fe) w f h = elim (known_or_created (Created api) e fe h f) [
      | inl k ↦ rw k refl
      | inr c ↦ if_intro (RunPost api) fe.outcome_unknown (c, refl) refl
    ]

    on_submitted-RunPost :
        (asset_id : Text) (r : Result TxResult × World N)
        → Reports (Created api) result_id r.0
        → RunPost api (on_submitted l api d fs fc ctx asset_id r)
    unfolding on_submitted
    on_submitted-RunPost asset_id (ok res, w) h = read_asset-RunPost res.tx_id res.block_number _ h
    on_submitted-RunPost asset_id (err e, w) h = not_committed-RunPost e (as_error e) w refl h

  on_client-RunPost : (r : Result FabricClient × World N) → RunPost api (on_client l api d fs r)
  unfolding on_client
  on_client-RunPost (err e, w) = refl
  on_client-RunPost (ok fc, w) =
      on_submitted-RunPost fc _ _ _
        (Reports-Created api fc _ _ (submit-Reports l api foreign fc _ (codes "CreateAsset") _ w))

  -- However a run of the basic example ends, if the gateway library has no error of the package in an
  -- error of its own: if it finishes, its first two lines are of a committed transaction and of the asset
  -- that was read, and its client is closed; if it stops at the first query it has printed the
  -- transaction alone; and if it stops before, or at an outcome that is unknown, it has printed nothing.
  -- The transaction that it prints, or for which it looks up the unknown outcome, is that of a proposal
  -- for `CreateAsset`.
  pub main-RunPost :
      (pki : Pki) (tls : TlsLib) (address : ℕ) (getenv : Text → Text) (w : World N)
      → RunPost api (main l api d fs pki tls address getenv w)
  unfolding main
  main-RunPost pki tls address getenv w = started (missing getenv required)
    where
      started :
          (m : Option Text)
          → RunPost api (elim m as (λ _. Run N) [
            | some k ↦ record { exit = not_set k; lines = []; world = w }
            | none ↦ on_client l api d fs (new l api fs pki tls address (config_from getenv) w)
          ])
      started (some k) = refl
      started none = on_client-RunPost _
