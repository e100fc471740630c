-- ===== src/Examples/Basic.antt =====
-- examples/basic/main.go: a transaction, two queries and the height. The lines that it prints and the
-- texts with which it stops are data.
pub mod Finished
use fabricsdk.Base.{
  ℕ, ◌+◌, Bool, true, false, Option, none, some, List, [], ◌∷◌, ◌++◌, Text, codes, if◌then◌else◌,
}
use fabricsdk.GoError.{GoError, Error, as_error}
use fabricsdk.Kinds.{Kind}
use fabricsdk.Errors.{is_not_found, kind_of}
use fabricsdk.Libs.{Libs}
use fabricsdk.Options.{Ctx}
use fabricsdk.Result.{Result, ok, err}
use fabricsdk.World.{GatewayApi, World}
use fabricsdk.Contract.{FabricClient}
use fabricsdk.Identities.{FileSystem, Pki}
use fabricsdk.Submit.{TxResult}
use fabricsdk.Ledger.{Decoders, TxStatus}
use fabricsdk.Client.{TlsLib, new, close}
use fabricsdk.Client.Calls.{evaluate, submit, tx_status, height}
use fabricsdk.Examples.{missing, required, config_from}

-- A call of `fmt.Printf`.
pub data Line : Type 0 where
  committed_in : Text → ℕ → Line
  asset : Text → Line
  missing_asset : Line
  unexpected : Kind → GoError → Line
  channel_height : ℕ → Line

-- How the program ends: `main` returns, or one of its calls of `log.Fatalf`.
pub data Exit : Type 0 where
  finished : Exit
  not_set : Text → Exit
  not_connected not_created not_read : GoError → Exit
  unknown_outcome : Text → Result TxStatus → Exit

pub record Run (N : Type 0) : Type 0 where
  pub exit : Exit
  pub lines : List Line
  pub world : World N

-- Two minutes, in nanoseconds.
abbrev two_minutes : ℕ
two_minutes = 120_000_000_000

-- The switch on the error of the second query.
missing_line : Result Text → List Line
missing_line (ok raw) = []
missing_line (err e) =
    if is_not_found (some e) then missing_asset ∷ [] else unexpected (kind_of (some e)) e ∷ []

height_line : Result ℕ → List Line
height_line (ok h) = channel_height h ∷ []
height_line (err e) = []

-- The arguments of `CreateAsset`.
abbrev pub asset_arguments : Text → List Text
asset_arguments asset_id = asset_id ∷ codes "blue" ∷ codes "5" ∷ codes "Tomoko" ∷ codes "300" ∷ []

module _ (l : Libs) {N : Type 0} (api : GatewayApi N) (d : Decoders) (fs : FileSystem) where
  module _ (fc : FabricClient) (ctx : Option Ctx) where
    -- The part after the first query; `Close` is deferred.
    last_queries : List Line → World N → Run N
    unfolding missing_line height_line
    last_queries lines w =
        let (r, w1) = evaluate l api fc ctx (codes "ReadAsset") (codes "does-not-exist" ∷ []) w in
        let (h, w2) = height l api fc d ctx w1 in
        record {
          exit = finished;
          lines = lines ++ (missing_line r ++ height_line h);
          world = (close l api fc w2).2;
        }

    read_asset : List Line → Result Text × World N → Run N
    unfolding last_queries
    read_asset lines (ok raw, w) = last_queries (lines ++ (asset raw ∷ [])) w
    read_asset lines (err e, w) = record { exit = not_read e; lines = lines; world = w }

    -- On an error of `Submit`: `fe.OutcomeUnknown` asks for the status of the transaction.
    not_committed : GoError → Option Error → World N → Run N
    not_committed e none w = record { exit = not_created e; lines = []; world = w }
    not_committed e (some fe) w =
        if fe.outcome_unknown
        then (let (st, w') = tx_status l api fc d ctx fe.tx_id w in
            record { exit = unknown_outcome fe.tx_id st; lines = []; world = w' })
        else record { exit = not_created e; lines = []; world = w }

    on_submitted : Text → Result TxResult × World N → Run N
    unfolding read_asset not_committed
    on_submitted asset_id (ok res, w) =
        read_asset (committed_in res.tx_id res.block_number ∷ [])
          (evaluate l api fc ctx (codes "ReadAsset") (asset_id ∷ []) w)
    on_submitted asset_id (err e, w) = not_committed e (as_error e) w

  -- The asset is named after the time.
  abbrev asset_id_at : ℕ → Text
  asset_id_at time = codes "asset-" ++ fs.decimal time

  -- `main` on what `New` returns.
  on_client : Result FabricClient × World N → Run N
  unfolding on_submitted
  on_client (err e, w) = record { exit = not_connected e; lines = []; world = w }
  on_client (ok fc, w) =
      let time = api.now w.net in
      let ctx : Option Ctx = some (record { deadline = some (time + two_minutes); done = false }) in
      on_submitted fc ctx (asset_id_at time)
        (submit l api fc ctx (codes "CreateAsset") (asset_arguments (asset_id_at time)) w)

  -- `main`.
  unfoldable pub main : Pki → TlsLib → ℕ → (Text → Text) → World N → Run N
  unfolding on_client
  main pki tls address getenv w = elim (missing getenv required) [
    | some k ↦ record { exit = not_set k; lines = []; world = w }
    | none ↦ on_client (new l api fs pki tls address (config_from getenv) w)
  ]
