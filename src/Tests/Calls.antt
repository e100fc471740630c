-- ===== src/Tests/Calls.antt =====
-- Calls over the sample network.
use fabricsdk.Base.{ℕ, ◌≡◌, refl, true, false, none, List, [], ◌∷◌, Text, codes}
use fabricsdk.GoError.{Error, GoError, boxed, as_error, find}
use fabricsdk.Kinds.{TxValidationCode}
use fabricsdk.Observe.{Op, CallInfo}
use fabricsdk.Options.{args, CallOption}
use fabricsdk.Result.{ok, err, error_of}
use fabricsdk.World.{World, opened, CommitStatus}
use fabricsdk.World.Open.{Shows, Shows-start, emit-opened}
use fabricsdk.Contract.{evaluate_with, close_gateway}
use fabricsdk.Classify.Outcome.{IsForeign}
use fabricsdk.Submit.{PendingTx, submit_async, submit_with, wait, status_call, release_once}
use fabricsdk.Submit.Balance.{
  Refused, submit_async-AsyncPost, AsyncPost, wait-Shows, release_once_idem,
}
use fabricsdk.Submit.Wait.{wait-unanswered}
use fabricsdk.Submit.Dropped.{submit_with-ok, submit_with-left_open}
use fabricsdk.Ledger.{Decoders, tx_status, qscc}
use fabricsdk.Ledger.Resolve.{Truthful, tx_status-Truthful}
use fabricsdk.Base.{sym, ap, Option, ◌∙◌}
use fabricsdk.Result.{Result}
use fabricsdk.Submit.Reported.{ForeignErrors, Reports, Proposed, result_id, submit_with-Reports}
use fabricsdk.Tests.Sample.{libs, contract, answering, failing, world, unavailable_error}

pub world-Shows : Shows 0 [] world
world-Shows = Shows-start world refl

abbrev pub options : List CallOption
options = args (codes "asset7" ∷ []) ∷ []

abbrev read : Text
read = codes "ReadAsset"

submit_async-AsyncPost_example :
    AsyncPost
      (Refused libs answering contract read options world)
      0
      []
      (submit_async libs answering contract none read options world)
submit_async-AsyncPost_example =
    submit_async-AsyncPost libs answering 0 [] contract none read options world-Shows

-- The pending transaction of the run, and the world after `SubmitAsync`.
abbrev pending : PendingTx
pending = record {
  tx_id = codes "tx1";
  payload = codes "done";
  c = contract;
  fn = read;
  commit = 5;
  rel = close_gateway 7;
  once = false;
}

abbrev answered : World ℕ
answered = (submit_async libs answering contract none read options world).1

abbrev left : World ℕ
left = (submit_async libs failing contract none read options world).1

submit_with-ok_example :
    (p : PendingTx) × (st : CommitStatus) × ((submit_async libs answering contract none read options
        world).0
      ≡ ok p)
    × ((status_call libs answering p none answered).0 ≡ ok st)
    × (st.successful ≡ true)
    × (codes "tx1" ≡ p.tx_id)
    × (42 ≡ st.block_number)
    × (codes "done" ≡ p.payload)
unfolding submit_with submit_async fabricsdk.Contract.gateway fabricsdk.Contract.connect wait
submit_with-ok_example =
    submit_with-ok libs answering contract none read options world
      (record { tx_id = codes "tx1"; block_number = 42; payload = codes "done" }) refl

-- The gateway of the other identity stays open.
submit_with-left_open_example :
    (ds : List CallInfo) × Shows 1 ds (submit_with libs failing contract none read options world).1
    × ((x : GoError) × ((submit_with libs failing contract none read options world).0 ≡ err x))
unfolding submit_async fabricsdk.Contract.gateway fabricsdk.Contract.connect
submit_with-left_open_example =
    submit_with-left_open libs failing 0 [] contract none read options world left pending
      unavailable_error world-Shows refl refl

unavailable-IsForeign : IsForeign libs unavailable_error
unfolding as_error find
unavailable-IsForeign = record { no_error = refl; no_commit = refl }

wait-unanswered_example :
    (x : Error) × ((wait libs failing pending none world).0 ≡ err (boxed x))
    × (x.outcome_unknown ≡ true)
    × (x.tx_id ≡ codes "tx1")
    × ((wait libs failing pending none world).1 ≡ pending)
wait-unanswered_example = wait-unanswered libs failing pending none world refl unavailable-IsForeign

abbrev holding : World ℕ
holding = record world { trace = opened 7 ∷ [] }

holding-Shows : Shows 1 [] holding
holding-Shows = emit-opened 7 world-Shows

wait-Shows_example :
    (i : CallInfo) × Shows 1 (i ∷ []) (wait libs failing pending none holding).2
    × (i.operation ≡ Op.commit)
    × (i.tx_id ≡ codes "tx1")
    × (i.err ≡ error_of (wait libs failing pending none holding).0)
unfolding wait
wait-Shows_example = wait-Shows libs failing 0 pending none holding-Shows

release_once_idem_example :
    release_once libs answering
      (release_once libs answering pending world).0
      (release_once libs answering pending world).1
    ≡ release_once libs answering pending world
release_once_idem_example = release_once_idem libs answering pending world

abbrev decoders : Decoders
decoders = record {
  processed_transaction = λ x. ok TxValidationCode.valid;
  blockchain_info = λ x. ok 12;
}

abbrev tx1 : Text
tx1 = codes "tx1"

tx_status-Truthful_example :
    Truthful libs answering decoders tx1
      (qscc libs answering decoders contract none
        (codes "GetTransactionByID")
        (codes "mychannel" ∷ tx1 ∷ [])
        world).0
      (record { tx_id = tx1; found = true; validation_code = TxValidationCode.valid; valid = true })
unfolding tx_status fabricsdk.Contract.gateway fabricsdk.Contract.connect
tx_status-Truthful_example =
    tx_status-Truthful libs answering decoders contract none tx1 world
      (record { tx_id = tx1; found = true; validation_code = TxValidationCode.valid; valid = true })
      refl

pub failing-ForeignErrors : ForeignErrors failing
unfolding as_error find
failing-ForeignErrors = record {
  endorse = λ ctx p n e h. absurd (cc);
  submit = λ ctx t n e h. absurd (cc);
  commit_status = λ ctx c n e h. foreign_tag e _ refl h;
}
  where
    same : Result CommitStatus → Option Error
    same (ok st) = none
    same (err e) = as_error e

    foreign_tag :
        (e : GoError) (r : Result CommitStatus)
        → r ≡ err unavailable_error
        → r ≡ err e
        → as_error e ≡ none
    foreign_tag e r g h = sym (ap same h) ∙ ap same g

submit_with-Reports_example :
    Reports
      (Proposed failing contract read options)
      result_id
      (submit_with libs failing contract none read options world).0
submit_with-Reports_example =
    submit_with-Reports libs failing failing-ForeignErrors contract none read options world
