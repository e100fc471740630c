-- ===== src/Tests/Sent.antt =====
-- A submission over a network that counts requests.
use fabricsdk.Base.{ℕ, ◌+◌, refl, none, [], codes}
use fabricsdk.Result.{ok}
use fabricsdk.World.{GatewayApi}
use fabricsdk.Contract.Sent.{Counts}
use fabricsdk.Submit.{submit_with}
use fabricsdk.Submit.Once.{SubmitPost}
use fabricsdk.Submit.Sent.{SentPost, submit_with-SentPost}
use fabricsdk.Tests.Sample.{libs, contract, committed_status, world}
use fabricsdk.Tests.Calls.{options, world-Shows}

-- A network that counts the requests to its ordering service.
abbrev ordering : GatewayApi ℕ
ordering = record {
  now = λ n. 0;
  connect = λ id o n. (ok 7, n);
  close = λ g n. (none, n);
  close_connection = λ g n. (none, n);
  close_signer = λ s n. (none, n);
  new_client = λ t o n. (ok 3, n);
  new_proposal = λ g t f o n. (ok 1, n);
  transaction_id = λ p. codes "tx1";
  evaluate = λ ctx p n. (ok (codes "asset"), n);
  endorse = λ ctx p n. (ok 2, n);
  payload = λ t. codes "done";
  submit = λ ctx t n. (ok 5, n + 1);
  chaincode_events = λ ctx g c n o m. (ok 8, m);
  block_events = λ ctx g c o m. (ok 9, m);
  options_of = λ up n. [];
  commit_status = λ ctx c n. (ok committed_status, n);
}

ordering-Counts : Counts ordering (λ n. n)
ordering-Counts = record {
  submit = λ ctx tx n. refl;
  connect = λ id o n. refl;
  close = λ g n. refl;
  new_proposal = λ g t fn os n. refl;
  endorse = λ ctx p n. refl;
  commit_status = λ ctx c n. refl;
}

submit_with-SentPost_example :
    SentPost libs ordering
      (λ n. n)
      ordering-Counts
      0
      (submit_with libs ordering contract none (codes "CreateAsset") options world)
    × SubmitPost 0 [] (submit_with libs ordering contract none (codes "CreateAsset") options world)
submit_with-SentPost_example =
    submit_with-SentPost libs ordering (λ n. n) ordering-Counts 0 [] contract none
      (codes "CreateAsset") options world world-Shows
