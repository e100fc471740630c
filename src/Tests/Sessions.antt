-- ===== src/Tests/Sessions.antt =====
-- Calls of a client that is closed or fails, streams, sessions of a token, and the basic example.
use fabricsdk.Base.{ℕ, suc, ◌≡◌, refl, false, none, some, [], ◌∷◌, codes, Text}
use fabricsdk.GoError.{GoError}
use fabricsdk.Options.{Ctx}
use fabricsdk.Result.{ok, err}
use fabricsdk.World.{World}
use fabricsdk.World.Open.{Shows-start}
use fabricsdk.Contract.{closed_error}
use fabricsdk.Events.{from_block}
use fabricsdk.Streams.{chaincode_events}
use fabricsdk.Client.{close}
use fabricsdk.Client.Calls.{evaluate_with, submit_with, submit_async, events, height}
use fabricsdk.Client.Calls.Refused.{close-calls}
use fabricsdk.Hsm.{HsmOptions, PublicKeys, HsmFactory, identity_from_hsm}
use fabricsdk.Hsm.Sessions.{HsmPost, identity_from_hsm-HsmPost}
use fabricsdk.Base.{◌≤◌, ◌*◌, ◌+◌, length}
use fabricsdk.World.Open.{Shows}
use fabricsdk.Streams.{chaincode_events}
use fabricsdk.Streams.Closed.{release_times, chaincode_events-closed}
use fabricsdk.Forward.{Stream, done}
use fabricsdk.Forward.Finish.{Alones}
use fabricsdk.Tests.Runs.{sold, closed_stream, closed_run}
use fabricsdk.Tests.Sample.{libs, contract, answering, world, unavailable_error}
use fabricsdk.Contract.{FabricClient}
use fabricsdk.Ledger.{Decoders}
use fabricsdk.Tests.Clients.{files, pki, tls}
use fabricsdk.Client.{new, new_with_connection}
use fabricsdk.Client.Failures.{new-FailsAsConfig}
use fabricsdk.Client.Calls.{tx_status}
use fabricsdk.Client.Calls.Typed.{calls-Typed}
use fabricsdk.Identities.Failures.{FailsAsConfig}
use fabricsdk.Contract.Typed.{Typed}
use fabricsdk.Contract.{close_gateway}
use fabricsdk.Submit.{PendingTx, wait}
use fabricsdk.Tests.Sample.{config, failing}

abbrev background : Ctx
background = record { deadline = none; done = false }

abbrev decoders : Decoders
decoders = record {
  processed_transaction = λ t. err unavailable_error;
  blockchain_info = λ t. ok 12;
}

abbrev client : FabricClient
client = contract.fc

close-calls_example :
    let fc' = (close libs answering client world).1 in
    let w' = (close libs answering client world).2 in
    ((evaluate_with libs answering fc' none (codes "ReadAsset") [] w').0 ≡ err closed_error)
    × ((evaluate_with libs answering fc' none (codes "ReadAsset") [] w').1.net ≡ w'.net)
    × (submit_with libs answering fc' none (codes "ReadAsset") [] w' ≡ (err closed_error, w'))
    × (submit_async libs answering fc' none (codes "ReadAsset") [] w' ≡ (err closed_error, w'))
    × (events libs answering fc' background [] w' ≡ (err closed_error, w'))
    × ((e : GoError) × (height libs answering fc' decoders none w' ≡ (err e, w')))
close-calls_example =
    close-calls libs answering decoders client world none background (codes "ReadAsset") [] []

abbrev hsm_options : HsmOptions
hsm_options = record { label = codes "token"; pin = codes "1234"; identifier = [] }

abbrev keys : PublicKeys
keys = record { ecdsa_public_key = λ c. some c; ecdh_bytes = λ k. ok (codes "04"); sum256 = λ t. t }

-- A token whose sessions have the signing function 50 and the closing function 51.
abbrev token : HsmFactory ℕ
token = record { new_hsm_signer = λ l p i n. (ok (50, 51), suc n) }

identity_from_hsm-HsmPost_example : HsmPost [] (
    identity_from_hsm answering keys pki 9
      (codes "Org1MSP")
      hsm_options
      (some token)
      (codes "cert")
      world)
identity_from_hsm-HsmPost_example =
    identity_from_hsm-HsmPost libs answering keys pki 9 (codes "Org1MSP") hsm_options (some token)
      (codes "cert") world

new-FailsAsConfig_example :
    FailsAsConfig (new libs answering files pki tls 9 config world).0
    × FailsAsConfig (new_with_connection libs answering files pki tls 9 none config world).0
new-FailsAsConfig_example = new-FailsAsConfig libs answering files pki 9 tls none config world

abbrev pending_tx : PendingTx
pending_tx = record {
  tx_id = codes "tx1";
  payload = codes "done";
  c = contract;
  fn = codes "ReadAsset";
  commit = 5;
  rel = close_gateway 7;
  once = false;
}

calls-Typed_example :
    Typed (evaluate_with libs failing client none (codes "ReadAsset") [] world).0
    × Typed (submit_with libs failing client none (codes "ReadAsset") [] world).0
    × Typed (submit_async libs failing client none (codes "ReadAsset") [] world).0
    × Typed (wait libs failing pending_tx none world).0
    × Typed (tx_status libs failing client decoders none (codes "tx1") world).0
    × Typed (height libs failing client decoders none world).0
    × Typed (events libs failing client background [] world).0
calls-Typed_example =
    calls-Typed libs failing decoders client pending_tx none background (codes "ReadAsset")
      (codes "tx1") [] [] world

-- The world in which the stream is open.
abbrev streaming : World ℕ
streaming = (chaincode_events libs answering contract background (from_block 3 ∷ []) world).1

chaincode_events-closed_example :
    (n : ℕ) × (t : Stream) × (n ≤ 2 * length (sold ∷ []) + 8)
    × Alones closed_stream n t
    × (t.pc ≡ done)
    × Shows 0 [] (release_times libs answering t.releases (close_gateway 7) streaming)
unfolding chaincode_events fabricsdk.Contract.gateway fabricsdk.Contract.connect
chaincode_events-closed_example =
    chaincode_events-closed libs answering 0 [] contract background (from_block 3 ∷ []) world
      streaming 8 (close_gateway 7) (Shows-start world refl) refl closed_run refl refl

abbrev getenv : Text → Text
getenv name = name
