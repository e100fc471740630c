-- ===== src/Tests/Sample.antt =====
-- A sample client, gateway library and network for the tests.
use fabricsdk.Base.{ℕ, suc, true, false, none, some, [], ◌∷◌, pos, Text, codes, ◌==◌, if◌then◌else◌}
use fabricsdk.Kinds.{GrpcCode, TxValidationCode}
use fabricsdk.GoError.{GoError, commit, other, ErrorDetail, end}
use fabricsdk.Libs.{Libs, Status, gateway_detail, other_detail}
use fabricsdk.Config.{Config, Identity}
use fabricsdk.Contract.{Contract}
use fabricsdk.Result.{Result, ok, err}
use fabricsdk.World.{GatewayApi, CommitStatus, World}

abbrev pub chaincode_detail : ErrorDetail
chaincode_detail = record {
  address = codes "peer0:7051";
  msp_id = codes "Org1MSP";
  message = codes "chaincode response 500, NOT_FOUND: asset 7";
}

-- The status of an error: tag 1 is an Aborted answer with one detail, tag 2 an Unavailable one.
abbrev status_of_tag : ℕ → Text → Status
status_of_tag n m =
    if n == 1
    then record {
      code = GrpcCode.aborted;
      message = m;
      details = other_detail ∷ gateway_detail chaincode_detail ∷ [];
    }
    else if n == 2
    then record { code = GrpcCode.unavailable; message = m; details = [] }
    else record { code = GrpcCode.unknown; message = m; details = [] }

abbrev sample_convert : GoError → Status
sample_convert (other n m es) = status_of_tag n m
sample_convert _ = record { code = GrpcCode.unknown; message = []; details = [] }

abbrev pub libs : Libs
libs = record {
  convert = sample_convert;
  new_status = λ c m. record { code = c; message = m; details = [] };
  tx_code_name = λ c. codes "MVCC_READ_CONFLICT";
  tx_code_number = λ c. codes "11";
}

abbrev pub aborted_error : GoError
aborted_error = other 1 (codes "failed to endorse transaction") end

abbrev pub unavailable_error : GoError
unavailable_error = other 2 (codes "connection refused") end

abbrev pub conflict_error : GoError
conflict_error = commit (codes "tx9") TxValidationCode.mvcc_read_conflict (codes "invalid")

abbrev pub own_identity : Identity
own_identity = record { address = 1; msp_id = codes "Org1MSP"; cert = 10; sign = 11; close = none }

abbrev pub other_identity : Identity
other_identity = record {
  address = 2;
  msp_id = codes "Org1MSP";
  cert = 20;
  sign = 21;
  close = none;
}

abbrev pub config : Config
config = record {
  peer_endpoint = codes "peer0:7051";
  peer_host_override = [];
  tls_cert_path = codes "/tls/ca.crt";
  client_tls_cert_path = [];
  client_tls_key_path = [];
  keep_alive = none;
  dial_options = [];
  identity = some own_identity;
  msp_id = [];
  cert_path = [];
  key_path = [];
  channel_name = codes "mychannel";
  chaincode_name = codes "basic";
  contract_name = [];
  evaluate_timeout = pos 0;
  endorse_timeout = pos 15;
  submit_timeout = pos 5;
  commit_status_timeout = pos 0;
  strict_error_codes = true;
  logger = none;
  observer = none;
}

-- A handle that signs with an identity other than the client's, so that it opens a gateway.
abbrev pub contract : Contract
contract = record {
  fc = record {
    cfg = config;
    conn = 3;
    owned_conn = none;
    id = own_identity;
    owns_id = false;
    gw = 4;
    tls_hash = [];
  };
  id = some other_identity;
  channel = codes "mychannel";
  chaincode = codes "basic";
  contract = [];
}

-- A network that counts its calls; the answers to a query and to the question for a commit status
-- are given.
abbrev pub api : Result Text → Result CommitStatus → GatewayApi ℕ
api answer status = record {
  now = λ n. n;
  connect = λ id o n. (ok 7, suc n);
  close = λ g n. (none, suc n);
  close_connection = λ g n. (none, suc n);
  close_signer = λ s n. (none, suc n);
  new_client = λ t o n. (ok 3, suc n);
  new_proposal = λ g t f o n. (ok 1, suc n);
  transaction_id = λ p. codes "tx1";
  evaluate = λ ctx p n. (answer, suc n);
  endorse = λ ctx p n. (ok 2, suc n);
  payload = λ t. codes "done";
  submit = λ ctx t n. (ok 5, suc n);
  chaincode_events = λ ctx g c n o m. (ok 8, suc m);
  block_events = λ ctx g c o m. (ok 9, suc m);
  options_of = λ up n. [];
  commit_status = λ ctx c n. (status, suc n);
}

abbrev pub committed_status : CommitStatus
committed_status = record { successful = true; code = TxValidationCode.valid; block_number = 42 }

abbrev pub answering : GatewayApi ℕ
answering = api (ok (codes "asset")) (ok committed_status)

-- A network that answers no query and no question for a commit status.
abbrev pub failing : GatewayApi ℕ
failing = api (err (other 0 (codes "no such transaction ID [tx1]") end)) (err unavailable_error)

abbrev pub world : World ℕ
world = record { is_closed = false; trace = []; net = 0 }
