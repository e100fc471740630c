-- ===== src/Examples.antt =====
-- examples: what the two example programs share, which is their reading of the environment. A program
-- that stops by `log.Fatalf` exits at once, and its deferred calls do not run.
pub mod Basic
pub mod Listener
use fabricsdk.Base.{
  Bool, false, Option, none, some, List, [], ◌∷◌, pos, Text, codes, is_empty, if◌then◌else◌,
}
use fabricsdk.Config.{Config}

-- The first variable that is not set, in the order in which `mustEnv` is called.
pub missing : (Text → Text) → List Text → Option Text
missing getenv [] = none
missing getenv (k ∷ ks) =
    let rest = missing getenv ks in if is_empty (getenv k) then some k else rest

abbrev pub required : List Text
required =
    codes "PEER_ENDPOINT"
    ∷ codes "TLS_CERT_PATH"
    ∷ codes "CERT_PATH"
    ∷ codes "KEY_PATH"
    ∷ codes "MSP_ID"
    ∷ codes "CHANNEL"
    ∷ codes "CHAINCODE"
    ∷ []

-- The `Config` that the programs give to `New`.
pub config_from : (Text → Text) → Config
config_from getenv = record {
  peer_endpoint = getenv (codes "PEER_ENDPOINT");
  peer_host_override = getenv (codes "PEER_HOST_OVERRIDE");
  tls_cert_path = getenv (codes "TLS_CERT_PATH");
  client_tls_cert_path = [];
  client_tls_key_path = [];
  keep_alive = none;
  dial_options = [];
  identity = none;
  msp_id = getenv (codes "MSP_ID");
  cert_path = getenv (codes "CERT_PATH");
  key_path = getenv (codes "KEY_PATH");
  channel_name = getenv (codes "CHANNEL");
  chaincode_name = getenv (codes "CHAINCODE");
  contract_name = [];
  evaluate_timeout = pos 0;
  endorse_timeout = pos 0;
  submit_timeout = pos 0;
  commit_status_timeout = pos 0;
  strict_error_codes = false;
  logger = none;
  observer = none;
}
