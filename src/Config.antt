-- ===== src/Config.antt =====
-- config.go: the settings of a client, their defaults, their validation, and the two names that are
-- derived from the peer's endpoint. Durations are in nanoseconds.
pub mod Valid
pub mod Defaults
pub mod Endpoint
use fabricsdk.Base.{
  ℕ, Bool, true, false, not, ◌&&◌, ◌||◌, Option, none, some, List, [], ◌∷◌, ◌++◌, ℤ, pos, is_zero,
  is_negative, Text, codes, is_empty, exists, if◌then◌else◌,
}
use fabricsdk.GoStrings.{trim_space, has_prefix, contains, split_last, join}
use fabricsdk.GoError.{GoError, other, end, Error, is_some}
use fabricsdk.Errors.{config_error}
use fabricsdk.Observe.{Logger, Observer}

-- An `*Identity`: its address, the MSP ID of `x509`, and its other fields. The certificate and the
-- functions are tags.
pub record Identity : Type 0 where
  pub address : ℕ
  pub msp_id : Text
  pub cert : ℕ
  pub sign : ℕ
  pub close : Option ℕ

-- `KeepAlive` and the elements of `DialOptions` are values of gRPC, which are passed on as they are.
pub record Config : Type 0 where
  pub peer_endpoint : Text
  pub peer_host_override : Text
  pub tls_cert_path : Text
  pub client_tls_cert_path : Text
  pub client_tls_key_path : Text
  pub keep_alive : Option ℕ
  pub dial_options : List ℕ
  pub identity : Option Identity
  pub msp_id : Text
  pub cert_path : Text
  pub key_path : Text
  pub channel_name : Text
  pub chaincode_name : Text
  pub contract_name : Text
  pub evaluate_timeout : ℤ
  pub endorse_timeout : ℤ
  pub submit_timeout : ℤ
  pub commit_status_timeout : ℤ
  pub strict_error_codes : Bool
  pub logger : Option Logger
  pub observer : Option Observer

abbrev pub default_evaluate_timeout : ℤ
default_evaluate_timeout = pos 5_000_000_000

abbrev pub default_endorse_timeout : ℤ
default_endorse_timeout = pos 15_000_000_000

abbrev pub default_submit_timeout : ℤ
default_submit_timeout = pos 5_000_000_000

abbrev pub default_commit_status_timeout : ℤ
default_commit_status_timeout = pos 60_000_000_000

unfoldable pub or_default : ℤ → ℤ → ℤ
or_default d default = if is_zero d then default else d

unfoldable pub or_noop : {A : Type 0} → A → Option A → Option A
or_noop noop none = some noop
or_noop noop (some x) = some x

-- `withDefaults`.
unfoldable pub with_defaults : Config → Config
with_defaults c = record c {
  evaluate_timeout = or_default c.evaluate_timeout default_evaluate_timeout;
  endorse_timeout = or_default c.endorse_timeout default_endorse_timeout;
  submit_timeout = or_default c.submit_timeout default_submit_timeout;
  commit_status_timeout = or_default c.commit_status_timeout default_commit_status_timeout;
  logger = or_noop Logger.noop c.logger;
  observer = or_noop Observer.noop c.observer;
}

-- `strings.TrimSpace(s) == ""`
abbrev pub is_blank : Text → Bool
is_blank s = is_empty (trim_space s)

-- One `if` that appends a problem.
abbrev pub problem : Bool → Text → List Text
problem true text = text ∷ []
problem false text = []

abbrev pub xor : Bool → Bool → Bool
xor true b = not b
xor false b = b

network_problems : Config → List Text
network_problems c =
    problem (is_blank c.peer_endpoint) (codes "PeerEndpoint is required")
    ++ (problem (is_blank c.tls_cert_path) (codes "TLSCertPath is required")
        ++ problem (xor (is_empty c.client_tls_cert_path) (is_empty c.client_tls_key_path))
            (codes "ClientTLSCertPath and ClientTLSKeyPath must be set together"))

identity_problems : Config → List Text
identity_problems c =
    problem (is_blank c.msp_id) (codes "MSPID is required when Identity is nil")
    ++ (problem (is_blank c.cert_path) (codes "CertPath is required when Identity is nil")
        ++ problem (is_blank c.key_path) (codes "KeyPath is required when Identity is nil"))

abbrev pub timeouts : Config → List ℤ
timeouts c =
    c.evaluate_timeout ∷ c.endorse_timeout ∷ c.submit_timeout ∷ c.commit_status_timeout ∷ []

target_problems : Config → List Text
target_problems c =
    problem (is_blank c.channel_name) (codes "ChannelName is required")
    ++ (problem (is_blank c.chaincode_name) (codes "ChaincodeName is required")
        ++ problem (exists is_negative (timeouts c)) (codes "timeouts must not be negative"))

unfoldable pub problems : Config → Bool → List Text
unfolding network_problems identity_problems target_problems
problems c own_conn =
    (if own_conn then network_problems c else [])
    ++ ((if is_some c.identity then [] else identity_problems c) ++ target_problems c)

-- An `errors.New` of the text.
abbrev pub new_go_error : Text → GoError
new_go_error text = other 0 text end

report : List Text → Option Error
report [] = none
report (p ∷ ps) = some (config_error (new_go_error (join (p ∷ ps) (codes "; "))))

-- `validate`; `none` is a nil error.
unfoldable pub validate : Config → Bool → Option Error
unfolding report problems
validate c own_conn = report (problems c own_conn)

abbrev dns_scheme : Text
dns_scheme = codes "dns:///"

-- `grpcTarget`.
unfoldable pub grpc_target : Text → Text
grpc_target endpoint =
    if contains endpoint (codes "://")
      || (has_prefix endpoint (codes "dns:")
          || (has_prefix endpoint (codes "passthrough:") || has_prefix endpoint (codes "unix:")))
    then endpoint
    else dns_scheme ++ endpoint

-- `host[i+1:]` for the last "/", and `host[:i]` for the last ":".
after_slash : Text → Text
after_slash host = elim (split_last host b'/') [ none ↦ host | some ab ↦ ab.1 ]

before_colon : Text → Text
before_colon host = elim (split_last host b':') [ none ↦ host | some ab ↦ ab.0 ]

unfoldable pub server_name : Text → Text → Text
unfolding after_slash before_colon
server_name host_override endpoint =
    if not (is_empty host_override) then host_override else before_colon (after_slash endpoint)

-- `serverNameFor`.
unfoldable pub server_name_for : Config → Text
unfolding server_name
server_name_for c = server_name c.peer_host_override c.peer_endpoint
