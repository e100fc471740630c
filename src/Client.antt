-- ===== src/Client.antt =====
-- client.go: making a client, with what is taken back when that fails, and closing it.
pub mod Lifecycle
pub mod Borrowed
pub mod Failures
pub mod Calls
pub mod Threads
use fabricsdk.Base.{
  ℕ, Bool, true, false, not, Option, none, some, List, [], ◌∷◌, ◌++◌, Text, codes, is_empty,
  if◌then◌else◌,
}
use fabricsdk.GoStrings.{join}
use fabricsdk.GoError.{GoError, GoErrors, Error, other, also, end, boxed, text_of}
use fabricsdk.Errors.{config_error}
use fabricsdk.Libs.{Libs}
use fabricsdk.Config.{
  Config, Identity, validate, with_defaults, grpc_target, server_name_for, new_go_error,
}
use fabricsdk.Result.{Result, ok, err}
use fabricsdk.World.{
  Event, ready, GatewayApi, DialOptions, closed, dialled, disconnected, signer_closed, World, emit,
  lift,
}
use fabricsdk.Contract.{FabricClient, connect, wrap_error}
use fabricsdk.Identities.{FileSystem, Pki, load_identity}

-- `AppendCertsFromPEM`, `tls.LoadX509KeyPair` for the pair's first certificate, and `sha256.Sum256`.
pub record TlsLib : Type 0 where
  pub has_certificates : Text → Bool
  pub load_key_pair : Text → Text → Result Text
  pub sum256 : Text → Text

-- The TLS credentials and the hash of the client's certificate.
pub record Credentials : Type 0 where
  pub root_certs : Text
  pub server_name : Text
  pub certificate : Option Text
  pub tls_hash : Text

setup_error : Text → GoError → GoError
setup_error text e = boxed (config_error (wrap_error text e))

module _ (fs : FileSystem) (tls : TlsLib) where
  with_key_pair : Config → Text → Result Text → Result Credentials
  unfolding setup_error
  with_key_pair cfg ca (err e) = err (setup_error (codes "load client TLS key pair: ") e)
  with_key_pair cfg ca (ok cert) = ok (record {
    root_certs = ca;
    server_name = server_name_for cfg;
    certificate = some cert;
    tls_hash = tls.sum256 cert;
  })

  no_certificates : Config → GoError
  no_certificates cfg =
      boxed
        (config_error (new_go_error (codes "no PEM certificates found in " ++ cfg.tls_cert_path)))

  with_ca : Config → Result Text → Result Credentials
  unfolding with_key_pair no_certificates setup_error
  with_ca cfg (err e) = err (setup_error (codes "read TLS CA certificate: ") e)
  with_ca cfg (ok ca) =
      if not (tls.has_certificates ca)
      then err (no_certificates cfg)
      else if is_empty cfg.client_tls_cert_path
      then ok (record {
        root_certs = ca;
        server_name = server_name_for cfg;
        certificate = none;
        tls_hash = [];
      })
      else with_key_pair cfg ca (tls.load_key_pair cfg.client_tls_cert_path cfg.client_tls_key_path)

  -- `transportCredentials`.
  unfoldable pub transport_credentials : Config → Result Credentials
  unfolding with_ca
  transport_credentials cfg = with_ca cfg (fs.read_file cfg.tls_cert_path)

-- `errors.Join`: nil if every error is.
texts : List (Option GoError) → List Text
texts [] = []
texts (none ∷ es) = texts es
texts (some e ∷ es) = text_of e ∷ texts es

causes : List (Option GoError) → GoErrors
causes [] = end
causes (none ∷ es) = causes es
causes (some e ∷ es) = also e (causes es)

join_causes : Text → GoErrors → Option GoError
join_causes text end = none
join_causes text (also e es) = some (other 1 text (also e es))

pub join_errors : List (Option GoError) → Option GoError
unfolding texts causes join_causes
join_errors es = join_causes (join (texts es) (b'\n' ∷ [])) (causes es)

-- A client before it has a gateway; a nil gateway is 0.
abbrev pub unready : Config → ℕ → Text → Identity → Bool → FabricClient
unready cfg conn hash id owns = record {
  cfg = cfg;
  conn = conn;
  owned_conn = none;
  id = id;
  owns_id = owns;
  gw = 0;
  tls_hash = hash;
}

-- The line that `New` logs.
abbrev pub ready_line : FabricClient → Event
ready_line fc = ready fc.cfg.peer_endpoint fc.id.msp_id fc.cfg.channel_name fc.cfg.chaincode_name

module _ (l : Libs) {N : Type 0} (api : GatewayApi N) where
  -- `Identity.Close`, which takes the function out of the struct and calls it.
  unfoldable pub close_identity : Identity → World N → Option GoError × Identity × World N
  close_identity id w = elim id.close [
    | none ↦ (none, id, w)
    | some signer ↦
        let (e, w') = lift (api.close_signer signer) w in
        (e, record id { close = none }, emit (signer_closed signer) w')
  ]

  -- The end of `build`, on the gateway of the client's identity.
  connected : FabricClient → Result ℕ × World N → Result FabricClient × World N
  unfolding close_identity
  connected fc (ok gw, w) = (ok (record fc { gw = gw }), w)
  connected fc (err e, w) = (err e, if fc.owns_id then (close_identity fc.id w).2 else w)

  -- The rest of `build` once the identity is given or loaded. The client is not closed.
  pub build_as :
      Config → ℕ → Text → Result (Identity × Bool) → World N → Result FabricClient × World N
  unfolding connected
  build_as cfg conn hash (err e) w = (err e, w)
  build_as cfg conn hash (ok (id, owns)) w =
      let fc = unready cfg conn hash id owns in
      connected fc (connect l api fc id (record w { is_closed = false }))

  loaded : Result Identity → Result (Identity × Bool)
  loaded (err e) = err e
  loaded (ok id) = ok (id, true)

  pub identity_for : FileSystem → Pki → ℕ → Config → Option Identity → Result (Identity × Bool)
  unfolding loaded
  identity_for fs pki address cfg (some id) = ok (id, false)
  identity_for fs pki address cfg none =
      loaded (load_identity pki address fs cfg.msp_id cfg.cert_path cfg.key_path)

  -- `build`; an identity that is loaded lies at `address`.
  unfoldable pub build :
      FileSystem → Pki → ℕ → Config → ℕ → Text → World N → Result FabricClient × World N
  unfolding build_as identity_for
  build fs pki address cfg conn hash w =
      build_as cfg conn hash (identity_for fs pki address cfg cfg.identity) w

  -- The end of `New`, on what `build` returns.
  owned : ℕ → Result FabricClient × World N → Result FabricClient × World N
  owned conn (ok fc, w) = (ok (record fc { owned_conn = some conn }), emit (ready_line fc) w)
  owned conn (err e, w) = (err e, emit (disconnected conn) (lift (api.close_connection conn) w).1)

  module _ (fs : FileSystem) (pki : Pki) (tls : TlsLib) (address : ℕ) where
    on_connection : Config → Text → Result ℕ × World N → Result FabricClient × World N
    unfolding build owned setup_error
    on_connection cfg hash (err e, w) = (err (setup_error (codes "create gRPC client: ") e), w)
    on_connection cfg hash (ok conn, w) =
        owned conn (build fs pki address cfg conn hash (emit (dialled conn) w))

    dial : Config → Result Credentials → World N → Result FabricClient × World N
    unfolding on_connection
    dial cfg (err e) w = (err e, w)
    dial cfg (ok cr) w =
        let opts : DialOptions = record {
          root_certs = cr.root_certs;
          server_name = cr.server_name;
          certificate = cr.certificate;
          keep_alive = cfg.keep_alive;
          dial_options = cfg.dial_options;
        } in
        on_connection cfg cr.tls_hash (lift (api.new_client (grpc_target cfg.peer_endpoint) opts) w)

    -- On the error of `validate`.
    new_checked : Config → Option Error → World N → Result FabricClient × World N
    unfolding dial
    new_checked cfg (some e) w = (err (boxed e), w)
    new_checked cfg none w =
        let cfg' = with_defaults cfg in dial cfg' (transport_credentials fs tls cfg') w

    -- `New`.
    unfoldable pub new : Config → World N → Result FabricClient × World N
    unfolding new_checked
    new cfg w = new_checked cfg (validate cfg true) w

    -- `NewWithConnection`; a nil connection is `none`.
    pub new_with_connection : Option ℕ → Config → World N → Result FabricClient × World N
    new_with_connection none cfg w =
        (err (boxed (config_error (new_go_error (codes "connection is nil")))), w)
    new_with_connection (some conn) cfg w = elim (validate cfg false) [
      | some e ↦ (err (boxed e), w)
      | none ↦ build fs pki address (with_defaults cfg) conn [] w
    ]

  -- The steps of `Close`, each with the error that it adds.
  close_own_connection : Option ℕ → World N → List (Option GoError) × World N
  close_own_connection none w = ([], w)
  close_own_connection (some conn) w =
      let (e, w') = lift (api.close_connection conn) w in (e ∷ [], emit (disconnected conn) w')

  pub close_own_identity : FabricClient → World N → List (Option GoError) × FabricClient × World N
  unfolding close_identity
  close_own_identity fc w =
      let (e, id, w') = close_identity fc.id w in
      if fc.owns_id then (e ∷ [], record fc { id = id }, w') else ([], fc, w)

  close_all : FabricClient → World N → Option GoError × FabricClient × World N
  unfolding close_own_connection close_own_identity
  close_all fc w =
      let (e, w1) = lift (api.close fc.gw) (record w { is_closed = true }) in
      let (es, w2) = close_own_connection fc.owned_conn (emit (closed fc.gw) w1) in
      let (fs, fc', w3) = close_own_identity fc w2 in (join_errors (e ∷ (es ++ fs)), fc', w3)

  -- `Close`. The function behind `closeOnce` sets `closed`, so the flag tells whether it has run.
  unfoldable pub close : FabricClient → World N → Option GoError × FabricClient × World N
  unfolding close_all
  close fc w = if w.is_closed then (none, fc, w) else close_all fc w
