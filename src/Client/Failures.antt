-- ===== src/Client/Failures.antt =====
-- The kind of error with which a client, or an identity in a token, is refused.
use fabricsdk.Base.{
  ℕ, ◌≡◌, refl, Bool, true, false, not, Option, none, some, [], Text, if_intro, is_empty,
}
use fabricsdk.GoError.{Error, boxed, as_error, find}
use fabricsdk.Errors.{kind_of}
use fabricsdk.Libs.{Libs}
use fabricsdk.Config.{Config, Identity, validate, with_defaults}
use fabricsdk.Result.{Result, ok, err}
use fabricsdk.World.{GatewayApi, World}
use fabricsdk.Contract.{FabricClient, connect, connect_result}
use fabricsdk.Identities.{FileSystem, Pki}
use fabricsdk.Identities.Failures.{FailsAsConfig, config_kind, load_identity-FailsAsConfig}
use fabricsdk.Config.Valid.{validate-config}
use fabricsdk.Client.{
  TlsLib, Credentials, setup_error, with_key_pair, no_certificates, with_ca, transport_credentials,
  connected, build_as, loaded, identity_for, build, owned, on_connection, dial, new_checked, new,
  new_with_connection, unready,
}

module _ (l : Libs) {N : Type 0} (api : GatewayApi N) where
  connected-FailsAsConfig :
      (fc : FabricClient) (r : Result ℕ × World N)
      → FailsAsConfig (connected l api fc (connect_result l api r)).0
  unfolding connected connect_result
  connected-FailsAsConfig fc (ok gw, w) = tt
  connected-FailsAsConfig fc (err e, w) = config_kind _

  build_as-FailsAsConfig :
      (cfg : Config) (conn : ℕ) (hash : Text) (r : Result (Identity × Bool)) (w : World N)
      → FailsAsConfig r
      → FailsAsConfig (build_as l api cfg conn hash r w).0
  unfolding build_as connect
  build_as-FailsAsConfig cfg conn hash (err e) w h = h
  build_as-FailsAsConfig cfg conn hash (ok (id, owns)) w h =
      connected-FailsAsConfig (unready cfg conn hash id owns) _

  module _ (fs : FileSystem) (pki : Pki) (address : ℕ) where
    identity_for-FailsAsConfig :
        (cfg : Config) (o : Option Identity)
        → FailsAsConfig (identity_for l api fs pki address cfg o)
    unfolding identity_for loaded
    identity_for-FailsAsConfig cfg (some id) = tt
    identity_for-FailsAsConfig cfg none =
        of_loaded _
          (load_identity-FailsAsConfig pki address fs cfg.msp_id cfg.cert_path cfg.key_path)
      where
        of_loaded : (r : Result Identity) → FailsAsConfig r → FailsAsConfig (loaded l api r)
        of_loaded (err e) h = h
        of_loaded (ok id) h = tt

    build-FailsAsConfig :
        (cfg : Config) (conn : ℕ) (hash : Text) (w : World N)
        → FailsAsConfig (build l api fs pki address cfg conn hash w).0
    unfolding build
    build-FailsAsConfig cfg conn hash w =
        build_as-FailsAsConfig cfg conn hash _ w (identity_for-FailsAsConfig cfg cfg.identity)

    module _ (tls : TlsLib) where
      transport_credentials-FailsAsConfig :
          (cfg : Config) → FailsAsConfig (transport_credentials fs tls cfg)
      unfolding transport_credentials with_ca with_key_pair setup_error no_certificates
      transport_credentials-FailsAsConfig cfg = with_file (fs.read_file cfg.tls_cert_path)
        where
          pair : (ca : Text) (r : Result Text) → FailsAsConfig (with_key_pair fs tls cfg ca r)
          pair ca (err e) = config_kind _
          pair ca (ok cert) = tt

          with_file : (r : Result Text) → FailsAsConfig (with_ca fs tls cfg r)
          with_file (err e) = config_kind _
          with_file (ok ca) =
              if_intro FailsAsConfig (not (tls.has_certificates ca)) (config_kind _) (
                if_intro FailsAsConfig (is_empty cfg.client_tls_cert_path) tt
                  (pair ca (tls.load_key_pair cfg.client_tls_cert_path cfg.client_tls_key_path)))

      owned-FailsAsConfig :
          (conn : ℕ) (r : Result FabricClient × World N)
          → FailsAsConfig r.0
          → FailsAsConfig (owned l api conn r).0
      unfolding owned
      owned-FailsAsConfig conn (ok fc, w) h = tt
      owned-FailsAsConfig conn (err e, w) h = h

      on_connection-FailsAsConfig :
          (cfg : Config) (hash : Text) (r : Result ℕ × World N)
          → FailsAsConfig (on_connection l api fs pki tls address cfg hash r).0
      unfolding on_connection setup_error
      on_connection-FailsAsConfig cfg hash (err e, w) = config_kind _
      on_connection-FailsAsConfig cfg hash (ok conn, w) =
          owned-FailsAsConfig conn _ (build-FailsAsConfig cfg conn hash _)

      dial-FailsAsConfig :
          (cfg : Config) (r : Result Credentials) (w : World N)
          → FailsAsConfig r
          → FailsAsConfig (dial l api fs pki tls address cfg r w).0
      unfolding dial
      dial-FailsAsConfig cfg (err e) w h = h
      dial-FailsAsConfig cfg (ok cr) w h = on_connection-FailsAsConfig cfg cr.tls_hash _

      new_checked-FailsAsConfig :
          (cfg : Config) (e : Option Error) (w : World N)
          → validate cfg true ≡ e
          → FailsAsConfig (new_checked l api fs pki tls address cfg e w).0
      unfolding new_checked kind_of as_error find
      new_checked-FailsAsConfig cfg (some e) w h = (validate-config cfg true e h).0
      new_checked-FailsAsConfig cfg none w h =
          dial-FailsAsConfig (with_defaults cfg) _ w
            (transport_credentials-FailsAsConfig (with_defaults cfg))

      borrowed-FailsAsConfig :
          (conn : Option ℕ) (cfg : Config) (w : World N)
          → FailsAsConfig (new_with_connection l api fs pki tls address conn cfg w).0
      unfolding new_with_connection kind_of as_error find
      borrowed-FailsAsConfig none cfg w = config_kind _
      borrowed-FailsAsConfig (some conn) cfg w = checked (validate cfg false) refl
        where
          checked :
              (e : Option Error)
              → validate cfg false ≡ e
              → FailsAsConfig
                  (elim e as (λ _. Result FabricClient × World N) [
                    | some x ↦ (err (boxed x), w)
                    | none ↦ build l api fs pki address (with_defaults cfg) conn [] w
                  ]).0
          checked (some x) h = (validate-config cfg false x h).0
          checked none h = build-FailsAsConfig (with_defaults cfg) conn [] w

      -- Whatever the files, the TLS library, the network and the cryptography answer, `New` and
      -- `NewWithConnection` fail only with an error of kind config.
      pub new-FailsAsConfig :
          (conn : Option ℕ) (cfg : Config) (w : World N)
          → FailsAsConfig (new l api fs pki tls address cfg w).0
            × FailsAsConfig (new_with_connection l api fs pki tls address conn cfg w).0
      unfolding new
      new-FailsAsConfig conn cfg w = (
        new_checked-FailsAsConfig cfg (validate cfg true) w refl,
        borrowed-FailsAsConfig conn cfg w,
      )
