-- ===== src/Hsm.antt =====
-- identity_hsm.go: an identity whose key stays in a PKCS#11 token.
pub mod Sessions
use fabricsdk.Base.{ℕ, Option, none, some, [], ◌∷◌, ◌++◌, Text, codes}
use fabricsdk.GoError.{GoError, boxed}
use fabricsdk.Errors.{config_error}
use fabricsdk.Config.{Identity, new_go_error}
use fabricsdk.Contract.{wrap_error}
use fabricsdk.Identities.{Pki, new_identity}
use fabricsdk.Result.{Result, ok, err}
use fabricsdk.World.{GatewayApi, World, signer_opened, signer_closed, emit, lift}

-- `HSMOptions`.
pub record HsmOptions : Type 0 where
  pub label : Text
  pub pin : Text
  pub identifier : Text

-- The test for an ECDSA public key, `ECDH`, `Bytes` and `sha256.Sum256` of the key of a certificate.
pub record PublicKeys : Type 0 where
  pub ecdsa_public_key : ℕ → Option ℕ
  pub ecdh_bytes : ℕ → Result Text
  pub sum256 : Text → Text

-- `NewHSMSigner` of a factory by label, PIN and identifier: the signing and the closing function.
pub record HsmFactory (N : Type 0) : Type 0 where
  pub new_hsm_signer : Text → Text → Text → N → Result (ℕ × ℕ) × N

hsm_failure : Text → GoError → GoError
hsm_failure text e = boxed (config_error (wrap_error text e))

module _ (keys : PublicKeys) where
  hashed_key : Result Text → Result Text
  unfolding hsm_failure
  hashed_key (err e) = err (hsm_failure (codes "identity: convert public key: ") e)
  hashed_key (ok bytes) = ok (keys.sum256 bytes)

  key_identifier : Option ℕ → Result Text
  unfolding hashed_key
  key_identifier none = err (
      boxed (
        config_error (new_go_error (codes "identity: HSM identities must use ECDSA certificates"))))
  key_identifier (some public) = hashed_key (keys.ecdh_bytes public)

  -- The identifier of the options, or the one derived from the certificate.
  unfoldable pub identifier_for : ℕ → Text → Result Text
  unfolding key_identifier
  identifier_for cert [] = key_identifier (keys.ecdsa_public_key cert)
  identifier_for cert (c ∷ id) = ok (c ∷ id)

module _ {N : Type 0} (api : GatewayApi N) (keys : PublicKeys) (pki : Pki) (address : ℕ) (m : Text)
    (opts : HsmOptions) where
  -- On what `NewIdentity` returns: a failure closes the session.
  kept_session : ℕ → Result Identity → World N → Result Identity × World N
  kept_session close_fn (err e) w =
      (err e, emit (signer_closed close_fn) (lift (api.close_signer close_fn) w).1)
  kept_session close_fn (ok id) w = (ok (record id { close = some close_fn }), w)

  with_hsm_signer : ℕ → Result (ℕ × ℕ) × World N → Result Identity × World N
  unfolding kept_session hsm_failure
  with_hsm_signer cert (err e, w) = (err (hsm_failure (codes "identity: open HSM signer: ") e), w)
  with_hsm_signer cert (ok (sign, close_fn), w) =
      kept_session close_fn (new_identity pki address m (some cert) (some sign))
        (emit (signer_opened close_fn) w)

  with_identifier : HsmFactory N → ℕ → Result Text → World N → Result Identity × World N
  unfolding with_hsm_signer
  with_identifier factory cert (err e) w = (err e, w)
  with_identifier factory cert (ok id) w =
      with_hsm_signer cert (lift (factory.new_hsm_signer opts.label opts.pin id) w)

  with_hsm_certificate : HsmFactory N → Result ℕ → World N → Result Identity × World N
  unfolding with_identifier identifier_for hsm_failure
  with_hsm_certificate factory (err e) w =
      (err (hsm_failure (codes "identity: parse certificate: ") e), w)
  with_hsm_certificate factory (ok cert) w =
      with_identifier factory cert (identifier_for keys cert opts.identifier) w

  -- `IdentityFromHSM`; a nil factory is `none`.
  unfoldable pub identity_from_hsm :
      Option (HsmFactory N) → Text → World N → Result Identity × World N
  unfolding with_hsm_certificate
  identity_from_hsm none cert_pem w =
      (err (boxed (config_error (new_go_error (codes "identity: HSM signer factory is nil")))), w)
  identity_from_hsm (some factory) cert_pem w =
      with_hsm_certificate factory (pki.certificate_from_pem cert_pem) w
