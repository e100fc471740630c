-- ===== src/Identities/Failures.antt =====
-- The kind of error with which an identity is refused.
use fabricsdk.Base.{ℕ, ◌≡◌, refl, Option, none, some, Text, if_intro}
use fabricsdk.GoError.{GoError, boxed, as_error, find}
use fabricsdk.Kinds.{Kind}
use fabricsdk.Errors.{config_error, kind_of, new_error}
use fabricsdk.Config.{is_blank}
use fabricsdk.Result.{Result, ok, err}
use fabricsdk.Identities.{
  FileSystem, Pki, read_pem_path, x509_identity, new_identity, refused_identity, with_signer,
  with_checked, with_key, with_certificate, identity_from_pem, with_key_file, with_certificate_file,
  load_identity, config_failure,
}

-- A failure is of kind config.
abbrev pub FailsAsConfig : {A : Type 0} → Result A → Type 0
FailsAsConfig (ok a) = Unit
FailsAsConfig (err e) = kind_of (some e) ≡ Kind.config

pub config_kind : (e : GoError) → kind_of (some (boxed (config_error e))) ≡ Kind.config
unfolding kind_of as_error find config_error new_error
config_kind e = refl

module _ (pki : Pki) (address : ℕ) where
  x509_identity-FailsAsConfig :
      (cert sign : ℕ) (r : Result Text) → FailsAsConfig (x509_identity pki address cert sign r)
  unfolding x509_identity config_failure
  x509_identity-FailsAsConfig cert sign (err e) = config_kind _
  x509_identity-FailsAsConfig cert sign (ok m) = tt

  -- `NewIdentity` fails only with an error of kind config.
  pub new_identity-FailsAsConfig :
      (m : Text) (cert sign : Option ℕ) → FailsAsConfig (new_identity pki address m cert sign)
  unfolding new_identity refused_identity
  new_identity-FailsAsConfig m none sign = config_kind _
  new_identity-FailsAsConfig m (some cert) none = config_kind _
  new_identity-FailsAsConfig m (some cert) (some sign) =
      if_intro FailsAsConfig (is_blank m) (config_kind _)
        (x509_identity-FailsAsConfig cert sign (pki.new_x509_identity m cert))

  with_signer-FailsAsConfig :
      (m : Text) (cert : ℕ) (r : Result ℕ) → FailsAsConfig (with_signer pki address m cert r)
  unfolding with_signer config_failure
  with_signer-FailsAsConfig m cert (err e) = config_kind _
  with_signer-FailsAsConfig m cert (ok sign) = new_identity-FailsAsConfig m (some cert) (some sign)

  with_checked-FailsAsConfig :
      (m : Text) (cert key : ℕ) (e : Option GoError)
      → FailsAsConfig (with_checked pki address m cert key e)
  unfolding with_checked
  with_checked-FailsAsConfig m cert key (some e) = config_kind e
  with_checked-FailsAsConfig m cert key none =
      with_signer-FailsAsConfig m cert (pki.new_private_key_sign key)

  with_key-FailsAsConfig :
      (m : Text) (cert : ℕ) (r : Result ℕ) → FailsAsConfig (with_key pki address m cert r)
  unfolding with_key config_failure
  with_key-FailsAsConfig m cert (err e) = config_kind _
  with_key-FailsAsConfig m cert (ok key) = with_checked-FailsAsConfig m cert key _

  identity_from_pem-FailsAsConfig :
      (m cert_pem key_pem : Text) → FailsAsConfig (identity_from_pem pki address m cert_pem key_pem)
  unfolding identity_from_pem
  identity_from_pem-FailsAsConfig m cert_pem key_pem = parsed (pki.certificate_from_pem cert_pem)
    where
      parsed : (r : Result ℕ) → FailsAsConfig (with_certificate pki address m key_pem r)
      parsed (err e) = config_kind _
      parsed (ok cert) = with_key-FailsAsConfig m cert (pki.private_key_from_pem key_pem)

  -- `LoadIdentity` fails only with an error of kind config.
  pub load_identity-FailsAsConfig :
      (fs : FileSystem) (m cert_path key_path : Text)
      → FailsAsConfig (load_identity pki address fs m cert_path key_path)
  unfolding load_identity with_certificate_file with_key_file config_failure
  load_identity-FailsAsConfig fs m cert_path key_path = certificate (read_pem_path fs cert_path)
    where
      key :
          (cert_pem : Text) (r : Result Text)
          → FailsAsConfig (with_key_file pki address m cert_pem r)
      key cert_pem (err e) = config_kind _
      key cert_pem (ok key_pem) = identity_from_pem-FailsAsConfig m cert_pem key_pem

      certificate :
          (r : Result Text) → FailsAsConfig (with_certificate_file pki address fs m key_path r)
      certificate (err e) = config_kind _
      certificate (ok cert_pem) = key cert_pem (read_pem_path fs key_path)
