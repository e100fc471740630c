-- ===== src/Identities.antt =====
-- identity.go: identities from PEM files. The file system, as it is when the files are read, and the
-- cryptography are parameters.
pub mod Loaded
pub mod Failures
pub mod Threads
use fabricsdk.Base.{
  ℕ, Bool, true, false, not, ◌||◌, Option, none, some, List, [], ◌∷◌, ◌++◌, Text, codes, length,
  if◌then◌else◌,
}
use fabricsdk.GoStrings.{has_prefix, join}
use fabricsdk.GoError.{GoError, boxed}
use fabricsdk.Errors.{config_error}
use fabricsdk.Config.{Identity, is_blank, new_go_error}
use fabricsdk.Contract.{wrap_error}
use fabricsdk.Result.{Result, ok, err}

-- An `os.DirEntry`, by its name and whether its type is that of a regular file.
pub record Entry : Type 0 where
  pub name : Text
  pub is_regular : Bool

-- `os.Stat` with `IsDir`, `os.ReadDir`, `os.ReadFile`, `filepath.Join`, `sort.Strings` and a number
-- in decimal.
pub record FileSystem : Type 0 where
  pub is_directory : Text → Result Bool
  pub read_dir : Text → Result (List Entry)
  pub read_file : Text → Result Text
  pub join_path : Text → Text → Text
  pub sort_strings : List Text → List Text
  pub decimal : ℕ → Text

-- The parsers of package identity, and keys: the public key of one that can sign, and the test of the
-- certificate's public key against a public key, where it has that test.
pub record Pki : Type 0 where
  pub certificate_from_pem : Text → Result ℕ
  pub private_key_from_pem : Text → Result ℕ
  pub public_key : ℕ → Option ℕ
  pub has_public_key : ℕ → ℕ → Bool
  pub new_private_key_sign : ℕ → Result ℕ
  pub new_x509_identity : Text → ℕ → Result Text

abbrev pub is_hidden_or_special : Entry → Bool
is_hidden_or_special e = has_prefix e.name (codes ".") || not e.is_regular

-- The loop over the entries.
unfoldable pub visible_files : List Entry → List Text
visible_files [] = []
visible_files (e ∷ es) =
    let rest = visible_files es in if is_hidden_or_special e then rest else e.name ∷ rest

config_failure : Text → GoError → GoError
config_failure text e = boxed (config_error (wrap_error text e))

module _ (fs : FileSystem) where
  -- The switch on the number of files, which are sorted.
  one_file : Text → List Text → Result Text
  one_file p [] = err (new_go_error (codes "no files in directory " ++ p))
  one_file p (f ∷ []) = fs.read_file (fs.join_path p f)
  one_file p (f ∷ g ∷ fs') = err (
      new_go_error (
        codes "directory "
        ++ (p
            ++ (codes " holds "
                ++ (fs.decimal (length (f ∷ g ∷ fs'))
                    ++ (codes " files ("
                        ++ (join (f ∷ g ∷ fs') (codes ", ")
                            ++ codes "); pass the path of one file")))))))

  in_directory : Text → Result (List Entry) → Result Text
  unfolding one_file visible_files
  in_directory p (err e) = err e
  in_directory p (ok es) = one_file p (fs.sort_strings (visible_files es))

  at_path : Text → Result Bool → Result Text
  unfolding in_directory
  at_path p (err e) = err e
  at_path p (ok false) = fs.read_file p
  at_path p (ok true) = in_directory p (fs.read_dir p)

  -- `readPEMPath`.
  unfoldable pub read_pem_path : Text → Result Text
  unfolding at_path
  read_pem_path p = at_path p (fs.is_directory p)

module _ (pki : Pki) (address : ℕ) where
  x509_identity : ℕ → ℕ → Result Text → Result Identity
  unfolding config_failure
  x509_identity cert sign (err e) = err (config_failure (codes "identity: ") e)
  x509_identity cert sign (ok m) =
      ok (record { address = address; msp_id = m; cert = cert; sign = sign; close = none })

  refused_identity : Text → Result Identity
  refused_identity text = err (boxed (config_error (new_go_error text)))

  -- `NewIdentity`, which allocates at `address`; a nil certificate or function is `none`.
  unfoldable pub new_identity : Text → Option ℕ → Option ℕ → Result Identity
  unfolding x509_identity refused_identity
  new_identity m none sign = refused_identity (
      if is_blank m
      then codes "identity: MSP ID is empty"
      else codes "identity: certificate is nil")
  new_identity m (some cert) none = refused_identity (
      if is_blank m
      then codes "identity: MSP ID is empty"
      else codes "identity: sign function is nil")
  new_identity m (some cert) (some sign) =
      if is_blank m
      then refused_identity (codes "identity: MSP ID is empty")
      else x509_identity cert sign (pki.new_x509_identity m cert)

  -- `checkKeyMatchesCert`, by its error.
  key_problem : ℕ → ℕ → Option ℕ → Option GoError
  key_problem key cert none = some (new_go_error (codes "identity: private key type cannot sign"))
  key_problem key cert (some p) =
      if pki.has_public_key cert p
      then none
      else some (new_go_error (codes "identity: private key does not match the certificate"))

  with_signer : Text → ℕ → Result ℕ → Result Identity
  unfolding new_identity config_failure
  with_signer m cert (err e) = err (config_failure (codes "identity: create signer: ") e)
  with_signer m cert (ok sign) = new_identity m (some cert) (some sign)

  with_checked : Text → ℕ → ℕ → Option GoError → Result Identity
  unfolding with_signer
  with_checked m cert key (some e) = err (boxed (config_error e))
  with_checked m cert key none = with_signer m cert (pki.new_private_key_sign key)

  with_key : Text → ℕ → Result ℕ → Result Identity
  unfolding with_checked key_problem config_failure
  with_key m cert (err e) = err (config_failure (codes "identity: parse private key: ") e)
  with_key m cert (ok key) = with_checked m cert key (key_problem key cert (pki.public_key key))

  with_certificate : Text → Text → Result ℕ → Result Identity
  unfolding with_key config_failure
  with_certificate m key_pem (err e) =
      err (config_failure (codes "identity: parse certificate: ") e)
  with_certificate m key_pem (ok cert) = with_key m cert (pki.private_key_from_pem key_pem)

  -- `IdentityFromPEM`.
  unfoldable pub identity_from_pem : Text → Text → Text → Result Identity
  unfolding with_certificate
  identity_from_pem m cert_pem key_pem =
      with_certificate m key_pem (pki.certificate_from_pem cert_pem)

  with_key_file : Text → Text → Result Text → Result Identity
  unfolding identity_from_pem config_failure
  with_key_file m cert_pem (err e) = err (config_failure (codes "identity: private key: ") e)
  with_key_file m cert_pem (ok key_pem) = identity_from_pem m cert_pem key_pem

  with_certificate_file : FileSystem → Text → Text → Result Text → Result Identity
  unfolding with_key_file config_failure
  with_certificate_file fs m key_path (err e) =
      err (config_failure (codes "identity: certificate: ") e)
  with_certificate_file fs m key_path (ok cert_pem) =
      with_key_file m cert_pem (read_pem_path fs key_path)

  -- `LoadIdentity`.
  unfoldable pub load_identity : FileSystem → Text → Text → Text → Result Identity
  unfolding with_certificate_file
  load_identity fs m cert_path key_path =
      with_certificate_file fs m key_path (read_pem_path fs cert_path)
