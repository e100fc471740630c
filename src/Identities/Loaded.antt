-- ===== src/Identities/Loaded.antt =====
-- What a loaded identity is made of, and how loading fails.
use fabricsdk.Base.{
  ℕ, ◌≡◌, refl, sym, ap, ◌∙◌, inl, inr, Bool, Bool-cases, true, false, Option, none, some, List, [],
  ◌∷◌, Text, arith,
}
use fabricsdk.GoError.{GoError}
use fabricsdk.Config.{Identity, is_blank}
use fabricsdk.Result.{Result, ok, err}
use fabricsdk.Identities.{
  Entry, FileSystem, Pki, visible_files, one_file, in_directory, at_path, read_pem_path,
  x509_identity, new_identity, refused_identity, key_problem, with_signer, with_checked, with_key,
  with_certificate, identity_from_pem, with_key_file, with_certificate_file, load_identity,
}

-- Where the text that `readPEMPath` returns comes from: the file itself, or the only visible regular
-- file of the directory.
pub data Source (fs : FileSystem) (p text : Text) : Type 0 where
  file : fs.is_directory p ≡ ok false → fs.read_file p ≡ ok text → Source fs p text
  only_file :
      (es : List Entry) (f : Text)
      → fs.is_directory p ≡ ok true
      → fs.read_dir p ≡ ok es
      → fs.sort_strings (visible_files es) ≡ f ∷ []
      → fs.read_file (fs.join_path p f) ≡ ok text
      → Source fs p text

one_file-ok :
    (fs : FileSystem) (p : Text) (names : List Text) (text : Text)
    → one_file fs p names ≡ ok text
    → (f : Text) × (names ≡ f ∷ []) × (fs.read_file (fs.join_path p f) ≡ ok text)
unfolding one_file
one_file-ok fs p [] text h = absurd (cc)
one_file-ok fs p (f ∷ []) text h = (f, refl, h)
one_file-ok fs p (f ∷ g ∷ rest) text h = absurd (cc)

in_directory-ok :
    (fs : FileSystem) (p : Text) (r : Result (List Entry)) (text : Text)
    → fs.is_directory p ≡ ok true
    → fs.read_dir p ≡ r
    → in_directory fs p r ≡ ok text
    → Source fs p text
unfolding in_directory
in_directory-ok fs p (err e) text d q h = absurd (cc)
in_directory-ok fs p (ok es) text d q h =
    let (f, n, t) = one_file-ok fs p (fs.sort_strings (visible_files es)) text h in
    only_file es f d q n t

at_path-ok :
    (fs : FileSystem) (p : Text) (r : Result Bool) (text : Text)
    → fs.is_directory p ≡ r
    → at_path fs p r ≡ ok text
    → Source fs p text
unfolding at_path
at_path-ok fs p (err e) text d h = absurd (cc)
at_path-ok fs p (ok false) text d h = file d h
at_path-ok fs p (ok true) text d h = in_directory-ok fs p (fs.read_dir p) text d refl h

-- `readPEMPath` returns the text of the file at the path, or of the one file in the directory at the
-- path that is regular and whose name does not start with a dot; it never chooses among several.
pub read_pem_path-Source :
    (fs : FileSystem) (p text : Text) → read_pem_path fs p ≡ ok text → Source fs p text
unfolding read_pem_path
read_pem_path-Source fs p text h = at_path-ok fs p (fs.is_directory p) text refl h

module _ (pki : Pki) (address : ℕ) where
  -- What `identity_from_pem` has checked of the key and the certificate of an identity.
  pub record IsChecked (m : Text) (cert_pem key_pem : Text) (id : Identity) : Type 0 where
    pub key : ℕ
    pub public : ℕ
    pub named : is_blank m ≡ false
    pub parsed_cert : pki.certificate_from_pem cert_pem ≡ ok id.cert
    pub parsed_key : pki.private_key_from_pem key_pem ≡ ok key
    pub can_sign : pki.public_key key ≡ some public
    pub matches : pki.has_public_key id.cert public ≡ true
    pub sessionless : id.close ≡ none

  x509_identity-ok :
      (cert sign : ℕ) (r : Result Text) (id : Identity)
      → x509_identity pki address cert sign r ≡ ok id
      → (id.cert ≡ cert) × (id.close ≡ none)
  unfolding x509_identity
  x509_identity-ok cert sign (err e) id h = absurd (cc)
  x509_identity-ok cert sign (ok m) id h = (ground arith, ground arith)

  new_identity-ok :
      (m : Text) (cert sign : ℕ) (id : Identity)
      → new_identity pki address m (some cert) (some sign) ≡ ok id
      → (is_blank m ≡ false) × (id.cert ≡ cert) × (id.close ≡ none)
  unfolding new_identity refused_identity
  new_identity-ok m cert sign id h = elim (Bool-cases (is_blank m)) [
    | inl b ↦ absurd (cc (rw b at h))
    | inr n ↦ let (c, d) = x509_identity-ok cert sign _ id (rw n at h) in (n, c, d)
  ]

  with_signer-ok :
      (m : Text) (cert : ℕ) (r : Result ℕ) (id : Identity)
      → with_signer pki address m cert r ≡ ok id
      → (is_blank m ≡ false) × (id.cert ≡ cert) × (id.close ≡ none)
  unfolding with_signer
  with_signer-ok m cert (err e) id h = absurd (cc)
  with_signer-ok m cert (ok sign) id h = new_identity-ok m cert sign id h

  with_checked-ok :
      (m : Text) (cert key : ℕ) (p : Option GoError) (id : Identity)
      → with_checked pki address m cert key p ≡ ok id
      → (p ≡ none) × (is_blank m ≡ false) × (id.cert ≡ cert) × (id.close ≡ none)
  unfolding with_checked
  with_checked-ok m cert key (some e) id h = absurd (cc)
  with_checked-ok m cert key none id h =
      let (b, c, d) = with_signer-ok m cert _ id h in (refl, b, c, d)

  key_problem-none :
      (key cert : ℕ) (o : Option ℕ)
      → key_problem pki address key cert o ≡ none
      → (p : ℕ) × (o ≡ some p) × (pki.has_public_key cert p ≡ true)
  unfolding key_problem
  key_problem-none key cert none h = absurd (cc)
  key_problem-none key cert (some p) h = (p, refl, ground arith)

  with_key-ok :
      (m cert_pem key_pem : Text) (cert : ℕ) (r : Result ℕ) (id : Identity)
      → pki.certificate_from_pem cert_pem ≡ ok cert
      → pki.private_key_from_pem key_pem ≡ r
      → with_key pki address m cert r ≡ ok id
      → IsChecked m cert_pem key_pem id
  unfolding with_key
  with_key-ok m cert_pem key_pem cert (err e) id c k h = absurd (cc)
  with_key-ok m cert_pem key_pem cert (ok key) id c k h =
      let (p, b, same, none_held) = with_checked-ok m cert key _ id h in
      let (public, s, y) = key_problem-none key cert (pki.public_key key) p in
      record {
        key = key;
        public = public;
        named = b;
        parsed_cert = c ∙ ap (λ (x : ℕ). ok x) (sym same);
        parsed_key = k;
        can_sign = s;
        matches = ap (λ x. pki.has_public_key x public) same ∙ y;
        sessionless = none_held;
      }

  with_certificate-ok :
      (m cert_pem key_pem : Text) (r : Result ℕ) (id : Identity)
      → pki.certificate_from_pem cert_pem ≡ r
      → with_certificate pki address m key_pem r ≡ ok id
      → IsChecked m cert_pem key_pem id
  unfolding with_certificate
  with_certificate-ok m cert_pem key_pem (err e) id c h = absurd (cc)
  with_certificate-ok m cert_pem key_pem (ok cert) id c h =
      with_key-ok m cert_pem key_pem cert _ id c refl h

  with_key_file-ok :
      (fs : FileSystem) (m key_path cert_pem : Text) (r : Result Text) (id : Identity)
      → read_pem_path fs key_path ≡ r
      → with_key_file pki address m cert_pem r ≡ ok id
      → (key_pem : Text) × Source fs key_path key_pem × IsChecked m cert_pem key_pem id
  unfolding with_key_file identity_from_pem
  with_key_file-ok fs m key_path cert_pem (err e) id k h = absurd (cc)
  with_key_file-ok fs m key_path cert_pem (ok key_pem) id k h = (
    key_pem,
    read_pem_path-Source fs key_path key_pem k,
    with_certificate-ok m cert_pem key_pem _ id refl h,
  )

  with_certificate_file-ok :
      (fs : FileSystem) (m cert_path key_path : Text) (r : Result Text) (id : Identity)
      → read_pem_path fs cert_path ≡ r
      → with_certificate_file pki address fs m key_path r ≡ ok id
      → (cert_pem : Text) × (key_pem : Text) × Source fs cert_path cert_pem
        × Source fs key_path key_pem
        × IsChecked m cert_pem key_pem id
  unfolding with_certificate_file
  with_certificate_file-ok fs m cert_path key_path (err e) id c h = absurd (cc)
  with_certificate_file-ok fs m cert_path key_path (ok cert_pem) id c h =
      let (key_pem, s, k) = with_key_file-ok fs m key_path cert_pem _ id refl h in
      (cert_pem, key_pem, read_pem_path-Source fs cert_path cert_pem c, s, k)

  -- If `LoadIdentity` succeeds then the certificate and the key come from the files at the two paths, or
  -- from the only name in the sorted list of visible regular files of the directory there, the key can sign and belongs to the
  -- identity's certificate, the MSP ID is not blank, and the identity has nothing to close.
  pub load_identity-IsChecked :
      (fs : FileSystem) (m cert_path key_path : Text) (id : Identity)
      → load_identity pki address fs m cert_path key_path ≡ ok id
      → (cert_pem : Text) × (key_pem : Text) × Source fs cert_path cert_pem
        × Source fs key_path key_pem
        × IsChecked m cert_pem key_pem id
  unfolding load_identity
  load_identity-IsChecked fs m cert_path key_path id h =
      with_certificate_file-ok fs m cert_path key_path _ id refl h
