-- ===== src/Tests/Clients.antt =====
-- Making and closing a client at concrete files.
use fabricsdk.Base.{refl, true, none, some, List, [], ◌∷◌, ◌++◌, Text, codes, text_eq}
use fabricsdk.Result.{ok}
use fabricsdk.Contract.{FabricClient}
use fabricsdk.Identities.{Entry, FileSystem, Pki, load_identity}
use fabricsdk.Identities.Loaded.{Source, IsChecked, load_identity-IsChecked}
use fabricsdk.Client.{TlsLib, new}
use fabricsdk.Client.Lifecycle.{NewPost, new-NewPost}
use fabricsdk.Tests.Sample.{libs, answering, world, config, contract}

-- The keys lie in a directory with a hidden file beside the key.
abbrev entries : List Entry
entries =
    record { name = codes ".lock"; is_regular = true }
    ∷ record { name = codes "sk"; is_regular = true }
    ∷ []

abbrev pub files : FileSystem
files = record {
  is_directory = λ p. ok (text_eq p (codes "keystore"));
  read_dir = λ p. ok entries;
  read_file = λ p. ok p;
  join_path = λ d f. d ++ (codes "/" ++ f);
  sort_strings = λ xs. xs;
  decimal = λ n. codes "2";
}

abbrev pub pki : Pki
pki = record {
  certificate_from_pem = λ t. ok 30;
  private_key_from_pem = λ t. ok 31;
  public_key = λ k. some 32;
  has_public_key = λ c p. true;
  new_private_key_sign = λ k. ok 33;
  new_x509_identity = λ m c. ok m;
}

abbrev pub tls : TlsLib
tls = record { has_certificates = λ t. true; load_key_pair = λ c k. ok c; sum256 = λ t. t }

load_identity-IsChecked_example :
    (cert_pem : Text) × (key_pem : Text) × Source files (codes "cert.pem") cert_pem
    × Source files (codes "keystore") key_pem
    × IsChecked pki 9
        (codes "Org1MSP")
        cert_pem
        key_pem
        (record { address = 9; msp_id = codes "Org1MSP"; cert = 30; sign = 33; close = none })
unfolding load_identity fabricsdk.Identities.read_pem_path fabricsdk.GoStrings.has_prefix
    fabricsdk.GoStrings.trim_space
load_identity-IsChecked_example =
    load_identity-IsChecked pki 9 files (codes "Org1MSP") (codes "cert.pem") (codes "keystore")
      (record { address = 9; msp_id = codes "Org1MSP"; cert = 30; sign = 33; close = none }) refl

new-NewPost_example : NewPost [] (new libs answering files pki tls 9 config world)
new-NewPost_example = new-NewPost libs answering files pki tls 9 config world

-- A client as `New` makes it.
abbrev client : FabricClient
client = record contract.fc { owned_conn = some 3 }
