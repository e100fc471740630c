-- ===== src/Config/Endpoint.antt =====
-- The gRPC target and the TLS server name of a peer's endpoint.
use fabricsdk.Base.{
  ℕ, ◌≡◌, ◌⊎◌, refl, ap, ◌∙◌, true, false, Option, none, some, [], ◌∷◌, ◌++◌, Text, exists, arith,
  inl, inr, codes, ◌==◌,
}
use fabricsdk.GoStrings.{has_prefix, split_last}
use fabricsdk.GoStrings.Parts.{has_prefix-append, split_last-char, split_last-absent}
use fabricsdk.Config.{grpc_target, server_name, after_slash, before_colon, dns_scheme}

dns_scheme-has_prefix : (e : Text) → has_prefix (dns_scheme ++ e) (codes "dns:") ≡ true
dns_scheme-has_prefix e = has_prefix-append (codes "dns:") (codes "///" ++ e)

grpc_target-dns_scheme : (e : Text) → grpc_target (dns_scheme ++ e) ≡ dns_scheme ++ e
unfolding grpc_target
grpc_target-dns_scheme e = ground (arith, dns_scheme-has_prefix e)

grpc_target-cases : (e : Text) → (grpc_target e ≡ e) ⊎ (grpc_target e ≡ dns_scheme ++ e)
unfolding grpc_target
grpc_target-cases e = ground arith

-- A target is left as it is: naming the resolver twice changes nothing.
pub grpc_target_idem : (e : Text) → grpc_target (grpc_target e) ≡ grpc_target e
grpc_target_idem e = elim (grpc_target-cases e) [
  | inl h ↦ ap grpc_target h
  | inr h ↦ rw h (grpc_target-dns_scheme e)
]

split_last-dns_scheme :
    (e : Text) (o : Option (Text × Text))
    → split_last e b'/' ≡ o
    → after_slash (dns_scheme ++ e) ≡ after_slash e
unfolding after_slash split_last
split_last-dns_scheme e none h = rw h (rw (h, after_slash))
split_last-dns_scheme e (some (a, b)) h = rw h (rw (h, after_slash))

-- The server name to verify is the same for an endpoint and for the target that is dialled for it.
pub server_name-grpc_target :
    (host_override e : Text)
    → server_name host_override (grpc_target e) ≡ server_name host_override e
unfolding server_name
server_name-grpc_target host_override e = elim (grpc_target-cases e) [
  | inl h ↦ rw h
  | inr h ↦ rw h (rw (split_last-dns_scheme e (split_last e b'/') refl))
]

-- No character of the text is `c`.
abbrev pub Lacks : Text → ℕ → Type 0
Lacks s c = exists (λ x. x == c) s ≡ false

Lacks-append : (s t : Text) (c : ℕ) → Lacks s c → Lacks t c → Lacks (s ++ t) c
Lacks-append [] t c h k = k
Lacks-append (x ∷ s) t c h k = ground (arith, Lacks-append s t c)

before_colon-host :
    (host port : Text) → Lacks port b':' → before_colon (host ++ (b':' ∷ port)) ≡ host
unfolding before_colon
before_colon-host host port h = rw (split_last-char host b':' port h, before_colon)

after_slash-absent : (s : Text) → Lacks s b'/' → after_slash s ≡ s
unfolding after_slash
after_slash-absent s h = rw (split_last-absent s b'/' h, after_slash)

after_slash-char : (front s : Text) → Lacks s b'/' → after_slash (front ++ (b'/' ∷ s)) ≡ s
unfolding after_slash
after_slash-char front s h = rw (split_last-char front b'/' s h, after_slash)

-- Without an override, the name for "host:port" is "host", and so it is behind a scheme or any other
-- text that ends in a slash, provided that neither part has a slash and the port has no colon.
pub server_name-host :
    (front host port : Text)
    → Lacks host b'/'
    → Lacks port b'/'
    → Lacks port b':'
    → (server_name [] (host ++ (b':' ∷ port)) ≡ host)
      × (server_name [] (front ++ (b'/' ∷ (host ++ (b':' ∷ port)))) ≡ host)
unfolding server_name
server_name-host front host port hs ps pc =
    let whole = host ++ (b':' ∷ port) in
    let clear : Lacks whole b'/' = Lacks-append host (b':' ∷ port) b'/' hs (ground arith) in
    (
      ap before_colon (after_slash-absent whole clear) ∙ before_colon-host host port pc,
      ap before_colon (after_slash-char front whole clear) ∙ before_colon-host host port pc,
    )
