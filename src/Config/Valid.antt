-- ===== src/Config/Valid.antt =====
-- What `validate` accepts.
use fabricsdk.Base.{
  ◌≡◌, ◌↔◌, refl, Bool, true, false, not, none, some, List, [], ◌∷◌, ◌++◌, ℤ, is_negative, Text,
  exists, is_empty, arith, if◌then◌else◌, All,
}
use fabricsdk.GoStrings.{is_space}
use fabricsdk.GoStrings.Trim.{trim_space-is_empty}
use fabricsdk.Kinds.{Kind, ErrorSource}
use fabricsdk.GoError.{Error, is_some}
use fabricsdk.Errors.{config_error, retryable}
use fabricsdk.Config.{
  Config, is_blank, problem, problems, network_problems, identity_problems, target_problems,
  timeouts, report, validate, xor,
}

-- Some character of the text is not a space.
abbrev pub IsFilled : Text → Type 0
IsFilled s = exists (λ c. not (is_space c)) s ≡ true

-- Both texts are empty, or neither is.
abbrev pub SetTogether : Text → Text → Type 0
SetTogether a b = is_empty a ≡ is_empty b

abbrev pub IsNonNegative : ℤ → Type 0
IsNonNegative d = is_negative d ≡ false

-- What a configuration must have. The network fields count for a connection of the client's own, the
-- files of the identity where no identity is given.
pub record IsValid (c : Config) (own_conn : Bool) : Type 0 where
  pub network :
      own_conn ≡ true
      → IsFilled c.peer_endpoint
        × IsFilled c.tls_cert_path
        × SetTogether c.client_tls_cert_path c.client_tls_key_path
  pub identity :
      is_some c.identity ≡ false → IsFilled c.msp_id × IsFilled c.cert_path × IsFilled c.key_path
  pub channel : IsFilled c.channel_name
  pub chaincode : IsFilled c.chaincode_name
  pub durations : All IsNonNegative (timeouts c)

is_blank_iff : (s : Text) → (is_blank s ≡ false) ↔ IsFilled s
is_blank_iff s = ground (arith, trim_space-is_empty s)

problem_iff : (b : Bool) (t : Text) → (problem b t ≡ []) ↔ (b ≡ false)
problem_iff b t = ground arith

append_iff : (xs ys : List Text) → (xs ++ ys ≡ []) ↔ ((xs ≡ []) × (ys ≡ []))
append_iff [] ys = ground arith
append_iff (x ∷ xs) ys = ground arith

-- Three problems in a row are absent exactly when none of the three tests fires.
three_iff :
    (a b c : Bool) (s t u : Text)
    → (problem a s ++ (problem b t ++ problem c u) ≡ []) ↔ ((a ≡ false) × (b ≡ false) × (c ≡ false))
three_iff a b c s t u = ground arith

report_iff : (ps : List Text) → (report ps ≡ none) ↔ (ps ≡ [])
unfolding report
report_iff [] = ground arith
report_iff (p ∷ ps) = ground arith

xor_iff : (a b : Bool) → (xor a b ≡ false) ↔ (a ≡ b)
xor_iff a b = ground arith

if_nil : (b : Bool) (xs : List Text) → (b ≡ true → xs ≡ []) → (if b then xs else []) ≡ []
if_nil true xs h = h refl
if_nil false xs h = refl

else_nil : (b : Bool) (xs : List Text) → (b ≡ false → xs ≡ []) → (if b then [] else xs) ≡ []
else_nil true xs h = refl
else_nil false xs h = h refl

guarded_iff :
    (own given : Bool) (ps qs rs : List Text)
    → ((if own then ps else []) ++ ((if given then [] else qs) ++ rs) ≡ [])
      ↔ ((own ≡ true → ps ≡ []) × (given ≡ false → qs ≡ []) × (rs ≡ []))
guarded_iff own given ps qs rs = (
  λ h.
      let (a, bc) = (append_iff (if own then ps else []) _).0 h in
      let (b, c) = (append_iff (if given then [] else qs) rs).0 bc in
      (λ o. rw o at a, λ g. rw g at b, c),
  λ (n, i, t). (append_iff _ _).1 (if_nil own ps n, (append_iff _ _).1 (else_nil given qs i, t)),
)

module _ (c : Config) where
  network_iff : (network_problems c ≡ []) ↔ (
      IsFilled c.peer_endpoint
      × IsFilled c.tls_cert_path
      × SetTogether c.client_tls_cert_path c.client_tls_key_path)
  unfolding network_problems
  network_iff =
      let tests =
        three_iff (is_blank c.peer_endpoint) (is_blank c.tls_cert_path)
          (xor (is_empty c.client_tls_cert_path) (is_empty c.client_tls_key_path)) _ _ _ in
      (
        λ h.
            let (x, y, z) = tests.0 h in
            ((is_blank_iff _).0 x, (is_blank_iff _).0 y, (xor_iff _ _).0 z),
        λ (x, y, z). tests.1 ((is_blank_iff _).1 x, (is_blank_iff _).1 y, (xor_iff _ _).1 z),
      )

  identity_iff :
      (identity_problems c ≡ []) ↔ (IsFilled c.msp_id × IsFilled c.cert_path × IsFilled c.key_path)
  unfolding identity_problems
  identity_iff =
      let tests =
        three_iff (is_blank c.msp_id) (is_blank c.cert_path) (is_blank c.key_path) _ _ _ in
      (
        λ h.
            let (x, y, z) = tests.0 h in
            ((is_blank_iff _).0 x, (is_blank_iff _).0 y, (is_blank_iff _).0 z),
        λ (x, y, z). tests.1 ((is_blank_iff _).1 x, (is_blank_iff _).1 y, (is_blank_iff _).1 z),
      )

  durations_iff : (exists is_negative (timeouts c) ≡ false) ↔ All IsNonNegative (timeouts c)
  durations_iff = ground arith

  target_iff :
      (target_problems c ≡ [])
      ↔ (IsFilled c.channel_name × IsFilled c.chaincode_name × All IsNonNegative (timeouts c))
  unfolding target_problems
  target_iff =
      let tests =
        three_iff (is_blank c.channel_name) (is_blank c.chaincode_name)
          (exists is_negative (timeouts c)) _ _ _ in
      (
        λ h.
            let (x, y, z) = tests.0 h in
            ((is_blank_iff _).0 x, (is_blank_iff _).0 y, durations_iff.0 z),
        λ (x, y, z). tests.1 ((is_blank_iff _).1 x, (is_blank_iff _).1 y, durations_iff.1 z),
      )

  -- `validate` accepts a configuration exactly when the texts that it needs are not blank, the two paths
  -- of the client's TLS pair are set together, and no timeout is negative. The peer's endpoint and the
  -- TLS paths count for a connection of the client's own, the MSP ID and the paths of certificate and
  -- key where no identity is given.
  pub validate_iff : (own_conn : Bool) → (validate c own_conn ≡ none) ↔ IsValid c own_conn
  unfolding validate problems
  validate_iff own_conn =
      let parts =
        guarded_iff own_conn (is_some c.identity) (network_problems c) (identity_problems c)
          (target_problems c) in
      (
        λ h.
            let (n, i, t) = parts.0 ((report_iff _).0 h) in
            let (x, y, z) = target_iff.0 t in
            record {
              network = λ own. network_iff.0 (n own);
              identity = λ given. identity_iff.0 (i given);
              channel = x;
              chaincode = y;
              durations = z;
            },
        λ v. (report_iff _).1 (
            parts.1 (
              λ own. network_iff.1 (v.network own),
              λ given. identity_iff.1 (v.identity given),
              target_iff.1 (v.channel, v.chaincode, v.durations),
            )),
      )

report-config :
    (ps : List Text) (e : Error)
    → report ps ≡ some e
    → (e.kind ≡ Kind.config) × (e.source ≡ ErrorSource.sdk) × (e.code ≡ 500) × (retryable e ≡ false)
unfolding report config_error retryable
report-config [] e h = absurd (cc)
report-config (p ∷ ps) e h = ground arith

-- A refused configuration gives an error of kind config from the SDK, which may not be retried.
pub validate-config :
    (c : Config) (own_conn : Bool) (e : Error)
    → validate c own_conn ≡ some e
    → (e.kind ≡ Kind.config) × (e.source ≡ ErrorSource.sdk) × (e.code ≡ 500) × (retryable e ≡ false)
unfolding validate
validate-config c own_conn e h = report-config (problems c own_conn) e h
