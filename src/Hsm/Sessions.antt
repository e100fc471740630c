-- ===== src/Hsm/Sessions.antt =====
-- The sessions that an HSM identity opens and closes.
use mathlib.Core.Path.{subst}
use fabricsdk.Base.{
  ℕ, zero, suc, ◌≡◌, ◌⊎◌, refl, ap, ◌∙◌, inl, inr, Option, none, some, List, [], ◌∷◌, ◌++◌,
  append_assoc, Text,
}
use fabricsdk.GoError.{GoError}
use fabricsdk.Libs.{Libs}
use fabricsdk.Config.{Identity}
use fabricsdk.Identities.{Pki, new_identity}
use fabricsdk.Result.{Result, ok, err}
use fabricsdk.World.{GatewayApi, Event, World, signer_opened, signer_closed}
use fabricsdk.Client.{close_identity}
use fabricsdk.Client.Lifecycle.{close_identity-none}
use fabricsdk.Hsm.{
  HsmOptions, PublicKeys, HsmFactory, kept_session, with_hsm_signer, with_identifier,
  with_hsm_certificate, identifier_for, identity_from_hsm,
}

-- After `IdentityFromHSM` in a world with trace `t`: an identity that holds the session that was
-- opened, or no session that is still open.
abbrev pub HsmPost : {N : Type 0} → List Event → Result Identity × World N → Type 0
HsmPost t (ok id, w) =
    (signer : ℕ) × (id.close ≡ some signer) × (w.trace ≡ t ++ (signer_opened signer ∷ []))
HsmPost t (err e, w) =
    (w.trace ≡ t)
    ⊎ ((signer : ℕ) × (w.trace ≡ t ++ (signer_opened signer ∷ signer_closed signer ∷ [])))

module _ (l : Libs) {N : Type 0} (api : GatewayApi N) where
  -- A number of calls of `Identity.Close`.
  pub close_times : ℕ → Identity → World N → World N
  close_times zero id w = w
  close_times (suc n) id w = let (e, id', w') = close_identity l api id w in close_times n id' w'

  close_times-none :
      (n : ℕ) (id : Identity) (w : World N) → id.close ≡ none → close_times n id w ≡ w
  unfolding close_times close_identity
  close_times-none zero id w h = refl
  close_times-none (suc n) id w h =
      ap (λ (r : Option GoError × Identity × World N). close_times n r.1 r.2)
        (close_identity-none l api id w h)
      ∙ close_times-none n id w h

  close_times-some :
      (n : ℕ) (id : Identity) (w : World N) (signer : ℕ)
      → id.close ≡ some signer
      → (close_times (suc n) id w).trace ≡ w.trace ++ (signer_closed signer ∷ [])
  unfolding close_times close_identity
  close_times-some n id w signer h =
      rw h (ap (λ (x : World N). x.trace) (close_times-none n _ _ refl))

  module _ (keys : PublicKeys) (pki : Pki) (address : ℕ) (m : Text) (opts : HsmOptions) where
    kept_session-post :
        (t : List Event) (signer : ℕ) (r : Result Identity) (w : World N)
        → w.trace ≡ t ++ (signer_opened signer ∷ [])
        → HsmPost t (kept_session api keys pki address m opts signer r w)
    unfolding kept_session
    kept_session-post t signer (err e) w h = inr (
      signer,
      ap (λ (x : List Event). x ++ (signer_closed signer ∷ [])) h
          ∙ append_assoc t (signer_opened signer ∷ []) (signer_closed signer ∷ []),
    )
    kept_session-post t signer (ok id) w h = (signer, refl, h)

    with_hsm_signer-post :
        (cert : ℕ) (r : Result (ℕ × ℕ)) (w : World N)
        → HsmPost w.trace (with_hsm_signer api keys pki address m opts cert (r, w))
    unfolding with_hsm_signer
    with_hsm_signer-post cert (err e) w = inl refl
    with_hsm_signer-post cert (ok (sign, signer)) w =
        kept_session-post w.trace signer (new_identity pki address m (some cert) (some sign)) _ refl

    with_identifier-post :
        (factory : HsmFactory N) (cert : ℕ) (r : Result Text) (w : World N)
        → HsmPost w.trace (with_identifier api keys pki address m opts factory cert r w)
    unfolding with_identifier
    with_identifier-post factory cert (err e) w = inl refl
    with_identifier-post factory cert (ok id) w = with_hsm_signer-post cert _ _

    with_hsm_certificate-post :
        (factory : HsmFactory N) (r : Result ℕ) (w : World N)
        → HsmPost w.trace (with_hsm_certificate api keys pki address m opts factory r w)
    unfolding with_hsm_certificate
    with_hsm_certificate-post factory (err e) w = inl refl
    with_hsm_certificate-post factory (ok cert) w =
        with_identifier-post factory cert (identifier_for keys cert opts.identifier) w

    -- `IdentityFromHSM` either returns an identity that holds the one session that was opened, or fails,
    -- and then a session that was opened is closed again.
    pub identity_from_hsm-HsmPost :
        (factory : Option (HsmFactory N)) (cert_pem : Text) (w : World N)
        → HsmPost w.trace (identity_from_hsm api keys pki address m opts factory cert_pem w)
    unfolding identity_from_hsm
    identity_from_hsm-HsmPost none cert_pem w = inl refl
    identity_from_hsm-HsmPost (some factory) cert_pem w =
        with_hsm_certificate-post factory (pki.certificate_from_pem cert_pem) w

    closed_session :
        (n : ℕ) (t : List Event) (id : Identity) (w : World N)
        → HsmPost t (ok id, w)
        → (signer : ℕ) × ((close_times (suc n) id w).trace
            ≡ t ++ (signer_opened signer ∷ signer_closed signer ∷ []))
    closed_session n t id w (signer, c, h) = (
      signer,
      close_times-some n id w signer c
          ∙ ap (λ (x : List Event). x ++ (signer_closed signer ∷ [])) h
          ∙ append_assoc t (signer_opened signer ∷ []) (signer_closed signer ∷ []),
    )

    -- The identity that `IdentityFromHSM` returns opens one session, which any positive number of calls
    -- of `Close` closes exactly once.
    pub identity_from_hsm-close_times :
        (n : ℕ) (factory : Option (HsmFactory N)) (cert_pem : Text) (w w' : World N) (id : Identity)
        → identity_from_hsm api keys pki address m opts factory cert_pem w ≡ (ok id, w')
        → (signer : ℕ) × ((close_times (suc n) id w').trace
            ≡ w.trace ++ (signer_opened signer ∷ signer_closed signer ∷ []))
    identity_from_hsm-close_times n factory cert_pem w w' id h =
        closed_session n w.trace id w'
          (subst (HsmPost w.trace) h (identity_from_hsm-HsmPost factory cert_pem w))
