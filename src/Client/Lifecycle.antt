-- ===== src/Client/Lifecycle.antt =====
-- What making a client and closing it leave behind.
use fabricsdk.Base.{
  Option-cases, ℕ, ◌≡◌, ◌⊎◌, refl, sym, ap, ◌∙◌, inl, inr, Bool, Bool-cases, true, false, Option,
  none, some, List, [], ◌∷◌, ◌++◌, append_assoc, append-nil, if_cases, if◌then◌else◌, Text,
}
use fabricsdk.GoError.{Error}
use fabricsdk.Libs.{Libs}
use fabricsdk.Config.{Config, Identity, validate, with_defaults}
use fabricsdk.Result.{Result, ok, err}
use fabricsdk.World.{GatewayApi, Event, opened, closed, dialled, disconnected, signer_closed, World}
use fabricsdk.Contract.{FabricClient, Contract, connect, connect_result, gateway, closed_error}
use fabricsdk.Identities.Loaded.{load_identity-IsChecked}
use fabricsdk.Identities.{load_identity, FileSystem, Pki}
use fabricsdk.Client.{
  ready_line, loaded, identity_for, TlsLib, Credentials, unready, close_identity, connected,
  build_as, build, owned, on_connection, dial, new, new_checked, close_own_connection,
  close_own_identity, close_all, close,
}

-- After `New` in a world with trace `t`: a client with a connection of its own and a gateway, or no
-- connection that is still open and no gateway.
abbrev pub NewPost : {N : Type 0} → List Event → Result FabricClient × World N → Type 0
NewPost t (ok fc, w) =
    (w.trace ≡ t ++ (dialled fc.conn ∷ opened fc.gw ∷ ready_line fc ∷ []))
    × (fc.owned_conn ≡ some fc.conn)
    × (w.is_closed ≡ false)
NewPost t (err e, w) =
    (w.trace ≡ t) ⊎ ((conn : ℕ) × (w.trace ≡ t ++ (dialled conn ∷ disconnected conn ∷ [])))

-- After `build` in a world with trace `t`.
abbrev pub BuildPost : {N : Type 0} → List Event → ℕ → Result FabricClient × World N → Type 0
BuildPost t conn (ok fc, w) =
    (w.trace ≡ t ++ (opened fc.gw ∷ [])) × (fc.conn ≡ conn) × (w.is_closed ≡ false)
BuildPost t conn (err e, w) = w.trace ≡ t

-- An identity that the client loads has nothing to close.
abbrev pub Sessionless : Result (Identity × Bool) → Type 0
Sessionless (ok (id, owns)) = owns ≡ true → id.close ≡ none
Sessionless (err e) = Unit

module _ (l : Libs) {N : Type 0} (api : GatewayApi N) where
  pub close_identity-none :
      (id : Identity) (w : World N) → id.close ≡ none → close_identity l api id w ≡ (none, id, w)
  unfolding close_identity
  close_identity-none id w h = rw h refl

  -- What closing an identity adds to the trace.
  abbrev pub session_of : Option ℕ → List Event
  session_of none = []
  session_of (some signer) = signer_closed signer ∷ []

  close_identity-trace :
      (id : Identity) (w : World N)
      → ((close_identity l api id w).2.trace ≡ w.trace ++ session_of id.close)
        × ((close_identity l api id w).2.is_closed ≡ w.is_closed)
  unfolding close_identity
  close_identity-trace id w = elim (Option-cases id.close) [
    | inl n ↦ rw n (sym (append-nil w.trace), refl)
    | inr (s, e) ↦ rw e (refl, refl)
  ]

  connected-post :
      (t : List Event) (conn : ℕ) (fc : FabricClient) (r : Result ℕ) (w : World N)
      → fc.conn ≡ conn
      → w.trace ≡ t
      → w.is_closed ≡ false
      → (fc.owns_id ≡ true → fc.id.close ≡ none)
      → BuildPost t conn (connected l api fc (connect_result l api (r, w)))
  unfolding connected connect_result
  connected-post t conn fc (ok gw) w c h o n =
      (ap (λ (x : List Event). x ++ (opened gw ∷ [])) h, c, o)
  connected-post t conn fc (err e) w c h o n =
      if_cases (λ (x : World N). x.trace ≡ t) fc.owns_id
        (λ owns. rw (close_identity-none fc.id w (n owns)) h) (λ _. h)

  pub build_as-post :
      (cfg : Config) (conn : ℕ) (hash : Text) (r : Result (Identity × Bool)) (w : World N)
      → Sessionless r
      → BuildPost w.trace conn (build_as l api cfg conn hash r w)
  unfolding build_as connect
  build_as-post cfg conn hash (err e) w n = refl
  build_as-post cfg conn hash (ok (id, owns)) w n =
      connected-post w.trace conn (unready cfg conn hash id owns) _ _ refl refl refl n

  loaded-Sessionless :
      (pki : Pki) (address : ℕ) (fs : FileSystem) (m c k : Text) (r : Result Identity)
      → load_identity pki address fs m c k ≡ r
      → Sessionless (loaded l api r)
  unfolding loaded
  loaded-Sessionless pki address fs m c k (err e) h = tt
  loaded-Sessionless pki address fs m c k (ok id) h =
      let (_, _, _, _, checked) = load_identity-IsChecked pki address fs m c k id h in
      λ _. checked.sessionless

  pub identity_for-Sessionless :
      (fs : FileSystem) (pki : Pki) (address : ℕ) (cfg : Config) (o : Option Identity)
      → Sessionless (identity_for l api fs pki address cfg o)
  unfolding identity_for
  identity_for-Sessionless fs pki address cfg (some id) = λ owns. absurd (cc)
  identity_for-Sessionless fs pki address cfg none =
      loaded-Sessionless pki address fs cfg.msp_id cfg.cert_path cfg.key_path _ refl

  owned-post :
      (t : List Event) (conn : ℕ) (r : Result FabricClient × World N)
      → BuildPost (t ++ (dialled conn ∷ [])) conn r
      → NewPost t (owned l api conn r)
  unfolding owned
  owned-post t conn (ok fc, w) (h, c, o) = (
    ap (λ (x : List Event). x ++ (ready_line fc ∷ []))
          (h
            ∙ append_assoc t (dialled conn ∷ []) (opened fc.gw ∷ [])
            ∙ ap (λ x. t ++ (dialled x ∷ opened fc.gw ∷ [])) (sym c))
        ∙ append_assoc t (dialled fc.conn ∷ opened fc.gw ∷ []) (ready_line fc ∷ []),
    ap (λ (x : ℕ). some x) (sym c),
    o,
  )
  owned-post t conn (err e, w) h = inr (
    conn,
    ap (λ (x : List Event). x ++ (disconnected conn ∷ [])) h
        ∙ append_assoc t (dialled conn ∷ []) (disconnected conn ∷ []),
  )

  module _ (fs : FileSystem) (pki : Pki) (tls : TlsLib) (address : ℕ) where
    on_connection-post :
        (cfg : Config) (hash : Text) (r : Result ℕ × World N)
        → NewPost r.1.trace (on_connection l api fs pki tls address cfg hash r)
    unfolding on_connection build
    on_connection-post cfg hash (err e, w) = inl refl
    on_connection-post cfg hash (ok conn, w) =
        owned-post w.trace conn _ (
          build_as-post cfg conn hash _ _
            (identity_for-Sessionless fs pki address cfg cfg.identity))

    dial-post :
        (cfg : Config) (r : Result Credentials) (w : World N)
        → NewPost w.trace (dial l api fs pki tls address cfg r w)
    unfolding dial
    dial-post cfg (err e) w = inl refl
    dial-post cfg (ok cr) w = on_connection-post cfg cr.tls_hash _

    new_checked-post :
        (cfg : Config) (e : Option Error) (w : World N)
        → NewPost w.trace (new_checked l api fs pki tls address cfg e w)
    unfolding new_checked
    new_checked-post cfg (some e) w = inl refl
    new_checked-post cfg none w = dial-post (with_defaults cfg) _ w

    -- `New` either returns a client that is not closed, with one connection of its own made, one
    -- gateway opened and a line in the log, or fails, and then a connection that it made is closed again and no gateway
    -- has been opened.
    pub new-NewPost :
        (cfg : Config) (w : World N) → NewPost w.trace (new l api fs pki tls address cfg w)
    unfolding new
    new-NewPost cfg w = new_checked-post cfg (validate cfg true) w

  close_own_connection-is_closed :
      (o : Option ℕ) (w : World N) → (close_own_connection l api o w).1.is_closed ≡ w.is_closed
  unfolding close_own_connection
  close_own_connection-is_closed none w = refl
  close_own_connection-is_closed (some c) w = refl

  close_own_connection-trace :
      (o : Option ℕ) (conn : ℕ) (w : World N)
      → o ≡ some conn
      → (close_own_connection l api o w).1.trace ≡ w.trace ++ (disconnected conn ∷ [])
  unfolding close_own_connection
  close_own_connection-trace o conn w h = ap (λ x. (close_own_connection l api x w).1.trace) h

  -- The session that the client's own identity holds.
  abbrev pub own_session : FabricClient → List Event
  own_session fc = if fc.owns_id then session_of fc.id.close else []

  pub close_own_identity-trace :
      (fc : FabricClient) (w : World N)
      → ((close_own_identity l api fc w).2.trace ≡ w.trace ++ own_session fc)
        × ((close_own_identity l api fc w).2.is_closed ≡ w.is_closed)
  unfolding close_own_identity
  close_own_identity-trace fc w = elim (Bool-cases fc.owns_id) [
    | inl o ↦ rw o (close_identity-trace fc.id w)
    | inr n ↦ rw n (sym (append-nil w.trace), refl)
  ]

  -- `Close` of a client that has a connection of its own and is not closed closes its gateway, then
  -- that connection, and then the session that an identity of its own holds, once each.
  pub close-trace :
      (fc : FabricClient) (w : World N) (conn : ℕ)
      → w.is_closed ≡ false
      → fc.owned_conn ≡ some conn
      → (close l api fc w).2.trace ≡ w.trace ++ (closed fc.gw ∷ disconnected conn ∷ own_session fc)
  unfolding close close_all close_own_connection
  close-trace fc w conn o c = rw o (
      (close_own_identity-trace fc _).0
      ∙ ap (λ (x : List Event). x ++ own_session fc)
          (close_own_connection-trace fc.owned_conn conn _ c
            ∙ append_assoc w.trace (closed fc.gw ∷ []) (disconnected conn ∷ []))
      ∙ append_assoc w.trace (closed fc.gw ∷ disconnected conn ∷ []) (own_session fc))

  pub close-is_closed : (fc : FabricClient) (w : World N) → (close l api fc w).2.is_closed ≡ true
  unfolding close close_all
  close-is_closed fc w = elim (Bool-cases w.is_closed) [
    | inl e ↦ rw e refl
    | inr n ↦
        rw n ((close_own_identity-trace fc _).1 ∙ close_own_connection-is_closed fc.owned_conn _)
  ]

  closed_twice :
      (fc : FabricClient) (w : World N) → w.is_closed ≡ true → close l api fc w ≡ (none, fc, w)
  unfolding close
  closed_twice fc w h = rw h refl

  pub closed_gateway :
      (c : Contract) (w : World N) → w.is_closed ≡ true → gateway l api c w ≡ (err closed_error, w)
  unfolding gateway
  closed_gateway c w h = rw h refl

  -- After `Close` a second `Close` returns nil and changes nothing, and no handle gets a gateway.
  pub close-after :
      (fc : FabricClient) (w : World N) (c : Contract)
      → (close l api (close l api fc w).1 (close l api fc w).2
          ≡ (none, (close l api fc w).1, (close l api fc w).2))
        × (gateway l api c (close l api fc w).2 ≡ (err closed_error, (close l api fc w).2))
  close-after fc w c =
      let h = close-is_closed fc w in
      (
        closed_twice (close l api fc w).1 (close l api fc w).2 h,
        closed_gateway c (close l api fc w).2 h,
      )
