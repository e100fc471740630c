-- ===== src/Client/Borrowed.antt =====
-- A client over a connection of the caller's.
use mathlib.Core.Path.{subst}
use fabricsdk.Base.{
  ℕ, ◌≡◌, refl, ap, ◌∙◌, Bool, false, Option, none, some, List, [], ◌∷◌, ◌++◌, append_assoc,
}
use fabricsdk.GoError.{GoError, Error}
use fabricsdk.Libs.{Libs}
use fabricsdk.Config.{Config, Identity, validate, with_defaults}
use fabricsdk.Result.{Result, ok, err}
use fabricsdk.World.{GatewayApi, Event, opened, closed, World}
use fabricsdk.Contract.{FabricClient}
use fabricsdk.Identities.{FileSystem, Pki}
use fabricsdk.Client.{
  TlsLib, connected, build_as, build, unready, new_with_connection, close, close_all,
  close_own_connection,
}
use fabricsdk.Client.Lifecycle.{
  own_session, build_as-post, BuildPost, identity_for-Sessionless, close_own_identity-trace,
}

-- After `NewWithConnection` in a world with trace `t`: a client with a gateway and no connection of its
-- own, or nothing new.
abbrev pub BorrowedPost : {N : Type 0} → List Event → Result FabricClient × World N → Type 0
BorrowedPost t (ok fc, w) =
    (w.trace ≡ t ++ (opened fc.gw ∷ [])) × (fc.owned_conn ≡ none) × (w.is_closed ≡ false)
BorrowedPost t (err e, w) = w.trace ≡ t

module _ (l : Libs) {N : Type 0} (api : GatewayApi N) where
  connected-borrowed :
      (t : List Event) (conn : ℕ) (fc : FabricClient) (r : Result ℕ × World N)
      → fc.owned_conn ≡ none
      → BuildPost t conn (connected l api fc r)
      → BorrowedPost t (connected l api fc r)
  unfolding connected
  connected-borrowed t conn fc (ok gw, w) n (h, c, o) = (h, n, o)
  connected-borrowed t conn fc (err e, w) n h = h

  build_as-borrowed :
      (cfg : Config) (conn : ℕ) (r : Result (Identity × Bool)) (t : List Event) (w : World N)
      → BuildPost t conn (build_as l api cfg conn [] r w)
      → BorrowedPost t (build_as l api cfg conn [] r w)
  unfolding build_as
  build_as-borrowed cfg conn (err e) t w h = h
  build_as-borrowed cfg conn (ok (id, owns)) t w h =
      connected-borrowed t conn (unready cfg conn [] id owns) _ refl h

  close_own_connection-none :
      (o : Option ℕ) (w : World N) → o ≡ none → (close_own_connection l api o w).1.trace ≡ w.trace
  unfolding close_own_connection
  close_own_connection-none o w h = ap (λ x. (close_own_connection l api x w).1.trace) h

  -- `Close` of a client without a connection of its own.
  close-borrowed :
      (fc : FabricClient) (w : World N)
      → w.is_closed ≡ false
      → fc.owned_conn ≡ none
      → (close l api fc w).2.trace ≡ w.trace ++ (closed fc.gw ∷ own_session l api fc)
  unfolding close close_all
  close-borrowed fc w o n = rw o (
      (close_own_identity-trace l api fc _).0
      ∙ ap (λ (x : List Event). x ++ own_session l api fc)
          (close_own_connection-none fc.owned_conn _ n)
      ∙ append_assoc w.trace (closed fc.gw ∷ []) (own_session l api fc))

  module _ (fs : FileSystem) (pki : Pki) (tls : TlsLib) (address : ℕ) where
    new_with_connection-post :
        (conn : Option ℕ) (cfg : Config) (w : World N)
        → BorrowedPost w.trace (new_with_connection l api fs pki tls address conn cfg w)
    unfolding new_with_connection build
    new_with_connection-post none cfg w = refl
    new_with_connection-post (some conn) cfg w = checked (validate cfg false)
      where
        checked :
            (e : Option Error)
            → BorrowedPost w.trace (elim e as (λ _. Result FabricClient × World N) [
              | some x ↦ (err (fabricsdk.GoError.boxed x), w)
              | none ↦ build l api fs pki address (with_defaults cfg) conn [] w
            ])
        checked (some x) = refl
        checked none = build_as-borrowed (with_defaults cfg) conn _ w.trace w (
            build_as-post l api (with_defaults cfg) conn [] _ w (
              identity_for-Sessionless l api fs pki address (with_defaults cfg)
                (with_defaults cfg).identity))

    borrowed-close :
        (t : List Event) (fc : FabricClient) (w : World N)
        → BorrowedPost t (ok fc, w)
        → (close l api fc w).2.trace ≡ t ++ (opened fc.gw ∷ closed fc.gw ∷ own_session l api fc)
    borrowed-close t fc w (h, n, o) =
        close-borrowed fc w o n
        ∙ ap (λ (x : List Event). x ++ (closed fc.gw ∷ own_session l api fc)) h
        ∙ append_assoc t (opened fc.gw ∷ []) (closed fc.gw ∷ own_session l api fc)

    -- A client that `NewWithConnection` makes opens one gateway, which `Close` closes, with the session
    -- of an identity of its own, and neither makes nor closes a connection.
    pub new_with_connection-close :
        (conn : Option ℕ) (cfg : Config) (w w' : World N) (fc : FabricClient)
        → new_with_connection l api fs pki tls address conn cfg w ≡ (ok fc, w')
        → (close l api fc w').2.trace
          ≡ w.trace ++ (opened fc.gw ∷ closed fc.gw ∷ own_session l api fc)
    new_with_connection-close conn cfg w w' fc h =
        borrowed-close w.trace fc w'
          (subst (BorrowedPost w.trace) h (new_with_connection-post conn cfg w))
