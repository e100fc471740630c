-- ===== src/Streams/Closed.antt =====
-- The gateway of a stream, from `ChaincodeEvents` to the end of its goroutine.
use mathlib.Core.Path.{subst}
use fabricsdk.Base.{ℕ, zero, suc, ◌+◌, ◌*◌, ◌≤◌, ◌≡◌, refl, sym, true, List, length}
use fabricsdk.Libs.{Libs}
use fabricsdk.Observe.{CallInfo}
use fabricsdk.Options.{Ctx}
use fabricsdk.Result.{ok}
use fabricsdk.World.{GatewayApi, World}
use fabricsdk.World.Open.{Shows}
use fabricsdk.Contract.{Contract, Release, release}
use fabricsdk.Contract.Evaluate.{GatewayPost, release-open}
use fabricsdk.Events.{EventOption}
use fabricsdk.Forward.{GatewayEvent, Stream, Reach, ended, done}
use fabricsdk.Forward.Finish.{Alones, Reach-done}
use fabricsdk.Streams.{chaincode_events}
use fabricsdk.Streams.Returned.{chaincode_events-GatewayPost}

module _ (l : Libs) {N : Type 0} (api : GatewayApi N) where
  -- A number of calls of the release function.
  pub release_times : ℕ → Release → World N → World N
  release_times zero rel w = w
  release_times (suc n) rel w = release_times n rel (release l api rel w)

  release_times-one : (rel : Release) (w : World N) → release_times 1 rel w ≡ release l api rel w
  unfolding release_times
  release_times-one rel w = refl

  -- A stream that `ChaincodeEvents` returned, once it has ended and the gateway has hung up, gives its
  -- gateway back: without a reader its goroutine can go on until it is done, and with the calls of the
  -- release function that it has then made as many gateways are open as before `ChaincodeEvents`.
  pub chaincode_events-closed :
      (k : ℕ) (cs : List CallInfo) (c : Contract) (ctx : Ctx) (opts : List EventOption)
      (w w' : World N) (upstream : ℕ) (rel : Release) {sent : List GatewayEvent} {s : Stream}
      → Shows k cs w
      → chaincode_events l api c ctx opts w ≡ (ok (upstream, rel), w')
      → Reach sent s
      → ended s ≡ true
      → s.hung_up ≡ true
      → (n : ℕ) × (t : Stream) × (n ≤ 2 * length sent + 8)
        × Alones s n t
        × (t.pc ≡ done)
        × Shows k cs (release_times t.releases rel w')
  chaincode_events-closed k cs c ctx opts w w' upstream rel h e r over hung =
      let held =
        subst (GatewayPost k cs) e (chaincode_events-GatewayPost l api k cs c ctx opts w h) in
      let (n, t, few, path, _, d, _, once) = Reach-done r over hung in
      (
        n,
        t,
        few,
        path,
        d,
        subst (λ x. Shows k cs (release_times x rel w')) (sym once)
            (subst (Shows k cs) (sym (release_times-one rel w')) (release-open l api rel held)),
      )
