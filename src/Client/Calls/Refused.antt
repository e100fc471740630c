-- ===== src/Client/Calls/Refused.antt =====
-- What the calls of a client come to after it was closed.
use fabricsdk.Base.{◌≡◌, Option, List, Text}
use fabricsdk.GoError.{GoError}
use fabricsdk.Libs.{Libs}
use fabricsdk.Options.{CallOption, Ctx}
use fabricsdk.Result.{err}
use fabricsdk.World.{GatewayApi, World}
use fabricsdk.Contract.{FabricClient, default_contract, closed_error}
use fabricsdk.Contract.Evaluate.{evaluate_with-refused}
use fabricsdk.Submit.Dropped.{submit-refused}
use fabricsdk.Ledger.{Decoders}
use fabricsdk.Ledger.Resolve.{height-refused}
use fabricsdk.Streams.Returned.{chaincode_events-refused}
use fabricsdk.Events.{EventOption}
use fabricsdk.Client.{close}
use fabricsdk.Client.Lifecycle.{close-is_closed, closed_gateway}
use fabricsdk.Client.Calls.{evaluate_with, submit_async, submit_with, height, events}

-- After `Close`, the client's `EvaluateWith`, `SubmitWith`, `SubmitAsync` and `Events` return the
-- error that the client is closed, `Height` returns an error, and none of them asks anything of a peer.
pub close-calls :
    (l : Libs) {N : Type 0} (api : GatewayApi N) (d : Decoders) (fc : FabricClient) (w : World N)
    (ctx : Option Ctx) (stream_ctx : Ctx) (fn : Text) (opts : List CallOption)
    (event_opts : List EventOption)
    → let fc' = (close l api fc w).1 in
      let w' = (close l api fc w).2 in
      ((evaluate_with l api fc' ctx fn opts w').0 ≡ err closed_error)
      × ((evaluate_with l api fc' ctx fn opts w').1.net ≡ w'.net)
      × (submit_with l api fc' ctx fn opts w' ≡ (err closed_error, w'))
      × (submit_async l api fc' ctx fn opts w' ≡ (err closed_error, w'))
      × (events l api fc' stream_ctx event_opts w' ≡ (err closed_error, w'))
      × ((e : GoError) × (height l api fc' d ctx w' ≡ (err e, w')))
unfolding evaluate_with submit_with submit_async events height
close-calls l api d fc w ctx stream_ctx fn opts event_opts =
    let fc' = (close l api fc w).1 in
    let w' = (close l api fc w).2 in
    let g = closed_gateway l api (default_contract fc') w' (close-is_closed l api fc w) in
    let (r, n) = evaluate_with-refused l api (default_contract fc') ctx fn opts closed_error w' g in
    let (a, s) = submit-refused l api (default_contract fc') ctx fn opts closed_error w' g in
    (
      r,
      n,
      s,
      a,
      chaincode_events-refused l api (default_contract fc') stream_ctx event_opts closed_error w' g,
      (_, height-refused l api d (default_contract fc') ctx closed_error w' g),
    )
