-- ===== src/Client/Calls/Typed.antt =====
-- The errors that the methods of a client return.
use fabricsdk.Base.{Option, List, Text}
use fabricsdk.Libs.{Libs}
use fabricsdk.Options.{CallOption, Ctx}
use fabricsdk.World.{GatewayApi, World}
use fabricsdk.Contract.{FabricClient, default_contract}
use fabricsdk.Contract.Typed.{Typed, evaluate_with-Typed}
use fabricsdk.Submit.{PendingTx, wait}
use fabricsdk.Submit.Typed.{submit_async-Typed, submit_with-Typed, wait-Typed}
use fabricsdk.Ledger.{Decoders}
use fabricsdk.Ledger.Typed.{tx_status-Typed, height-Typed}
use fabricsdk.Streams.Typed.{chaincode_events-Typed}
use fabricsdk.Events.{EventOption}
use fabricsdk.Client.Calls.{evaluate_with, submit_with, submit_async, tx_status, height, events}

-- Whatever the network answers, an error that the client's `EvaluateWith`, `SubmitWith`, `SubmitAsync`,
-- `TxStatus`, `Height` or `Events` or the `Wait` of a pending transaction returns is itself an error of
-- the package.
pub calls-Typed :
    (l : Libs) {N : Type 0} (api : GatewayApi N) (d : Decoders) (fc : FabricClient) (p : PendingTx)
    (ctx : Option Ctx) (stream_ctx : Ctx) (fn tx : Text) (opts : List CallOption)
    (event_opts : List EventOption) (w : World N)
    → Typed (evaluate_with l api fc ctx fn opts w).0
      × Typed (submit_with l api fc ctx fn opts w).0
      × Typed (submit_async l api fc ctx fn opts w).0
      × Typed (wait l api p ctx w).0
      × Typed (tx_status l api fc d ctx tx w).0
      × Typed (height l api fc d ctx w).0
      × Typed (events l api fc stream_ctx event_opts w).0
unfolding evaluate_with submit_with submit_async tx_status height events
calls-Typed l api d fc p ctx stream_ctx fn tx opts event_opts w =
    let c = default_contract fc in
    (
      evaluate_with-Typed l api c ctx fn opts w,
      submit_with-Typed l api c ctx fn opts w,
      submit_async-Typed l api c ctx fn opts w,
      wait-Typed l api p ctx w,
      tx_status-Typed l api d c ctx tx w,
      height-Typed l api d c ctx w,
      chaincode_events-Typed l api c stream_ctx event_opts w,
    )
