-- ===== src/Client/Calls/Reported.antt =====
-- The transaction that an outcome of the client's `Submit` names.
use fabricsdk.Base.{Option, List, [], ◌∷◌, Text}
use fabricsdk.Libs.{Libs}
use fabricsdk.Options.{args, Ctx}
use fabricsdk.World.{GatewayApi, World}
use fabricsdk.Contract.{FabricClient, default_contract}
use fabricsdk.Submit.Reported.{ForeignErrors, Reports, Proposed, result_id}
use fabricsdk.Client.Calls.{submit}
use fabricsdk.Submit.Reported

-- An outcome of the client's `Submit` is about a proposal on its default handle.
pub submit-Reports :
    (l : Libs) {N : Type 0} (api : GatewayApi N) (foreign : ForeignErrors api) (fc : FabricClient)
    (ctx : Option Ctx) (fn : Text) (xs : List Text) (w : World N)
    → Reports
        (Proposed api (default_contract fc) fn (args xs ∷ []))
        result_id
        (submit l api fc ctx fn xs w).0
unfolding submit
submit-Reports l api foreign fc ctx fn xs w =
    fabricsdk.Submit.Reported.submit-Reports l api foreign (default_contract fc) ctx fn xs w
