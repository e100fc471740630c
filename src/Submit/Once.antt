-- ===== src/Submit/Once.antt =====
-- How often a submission is sent to the ordering service, by the observed calls.
use fabricsdk.Base.{
  ℕ, ◌+◌, ◌≤◌, ◌≡◌, refl, ap, List, [], ◌∷◌, ◌++◌, Option, Text, append_assoc, arith,
}
use fabricsdk.GoError.{GoError}
use fabricsdk.Libs.{Libs}
use fabricsdk.Observe.{Op, CallInfo}
use fabricsdk.Options.{CallOption, Ctx}
use fabricsdk.Result.{Result, ok, err}
use fabricsdk.World.{GatewayApi, World}
use fabricsdk.World.Open.{Shows, Shows-eq, Shows-calls}
use fabricsdk.Contract.{Contract}
use fabricsdk.Submit.{PendingTx, TxResult, wait, wait_dropping, submit_with}
use fabricsdk.Submit.Balance.{FailedCalls, AsyncPost, submit_async-AsyncPost, wait-Shows, held}
use fabricsdk.Submit.Dropped.{wait-ok}
use fabricsdk.Submit.Wait.{wait-answered}

abbrev pub is_submit : Op → ℕ
is_submit Op.submit = 1
is_submit _ = 0

-- The calls that were made to the ordering service.
pub submits : List CallInfo → ℕ
submits [] = 0
submits (i ∷ is) = is_submit i.operation + submits is

pub submits-none : submits [] ≡ 0
unfolding submits
submits-none = refl

pub submits-concat : (is js : List CallInfo) → submits (is ++ js) ≡ submits is + submits js
unfolding submits
submits-concat [] js = omega arith
submits-concat (i ∷ is) js = omega (arith, submits-concat is js)

-- A call of another kind adds none.
pub submits-last :
    (is : List CallInfo) (i : CallInfo) (o : Op)
    → i.operation ≡ o
    → is_submit o ≡ 0
    → submits (is ++ (i ∷ [])) ≡ submits is
unfolding submits
submits-last is i o e z = omega (arith, submits-concat is (i ∷ []), ap is_submit e, z)

-- After `Submit`: a result was submitted once, and leaves as many gateways open; an error at most once.
abbrev pub SubmitPost : {N : Type 0} → ℕ → List CallInfo → Result TxResult × World N → Type 0
SubmitPost k cs (ok t, w) = (is : List CallInfo) × Shows k (cs ++ is) w × (submits is ≡ 1)
SubmitPost k cs (err e, w) =
    (is : List CallInfo) × (j : ℕ) × Shows (k + j) (cs ++ is) w × (submits is ≤ 1)

FailedCalls-submits :
    (R : GoError → Type 0) (e : GoError) (is : List CallInfo) → FailedCalls R e is → submits is ≤ 1
unfolding submits
FailedCalls-submits R e [] f = omega arith
FailedCalls-submits R e (i ∷ []) (o, _) = omega (arith, ap is_submit o)
FailedCalls-submits R e (i ∷ j ∷ []) (o, _, p, _) = omega (arith, ap is_submit o, ap is_submit p)
FailedCalls-submits R e (i ∷ j ∷ m ∷ is) f = elim f [ ]

three_calls :
    (i j n : CallInfo)
    → i.operation ≡ Op.endorse
    → j.operation ≡ Op.submit
    → n.operation ≡ Op.commit
    → submits (i ∷ j ∷ n ∷ []) ≡ 1
unfolding submits
three_calls i j n a b c = omega (arith, ap is_submit a, ap is_submit b, ap is_submit c)

module _ (l : Libs) {N : Type 0} (api : GatewayApi N) (k : ℕ) (cs : List CallInfo) where
  waited-post :
      (p : PendingTx) (ctx : Option Ctx) (w : World N) (i j : CallInfo)
      → i.operation ≡ Op.endorse
      → j.operation ≡ Op.submit
      → Shows (k + held p) (cs ++ (i ∷ j ∷ [])) w
      → (r : Result TxResult) → (wait l api p ctx w).0 ≡ r
      → SubmitPost k cs (r, (wait l api p ctx w).2)
  waited-post p ctx w i j a b s (err e) h =
      let (n, s', c, _, _) = wait-Shows l api k p ctx s in
      let t = three_calls i j n a b c in
      (
        i ∷ j ∷ n ∷ [],
        held (wait l api p ctx w).1,
        Shows-calls (append_assoc cs (i ∷ j ∷ []) (n ∷ [])) s',
        omega (arith, t),
      )
  waited-post p ctx w i j a b s (ok t) h =
      let (n, s', c, _, _) = wait-Shows l api k p ctx s in
      let (st, y, _, _, _, _) = wait-ok l api p ctx w t h in
      let o = (wait-answered l api p ctx w y).1 in
      (
        i ∷ j ∷ n ∷ [],
        Shows-eq (ground (arith, o)) (Shows-calls (append_assoc cs (i ∷ j ∷ []) (n ∷ [])) s'),
        three_calls i j n a b c,
      )

  wait_dropping-SubmitPost :
      (R : GoError → Type 0) (ctx : Option Ctx) (r : Result PendingTx × World N)
      → AsyncPost R k cs r
      → SubmitPost k cs (wait_dropping l api ctx r)
  unfolding wait_dropping
  wait_dropping-SubmitPost R ctx (err e, w) (is, s, f) =
      (is, 0, Shows-eq (omega arith) s, FailedCalls-submits R e is f)
  wait_dropping-SubmitPost R ctx (ok p, w) (i, j, s, o, a, b, _, _) =
      waited-post p ctx w i j a b (Shows-eq (ground (arith, o)) s) _ refl

  -- At most one call of `Submit` to the ordering service is observed, whatever comes back; for a result
  -- it is exactly one, and as many gateways are open as before.
  pub submit_with-SubmitPost :
      (c : Contract) (ctx : Option Ctx) (fn : Text) (opts : List CallOption) (w : World N)
      → Shows k cs w
      → SubmitPost k cs (submit_with l api c ctx fn opts w)
  unfolding submit_with
  submit_with-SubmitPost c ctx fn opts w s =
      wait_dropping-SubmitPost _ ctx _ (submit_async-AsyncPost l api k cs c ctx fn opts s)
