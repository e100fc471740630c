-- ===== src/Config/Defaults.antt =====
-- What the defaults do to a configuration.
use fabricsdk.Base.{
  ◌≡◌, refl, Bool, true, false, Option, none, some, ℤ, pos, is_negative, is_zero, ltbℤ, arith, All,
}
use fabricsdk.GoError.{is_some}
use fabricsdk.Observe.{Logger, Observer}
use fabricsdk.Config.{
  Config, timeouts, validate, with_defaults, or_default, or_noop, default_evaluate_timeout,
  default_endorse_timeout, default_submit_timeout, default_commit_status_timeout,
}
use fabricsdk.Config.Valid.{IsValid}

or_default_idem : (d k : ℤ) → is_zero k ≡ false → or_default (or_default d k) k ≡ or_default d k
unfolding or_default
or_default_idem d k h = ground arith

or_noop_idem : {A : Type 0} (a : A) (o : Option A) → or_noop a (or_noop a o) ≡ or_noop a o
unfolding or_noop
or_noop_idem a none = refl
or_noop_idem a (some x) = refl

is_negative-or_default :
    (d k : ℤ) → is_negative k ≡ false → is_negative (or_default d k) ≡ is_negative d
unfolding or_default
is_negative-or_default d k h = ground arith

-- Filling in the defaults a second time changes nothing.
pub with_defaults_idem : (c : Config) → with_defaults (with_defaults c) ≡ with_defaults c
unfolding with_defaults
with_defaults_idem c = λ i. record c {
  evaluate_timeout = or_default_idem c.evaluate_timeout default_evaluate_timeout refl i;
  endorse_timeout = or_default_idem c.endorse_timeout default_endorse_timeout refl i;
  submit_timeout = or_default_idem c.submit_timeout default_submit_timeout refl i;
  commit_status_timeout =
      or_default_idem c.commit_status_timeout default_commit_status_timeout refl i;
  logger = or_noop_idem Logger.noop c.logger i;
  observer = or_noop_idem Observer.noop c.observer i;
}

-- The defaults neither make a configuration valid nor spoil it: the outcome of `validate` is the same.
pub validate-with_defaults :
    (c : Config) (own_conn : Bool) → validate (with_defaults c) own_conn ≡ validate c own_conn
unfolding validate with_defaults
validate-with_defaults c own_conn =
    rw (is_negative-or_default c.evaluate_timeout default_evaluate_timeout refl) (
      rw (is_negative-or_default c.endorse_timeout default_endorse_timeout refl) (
        rw (is_negative-or_default c.submit_timeout default_submit_timeout refl) (
          rw (is_negative-or_default c.commit_status_timeout default_commit_status_timeout refl)
            refl)))

-- `0 < d`
abbrev pub IsPositive : ℤ → Type 0
IsPositive d = ltbℤ (pos 0) d ≡ true

or_default-IsPositive :
    (d k : ℤ) → is_negative d ≡ false → IsPositive k → IsPositive (or_default d k)
unfolding or_default
or_default-IsPositive d k h p = ground arith

or_noop-is_some : {A : Type 0} (a : A) (o : Option A) → is_some (or_noop a o) ≡ true
unfolding or_noop
or_noop-is_some a none = refl
or_noop-is_some a (some x) = refl

-- Once a valid configuration has its defaults every timeout is positive, and the hooks are set.
pub with_defaults-IsPositive :
    (c : Config) (own_conn : Bool)
    → IsValid c own_conn
    → All IsPositive (timeouts (with_defaults c))
      × (is_some (with_defaults c).logger ≡ true)
      × (is_some (with_defaults c).observer ≡ true)
unfolding with_defaults
with_defaults-IsPositive c own_conn v =
    let (a, (b, (d, (e, _)))) = v.durations in
    (
      (
        or_default-IsPositive _ default_evaluate_timeout a refl,
        (
          or_default-IsPositive _ default_endorse_timeout b refl,
          (
            or_default-IsPositive _ default_submit_timeout d refl,
            (or_default-IsPositive _ default_commit_status_timeout e refl, tt),
          ),
        ),
      ),
      or_noop-is_some Logger.noop c.logger,
      or_noop-is_some Observer.noop c.observer,
    )
