-- ===== src/Events/Backoff.antt =====
-- The range of the reconnect delay.
use fabricsdk.Base.{◌≡◌, refl, true, false, List, ℤ, pos, negsuc, ltbℤ, arith, if_cases}
use fabricsdk.Contract.{Contract}
use fabricsdk.Events.{
  EventOptions, EventOption, fix_min, fix_max, event_options, chosen_options, next_backoff,
}

-- `0 < lo`, `lo ≤ b` and `b ≤ hi`.
pub record InRange (lo hi b : ℤ) : Type 0 where
  pub positive : ltbℤ (pos 0) lo ≡ true
  pub above : ltbℤ b lo ≡ false
  pub below : ltbℤ hi b ≡ false

-- The largest delay of which the double is an int64: about 146 years.
abbrev pub max_delay : ℤ
max_delay = pos 4_611_686_018_427_387_903

fix_min-positive : (o : EventOptions) → ltbℤ (pos 0) (fix_min o).min_backoff ≡ true
unfolding fix_min
fix_min-positive o =
    if_cases (λ (x : EventOptions). ltbℤ (pos 0) x.min_backoff ≡ true) (ltbℤ (pos 0) o.min_backoff)
      (λ e. e) (λ e. refl)

not_below : (a : ℤ) → ltbℤ a a ≡ false
not_below (pos n) = ground arith
not_below (negsuc n) = ground arith

fix_max-InRange :
    (o : EventOptions)
    → ltbℤ (pos 0) o.min_backoff ≡ true
    → InRange (fix_max o).min_backoff (fix_max o).max_backoff (fix_max o).min_backoff
unfolding fix_max
fix_max-InRange o h =
    if_cases (λ (x : EventOptions). InRange x.min_backoff x.max_backoff x.min_backoff)
      (ltbℤ o.max_backoff o.min_backoff)
      (λ e. record {
        positive = h;
        above = not_below o.min_backoff;
        below = not_below o.min_backoff;
      })
      (λ e. record { positive = h; above = not_below o.min_backoff; below = e })

-- Whatever the options say, the shortest delay is positive and no longer than the longest.
pub event_options-InRange :
    (c : Contract) (opts : List EventOption)
    → InRange
        (event_options c opts).min_backoff
        (event_options c opts).max_backoff
        (event_options c opts).min_backoff
unfolding event_options
event_options-InRange c opts =
    fix_max-InRange (fix_min (chosen_options c opts)) (fix_min-positive (chosen_options c opts))

-- Doubling keeps a delay between the shortest and the longest, provided that the longest is at most
-- about 146 years, and never shortens it.
pub next_backoff-InRange :
    (lo hi b : ℤ)
    → ltbℤ max_delay hi ≡ false
    → InRange lo hi b
    → InRange lo hi (next_backoff hi b) × (ltbℤ (next_backoff hi b) b ≡ false)
unfolding next_backoff
next_backoff-InRange (pos m) (pos n) (pos x) f r = ground arith
next_backoff-InRange lo hi b f r = ground arith
