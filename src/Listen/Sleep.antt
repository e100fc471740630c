-- ===== src/Listen/Sleep.antt =====
-- events.go: `sleepCtx`, which waits for a timer or for the end of the context. Which of the two a
-- `select` takes where both are ready is open.
use fabricsdk.Base.{
  ℕ, ◌+◌, ◌≤◌, ◌≡◌, refl, Bool, true, false, Option, none, some, ℤ, pos, negsuc, arith,
}

-- How long a timer runs.
abbrev pub run_time : ℤ → ℕ
run_time (pos n) = n
run_time (negsuc n) = 0

-- A sleep that starts at `begun`, in a context that ends at `done_at` if it does, can return at a time
-- with a result.
pub data Sleep (begun : ℕ) (d : ℤ) (done_at : Option ℕ) : ℕ → Bool → Type 0 where
  rang : {t : ℕ} → begun + run_time d ≤ t → Sleep begun d done_at t true
  cut : {t e : ℕ} → done_at ≡ some e → e ≤ t → Sleep begun d done_at t false

-- A sleep that says that it ran to its end has taken its whole time, and one in a context that does not
-- end says so; every sleep can return once its time is over.
pub Sleep-whole :
    (begun : ℕ) (d : ℤ) (done_at : Option ℕ)
    → ((t : ℕ) → Sleep begun d done_at t true → begun + run_time d ≤ t)
      × ((t : ℕ) (b : Bool) → done_at ≡ none → Sleep begun d done_at t b → b ≡ true)
      × Sleep begun d done_at (begun + run_time d) true
Sleep-whole begun d done_at = (long, unended, rang (omega arith))
  where
    long : (t : ℕ) → Sleep begun d done_at t true → begun + run_time d ≤ t
    long t (rang l) = l

    unended : (t : ℕ) (b : Bool) → done_at ≡ none → Sleep begun d done_at t b → b ≡ true
    unended t b n (rang l) = refl
    unended t b n (cut e l) = absurd (cc)
