-- ===== src/Result.antt =====
-- The pair `(value, error)` that a Go function returns, where one of the two is meant.
use fabricsdk.Base.{Option, none, some}
use fabricsdk.GoError.{GoError}

pub data Result (A : Type 0) : Type 0 where
  ok : A → Result A
  err : GoError → Result A

-- The returned error.
abbrev pub error_of : {A : Type 0} → Result A → Option GoError
error_of (ok a) = none
error_of (err e) = some e
