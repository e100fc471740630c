-- ===== src/GoError/Wraps.antt =====
-- `errors.As` for `*Error`: what it finds in an error made by this package, wrapped or not.
use fabricsdk.Base.{ℕ, ◌≡◌, refl, ap, ◌∙◌, Option, none, some, Text, arith}
use fabricsdk.GoError.{
  GoError, other, end, also, Error, boxed, unwrap_list, first_of_list, as_error,
}

first-unwrap_list : (c : Option GoError) → first_of_list (unwrap_list c) ≡ c
first-unwrap_list none = refl
first-unwrap_list (some e) = refl

pub as_error-boxed : (e : Error) → as_error (boxed e) ≡ some e
unfolding as_error
as_error-boxed e =
    ap (λ (c : Option GoError). some (record { info = e.info; cause = c }))
      (first-unwrap_list e.cause)

-- `err` is `inner` under any number of `fmt.Errorf("…%w", …)` or similar.
pub data Wraps (inner : GoError) : GoError → Type 0 where
  bare : Wraps inner inner
  wrapped :
      {err : GoError} (tag : ℕ) (text : Text)
      → Wraps inner err
      → Wraps inner (other tag text (also err end))

as_error-other :
    (tag : ℕ) (text : Text) (err : GoError)
    → as_error (other tag text (also err end)) ≡ as_error err
unfolding as_error
as_error-other tag text err = ground arith

pub as_error-Wraps : {inner err : GoError} → Wraps inner err → as_error err ≡ as_error inner
as_error-Wraps bare = refl
as_error-Wraps (wrapped {err} tag text w) = as_error-other tag text err ∙ as_error-Wraps w
