-- ===== src/Error.antt =====
-- rustmatch/src/error.rs and rustmatch/src/types.rs: the public failures, pattern identifiers,
-- spans and events, and the error monad in which `?` is written.
use rustmatch.Prelude.{ℕ, ◌≡◌, refl}

-- A UTF-16 span.
pub record Utf16Span : Type 0 where
  pub start : ℕ
  pub end : ℕ

pub data Error : Type 0 where
  duplicate_pattern_id : ℕ → Error
  empty_pattern : ℕ → Error
  unsupported_pattern : ℕ → Utf16Span → ℕ → Error
  invalid_pattern : ℕ → Utf16Span → Error
  no_patterns : Error
  invalid_worker_count : Error
  pattern_set_too_large : Error
  pattern_too_large : ℕ → Error
  pattern_nesting_too_deep : ℕ → ℕ → Error
  input_too_large : Error
  worker_unavailable : Error

-- A call either stops with an error or returns. `out_of_fuel` belongs to the model only.
pub data Result {ℓ} (Value : Type ℓ) : Type ℓ where
  out_of_fuel : Result Value
  err : Error → Result Value
  ok : Value → Result Value

-- `?`: an error of the first call is returned.
infixl 5 ◌>>=◌
abbrev pub ◌>>=◌ {ℓ κ} :
    {Value : Type ℓ} {Next : Type κ} → Result Value → (Value → Result Next) → Result Next
out_of_fuel >>= next = out_of_fuel
err failure >>= next = err failure
ok value >>= next = next value

-- Where two calls return, both did.
module _ {ℓ κ} {Value : Type ℓ} {Next : Type κ} where
  pub >>=-eq-ok :
      (call : Result Value) (next : Value → Result Next) {result : Next}
      → (call >>= next) ≡ ok result
      → (value : Value) × (call ≡ ok value) × (next value ≡ ok result)
  >>=-eq-ok out_of_fuel next returned = cc
  >>=-eq-ok (err failure) next returned = cc
  >>=-eq-ok (ok value) next returned = (value, refl, returned)
