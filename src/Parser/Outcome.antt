-- ===== src/Parser/Outcome.antt =====
-- What a function of rustmatch/src/parser.rs may do: return a value, or stop with an error that
-- names the pattern and, for malformed syntax, a part of it.
use rustmatch.Prelude.{
  ℕ, ◌≤◌, ◌<◌, ◌≡◌, refl, Bool, true, false, Option, none, some, List, if◌then◌else◌, get_elem?,
  length, lt-length_of_get_elem?,
}
use rustmatch.Error.{
  Error, duplicate_pattern_id, empty_pattern, unsupported_pattern, invalid_pattern, no_patterns,
  invalid_worker_count, pattern_set_too_large, pattern_too_large, pattern_nesting_too_deep,
  input_too_large, worker_unavailable, Result, ok, err, ◌>>=◌,
}
use rustmatch.Hir.{Hir}
use rustmatch.Parser.Class.{Parser, is_unit, is_some_unit}

pub is_unit-lt : (units : List ℕ) (i u : ℕ) → is_unit units i u ≡ true → i < length units
is_unit-lt units i u h = read (get_elem? units i) refl h
  where
    read : (o : Option ℕ) → get_elem? units i ≡ o → is_some_unit o u ≡ true → i < length units
    read none e h = cc
    read (some v) e h = lt-length_of_get_elem? units i e

module _ (id n : ℕ) where
  -- A span of malformed syntax is not empty and lies in the pattern of n units.
  abbrev pub IsDiagnosed : Error → Type 0
  IsDiagnosed (empty_pattern i) = (i ≡ id) × (n ≡ 0)
  IsDiagnosed (invalid_pattern i s) = (i ≡ id) × (s.start < s.end) × (s.end ≤ n)
  IsDiagnosed (pattern_nesting_too_deep i limit) = (i ≡ id) × (limit ≡ 256)
  IsDiagnosed (duplicate_pattern_id i) = ⊥
  IsDiagnosed (unsupported_pattern i s u) = ⊥
  IsDiagnosed no_patterns = ⊥
  IsDiagnosed invalid_worker_count = ⊥
  IsDiagnosed pattern_set_too_large = ⊥
  IsDiagnosed (pattern_too_large i) = ⊥
  IsDiagnosed input_too_large = ⊥
  IsDiagnosed worker_unavailable = ⊥

  -- The call returned a value with P, or reported an error; it did not run out of fuel.
  pub data Outcome {ℓ} {A : Type ℓ} (P : A → Type 0) : Result A → Type ℓ where
    returns : {a : A} → P a → Outcome P (ok a)
    fails : {e : Error} → IsDiagnosed e → Outcome P (err e)

  pub Outcome-bind {ℓ κ} :
      {A : Type ℓ} {B : Type κ} {P : A → Type 0} {Q : B → Type 0} {m : Result A} {f : A → Result B}
      → Outcome P m
      → ((a : A) → P a → Outcome Q (f a))
      → Outcome Q (m >>= f)
  Outcome-bind (returns p) k = k _ p
  Outcome-bind (fails d) k = fails d

  pub Outcome-mono {ℓ} :
      {A : Type ℓ} {P Q : A → Type 0} {m : Result A}
      → Outcome P m
      → ((a : A) → P a → Q a)
      → Outcome Q m
  Outcome-mono (returns p) k = returns (k _ p)
  Outcome-mono (fails d) k = fails d

  pub Outcome-if {ℓ} :
      {A : Type ℓ} {P : A → Type 0} (b : Bool) {x y : Result A}
      → (b ≡ true → Outcome P x)
      → (b ≡ false → Outcome P y)
      → Outcome P (if b then x else y)
  Outcome-if true t f = t refl
  Outcome-if false t f = f refl

  pub Outcome-elim {ℓ} :
      {A : Type ℓ} {P : A → Type 0} (b : Bool) {x y : Result A}
      → (b ≡ true → Outcome P x)
      → (b ≡ false → Outcome P y)
      → Outcome P (elim b [ true ↦ x | false ↦ y ])
  Outcome-elim true t f = t refl
  Outcome-elim false t f = f refl

  pub Outcome-option {ℓ κ} :
      {A : Type ℓ} {X : Type κ} {P : A → Type 0} (o : Option X) {x : Result A} {f : X → Result A}
      → (o ≡ none → Outcome P x)
      → ((v : X) → o ≡ some v → Outcome P (f v))
      → Outcome P (elim o [ none ↦ x | some v ↦ f v ])
  Outcome-option none t f = t refl
  Outcome-option (some v) t f = f v refl

  -- The parser stands further than it did, in the pattern, at the same depth.
  abbrev pub Moved : ℕ → ℕ → Hir × Parser → Type 0
  Moved from depth r = (from < r.1.index) × (r.1.index ≤ n) × (r.1.group_depth ≡ depth)
