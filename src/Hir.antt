-- ===== src/Hir.antt =====
-- rustmatch/src/hir.rs: the normalized representation shared by the parser and the compiler. A
-- boxed slice of expressions is `Hirs`.
pub mod Normal
pub mod Metadata
use rustmatch.Prelude.{
  ℕ, zero, suc, ◌+◌, ◌*◌, Bool, true, false, not, ◌&&◌, ◌||◌, Option, none, some, min, ◌==◌,
  if◌then◌else◌,
}
use rustmatch.Predicate.{SymbolPredicate, is_empty}

pub data Assertion : Type 0 where
  line_start line_end word_boundary non_word_boundary : Assertion

mutual
  pub data Hir : Type 0 where
    never : Hir
    epsilon : Hir
    assertion : Assertion → Hir
    symbol : ℕ → Hir
    predicate : SymbolPredicate → Hir
    sequence : Hirs → Hir
    alternation : Hirs → Hir
    repeat : Hir → ℕ → Option ℕ → Hir

  pub data Hirs : Type 0 where
    nil : Hirs
    cons : Hir → Hirs → Hirs

abbrev pub append : Hirs → Hirs → Hirs
append nil fs = fs
append (cons e es) fs = cons e (append es fs)

-- A list of one is its element.
unfoldable pub unwrap_sequence : Hirs → Hir
unwrap_sequence nil = epsilon
unwrap_sequence (cons e nil) = e
unwrap_sequence (cons e (cons f es)) = sequence (cons e (cons f es))

-- The loop of `Hir::sequence`; `none` is its early return of `Never`.
unfoldable pub flatten_sequence : Hirs → Option Hirs
flatten_sequence nil = some nil
flatten_sequence (cons never es) = none
flatten_sequence (cons epsilon es) = flatten_sequence es
flatten_sequence (cons (sequence nested) es) = elim (flatten_sequence es) [
  | none ↦ none
  | some rest ↦ some (append nested rest)
]
flatten_sequence (cons other es) = elim (flatten_sequence es) [
  | none ↦ none
  | some rest ↦ some (cons other rest)
]

-- `Hir::sequence`.
unfoldable pub sequence_of : Hirs → Hir
unfolding flatten_sequence unwrap_sequence
sequence_of es = elim (flatten_sequence es) [ none ↦ never | some flat ↦ unwrap_sequence flat ]

unfoldable pub unwrap_alternation : Hirs → Hir
unwrap_alternation nil = never
unwrap_alternation (cons e nil) = e
unwrap_alternation (cons e (cons f es)) = alternation (cons e (cons f es))

unfoldable pub flatten_alternation : Hirs → Hirs
flatten_alternation nil = nil
flatten_alternation (cons never es) = flatten_alternation es
flatten_alternation (cons (alternation nested) es) = append nested (flatten_alternation es)
flatten_alternation (cons other es) = cons other (flatten_alternation es)

-- `Hir::alternation`.
unfoldable pub alternation_of : Hirs → Hir
unfolding flatten_alternation unwrap_alternation
alternation_of es = unwrap_alternation (flatten_alternation es)

-- `Hir::repeat`.
unfoldable pub repeat_of : Hir → ℕ → Option ℕ → Hir
repeat_of e low (some zero) = epsilon
repeat_of epsilon low high = epsilon
repeat_of never zero high = epsilon
repeat_of never (suc low) high = never
repeat_of e (suc zero) (some (suc zero)) = e
repeat_of e low high = repeat e low high

-- The machine word `usize` has 64 bits.
abbrev pub usize_max : ℕ
usize_max = 18446744073709551615

abbrev pub saturating_add : ℕ → ℕ → ℕ
saturating_add a b = min (a + b) usize_max

abbrev pub saturating_mul : ℕ → ℕ → ℕ
saturating_mul a b = min (a * b) usize_max

abbrev pub option_min : Option ℕ → Option ℕ → Option ℕ
option_min none b = b
option_min (some a) none = some a
option_min (some a) (some b) = some (min a b)

unfoldable mutual
  pub nullable : Hir → Bool
  nullable never = false
  nullable epsilon = true
  nullable (assertion a) = true
  nullable (symbol x) = false
  nullable (predicate p) = false
  nullable (sequence es) = nullable_all es
  nullable (alternation es) = nullable_any es
  nullable (repeat e low high) = low == 0 || nullable e

  pub nullable_all : Hirs → Bool
  nullable_all nil = true
  nullable_all (cons e es) = nullable e && nullable_all es

  pub nullable_any : Hirs → Bool
  nullable_any nil = false
  nullable_any (cons e es) = nullable e || nullable_any es

-- The `try_fold` over a sequence adds the lengths up from the left.
unfoldable mutual
  pub minimum_consumed : Hir → Option ℕ
  minimum_consumed never = none
  minimum_consumed epsilon = some 0
  minimum_consumed (assertion a) = some 0
  minimum_consumed (symbol x) = some 1
  minimum_consumed (predicate p) = if is_empty p then none else some 1
  minimum_consumed (sequence es) = minimum_sum es 0
  minimum_consumed (alternation es) = minimum_min es
  minimum_consumed (repeat e zero high) = some 0
  minimum_consumed (repeat e (suc low) high) = elim (minimum_consumed e) [
    | none ↦ none
    | some n ↦ some (saturating_mul n (suc low))
  ]

  pub minimum_sum : Hirs → ℕ → Option ℕ
  minimum_sum nil total = some total
  minimum_sum (cons e es) total = elim (minimum_consumed e) [
    | none ↦ none
    | some n ↦ minimum_sum es (saturating_add total n)
  ]

  pub minimum_min : Hirs → Option ℕ
  minimum_min nil = none
  minimum_min (cons e es) = option_min (minimum_consumed e) (minimum_min es)

is_some : Option ℕ → Bool
is_some none = false
is_some (some n) = true

is_some_zero : Option ℕ → Bool
is_some_zero none = false
is_some_zero (some n) = n == 0

unfoldable mutual
  unfolding is_some is_some_zero minimum_consumed

  pub can_consume : Hir → Bool
  can_consume never = false
  can_consume epsilon = false
  can_consume (assertion a) = false
  can_consume (symbol x) = true
  can_consume (predicate p) = not (is_empty p)
  can_consume (sequence es) = is_some (minimum_consumed (sequence es)) && can_consume_any es
  can_consume (alternation es) = can_consume_any es
  can_consume (repeat e low high) = not (is_some_zero high) && can_consume e

  pub can_consume_any : Hirs → Bool
  can_consume_any nil = false
  can_consume_any (cons e es) = can_consume e || can_consume_any es

unfoldable mutual
  pub uses_assertions : Hir → Bool
  uses_assertions (assertion a) = true
  uses_assertions (sequence es) = uses_assertions_any es
  uses_assertions (alternation es) = uses_assertions_any es
  uses_assertions (repeat e low high) = uses_assertions e
  uses_assertions _ = false

  pub uses_assertions_any : Hirs → Bool
  uses_assertions_any nil = false
  uses_assertions_any (cons e es) = uses_assertions e || uses_assertions_any es

pub record HirPattern : Type 0 where
  pub pattern_id : ℕ
  pub expression : Hir
  pub nullable : Bool
  pub minimum_consumed : Option ℕ

-- `HirPattern::new`.
unfoldable pub hir_pattern : ℕ → Hir → HirPattern
hir_pattern id e = record {
  pattern_id = id;
  expression = e;
  nullable = nullable e;
  minimum_consumed = minimum_consumed e;
}
