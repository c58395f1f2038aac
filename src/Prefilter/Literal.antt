-- ===== src/Prefilter/Literal.antt =====
-- rustmatch/src/prefilter.rs: the literal that every match of an expression begins with.
use rustmatch.Prelude.{
  ℕ, zero, suc, ◌-◌, Bool, true, false, ◌&&◌, ◌||◌, Option, none, some, List, [], ◌∷◌, ◌++◌, take,
  length, same_naturals, ◌==◌, leb, if◌then◌else◌,
}
use rustmatch.Hir.{
  Hir, Hirs, never, epsilon, assertion, symbol, predicate, sequence, alternation, repeat, nil, cons,
}

abbrev pub min_literal_units : ℕ
min_literal_units = 3

abbrev pub max_literal_units : ℕ
max_literal_units = 32

unfoldable pub append_bounded : List ℕ → List ℕ → List ℕ
append_bounded output suffix = output ++ take (max_literal_units - length output) suffix

-- The loop of `exact_literal` over a repetition.
unfoldable pub append_times : ℕ → List ℕ → List ℕ → List ℕ
append_times zero unit literal = literal
append_times (suc n) unit literal = append_times n unit (append_bounded literal unit)

-- `expressions.all(|expression| exact_literal(expression).as_ref() == Some(&first))` for one.
unfoldable pub is_literal : Option (List ℕ) → List ℕ → Bool
unfolding same_naturals
is_literal none first = false
is_literal (some literal) first = same_naturals literal first

unfoldable pub exact_repetition : ℕ → Option ℕ → Option (List ℕ) → Option (List ℕ)
unfolding append_times append_bounded
exact_repetition low none unit = none
exact_repetition low (some high) none = none
exact_repetition low (some high) (some unit) =
    if low == high then some (append_times low unit []) else none

unfoldable mutual
  unfolding is_literal exact_repetition append_bounded

  pub exact_literal : Hir → Option (List ℕ)
  exact_literal never = none
  exact_literal epsilon = some []
  exact_literal (assertion a) = none
  exact_literal (symbol x) = some (x ∷ [])
  exact_literal (predicate p) = none
  exact_literal (sequence es) = exact_items es []
  exact_literal (alternation es) = exact_alternation es
  exact_literal (repeat e low high) = exact_repetition low high (exact_literal e)

  -- The loop over a sequence.
  pub exact_items : Hirs → List ℕ → Option (List ℕ)
  exact_items nil literal = some literal
  exact_items (cons e es) literal = elim (exact_literal e) [
    | none ↦ none
    | some next ↦ exact_items es (append_bounded literal next)
  ]

  pub exact_alternation : Hirs → Option (List ℕ)
  exact_alternation nil = none
  exact_alternation (cons e es) = elim (exact_literal e) [
    | none ↦ none
    | some first ↦ if exact_branches es first then some first else none
  ]

  pub exact_branches : Hirs → List ℕ → Bool
  exact_branches nil first = true
  exact_branches (cons e es) first = is_literal (exact_literal e) first && exact_branches es first

-- `zip`, `take_while` and `count`: how many leading units are the same.
unfoldable pub shared_length : List ℕ → List ℕ → ℕ
shared_length (x ∷ xs) (y ∷ ys) = if x == y then suc (shared_length xs ys) else 0
shared_length _ _ = 0

-- The loop of `necessary_prefix` over a repetition, with its early end.
unfoldable pub repeat_bounded : ℕ → List ℕ → List ℕ → List ℕ
unfolding append_bounded
repeat_bounded zero literal prefix = prefix
repeat_bounded (suc n) literal prefix =
    let next = append_bounded prefix literal in
    elim (length next == max_literal_units) [ true ↦ next | false ↦ repeat_bounded n literal next ]

unfoldable pub is_none {ℓ} : {A : Type ℓ} → Option A → Bool
is_none none = true
is_none (some a) = false

-- A repetition whose lower bound is not 0.
unfoldable pub necessary_repetition : ℕ → Option (List ℕ) → List ℕ → List ℕ
unfolding repeat_bounded
necessary_repetition zero literal prefix = []
necessary_repetition (suc low) none prefix = prefix
necessary_repetition (suc low) (some literal) prefix = repeat_bounded (suc low) literal []

unfoldable mutual
  unfolding exact_literal necessary_repetition shared_length append_bounded is_none

  pub necessary_prefix : Hir → List ℕ
  necessary_prefix never = []
  necessary_prefix epsilon = []
  necessary_prefix (assertion a) = []
  necessary_prefix (symbol x) = x ∷ []
  necessary_prefix (predicate p) = []
  necessary_prefix (sequence es) = prefix_items es []
  necessary_prefix (alternation es) = necessary_alternation es
  necessary_prefix (repeat e low high) =
      necessary_repetition low (exact_literal e) (necessary_prefix e)

  -- The loop over a sequence, with its early end.
  pub prefix_items : Hirs → List ℕ → List ℕ
  prefix_items nil prefix = prefix
  prefix_items (cons e es) prefix =
      let next = append_bounded prefix (necessary_prefix e) in
      elim (is_none (exact_literal e) || length next == max_literal_units) [
        | true ↦ next
        | false ↦ prefix_items es next
      ]

  pub necessary_alternation : Hirs → List ℕ
  necessary_alternation nil = []
  necessary_alternation (cons e es) = shared_branches es (necessary_prefix e)

  -- The loop over the other branches, with its early end.
  pub shared_branches : Hirs → List ℕ → List ℕ
  shared_branches nil prefix = prefix
  shared_branches (cons e es) prefix =
      elim (take (shared_length prefix (necessary_prefix e)) prefix) [
        | [] ↦ []
        | x ∷ rest ↦ shared_branches es (x ∷ rest)
      ]

-- `offset` is 0 in every literal.
pub record NecessaryLiteral : Type 0 where
  pub ordinal : ℕ
  pub offset : ℕ
  pub units : List ℕ

-- `NecessaryLiteral::from_pattern`.
unfoldable pub from_pattern : ℕ → Hir → Option NecessaryLiteral
unfolding necessary_prefix
from_pattern ordinal e =
    let units = take max_literal_units (necessary_prefix e) in
    if leb min_literal_units (length units)
    then some (record { ordinal = ordinal; offset = 0; units = units })
    else none
