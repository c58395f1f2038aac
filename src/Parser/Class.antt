-- ===== src/Parser/Class.antt =====
-- rustmatch/src/parser.rs: the parser's state, its small helpers, literals under the case flag, and
-- character classes.
use rustmatch.Prelude.{
  ℕ, zero, suc, ◌+◌, Bool, true, false, not, ◌&&◌, ◌||◌, Option, none, some, List, ◌==◌,
  if◌then◌else◌, get_elem?, length,
}
use rustmatch.Error.{Result, ok, err, out_of_fuel, ◌>>=◌, invalid_pattern}
use rustmatch.Predicate.{
  SymbolPredicate, empty, insert, insert_range, union, complement, digit, word, whitespace,
}
use rustmatch.Hir.{Hir, symbol, predicate}

pub record Parser : Type 0 where
  pub index : ℕ
  pub case_insensitive : Bool
  pub group_depth : ℕ

-- `Err(invalid(pattern_id, start, end)?)`. The conversion of an index to `u64` cannot fail.
abbrev pub invalid {ℓ} : {A : Type ℓ} → ℕ → ℕ → ℕ → Result A
invalid id start end = err (invalid_pattern id (record { start = start; end = end }))

abbrev pub is_some_unit : Option ℕ → ℕ → Bool
is_some_unit none expected = false
is_some_unit (some u) expected = u == expected

abbrev pub is_unit : List ℕ → ℕ → ℕ → Bool
is_unit units index expected = is_some_unit (get_elem? units index) expected

abbrev pub current : List ℕ → Parser → Option ℕ
current units p = get_elem? units p.index

-- `self.current_is(expected)`.
abbrev pub current_is : List ℕ → Parser → ℕ → Bool
current_is units p expected = is_unit units p.index expected

abbrev pub move_by : Parser → ℕ → Parser
move_by p n = record p { index = p.index + n }

unfoldable pub is_shorthand : ℕ → Bool
is_shorthand u = u == 0x64 || u == 0x44 || u == 0x77 || u == 0x57 || u == 0x73 || u == 0x53

-- The callers admit only the six letters.
unfoldable pub shorthand : ℕ → SymbolPredicate
shorthand u =
    if u == 0x64
    then digit
    else if u == 0x44
    then complement digit
    else if u == 0x77
    then word
    else if u == 0x57
    then complement word
    else if u == 0x73
    then whitespace
    else complement whitespace

pub data ClassToken : Type 0 where
  literal_token : ℕ → ℕ → ClassToken
  predicate_token : SymbolPredicate → ClassToken
  range_marker : ℕ → ClassToken

-- `predicate`, `pending_literal` and `range_start` of the loop over a class.
pub record ClassState : Type 0 where
  pub members : SymbolPredicate
  pub pending : Option (ℕ × ℕ)
  pub range_start : Option (ℕ × ℕ)

module _ (lower_upper : ℕ → ℕ × ℕ) where
  unfoldable pub literal : Parser → ℕ → Hir
  literal p u =
      let (lower, upper) = lower_upper u in
      if not p.case_insensitive
      then symbol u
      else if lower == upper
      then symbol u
      else predicate (insert (insert empty lower) upper)

  unfoldable pub insert_class_literal : Bool → SymbolPredicate → ℕ → SymbolPredicate
  insert_class_literal folds members u =
      let (lower, upper) = lower_upper u in
      if folds then insert (insert (insert members u) lower) upper else insert members u

  -- A folded copy of the range, unless it is the range itself.
  insert_folded : ℕ × ℕ → ℕ × ℕ → SymbolPredicate → SymbolPredicate × Bool
  insert_folded (start, end) (low, high) members =
      if start == low && end == high then (members, true) else insert_range members low high

  fold_range : ℕ → ℕ → SymbolPredicate → SymbolPredicate × Bool
  unfolding insert_folded
  fold_range start end members =
      let (start_lower, start_upper) = lower_upper start in
      let (end_lower, end_upper) = lower_upper end in
      let (lowered, fits) = insert_folded (start, end) (start_lower, end_lower) members in
      if not (start_lower == start_upper) && not (end_lower == end_upper)
      then (if fits
          then insert_folded (start, end) (start_upper, end_upper) lowered
          else (lowered, false))
      else (members, true)

  unfoldable pub insert_class_range : Bool → SymbolPredicate → ℕ → ℕ → SymbolPredicate × Bool
  unfolding fold_range
  insert_class_range folds members start end =
      let (inserted, fits) = insert_range members start end in
      if fits
      then (if folds then fold_range start end inserted else (inserted, true))
      else (inserted, false)

  insert_pending : Bool → Option (ℕ × ℕ) → SymbolPredicate → SymbolPredicate
  unfolding insert_class_literal
  insert_pending folds none members = members
  insert_pending folds (some (u, position)) members = insert_class_literal folds members u

  -- The effect of one token, and the error that it meets: `start` is where the class begins and
  -- `index` where the token ends.
  unfoldable pub class_token : Bool → ℕ → ℕ → ℕ → ClassToken → ClassState → Result ClassState
  unfolding insert_pending insert_class_range
  class_token folds id start index (literal_token u position) c = elim c.range_start [
    | some (low, low_position) ↦
        let (members, fits) = insert_class_range folds c.members low u in
        if fits
        then ok (record c { members = members; range_start = none })
        else invalid id low_position index
    | none ↦ ok (record c {
      members = insert_pending folds c.pending c.members;
      pending = some (u, position);
    })
  ]
  class_token folds id start index (predicate_token p) c = elim c.range_start [
    | some r ↦ invalid id start index
    | none ↦
        ok (record c {
          members = union (insert_pending folds c.pending c.members) p;
          pending = none;
        })
  ]
  class_token folds id start index (range_marker position) c = elim c.pending [
    | none ↦ invalid id position index
    | some r ↦ ok (record c { pending = none; range_start = some r })
  ]

unfoldable pub escaped_token : ℕ → ℕ → ℕ → ℕ → Result ClassToken
escaped_token id start index u =
    if u == 0x5c || u == 0x5d || u == 0x5b || u == 0x2d || u == 0x5e
    then ok (literal_token u start)
    else if u == b'n'
    then ok (literal_token 10 start)
    else if u == b't'
    then ok (literal_token 9 start)
    else if u == b'r'
    then ok (literal_token 13 start)
    else if u == b'f'
    then ok (literal_token 0x0c start)
    else if u == 0x64 || u == 0x77 || u == 0x73
    then ok (predicate_token (shorthand u))
    else invalid id start index

module _ (id : ℕ) (units : List ℕ) where
  -- The token at the index, whose unit is given, and the index after it.
  unfoldable pub parse_class_token : ℕ → ℕ → Result (ClassToken × ℕ)
  unfolding escaped_token
  parse_class_token start u =
      if u == b'-'
      then ok (range_marker start, start + 1)
      else if not (u == 0x5c)
      then ok (literal_token u start, start + 1)
      else elim (get_elem? units (start + 1)) [
        | none ↦ invalid id start (start + 1)
        | some escaped ↦ do
          token ← escaped_token id start (start + 2) escaped
          ok (token, start + 2)
      ]

  module _ (lower_upper : ℕ → ℕ × ℕ) where
    unfoldable pub close_class : Bool → Bool → ℕ → ℕ → ClassState → Result (SymbolPredicate × ℕ)
    unfolding insert_pending
    close_class folds inverted start index c = elim c.range_start [
      | some r ↦ invalid id start (index + 1)
      | none ↦
          let members = insert_pending lower_upper folds c.pending c.members in
          ok (if inverted then complement members else members, index + 1)
    ]

    -- The loop over the tokens, on fuel.
    unfoldable pub class_loop : ℕ → Bool → Bool → ℕ → ℕ → ClassState → Result (SymbolPredicate × ℕ)
    unfolding parse_class_token class_token close_class
    class_loop zero folds inverted start index c = out_of_fuel
    class_loop (suc f) folds inverted start index c = elim (get_elem? units index) [
      | none ↦ invalid id start index
      | some u ↦ elim (u == 0x5d) [
        | true ↦ close_class folds inverted start index c
        | false ↦ do
          (token, next) ← parse_class_token index u
          c' ← class_token lower_upper folds id start next token c
          class_loop f folds inverted start next c'
      ]
    ]

    unfoldable pub parse_character_class : Parser → Result (Hir × Parser)
    unfolding class_loop
    parse_character_class p = do
      let inverted = is_unit units (p.index + 1) b'^'
      let first = if inverted then p.index + 2 else p.index + 1
      let blank : ClassState = record { members = empty; pending = none; range_start = none }
      (members, index) ←
          class_loop (suc (length units)) p.case_insensitive inverted p.index first blank
      ok (predicate members, record p { index = index })
