-- ===== src/Parser.antt =====
-- rustmatch/src/parser.rs: the parser of the documented UTF-16 syntax. The pattern's identifier,
-- its units and the case mapping (rustmatch/src/case_fold.rs, a table of Java's) are parameters.
pub mod Class
pub mod Count
pub mod Digits
pub mod Braces
pub mod Bounds
pub mod Outcome
pub mod Counts
pub mod Classes
pub mod Atoms
pub mod Totals
use rustmatch.Prelude.{
  ℕ, zero, suc, ◌+◌, ◌*◌, ◌≡◌, Bool, true, false, not, ◌&&◌, ◌||◌, Option, none, some, List, [],
  ◌∷◌, ltb, leb, ◌==◌, if◌then◌else◌, get_elem?, length, min,
}
use rustmatch.Error.{
  Error, Result, ok, err, out_of_fuel, ◌>>=◌, empty_pattern, pattern_nesting_too_deep,
}
use rustmatch.Predicate.{SymbolPredicate, any}
use rustmatch.Hir.{
  Assertion, line_start, line_end, word_boundary, non_word_boundary, Hir, Hirs, never, epsilon,
  assertion, symbol, predicate, nil, cons, sequence_of, alternation_of, repeat_of, HirPattern,
  hir_pattern, can_consume,
}
use Class.{
  Parser, invalid, current, current_is, is_unit, move_by, literal, shorthand, is_shorthand,
  parse_character_class,
}
use Count.{parse_counted_repetition}

abbrev pub max_group_nesting : ℕ
max_group_nesting = 256

unfoldable pub is_repetition_operator : ℕ → Bool
is_repetition_operator u = u == 0x3f || u == 0x2a || u == 0x2b || u == 0x7b

unfoldable pub is_escaped_literal : ℕ → Bool
is_escaped_literal u =
    u == 0x5c
    || u == 0x2e
    || u == 0x2a
    || u == 0x2b
    || u == 0x3f
    || u == 0x5b
    || u == 0x5d
    || u == 0x28
    || u == 0x29
    || u == 0x7c
    || u == 0x5e
    || u == 0x24
    || u == 0x2d
    || u == 0x7b
    || u == 0x7d

-- The loop of `consume_flag_prefix`: past the flags, whether there was one, whether one was `i`.
flag_letters : List ℕ → ℕ → Bool → Bool → ℕ × Bool × Bool
flag_letters [] cursor saw_flag saw_i = (cursor, saw_flag, saw_i)
flag_letters (u ∷ us) cursor saw_flag saw_i = elim (u == b'i') [
  | true ↦ flag_letters us (cursor + 1) true true
  | false ↦ elim (u == b's') [
    | true ↦ flag_letters us (cursor + 1) true saw_i
    | false ↦ (cursor, saw_flag, saw_i)
  ]
]

flag_prefix : List ℕ → ℕ × Bool × Bool
unfolding flag_letters
flag_prefix (a ∷ c ∷ us) =
    if a == b'(' && c == b'?' then flag_letters us 2 false false else (0, false, false)
flag_prefix us = (0, false, false)

is_zero : Option ℕ → Bool
is_zero none = false
is_zero (some n) = n == 0

abbrev pub Alternation : Type 0
Alternation = Bool → Parser → Result (Hir × Parser)

module _ (id : ℕ) (units : List ℕ) (lower_upper : ℕ → ℕ × ℕ) where
  unfoldable pub consume_flag_prefix : Parser → Parser
  unfolding flag_prefix
  consume_flag_prefix p =
      let (cursor, saw_flag, saw_i) = flag_prefix units in
      if saw_flag && is_unit units cursor b')'
      then record p { case_insensitive = p.case_insensitive || saw_i; index = cursor + 1 }
      else p

  abbrev at_unit : Hir → Parser → Result (Hir × Parser)
  at_unit e p = ok (e, move_by p 1)

  escaped_unit : ℕ → Parser → ℕ → Result (Hir × Parser)
  unfolding is_escaped_literal is_shorthand
  escaped_unit start p u =
      if is_escaped_literal u
      then ok (literal lower_upper p u, p)
      else if u == b'n'
      then ok (symbol 10, p)
      else if u == b't'
      then ok (symbol 9, p)
      else if u == b'r'
      then ok (symbol 13, p)
      else if u == b'f'
      then ok (symbol 0x0c, p)
      else if is_shorthand u
      then ok (predicate (shorthand u), p)
      else if u == 0x62
      then ok (assertion word_boundary, p)
      else if u == 0x42
      then ok (assertion non_word_boundary, p)
      else invalid id start p.index

  unfoldable pub parse_escape : Parser → Result (Hir × Parser)
  unfolding escaped_unit
  parse_escape p = elim (get_elem? units (p.index + 1)) [
    | none ↦ invalid id p.index (p.index + 1)
    | some u ↦ escaped_unit p.index (move_by p 2) u
  ]

  -- Past `(`, and past `?:`.
  group_opening : Parser → Result Parser
  group_opening p =
      if is_unit units (p.index + 1) b'?'
      then (if is_unit units (p.index + 2) b':'
          then ok (move_by p 3)
          else invalid id p.index (min (p.index + 2) (length units)))
      else ok (move_by p 1)

  -- What follows the expression in a group that began at `start`.
  close_group : ℕ → ℕ → Hir × Parser → Result (Hir × Parser)
  close_group start depth (e, inner) =
      if current_is units inner b')'
      then at_unit e (record inner { group_depth = depth })
      else invalid id start (length units)

  -- `parse_group`, over the parser of what stands in the group.
  unfoldable pub parse_group : Alternation → Parser → Result (Hir × Parser)
  unfolding group_opening close_group
  parse_group alternation p = do
    opened ← group_opening p
    (if current_is units opened b')'
        then at_unit never opened
        else if opened.group_depth == max_group_nesting
        then err (pattern_nesting_too_deep id max_group_nesting)
        else (alternation true (record opened { group_depth = opened.group_depth + 1 })
            >>= close_group p.index opened.group_depth))

  unfoldable pub parse_atom : Alternation → ℕ → Parser → Result (Hir × Parser)
  unfolding parse_escape parse_group is_repetition_operator
  parse_atom alternation u p =
      if u == b'.'
      then at_unit (predicate any) p
      else if u == 0x5c
      then parse_escape p
      else if u == b'['
      then parse_character_class id units lower_upper p
      else if u == b'('
      then parse_group alternation p
      else if u == b'^'
      then at_unit (assertion line_start) p
      else if u == b'$'
      then at_unit (assertion line_end) p
      else if is_repetition_operator u
      then invalid id p.index (p.index + 1)
      else at_unit (literal lower_upper p u) p

  -- A second operator after a repetition is refused.
  one_operator : ℕ → Hir × Parser → Result (Hir × Parser)
  unfolding is_repetition_operator
  one_operator start (e, p) = elim (get_elem? units p.index) [
    | none ↦ ok (e, p)
    | some u ↦ if is_repetition_operator u then invalid id start (p.index + 1) else ok (e, p)
  ]

  unfoldable pub parse_repetition : Hir → Parser → Result (Hir × Parser)
  unfolding one_operator
  parse_repetition e p =
      if current_is units p b'?'
      then one_operator p.index (repeat_of e 0 (some 1), move_by p 1)
      else if current_is units p b'*'
      then one_operator p.index (repeat_of e 0 none, move_by p 1)
      else if current_is units p b'+'
      then one_operator p.index (repeat_of e 1 none, move_by p 1)
      else if current_is units p 0x7b
      then parse_counted_repetition id units e p >>= one_operator p.index
      else ok (e, p)

  ends_sequence : Bool → ℕ → Bool
  ends_sequence in_group u = u == 0x7c || in_group && u == b')'

  -- Recursion is on fuel. Each round of a loop, and each group, takes at least one unit.
  unfoldable mutual
    unfolding parse_atom parse_repetition ends_sequence

    -- The loop of `parse_sequence`.
    pub sequence_items : ℕ → Bool → Parser → Result (Hirs × Parser)
    sequence_items zero in_group p = out_of_fuel
    sequence_items (suc f) in_group p = elim (get_elem? units p.index) [
      | none ↦ ok (nil, p)
      | some u ↦ elim (ends_sequence in_group u) [
        | true ↦ ok (nil, p)
        | false ↦ elim (u == b')') [
          | true ↦ invalid id p.index (p.index + 1)
          | false ↦ do
            (atom, p₁) ← parse_atom (parse_alternation f) u p
            (e, p₂) ← parse_repetition atom p₁
            (es, p₃) ← sequence_items f in_group p₂
            ok (cons e es, p₃)
        ]
      ]
    ]

    -- The loop of `parse_alternation`, after its first branch.
    pub alternatives : ℕ → Bool → Parser → Result (Hirs × Parser)
    alternatives zero in_group p = out_of_fuel
    alternatives (suc f) in_group p = elim (current_is units p 0x7c) [
      | false ↦ ok (nil, p)
      | true ↦
          elim ((p.index + 1) == length units || in_group && is_unit units (p.index + 1) b')') [
            | true ↦ ok (nil, move_by p 1)
            | false ↦ do
              (items, p₁) ← sequence_items f in_group (move_by p 1)
              (es, p₂) ← alternatives f in_group p₁
              ok (cons (sequence_of items) es, p₂)
          ]
    ]

    pub parse_alternation : ℕ → Bool → Parser → Result (Hir × Parser)
    parse_alternation zero in_group p = out_of_fuel
    parse_alternation (suc f) in_group p = do
      (items, p₁) ← sequence_items f in_group p
      (es, p₂) ← alternatives f in_group p₁
      ok (alternation_of (cons (sequence_of items) es), p₂)

  -- The two checks of `parse_with_flags` after the expression.
  finish_pattern : Hir → Result HirPattern
  finish_pattern e =
      let pattern = hir_pattern id e in
      if pattern.nullable && is_zero pattern.minimum_consumed && not (can_consume e)
      then invalid id 0 (length units)
      else ok pattern

  -- `parse_with_flags`, on the pattern's units.
  unfoldable pub parse_with_flags : Bool → Result HirPattern
  unfolding finish_pattern is_zero sequence_items consume_flag_prefix
  parse_with_flags case_insensitive =
      if length units == 0
      then err (empty_pattern id)
      else (let start : Parser = record {
        index = 0;
        case_insensitive = case_insensitive;
        group_depth = 0;
      } in
          do
            (e, p) ← parse_alternation (2 * length units + 2) false (consume_flag_prefix start)
            (if not (p.index == length units)
                then invalid id p.index (p.index + 1)
                else finish_pattern e))
