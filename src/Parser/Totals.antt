-- ===== src/Parser/Totals.antt =====
-- rustmatch/src/parser.rs: the parser ends on every pattern, with an expression or with an error that
-- names a part of the pattern.
use rustmatch.Prelude.{
  ℕ, zero, suc, ◌+◌, ◌*◌, ◌≤◌, ◌<◌, ◌≡◌, refl, ◌∙◌, Bool, true, false, not, ◌&&◌, ◌||◌, List, arith,
  ◌==◌, length, get_elem?, lt-length_of_get_elem?,
}
use rustmatch.Hir.{Hir, hir_pattern, can_consume}
use rustmatch.Parser.Class.{Parser, is_unit, current_is, move_by}
use rustmatch.Parser.Outcome.{
  Outcome, returns, fails, Outcome-bind, Outcome-if, Outcome-mono, Outcome-elim, Outcome-option,
  is_unit-lt,
}
use rustmatch.Parser.Atoms.{Stands, parse_atom-Outcome, parse_repetition-Outcome}
use rustmatch.Parser.{
  ends_sequence, sequence_items, alternatives, parse_alternation, consume_flag_prefix, flag_prefix,
  finish_pattern, is_zero, parse_with_flags,
}

module _ (id : ℕ) (units : List ℕ) (lower_upper : ℕ → ℕ × ℕ) where
  -- The units left, twice and `extra` more, are at most the fuel.
  abbrev Enough : ℕ → ℕ → Parser → Type 0
  Enough extra fuel p = 2 * length units + extra ≤ fuel + 2 * p.index

  mutual
    unfolding sequence_items

    sequence_items-Outcome :
        (f : ℕ) (in_group : Bool) (p : Parser)
        → p.index ≤ length units
        → Enough 1 f p
        → Outcome id
            (length units)
            (Stands id units lower_upper p.index p.group_depth)
            (sequence_items id units lower_upper f in_group p)
    sequence_items-Outcome zero in_group p le fuel = absurd (omega arith)
    sequence_items-Outcome (suc f) in_group p le fuel =
        Outcome-option id (length units) (get_elem? units p.index)
          (λ _. returns (omega arith, le, refl))
          (λ u at.
            let lt = lt-length_of_get_elem? units p.index at in
            Outcome-elim id (length units) (ends_sequence id units lower_upper in_group u)
              (λ _. returns (omega arith, le, refl))
              (λ _.
                Outcome-elim id (length units) (u == b')')
                  (λ _. fails (refl, omega arith, omega arith))
                  (λ _.
                    Outcome-bind id (length units)
                      (parse_atom-Outcome id units lower_upper
                        (parse_alternation id units lower_upper f) u p lt
                        (λ q from within. parse_alternation-Outcome f true q within (omega arith)))
                      (λ r₁ moved.
                        Outcome-bind id (length units)
                          (parse_repetition-Outcome id units lower_upper r₁.0 r₁.1 moved.1)
                          (λ r₂ stands.
                            Outcome-bind id (length units)
                              (sequence_items-Outcome f in_group r₂.1 stands.1 (omega arith))
                              (λ r₃ rest.
                                returns (omega arith, rest.1, rest.2 ∙ stands.2 ∙ moved.2)))))))

    alternatives-Outcome :
        (f : ℕ) (in_group : Bool) (p : Parser)
        → p.index ≤ length units
        → Enough 1 f p
        → Outcome id
            (length units)
            (Stands id units lower_upper p.index p.group_depth)
            (alternatives id units lower_upper f in_group p)
    alternatives-Outcome zero in_group p le fuel = absurd (omega arith)
    alternatives-Outcome (suc f) in_group p le fuel =
        Outcome-elim id (length units) (current_is units p 0x7c)
          (λ bar.
            let lt = is_unit-lt units p.index 0x7c bar in
            Outcome-elim id (length units)
              ((p.index + 1) == length units || in_group && is_unit units (p.index + 1) b')')
              (λ _. returns (omega arith, omega arith, refl))
              (λ _.
                Outcome-bind id (length units)
                  (sequence_items-Outcome f in_group (move_by p 1) (omega arith) (omega arith))
                  (λ r₁ first.
                    Outcome-bind id (length units)
                      (alternatives-Outcome f in_group r₁.1 first.1 (omega arith))
                      (λ r₂ rest. returns (omega arith, rest.1, rest.2 ∙ first.2)))))
          (λ _. returns (omega arith, le, refl))

    parse_alternation-Outcome :
        (f : ℕ) (in_group : Bool) (p : Parser)
        → p.index ≤ length units
        → Enough 2 f p
        → Outcome id
            (length units)
            (Stands id units lower_upper p.index p.group_depth)
            (parse_alternation id units lower_upper f in_group p)
    parse_alternation-Outcome zero in_group p le fuel = absurd (omega arith)
    parse_alternation-Outcome (suc f) in_group p le fuel =
        Outcome-bind id (length units) (sequence_items-Outcome f in_group p le (omega arith))
          (λ r₁ first.
            Outcome-bind id (length units)
              (alternatives-Outcome f in_group r₁.1 first.1 (omega arith))
              (λ r₂ rest. returns (omega arith, rest.1, rest.2 ∙ first.2)))

  consume_flag_prefix-le :
      (p : Parser)
      → p.index ≤ length units
      → (consume_flag_prefix id units lower_upper p).index ≤ length units
  unfolding consume_flag_prefix
  consume_flag_prefix-le p le =
      let (cursor, saw_flag, saw_i) = flag_prefix units in
      ground (arith, is_unit-lt units cursor b')')

  finish_pattern-Outcome :
      (e : Hir)
      → 0 < length units
      → Outcome id
          (length units)
          (λ pattern. pattern ≡ hir_pattern id e)
          (finish_pattern id units lower_upper e)
  unfolding finish_pattern
  finish_pattern-Outcome e lt =
      let pattern = hir_pattern id e in
      Outcome-if id (length units)
        (pattern.nullable && is_zero pattern.minimum_consumed && not (can_consume e))
        (λ _. fails (refl, omega arith, omega arith)) (λ _. returns refl)

  -- On every pattern the parser returns the metadata of an expression, or an error: that the pattern
  -- is empty, that groups nest deeper than 256, or that a non-empty part of the pattern is malformed.
  -- It never runs out of fuel.
  pub parse_with_flags-Outcome :
      (case_insensitive : Bool)
      → Outcome id
          (length units)
          (λ pattern. (e : Hir) × (pattern ≡ hir_pattern id e))
          (parse_with_flags id units lower_upper case_insensitive)
  unfolding parse_with_flags
  parse_with_flags-Outcome case_insensitive =
      let start : Parser = record {
        index = 0;
        case_insensitive = case_insensitive;
        group_depth = 0;
      } in
      let begin = consume_flag_prefix id units lower_upper start in
      let within = consume_flag_prefix-le start (omega arith) in
      Outcome-if id (length units) (length units == 0) (λ empty. fails (refl, ground arith))
        (λ some_unit.
          Outcome-bind id (length units)
            (parse_alternation-Outcome (2 * length units + 2) false begin within (omega arith))
            (λ r stands.
              Outcome-if id (length units) (not (r.1.index == length units))
                (λ bad. fails (refl, omega arith, ground arith))
                (λ _.
                  Outcome-mono id (length units) (finish_pattern-Outcome r.0 (ground arith))
                    (λ pattern e. (r.0, e)))))
