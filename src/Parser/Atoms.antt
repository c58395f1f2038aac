-- ===== src/Parser/Atoms.antt =====
-- rustmatch/src/parser.rs: atoms and repetitions return or report an error in the pattern.
use rustmatch.Prelude.{
  ℕ, ◌+◌, ◌≤◌, ◌<◌, ◌≡◌, refl, subst, true, List, arith, ◌==◌, length, get_elem?,
  lt-length_of_get_elem?,
}
use rustmatch.Error.{Result, ok}
use rustmatch.Hir.{Hir}
use rustmatch.Parser.Class.{Parser, is_unit, current_is, move_by, is_shorthand}
use rustmatch.Parser.Outcome.{
  Outcome, returns, fails, Outcome-bind, Outcome-if, Outcome-mono, Outcome-option, Moved,
  is_unit-lt,
}
use rustmatch.Parser.Counts.{parse_counted_repetition-Outcome}
use rustmatch.Parser.Classes.{parse_character_class-Outcome}
use rustmatch.Parser.{
  is_escaped_literal, is_repetition_operator, escaped_unit, parse_escape, group_opening,
  close_group, parse_group, parse_atom, one_operator, parse_repetition, Alternation,
}

module _ (id : ℕ) (units : List ℕ) (lower_upper : ℕ → ℕ × ℕ) where
  -- The parser stands where it did or further, in the pattern, at the same depth.
  abbrev pub Stands {ℓ} : {X : Type ℓ} → ℕ → ℕ → X × Parser → Type 0
  Stands from depth r = (from ≤ r.1.index) × (r.1.index ≤ length units) × (r.1.group_depth ≡ depth)

  abbrev Here : ℕ → ℕ → Result (Hir × Parser) → Type 0
  Here from depth = Outcome id (length units) (Moved id (length units) from depth)

  escaped_unit-Outcome :
      (start : ℕ) (p : Parser) (u : ℕ)
      → start < p.index
      → p.index ≤ length units
      → Here start p.group_depth (escaped_unit id units lower_upper start p u)
  unfolding escaped_unit
  escaped_unit-Outcome start p u lt le =
      let done : (e : Hir) → Here start p.group_depth (ok (e, p)) = λ e. returns (lt, le, refl) in
      Outcome-if id (length units) (is_escaped_literal u) (λ _. done _)
        (λ _.
          Outcome-if id (length units) (u == b'n') (λ _. done _)
            (λ _.
              Outcome-if id (length units) (u == b't') (λ _. done _)
                (λ _.
                  Outcome-if id (length units) (u == b'r') (λ _. done _)
                    (λ _.
                      Outcome-if id (length units) (u == b'f') (λ _. done _)
                        (λ _.
                          Outcome-if id (length units) (is_shorthand u) (λ _. done _)
                            (λ _.
                              Outcome-if id (length units) (u == 0x62) (λ _. done _)
                                (λ _.
                                  Outcome-if id (length units) (u == 0x42) (λ _. done _)
                                    (λ _. fails (refl, omega arith, omega arith)))))))))

  parse_escape-Outcome :
      (p : Parser)
      → p.index < length units
      → Here p.index p.group_depth (parse_escape id units lower_upper p)
  unfolding parse_escape
  parse_escape-Outcome p lt =
      Outcome-option id (length units) (get_elem? units (p.index + 1))
        (λ _. fails (refl, omega arith, omega arith))
        (λ u e.
          let within = lt-length_of_get_elem? units (p.index + 1) e in
          escaped_unit-Outcome p.index (move_by p 2) u (omega arith) (omega arith))

  -- What the parser of an alternation in a group has to do.
  abbrev pub IsAlternation : Alternation → ℕ → Type 0
  IsAlternation alternation from =
      (q : Parser)
      → from < q.index
      → q.index ≤ length units
      → Outcome id (length units) (Stands q.index q.group_depth) (alternation true q)

  group_opening-Outcome :
      (p : Parser)
      → p.index < length units
      → Outcome id
          (length units)
          (λ (q : Parser).
            (p.index < q.index) × (q.index ≤ length units) × (q.group_depth ≡ p.group_depth))
          (group_opening id units lower_upper p)
  unfolding group_opening
  group_opening-Outcome p lt =
      Outcome-if id (length units) (is_unit units (p.index + 1) b'?')
        (λ mark.
          let within = is_unit-lt units (p.index + 1) b'?' mark in
          Outcome-if id (length units) (is_unit units (p.index + 2) b':')
            (λ colon.
              let within' = is_unit-lt units (p.index + 2) b':' colon in
              returns (omega arith, omega arith, refl))
            (λ _. fails (refl, omega arith, omega arith)))
        (λ _. returns (omega arith, omega arith, refl))

  close_group-Outcome :
      (start depth : ℕ) (r : Hir × Parser)
      → start < r.1.index
      → r.1.index ≤ length units
      → Here start depth (close_group id units lower_upper start depth r)
  unfolding close_group
  close_group-Outcome start depth (e, inner) lt le =
      Outcome-if id (length units) (current_is units inner b')')
        (λ close.
          let within = is_unit-lt units inner.index b')' close in
          returns (omega arith, omega arith, refl))
        (λ _. fails (refl, omega arith, omega arith))

  parse_group-Outcome :
      (alternation : Alternation) (p : Parser)
      → p.index < length units
      → IsAlternation alternation p.index
      → Here p.index p.group_depth (parse_group id units lower_upper alternation p)
  unfolding parse_group
  parse_group-Outcome alternation p lt inside =
      Outcome-bind id (length units) (group_opening-Outcome p lt) (λ opened at.
        Outcome-if id (length units) (current_is units opened b')')
          (λ close.
            let within = is_unit-lt units opened.index b')' close in
            returns (omega arith, omega arith, at.2))
          (λ _.
            Outcome-if id (length units) (opened.group_depth == 256) (λ _. fails (refl, refl))
              (λ _.
                Outcome-bind id (length units)
                  (inside (record opened { group_depth = opened.group_depth + 1 }) at.0 at.1)
                  (λ r stands.
                    subst
                      (λ d.
                        Here p.index d
                          (close_group id units lower_upper p.index opened.group_depth r))
                      at.2
                      (close_group-Outcome p.index opened.group_depth r (omega arith) stands.1)))))

  pub parse_atom-Outcome :
      (alternation : Alternation) (u : ℕ) (p : Parser)
      → p.index < length units
      → IsAlternation alternation p.index
      → Here p.index p.group_depth (parse_atom id units lower_upper alternation u p)
  unfolding parse_atom
  parse_atom-Outcome alternation u p lt inside =
      let done : (e : Hir) → Here p.index p.group_depth (ok (e, move_by p 1)) =
        λ e. returns (omega arith, omega arith, refl) in
      Outcome-if id (length units) (u == b'.') (λ _. done _)
        (λ _.
          Outcome-if id (length units) (u == 0x5c) (λ _. parse_escape-Outcome p lt)
            (λ _.
              Outcome-if id (length units) (u == b'[')
                (λ _. parse_character_class-Outcome id units lower_upper p lt)
                (λ _.
                  Outcome-if id (length units) (u == b'(')
                    (λ _. parse_group-Outcome alternation p lt inside)
                    (λ _.
                      Outcome-if id (length units) (u == b'^') (λ _. done _)
                        (λ _.
                          Outcome-if id (length units) (u == b'$') (λ _. done _)
                            (λ _.
                              Outcome-if id (length units) (is_repetition_operator u)
                                (λ _. fails (refl, omega arith, omega arith)) (λ _. done _)))))))

  one_operator-Outcome :
      (start from depth : ℕ) (r : Hir × Parser)
      → start ≤ from
      → Moved id (length units) from depth r
      → Here from depth (one_operator id units lower_upper start r)
  unfolding one_operator
  one_operator-Outcome start from depth (e, p) le moved =
      Outcome-option id (length units) (get_elem? units p.index) (λ _. returns moved)
        (λ u at.
          let within = lt-length_of_get_elem? units p.index at in
          Outcome-if id (length units) (is_repetition_operator u)
            (λ _. fails (refl, omega arith, omega arith)) (λ _. returns moved))

  pub parse_repetition-Outcome :
      (e : Hir) (p : Parser)
      → p.index ≤ length units
      → Outcome id
          (length units)
          (Stands p.index p.group_depth)
          (parse_repetition id units lower_upper e p)
  unfolding parse_repetition
  parse_repetition-Outcome e p le =
      let past : (f : Hir)
          → p.index < length units
          → Outcome id (length units) (Stands p.index p.group_depth)
              (one_operator id units lower_upper p.index (f, move_by p 1)) =
        λ f lt.
          Outcome-mono id (length units)
            (one_operator-Outcome p.index p.index p.group_depth (f, move_by p 1) (omega arith)
              (omega arith, omega arith, refl))
            (λ r m. (omega arith, m.1, m.2)) in
      Outcome-if id (length units) (current_is units p b'?')
        (λ mark. past _ (is_unit-lt units p.index b'?' mark))
        (λ _.
          Outcome-if id (length units) (current_is units p b'*')
            (λ mark. past _ (is_unit-lt units p.index b'*' mark))
            (λ _.
              Outcome-if id (length units) (current_is units p b'+')
                (λ mark. past _ (is_unit-lt units p.index b'+' mark))
                (λ _.
                  Outcome-if id (length units) (current_is units p 0x7b)
                    (λ brace.
                      Outcome-bind id (length units)
                        (parse_counted_repetition-Outcome id units e p
                          (is_unit-lt units p.index 0x7b brace))
                        (λ r moved.
                          Outcome-mono id (length units)
                            (one_operator-Outcome p.index p.index p.group_depth r (omega arith)
                              moved)
                            (λ r m. (omega arith, m.1, m.2))))
                    (λ _. returns (omega arith, le, refl)))))
