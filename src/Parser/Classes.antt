-- ===== src/Parser/Classes.antt =====
-- rustmatch/src/parser.rs: `parse_character_class` returns or reports an error in the pattern.
use rustmatch.Prelude.{
  ℕ, zero, suc, ◌+◌, ◌≤◌, ◌<◌, ◌≡◌, refl, sym, subst, Bool, not, ◌||◌, Option, none, some, List,
  arith, ◌==◌, if◌then◌else◌, length, get_elem?, lt-length_of_get_elem?,
}
use rustmatch.Predicate.{SymbolPredicate, empty}
use rustmatch.Parser.Class.{
  Parser, is_unit, ClassToken, literal_token, predicate_token, range_marker, ClassState,
  class_token, escaped_token, parse_class_token, close_class, class_loop, parse_character_class,
  insert_class_range,
}
use rustmatch.Parser.Outcome.{
  Outcome, returns, fails, Outcome-bind, Outcome-if, Outcome-elim, Outcome-option, Moved,
  is_unit-lt,
}

-- The token was read at the position.
abbrev At : ℕ → ClassToken → Type 0
At i (literal_token u position) = position ≡ i
At i (predicate_token p) = Unit
At i (range_marker position) = position ≡ i

-- What is kept for later was read before the position.
abbrev Before : ℕ → Option (ℕ × ℕ) → Type 0
Before i none = Unit
Before i (some (u, position)) = position < i

abbrev Kept : ℕ → ClassState → Type 0
Kept i c = Before i c.pending × Before i c.range_start

Before-mono : (i j : ℕ) (o : Option (ℕ × ℕ)) → i ≤ j → Before i o → Before j o
Before-mono i j none le h = tt
Before-mono i j (some (u, position)) le h = omega arith

module _ (id : ℕ) (units : List ℕ) where
  escaped_token-Outcome :
      (start u : ℕ)
      → start + 2 ≤ length units
      → Outcome id (length units) (At start) (escaped_token id start (start + 2) u)
  unfolding escaped_token
  escaped_token-Outcome start u le =
      Outcome-if id (length units) (u == 0x5c || u == 0x5d || u == 0x5b || u == 0x2d || u == 0x5e)
        (λ _. returns refl)
        (λ _.
          Outcome-if id (length units) (u == b'n') (λ _. returns refl)
            (λ _.
              Outcome-if id (length units) (u == b't') (λ _. returns refl)
                (λ _.
                  Outcome-if id (length units) (u == b'r') (λ _. returns refl)
                    (λ _.
                      Outcome-if id (length units) (u == b'f') (λ _. returns refl)
                        (λ _.
                          Outcome-if id (length units) (u == 0x64 || u == 0x77 || u == 0x73)
                            (λ _. returns tt) (λ _. fails (refl, omega arith, omega arith)))))))

  parse_class_token-Outcome :
      (start u : ℕ)
      → start < length units
      → Outcome id
          (length units)
          (λ (r : ClassToken × ℕ). (start < r.1) × (r.1 ≤ length units) × At start r.0)
          (parse_class_token id units start u)
  unfolding parse_class_token
  parse_class_token-Outcome start u lt =
      Outcome-if id (length units) (u == b'-') (λ _. returns (omega arith, omega arith, refl))
        (λ _.
          Outcome-if id (length units) (not (u == 0x5c))
            (λ _. returns (omega arith, omega arith, refl))
            (λ _.
              Outcome-option id (length units) (get_elem? units (start + 1))
                (λ e. fails (refl, omega arith, omega arith))
                (λ v e.
                  let within = lt-length_of_get_elem? units (start + 1) e in
                  Outcome-bind id (length units) (escaped_token-Outcome start v (omega arith))
                    (λ token at. returns (omega arith, omega arith, at)))))

  module _ (lower_upper : ℕ → ℕ × ℕ) where
    class_token-Outcome :
        (folds : Bool) (start i next : ℕ) (token : ClassToken) (c : ClassState)
        → start < i
        → i < next
        → next ≤ length units
        → At i token
        → Kept i c
        → Outcome id
            (length units)
            (Kept next)
            (class_token lower_upper folds id start next token c)
    unfolding class_token
    class_token-Outcome folds start i next (literal_token u position) c lt lt' le at kept =
        let later = Before-mono i next c.pending (omega arith) kept.0 in
        Outcome-option id (length units) c.range_start
          (λ e. returns (omega arith, subst (Before next) (sym e) tt))
          (λ v e.
            let low_at : v.1 < i = subst (Before i) e kept.1 in
            Outcome-if id (length units) (insert_class_range lower_upper folds c.members v.0 u).1
              (λ _. returns (later, tt)) (λ _. fails (refl, omega arith, omega arith)))
    class_token-Outcome folds start i next (predicate_token q) c lt lt' le at kept =
        Outcome-option id (length units) c.range_start
          (λ e. returns (tt, subst (Before next) (sym e) tt))
          (λ v e. fails (refl, omega arith, omega arith))
    class_token-Outcome folds start i next (range_marker position) c lt lt' le at kept =
        Outcome-option id (length units) c.pending (λ e. fails (refl, omega arith, omega arith))
          (λ v e. let low_at : v.1 < i = subst (Before i) e kept.0 in returns (tt, omega arith))

    class_loop-Outcome :
        (fuel : ℕ) (folds inverted : Bool) (start index : ℕ) (c : ClassState)
        → start < index
        → index ≤ length units
        → length units < fuel + index
        → Kept index c
        → Outcome id
            (length units)
            (λ (r : SymbolPredicate × ℕ). (start < r.1) × (r.1 ≤ length units))
            (class_loop id units lower_upper fuel folds inverted start index c)
    unfolding class_loop close_class
    class_loop-Outcome zero folds inverted start index c lt le fuel kept = absurd (omega arith)
    class_loop-Outcome (suc f) folds inverted start index c lt le fuel kept =
        Outcome-option id (length units) (get_elem? units index)
          (λ e. fails (refl, omega arith, omega arith))
          (λ u e.
            let within = lt-length_of_get_elem? units index e in
            Outcome-elim id (length units) (u == 0x5d)
              (λ _.
                Outcome-option id (length units) c.range_start
                  (λ _. returns (omega arith, omega arith))
                  (λ v _. fails (refl, omega arith, omega arith)))
              (λ _.
                Outcome-bind id (length units) (parse_class_token-Outcome index u within) (λ r read.
                  Outcome-bind id (length units)
                    (class_token-Outcome folds start index r.1 r.0 c lt read.0 read.1 read.2 kept)
                    (λ c' kept'.
                      class_loop-Outcome f folds inverted start r.1 c' (omega arith) read.1
                        (omega arith) kept'))))

    pub parse_character_class-Outcome :
        (p : Parser)
        → p.index < length units
        → Outcome id
            (length units)
            (Moved id (length units) p.index p.group_depth)
            (parse_character_class id units lower_upper p)
    unfolding parse_character_class
    parse_character_class-Outcome p lt =
        let first = if is_unit units (p.index + 1) b'^' then p.index + 2 else p.index + 1 in
        let range : (p.index < first) × (first ≤ length units) =
          ground (arith, is_unit-lt units (p.index + 1) b'^') in
        Outcome-bind id (length units)
          (class_loop-Outcome (suc (length units)) p.case_insensitive
            (is_unit units (p.index + 1) b'^') p.index first
            (record { members = empty; pending = none; range_start = none }) range.0 range.1
            (omega arith) (tt, tt))
          (λ r within. returns (within.0, within.1, refl))
