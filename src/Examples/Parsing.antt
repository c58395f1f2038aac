-- ===== src/Examples/Parsing.antt =====
-- A small pattern for the theorem about `parse_with_flags` of rustmatch/src/parser.rs.
use rustmatch.Prelude.{◌≡◌, false, [], ◌∷◌}
use rustmatch.Context.{Units}
use rustmatch.Hir.{Hir, hir_pattern}
use rustmatch.Parser.{parse_with_flags}
use rustmatch.Parser.Outcome.{Outcome}
use rustmatch.Parser.Totals.{parse_with_flags-Outcome}

-- `(a[`, which is malformed.
abbrev broken : Units
broken = 40 ∷ 97 ∷ 91 ∷ []

parse_with_flags-Outcome_example :
    Outcome 7 3
      (λ pattern. (e : Hir) × (pattern ≡ hir_pattern 7 e))
      (parse_with_flags 7 broken (λ unit. (unit, unit)) false)
parse_with_flags-Outcome_example = parse_with_flags-Outcome 7 broken (λ unit. (unit, unit)) false
