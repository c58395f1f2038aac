-- ===== src/Examples/Symbols.antt =====
-- Small inputs for the theorems about `union`, `complement` and `insert_range` of
-- rustmatch/src/predicate.rs.
use rustmatch.Prelude.{ℕ, ◌≤◌, ◌≡◌, refl, not, ◌&&◌, ◌||◌, [], ◌∷◌, leb, arith}
use rustmatch.Predicate.Word.{zero_word}
use rustmatch.Predicate.{SymbolPredicate, empty, matches, union, complement, insert_range}
use rustmatch.Predicate.Membership.{IsNormal, union-matches, complement-matches}
use rustmatch.Predicate.Inserted.{insert_range-matches}

abbrev two_ranges : SymbolPredicate
two_ranges = record { ascii = zero_word; non_ascii_ranges = (200, 300) ∷ (400, 65535) ∷ [] }

two_ranges-IsNormal : IsNormal two_ranges
unfolding zero_word
two_ranges-IsNormal = record {
  wide = refl;
  ordered = (omega arith, omega arith, omega arith, (omega arith, omega arith, omega arith, tt));
}

empty-IsNormal : IsNormal empty
unfolding zero_word
empty-IsNormal = record { wide = refl; ordered = tt }

union-matches_example :
    IsNormal (union two_ranges empty)
    × ((u : ℕ) → matches (union two_ranges empty) u ≡ matches two_ranges u || matches empty u)
union-matches_example = union-matches two_ranges empty two_ranges-IsNormal empty-IsNormal

complement-matches_example :
    IsNormal (complement two_ranges)
    × ((u : ℕ) → u ≤ 65535 → matches (complement two_ranges) u ≡ not (matches two_ranges u))
complement-matches_example = complement-matches two_ranges two_ranges-IsNormal

insert_range-matches_example :
    let r = insert_range two_ranges 100 250 in
    IsNormal r.0
    × (r.1 ≡ leb 100 250)
    × ((u : ℕ) → matches r.0 u ≡ matches two_ranges u || (leb 100 u && leb u 250))
insert_range-matches_example =
    insert_range-matches two_ranges 100 250 two_ranges-IsNormal (omega arith)
