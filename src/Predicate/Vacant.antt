-- ===== src/Predicate/Vacant.antt =====
-- rustmatch/src/predicate.rs: `is_empty`.
use rustmatch.Prelude.{inl, inr, ℕ, ◌≡◌, refl, Bool, true, false, ◌&&◌, [], ◌∷◌, Bool-cases, ltb}
use rustmatch.Predicate.Word.{Word128, word_and, is_zero, shl, one_word, zip_with}
use rustmatch.Predicate.Ranges.{RangeList, partition_point}
use rustmatch.Predicate.{SymbolPredicate, matches, is_empty, range_holds, is_nil}

zero-and : (w v : Word128) → is_zero w ≡ true → is_zero (word_and w v) ≡ true
unfolding is_zero word_and zip_with
zero-and [] v h = refl
zero-and (b ∷ w) [] h = refl
zero-and (true ∷ w) (c ∷ v) h = cc
zero-and (false ∷ w) (c ∷ v) h = zero-and w v h

nil_of : (rs : RangeList) → is_nil rs ≡ true → rs ≡ []
unfolding is_nil
nil_of [] h = refl
nil_of (r ∷ rs) h = cc

both-true : (a b : Bool) → (a && b) ≡ true → (a ≡ true) × (b ≡ true)
both-true true b h = (refl, h)
both-true false b h = cc

-- A predicate that is empty matches no unit.
pub is_empty-matches : (p : SymbolPredicate) (u : ℕ) → is_empty p ≡ true → matches p u ≡ false
unfolding matches is_empty range_holds partition_point
is_empty-matches p u h =
    let (no_ascii, no_ranges) = both-true (is_zero p.ascii) (is_nil p.non_ascii_ranges) h in
    elim (Bool-cases (ltb u 128)) [
      | inl low ↦ rw (low, zero-and p.ascii (shl one_word u) no_ascii)
      | inr high ↦ rw (high, nil_of p.non_ascii_ranges no_ranges)
    ]
