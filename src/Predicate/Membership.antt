-- ===== src/Predicate/Membership.antt =====
-- rustmatch/src/predicate.rs: `union`, `complement` and `insert_range` as operations on sets of units.
use rustmatch.Prelude.{
  ℕ, zero, suc, ◌<◌, ◌≤◌, ◌≡◌, refl, sym, ap, ap₂, ◌∙◌, inl, inr, Bool, true, false, not, ◌||◌, [],
  ◌∷◌, ◌++◌, ltb, leb, if◌then◌else◌, arith, Bool-cases, get_or, replicate, length,
}
use rustmatch.Predicate.Word.{
  Word128, zip_with, word_and, word_or, word_not, shl, fill, one_word, is_zero,
}
use rustmatch.Predicate.Ranges.{u16_max}
use rustmatch.Predicate.{SymbolPredicate, matches, union, complement}
use rustmatch.Predicate.Ordered.{
  any_holds, IsOrdered, IsOrdered-AreRanges, search-any_holds, gaps-any_holds, gaps-IsOrdered,
  normalize_ranges-any_holds, normalize_ranges-IsOrdered, AreRanges-append, any_holds-append,
}

-- A predicate of the program: a word of 128 bits, and ordered ranges above ASCII.
pub record IsNormal (p : SymbolPredicate) : Type 0 where
  pub wide : length p.ascii ≡ 128
  pub ordered : IsOrdered 128 p.non_ascii_ranges

no_bits-is_zero : (w v : Word128) (n : ℕ) → is_zero (word_and w (fill v (replicate n false))) ≡ true
unfolding is_zero word_and zip_with fill
no_bits-is_zero [] v n = refl
no_bits-is_zero (b ∷ w) [] n = refl
no_bits-is_zero (b ∷ w) (x ∷ v) zero = let rest = no_bits-is_zero w v zero in ground arith
no_bits-is_zero (b ∷ w) (x ∷ v) (suc n) = let rest = no_bits-is_zero w v n in ground arith

one_bit-test :
    (w v : Word128) (k n : ℕ)
    → length w ≡ length v
    → k < length v
    → not (is_zero (word_and w (fill v (replicate k false ++ true ∷ replicate n false))))
      ≡ get_or w k false
unfolding is_zero word_and zip_with fill
one_bit-test [] v k n same lt = refl
one_bit-test (b ∷ w) [] k n same lt = absurd (omega arith)
one_bit-test (b ∷ w) (x ∷ v) zero n same lt = let rest = no_bits-is_zero w v n in ground arith
one_bit-test (b ∷ w) (x ∷ v) (suc k) n same lt =
    let rest = one_bit-test w v k n (omega arith) (omega arith) in ground arith

pub get_or-word_or :
    (a b : Word128) (k : ℕ)
    → length a ≡ length b
    → get_or (word_or a b) k false ≡ get_or a k false || get_or b k false
unfolding word_or zip_with
get_or-word_or [] [] k same = refl
get_or-word_or [] (y ∷ b) k same = absurd (omega arith)
get_or-word_or (x ∷ a) [] k same = absurd (omega arith)
get_or-word_or (x ∷ a) (y ∷ b) zero same = refl
get_or-word_or (x ∷ a) (y ∷ b) (suc k) same = get_or-word_or a b k (omega arith)

pub length-word_or : (a b : Word128) → length a ≡ length b → length (word_or a b) ≡ length a
unfolding word_or zip_with
length-word_or [] [] same = refl
length-word_or [] (y ∷ b) same = absurd (omega arith)
length-word_or (x ∷ a) [] same = absurd (omega arith)
length-word_or (x ∷ a) (y ∷ b) same = ap suc (length-word_or a b (omega arith))

get_or-word_not :
    (w : Word128) (k : ℕ) → k < length w → get_or (word_not w) k false ≡ not (get_or w k false)
unfolding word_not
get_or-word_not [] k lt = absurd (omega arith)
get_or-word_not (x ∷ w) zero lt = refl
get_or-word_not (x ∷ w) (suc k) lt = get_or-word_not w k (omega arith)

length-word_not : (w : Word128) → length (word_not w) ≡ length w
unfolding word_not
length-word_not [] = refl
length-word_not (x ∷ w) = ap suc (length-word_not w)

-- The units that a predicate matches, with no search and no shift.
unfoldable pub holds : SymbolPredicate → ℕ → Bool
holds p u = if ltb u 128 then get_or p.ascii u false else any_holds p.non_ascii_ranges u

pub matches-holds : (p : SymbolPredicate) (u : ℕ) → IsNormal p → matches p u ≡ holds p u
unfolding matches holds shl one_word
matches-holds p u h = elim (Bool-cases (ltb u 128)) [
  | inl low ↦
      let wide : length p.ascii ≡ length one_word = h.wide in
      rw low (one_bit-test p.ascii one_word u 127 wide (ground arith))
  | inr high ↦ rw high (search-any_holds 128 p.non_ascii_ranges u h.ordered)
]

pub union-IsNormal : (p q : SymbolPredicate) → IsNormal p → IsNormal q → IsNormal (union p q)
unfolding union
union-IsNormal p q h k =
    let hw = h.wide in
    let kw = k.wide in
    record {
      wide = length-word_or p.ascii q.ascii (omega arith) ∙ hw;
      ordered = normalize_ranges-IsOrdered 128 (p.non_ascii_ranges ++ q.non_ascii_ranges) (
          AreRanges-append 128 p.non_ascii_ranges q.non_ascii_ranges
            (IsOrdered-AreRanges 128 128 p.non_ascii_ranges (omega arith) h.ordered)
            (IsOrdered-AreRanges 128 128 q.non_ascii_ranges (omega arith) k.ordered));
    }

pub complement-IsNormal : (p : SymbolPredicate) → IsNormal p → IsNormal (complement p)
unfolding complement
complement-IsNormal p h = record {
  wide = length-word_not p.ascii ∙ h.wide;
  ordered = gaps-IsOrdered 128 128 p.non_ascii_ranges (omega arith) h.ordered;
}

union-holds :
    (p q : SymbolPredicate) (u : ℕ)
    → IsNormal p
    → IsNormal q
    → holds (union p q) u ≡ holds p u || holds q u
unfolding union holds
union-holds p q u h k = elim (Bool-cases (ltb u 128)) [
  | inl low ↦
      let hw = h.wide in let kw = k.wide in rw low (get_or-word_or p.ascii q.ascii u (omega arith))
  | inr high ↦ rw high (
      normalize_ranges-any_holds 128 (p.non_ascii_ranges ++ q.non_ascii_ranges) u (
        AreRanges-append 128 p.non_ascii_ranges q.non_ascii_ranges
          (IsOrdered-AreRanges 128 128 p.non_ascii_ranges (omega arith) h.ordered)
          (IsOrdered-AreRanges 128 128 q.non_ascii_ranges (omega arith) k.ordered))
      ∙ any_holds-append p.non_ascii_ranges q.non_ascii_ranges u)
]

complement-holds :
    (p : SymbolPredicate) (u : ℕ)
    → IsNormal p
    → u ≤ u16_max
    → holds (complement p) u ≡ not (holds p u)
unfolding complement holds
complement-holds p u h le = elim (Bool-cases (ltb u 128)) [
  | inl low ↦ let hw = h.wide in rw low (get_or-word_not p.ascii u (ground arith))
  | inr high ↦
      let gap = gaps-any_holds 128 128 p.non_ascii_ranges u (omega arith) le h.ordered in
      let above : leb 128 u ≡ true = ground arith in rw high (rw above at gap)
]

-- For predicates of 128 bits with ordered ranges above ASCII, which the union is again: the union
-- matches the units that one of the two matches.
pub union-matches :
    (p q : SymbolPredicate)
    → IsNormal p
    → IsNormal q
    → IsNormal (union p q) × ((u : ℕ) → matches (union p q) u ≡ matches p u || matches q u)
union-matches p q h k =
    let n = union-IsNormal p q h k in
    (
      n,
      λ u.
          matches-holds (union p q) u n
          ∙ union-holds p q u h k
          ∙ ap₂ ◌||◌ (sym (matches-holds p u h)) (sym (matches-holds q u k)),
    )

-- For a predicate of 128 bits with ordered ranges above ASCII, which the complement is again: the
-- complement matches the UTF-16 units that the predicate does not match.
pub complement-matches :
    (p : SymbolPredicate)
    → IsNormal p
    → IsNormal (complement p)
      × ((u : ℕ) → u ≤ u16_max → matches (complement p) u ≡ not (matches p u))
complement-matches p h =
    let n = complement-IsNormal p h in
    (
      n,
      λ u le.
          matches-holds (complement p) u n
          ∙ complement-holds p u h le
          ∙ ap not (sym (matches-holds p u h)),
    )
