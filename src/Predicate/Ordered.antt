-- ===== src/Predicate/Ordered.antt =====
-- rustmatch/src/predicate.rs: the ranges above ASCII as a set of units: the search in sorted ranges,
-- `normalize_ranges` and the gaps of `complement`.
use rustmatch.Prelude.{
  ℕ, ◌+◌, ◌-◌, ◌<◌, ◌≤◌, ◌≡◌, refl, ap, ◌∙◌, inl, inr, Bool, false, not, ◌&&◌, ◌||◌, [], ◌∷◌, ◌++◌,
  max, ltb, leb, arith, Bool-cases, leb→le, get_elem?,
}
use rustmatch.Predicate.Ranges.{
  RangeList, u16_max, range_leb, insert_sorted, sort, saturating_next, merge_from, merge,
  normalize_ranges, partition_point,
}
use rustmatch.Predicate.{range_holds, gaps}

-- A unit is in one of the ranges.
unfoldable pub any_holds : RangeList → ℕ → Bool
any_holds [] u = false
any_holds ((start, end) ∷ ranges) u = (leb start u && leb u end) || any_holds ranges u

-- Ranges of units from `low` on, in increasing order, with a gap between them.
abbrev pub IsOrdered : ℕ → RangeList → Type 0
IsOrdered low [] = Unit
IsOrdered low ((start, end) ∷ ranges) =
    (low ≤ start) × (start ≤ end) × (end ≤ u16_max) × IsOrdered (end + 2) ranges

-- Ranges of units from `low` on, in the order of their starts.
abbrev IsSorted : ℕ → RangeList → Type 0
IsSorted low [] = Unit
IsSorted low ((start, end) ∷ ranges) =
    (low ≤ start) × (start ≤ end) × (end ≤ u16_max) × IsSorted start ranges

abbrev pub AreRanges : ℕ → RangeList → Type 0
AreRanges low [] = Unit
AreRanges low ((start, end) ∷ ranges) =
    (low ≤ start) × (start ≤ end) × (end ≤ u16_max) × AreRanges low ranges

IsSorted-le :
    (low low' : ℕ) (ranges : RangeList) → low' ≤ low → IsSorted low ranges → IsSorted low' ranges
IsSorted-le low low' [] le h = tt
IsSorted-le low low' ((start, end) ∷ ranges) le (a, b, c, rest) = (omega arith, b, c, rest)

pub IsOrdered-le :
    (low low' : ℕ) (ranges : RangeList) → low' ≤ low → IsOrdered low ranges → IsOrdered low' ranges
IsOrdered-le low low' [] le h = tt
IsOrdered-le low low' ((start, end) ∷ ranges) le (a, b, c, rest) = (omega arith, b, c, rest)

pub IsOrdered-AreRanges :
    (low low' : ℕ) (ranges : RangeList) → low' ≤ low → IsOrdered low ranges → AreRanges low' ranges
IsOrdered-AreRanges low low' [] le h = tt
IsOrdered-AreRanges low low' ((start, end) ∷ ranges) le (a, b, c, rest) =
    (omega arith, b, c, IsOrdered-AreRanges (end + 2) low' ranges (omega arith) rest)

below-none :
    (low : ℕ) (ranges : RangeList) (u : ℕ)
    → IsOrdered low ranges
    → u < low
    → any_holds ranges u ≡ false
unfolding any_holds
below-none low [] u h lt = refl
below-none low ((start, end) ∷ ranges) u (a, b, c, rest) lt =
    let others = below-none (end + 2) ranges u rest (omega arith) in
    let no : leb start u ≡ false = ground arith in rw (no, others) refl

-- The binary search finds a range that holds the unit, if there is one.
pub search-any_holds :
    (low : ℕ) (ranges : RangeList) (u : ℕ)
    → IsOrdered low ranges
    → range_holds (get_elem? ranges (partition_point (λ range. ltb range.1 u) ranges)) u
      ≡ any_holds ranges u
unfolding any_holds range_holds partition_point
search-any_holds low [] u h = refl
search-any_holds low ((start, end) ∷ ranges) u (a, b, c, rest) = elim (Bool-cases (ltb end u)) [
  | inl before ↦
      let later = search-any_holds (end + 2) ranges u rest in
      let no : leb u end ≡ false = ground arith in rw (before, no) (ground arith)
  | inr here ↦
      let others = below-none (end + 2) ranges u rest (ground arith) in
      rw (here, others) (ground arith)
]

pub gaps-any_holds :
    (low next : ℕ) (ranges : RangeList) (u : ℕ)
    → next ≤ low
    → u ≤ u16_max
    → IsOrdered low ranges
    → any_holds (gaps next ranges) u ≡ leb next u && not (any_holds ranges u)
unfolding any_holds gaps
gaps-any_holds low next [] u le lt h = elim (Bool-cases (leb next u16_max)) [
  | inl room ↦ rw (room, any_holds) (ground arith)
  | inr full ↦ rw (full, any_holds) (ground arith)
]
gaps-any_holds low next ((start, end) ∷ ranges) u le lt (a, b, c, rest) =
    let later = gaps-any_holds (end + 2) (end + 1) ranges u (omega arith) lt rest in
    elim (Bool-cases (ltb next start)) [
      | inl room ↦ elim (Bool-cases (leb u end)) [
        | inl low_u ↦
            let others = below-none (end + 2) ranges u rest (ground arith) in
            rw (room, any_holds, later, others) (ground arith)
        | inr high_u ↦ rw (room, any_holds, later) (ground arith)
      ]
      | inr none_left ↦ elim (Bool-cases (leb u end)) [
        | inl low_u ↦
            let others = below-none (end + 2) ranges u rest (ground arith) in
            rw (none_left, any_holds, later, others) (ground arith)
        | inr high_u ↦ rw (none_left, any_holds, later) (ground arith)
      ]
    ]

pub gaps-IsOrdered :
    (low next : ℕ) (ranges : RangeList)
    → next ≤ low
    → IsOrdered low ranges
    → IsOrdered next (gaps next ranges)
unfolding gaps
gaps-IsOrdered low next [] le h = elim (Bool-cases (leb next u16_max)) [
  | inl room ↦ rw room (omega arith, leb→le next u16_max room, omega arith, tt)
  | inr full ↦ rw full tt
]
gaps-IsOrdered low next ((start, end) ∷ ranges) le (a, b, c, rest) =
    let later = gaps-IsOrdered (end + 2) (end + 1) ranges (omega arith) rest in
    elim (Bool-cases (ltb next start)) [
      | inl room ↦ rw room (
        omega arith,
        ground arith,
        omega arith,
        IsOrdered-le (end + 1) (start - 1 + 2) (gaps (end + 1) ranges) (ground arith) later,
      )
      | inr none_left ↦
          rw none_left (IsOrdered-le (end + 1) next (gaps (end + 1) ranges) (omega arith) later)
    ]

insert_sorted-IsSorted :
    (low start end : ℕ) (ranges : RangeList)
    → low ≤ start
    → start ≤ end
    → end ≤ u16_max
    → IsSorted low ranges
    → IsSorted low (insert_sorted (start, end) ranges)
unfolding insert_sorted range_leb
insert_sorted-IsSorted low start end [] a b c h = (a, b, c, tt)
insert_sorted-IsSorted low start end ((s, e) ∷ ranges) a b c (d, f, g, rest) =
    elim (Bool-cases (range_leb (start, end) (s, e))) [
      | inl first ↦ let le : start ≤ s = ground arith in rw first (a, b, c, (le, f, g, rest))
      | inr later ↦
          let le : s ≤ start = ground arith in
          rw later (d, f, g, insert_sorted-IsSorted s start end ranges le b c rest)
    ]

insert_sorted-any_holds :
    (r : ℕ × ℕ) (ranges : RangeList) (u : ℕ)
    → any_holds (insert_sorted r ranges) u ≡ any_holds (r ∷ ranges) u
unfolding any_holds insert_sorted
insert_sorted-any_holds r [] u = refl
insert_sorted-any_holds r (x ∷ ranges) u =
    let rest = insert_sorted-any_holds r ranges u in
    elim (Bool-cases (range_leb r x)) [
      | inl first ↦ rw first refl
      | inr later ↦ rw later (ground arith)
    ]

sort-IsSorted : (low : ℕ) (ranges : RangeList) → AreRanges low ranges → IsSorted low (sort ranges)
unfolding sort
sort-IsSorted low [] h = tt
sort-IsSorted low ((start, end) ∷ ranges) (a, b, c, rest) =
    insert_sorted-IsSorted low start end (sort ranges) a b c (sort-IsSorted low ranges rest)

sort-any_holds : (ranges : RangeList) (u : ℕ) → any_holds (sort ranges) u ≡ any_holds ranges u
unfolding any_holds sort
sort-any_holds [] u = refl
sort-any_holds ((start, end) ∷ ranges) u =
    insert_sorted-any_holds (start, end) (sort ranges) u
    ∙ ap (λ b. (leb start u && leb u end) || b) (sort-any_holds ranges u)

merge_from-any_holds :
    (start end : ℕ) (ranges : RangeList) (u : ℕ)
    → start ≤ end
    → IsSorted start ranges
    → any_holds (merge_from (start, end) ranges) u ≡ any_holds ((start, end) ∷ ranges) u
unfolding any_holds merge_from saturating_next
merge_from-any_holds start end [] u le h = refl
merge_from-any_holds start end ((s, e) ∷ ranges) u le (a, b, c, rest) =
    elim (Bool-cases (leb s (saturating_next end))) [
      | inl joins ↦
          let merged =
            merge_from-any_holds start (max end e) ranges u (omega arith)
              (IsSorted-le s start ranges a rest) in
          rw (joins, any_holds) (merged ∙ ground arith)
      | inr apart ↦
          rw (apart, any_holds)
            (ap (λ v. (leb start u && leb u end) || v) (merge_from-any_holds s e ranges u b rest))
    ]

merge_from-IsOrdered :
    (low start end : ℕ) (ranges : RangeList)
    → low ≤ start
    → start ≤ end
    → end ≤ u16_max
    → IsSorted start ranges
    → IsOrdered low (merge_from (start, end) ranges)
unfolding merge_from saturating_next
merge_from-IsOrdered low start end [] a b c h = (a, b, c, tt)
merge_from-IsOrdered low start end ((s, e) ∷ ranges) a b c (d, f, g, rest) =
    elim (Bool-cases (leb s (saturating_next end))) [
      | inl joins ↦
          rw (joins, IsOrdered)
            (merge_from-IsOrdered low start (max end e) ranges a (omega arith) (omega arith)
              (IsSorted-le s start ranges d rest))
      | inr apart ↦
          let le : end + 2 ≤ s = ground arith in
          rw (apart, IsOrdered) (a, b, c, merge_from-IsOrdered (end + 2) s e ranges le f g rest)
    ]

pub normalize_ranges-any_holds :
    (low : ℕ) (ranges : RangeList) (u : ℕ)
    → AreRanges low ranges
    → any_holds (normalize_ranges ranges) u ≡ any_holds ranges u
unfolding normalize_ranges merge any_holds
normalize_ranges-any_holds low ranges u h =
    merged (sort ranges) (sort-IsSorted low ranges h) ∙ sort-any_holds ranges u
  where
    merged : (rs : RangeList) → IsSorted low rs → any_holds (merge rs) u ≡ any_holds rs u
    merged [] s = refl
    merged ((start, end) ∷ rs) (a, b, c, rest) = merge_from-any_holds start end rs u b rest

pub normalize_ranges-IsOrdered :
    (low : ℕ) (ranges : RangeList) → AreRanges low ranges → IsOrdered low (normalize_ranges ranges)
unfolding normalize_ranges merge any_holds
normalize_ranges-IsOrdered low ranges h = merged (sort ranges) (sort-IsSorted low ranges h)
  where
    merged : (rs : RangeList) → IsSorted low rs → IsOrdered low (merge rs)
    merged [] s = tt
    merged ((start, end) ∷ rs) (a, b, c, rest) = merge_from-IsOrdered low start end rs a b c rest

pub AreRanges-append :
    (low : ℕ) (xs ys : RangeList) → AreRanges low xs → AreRanges low ys → AreRanges low (xs ++ ys)
AreRanges-append low [] ys h k = k
AreRanges-append low ((start, end) ∷ xs) ys (a, b, c, rest) k =
    (a, b, c, AreRanges-append low xs ys rest k)

pub any_holds-append :
    (xs ys : RangeList) (u : ℕ) → any_holds (xs ++ ys) u ≡ any_holds xs u || any_holds ys u
unfolding any_holds
any_holds-append [] ys u = refl
any_holds-append ((start, end) ∷ xs) ys u = let rest = any_holds-append xs ys u in ground arith
