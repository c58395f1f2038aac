-- ===== src/Predicate/Ranges.antt =====
-- rustmatch/src/predicate.rs: the sorted ranges above ASCII, and what puts them in order.
use rustmatch.Prelude.{
  ℕ, suc, ◌+◌, Bool, true, false, ◌&&◌, ◌||◌, List, [], ◌∷◌, min, max, ltb, leb, ◌==◌,
  if◌then◌else◌,
}

abbrev pub RangeList : Type 0
RangeList = List (ℕ × ℕ)

abbrev pub u16_max : ℕ
u16_max = 65535

-- The order of pairs that `sort_unstable` sorts by.
unfoldable pub range_leb : ℕ × ℕ → ℕ × ℕ → Bool
range_leb (a, b) (c, d) = ltb a c || (a == c && leb b d)

unfoldable pub insert_sorted : ℕ × ℕ → RangeList → RangeList
unfolding range_leb
insert_sorted r [] = r ∷ []
insert_sorted r (x ∷ xs) = if range_leb r x then r ∷ x ∷ xs else x ∷ insert_sorted r xs

unfoldable pub sort : RangeList → RangeList
unfolding insert_sorted
sort [] = []
sort (r ∷ rs) = insert_sorted r (sort rs)

-- `previous_end.saturating_add(1)`.
unfoldable pub saturating_next : ℕ → ℕ
saturating_next end = min (end + 1) u16_max

-- The loop of `normalize_ranges`; the first range given is the last one pushed so far.
unfoldable pub merge_from : ℕ × ℕ → RangeList → RangeList
unfolding saturating_next
merge_from previous [] = previous ∷ []
merge_from (previous_start, previous_end) ((start, end) ∷ ranges) =
    elim (leb start (saturating_next previous_end)) [
      | true ↦ merge_from (previous_start, max previous_end end) ranges
      | false ↦ (previous_start, previous_end) ∷ merge_from (start, end) ranges
    ]

unfoldable pub merge : RangeList → RangeList
unfolding merge_from
merge [] = []
merge (r ∷ rs) = merge_from r rs

unfoldable pub normalize_ranges : RangeList → RangeList
unfolding sort merge
normalize_ranges ranges = merge (sort ranges)

-- The number of leading elements that pass, which is what the binary search of
-- `slice::partition_point` returns on a slice where these come first.
unfoldable pub partition_point {ℓ} : {A : Type ℓ} → (A → Bool) → List A → ℕ
partition_point p [] = 0
partition_point p (x ∷ xs) = if p x then suc (partition_point p xs) else 0
