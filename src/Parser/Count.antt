-- ===== src/Parser/Count.antt =====
-- rustmatch/src/parser.rs: counted repetitions.
use rustmatch.Prelude.{
  ℕ, ◌+◌, ◌-◌, ◌*◌, Bool, true, false, ◌&&◌, ◌||◌, Option, none, some, List, [], ◌∷◌, ltb, leb,
  ◌==◌, if◌then◌else◌, length, drop, min, max,
}
use rustmatch.Error.{Result, ok, ◌>>=◌}
use rustmatch.Hir.{Hir, repeat_of}
use rustmatch.Parser.Class.{Parser, invalid, is_unit}

abbrev pub max_counted_repetition : ℕ
max_counted_repetition = 1000

abbrev u32_top : ℕ
u32_top = 4294967295

-- One digit: saturating arithmetic of 32 bits, then the cap one above the limit.
abbrev pub next_count : ℕ → ℕ → ℕ
next_count value u =
    min (min (min (value * 10) u32_top + (u - b'0')) u32_top) (max_counted_repetition + 1)

-- The loop of `parse_count` over the units that are left: the value, and the index after it.
unfoldable pub count_digits : List ℕ → ℕ → ℕ → ℕ × ℕ
count_digits [] index value = (value, index)
count_digits (u ∷ us) index value = elim (leb b'0' u && leb u b'9') [
  | true ↦ count_digits us (index + 1) (next_count value u)
  | false ↦ (value, index)
]

unfoldable pub bad_bounds : ℕ → Option ℕ → Bool
bad_bounds low none = ltb max_counted_repetition low
bad_bounds low (some high) =
    ltb high low || high == 0 || ltb max_counted_repetition low || ltb max_counted_repetition high

module _ (id : ℕ) (units : List ℕ) where
  -- The count that begins at the index, and the index after it.
  unfoldable pub parse_count : ℕ → ℕ → Result (ℕ × ℕ)
  unfolding count_digits
  parse_count quantifier_start number_start =
      let (value, index) = count_digits (drop number_start units) number_start 0 in
      if index == number_start || ltb max_counted_repetition value
      then invalid id quantifier_start (min (max index (number_start + 1)) (length units))
      else ok (value, index)

  -- What follows the lower bound.
  unfoldable pub count_end : ℕ → ℕ → ℕ → Result (Option ℕ × ℕ)
  unfolding parse_count
  count_end start low index =
      if is_unit units index 0x7d
      then ok (some low, index + 1)
      else if is_unit units index b','
      then (if is_unit units (index + 1) 0x7d then ok (none, index + 2) else do
        (high, after_high) ← parse_count start (index + 1)
        (if is_unit units after_high 0x7d
            then ok (some high, after_high + 1)
            else invalid id start (min after_high (length units))))
      else invalid id start (min index (length units))

  unfoldable pub parse_counted_repetition : Hir → Parser → Result (Hir × Parser)
  unfolding count_end bad_bounds
  parse_counted_repetition e p = do
    (low, after_low) ← parse_count p.index (p.index + 1)
    (high, index) ← count_end p.index low after_low
    (if bad_bounds low high
        then invalid id p.index index
        else ok (repeat_of e low high, record p { index = index }))
