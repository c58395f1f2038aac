-- ===== src/Parser/Counts.antt =====
-- rustmatch/src/parser.rs: `parse_counted_repetition` returns or reports an error in the pattern.
use rustmatch.Prelude.{
  ℕ, zero, suc, ◌+◌, ◌≤◌, ◌<◌, ◌≡◌, refl, ◌||◌, List, [], ◌∷◌, arith, ltb, ◌==◌, length, drop,
}
use rustmatch.Hir.{Hir}
use rustmatch.Parser.Class.{Parser, is_unit}
use rustmatch.Parser.Count.{
  count_digits, next_count, parse_count, count_end, bad_bounds, parse_counted_repetition,
}
use rustmatch.Parser.Outcome.{Outcome, returns, fails, Outcome-bind, Outcome-if, Moved, is_unit-lt}

count_digits-index :
    (us : List ℕ) (index value : ℕ)
    → (index ≤ (count_digits us index value).1)
      × ((count_digits us index value).1 ≤ index + length us)
unfolding count_digits
count_digits-index [] index value = (omega arith, omega arith)
count_digits-index (u ∷ us) index value =
    ground (arith, count_digits-index us (index + 1) (next_count value u))

length-drop : (n : ℕ) (us : List ℕ) → n ≤ length us → n + length (drop n us) ≡ length us
length-drop zero us h = omega arith
length-drop (suc n) [] h = absurd (omega arith)
length-drop (suc n) (u ∷ us) h = omega (arith, length-drop n us (omega arith))

module _ (id : ℕ) (units : List ℕ) where
  parse_count-Outcome :
      (start number_start : ℕ)
      → start < number_start
      → number_start ≤ length units
      → Outcome id
          (length units)
          (λ r. (number_start < r.1) × (r.1 ≤ length units))
          (parse_count id units start number_start)
  unfolding parse_count
  parse_count-Outcome start number_start lt le =
      let digits = count_digits (drop number_start units) number_start 0 in
      let range = count_digits-index (drop number_start units) number_start 0 in
      let rest = length-drop number_start units le in
      Outcome-if id (length units) (digits.1 == number_start || ltb 1000 digits.0)
        (λ bad. fails (refl, omega arith, omega arith)) (λ good. returns (ground arith))

  count_end-Outcome :
      (start low index : ℕ)
      → start < index
      → index ≤ length units
      → Outcome id
          (length units)
          (λ r. (index < r.1) × (r.1 ≤ length units))
          (count_end id units start low index)
  unfolding count_end
  count_end-Outcome start low index lt le =
      Outcome-if id (length units) (is_unit units index 0x7d)
        (λ close. returns (omega arith, omega (arith, is_unit-lt units index 0x7d close)))
        (λ open_brace.
          Outcome-if id (length units) (is_unit units index b',')
            (λ comma.
              let lt' = is_unit-lt units index b',' comma in
              Outcome-if id (length units) (is_unit units (index + 1) 0x7d)
                (λ close.
                  returns (omega arith, omega (arith, is_unit-lt units (index + 1) 0x7d close)))
                (λ more.
                  Outcome-bind id (length units)
                    (parse_count-Outcome start (index + 1) (omega arith) (omega arith))
                    (λ r within.
                      Outcome-if id (length units) (is_unit units r.1 0x7d)
                        (λ close.
                          returns (omega arith, omega (arith, is_unit-lt units r.1 0x7d close)))
                        (λ bad. fails (refl, omega arith, omega arith)))))
            (λ bad. fails (refl, omega arith, omega arith)))

  pub parse_counted_repetition-Outcome :
      (e : Hir) (p : Parser)
      → p.index < length units
      → Outcome id
          (length units)
          (Moved id (length units) p.index p.group_depth)
          (parse_counted_repetition id units e p)
  unfolding parse_counted_repetition
  parse_counted_repetition-Outcome e p lt =
      Outcome-bind id (length units)
        (parse_count-Outcome p.index (p.index + 1) (omega arith) (omega arith))
        (λ low within.
          Outcome-bind id (length units)
            (count_end-Outcome p.index low.0 low.1 (omega arith) (omega arith))
            (λ high ended.
              Outcome-if id (length units) (bad_bounds low.0 high.0)
                (λ bad. fails (refl, omega arith, omega arith))
                (λ good. returns (omega arith, omega arith, refl))))
