-- ===== src/Predicate/Inserted.antt =====
-- rustmatch/src/predicate.rs: `insert_range` as an operation on sets of units.
use rustmatch.Prelude.{
  ℕ, ◌<◌, ◌≤◌, ◌≡◌, refl, sym, subst, ap, ◌∙◌, inl, inr, true, false, ◌&&◌, ◌||◌, [], ◌∷◌, ◌++◌,
  min, max, ltb, leb, arith, Bool-cases, get_or, length,
}
use rustmatch.Predicate.Ranges.{RangeList, u16_max}
use rustmatch.Predicate.{
  SymbolPredicate, matches, ascii_range_mask, insert_ascii, insert_non_ascii, insert_range,
}
use rustmatch.Predicate.Ordered.{
  any_holds, IsOrdered, AreRanges, IsOrdered-AreRanges, normalize_ranges-any_holds,
  normalize_ranges-IsOrdered, AreRanges-append, any_holds-append,
}
use rustmatch.Predicate.Membership.{IsNormal, holds, matches-holds, get_or-word_or, length-word_or}
use rustmatch.Predicate.Insertion.{ascii_range_mask-bits, length-ascii_range_mask}

-- The ASCII half after an insertion; the ranges are as they were.
record AsciiInserted (p q : SymbolPredicate) (start end : ℕ) : Type 0 where
  wide : length q.ascii ≡ 128
  ranges : q.non_ascii_ranges ≡ p.non_ascii_ranges
  bits :
      (u : ℕ)
      → u < 128
      → get_or q.ascii u false ≡ get_or p.ascii u false || (leb start u && leb u end)

insert_ascii-AsciiInserted :
    (p : SymbolPredicate) (start end : ℕ)
    → length p.ascii ≡ 128
    → AsciiInserted p (insert_ascii p start end) start end
unfolding insert_ascii
insert_ascii-AsciiInserted p start end wide = elim (Bool-cases (ltb start 128)) [
  | inl low ↦
      let mask = ascii_range_mask start (min end 127) in
      let size = length-ascii_range_mask start (min end 127) in
      rw low (record {
        wide = length-word_or p.ascii mask (wide ∙ sym size) ∙ wide;
        ranges = refl;
        bits = λ u lt.
            let here = ascii_range_mask-bits start (min end 127) u (omega arith) lt in
            let same : leb u (min end 127) ≡ leb u end = ground arith in
            get_or-word_or p.ascii mask u (wide ∙ sym size)
            ∙ ap (λ b. get_or p.ascii u false || b) (here ∙ ap (λ b. leb start u && b) same);
      })
  | inr high ↦ rw high (record {
    wide = wide;
    ranges = refl;
    bits = λ u lt. let no : leb start u ≡ false = ground arith in rw no (ground arith);
  })
]

-- The ranges after an insertion; the ASCII half is as it was.
record RangesInserted (p q : SymbolPredicate) (start end : ℕ) : Type 0 where
  ascii : q.ascii ≡ p.ascii
  ordered : IsOrdered 128 q.non_ascii_ranges
  units :
      (u : ℕ)
      → 128 ≤ u
      → any_holds q.non_ascii_ranges u
        ≡ any_holds p.non_ascii_ranges u || (leb start u && leb u end)

insert_non_ascii-RangesInserted :
    (p : SymbolPredicate) (start end : ℕ)
    → start ≤ end
    → end ≤ u16_max
    → IsOrdered 128 p.non_ascii_ranges
    → RangesInserted p (insert_non_ascii p start end) start end
unfolding insert_non_ascii any_holds
insert_non_ascii-RangesInserted p start end le small h = elim (Bool-cases (leb 128 end)) [
  | inl high ↦
      let pushed : RangeList = (max start 128, end) ∷ [] in
      let fits : AreRanges 128 pushed = (omega arith, ground arith, small, tt) in
      let all =
        AreRanges-append 128 p.non_ascii_ranges pushed
          (IsOrdered-AreRanges 128 128 p.non_ascii_ranges (omega arith) h) fits in
      rw high (record {
        ascii = refl;
        ordered = normalize_ranges-IsOrdered 128 (p.non_ascii_ranges ++ pushed) all;
        units = λ u above.
            normalize_ranges-any_holds 128 (p.non_ascii_ranges ++ pushed) u all
            ∙ any_holds-append p.non_ascii_ranges pushed u
            ∙ ap (λ b. any_holds p.non_ascii_ranges u || b) (one_range u above);
      })
  | inr low ↦ rw low (record {
    ascii = refl;
    ordered = h;
    units = λ u above. let no : leb u end ≡ false = ground arith in rw no (ground arith);
  })
]
  where
    one_range :
        (u : ℕ) → 128 ≤ u → any_holds ((max start 128, end) ∷ []) u ≡ leb start u && leb u end
    one_range u above = ground arith

-- For a predicate of 128 bits with ordered ranges above ASCII, which it is again after an insertion:
-- a range of UTF-16 units that is not reversed is reported as inserted, and then the predicate
-- matches its units beside those that it matched before; a reversed one changes nothing.
pub insert_range-matches :
    (p : SymbolPredicate) (start end : ℕ)
    → IsNormal p
    → end ≤ u16_max
    → let r = insert_range p start end in
      IsNormal r.0
      × (r.1 ≡ leb start end)
      × ((u : ℕ) → matches r.0 u ≡ matches p u || (leb start u && leb u end))
unfolding insert_range holds
insert_range-matches p start end h small = elim (Bool-cases (ltb end start)) [
  | inl reversed ↦
      let no : leb start end ≡ false = ground arith in
      rw reversed (
        h,
        sym no,
        λ u.
            let empty_range : (leb start u && leb u end) ≡ false = ground arith in
            rw empty_range (ground arith),
      )
  | inr forward ↦
      let yes_range : leb start end ≡ true = ground arith in
      let a = insert_ascii-AsciiInserted p start end h.wide in
      let middle = insert_ascii p start end in
      let ordered = subst (IsOrdered 128) (sym a.ranges) h.ordered in
      let r = insert_non_ascii-RangesInserted middle start end (ground arith) small ordered in
      let q = insert_non_ascii middle start end in
      let n : IsNormal q = record { wide = ap length r.ascii ∙ a.wide; ordered = r.ordered } in
      rw forward (
        n,
        sym yes_range,
        λ u.
            matches-holds q u n
            ∙ q_holds q u r.ascii r.units a
            ∙ ap (λ b. b || (leb start u && leb u end)) (sym (matches-holds p u h)),
      )
]
  where
    q_holds :
        (q : SymbolPredicate) (u : ℕ)
        → q.ascii ≡ (insert_ascii p start end).ascii
        → ((u : ℕ)
            → 128 ≤ u
            → any_holds q.non_ascii_ranges u
              ≡ any_holds (insert_ascii p start end).non_ascii_ranges u
                || (leb start u && leb u end))
        → AsciiInserted p (insert_ascii p start end) start end
        → holds q u ≡ holds p u || (leb start u && leb u end)
    q_holds q u same units a = elim (Bool-cases (ltb u 128)) [
      | inl low ↦ rw (low, holds) (ap (λ w. get_or w u false) same ∙ a.bits u (ground arith))
      | inr high ↦
          rw (high, holds)
            (units u (ground arith)
              ∙ ap (λ rs. any_holds rs u || (leb start u && leb u end)) a.ranges)
    ]
