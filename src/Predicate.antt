-- ===== src/Predicate.antt =====
-- rustmatch/src/predicate.rs: predicates over the complete UTF-16 code-unit domain. The ASCII half
-- is a 128-bit word (`Word`), the rest a list of inclusive ranges (`Ranges`).
pub mod Word
pub mod Ranges
pub mod Vacant
pub mod Ordered
pub mod Membership
pub mod Insertion
pub mod Inserted
use rustmatch.Prelude.{
  ℕ, ◌+◌, ◌-◌, ◌≡◌, Bool, true, false, not, ◌&&◌, List, [], ◌∷◌, ◌++◌, arith, min, max, ltb, leb,
  ◌==◌, if◌then◌else◌, ℕ_discrete, get_elem?, Option, none, some,
}
use Word.{Word128, zero_word, max_word, one_word, word_or, word_and, word_not, shl, dec, is_zero}
use Ranges.{RangeList, normalize_ranges, partition_point, u16_max}

pub record SymbolPredicate : Type 0 where
  pub ascii : Word128
  pub non_ascii_ranges : RangeList

unfoldable pub SymbolPredicate-discrete : Discrete SymbolPredicate
SymbolPredicate-discrete = hlevel ℕ_discrete

abbrev pub empty : SymbolPredicate
empty = record { ascii = zero_word; non_ascii_ranges = [] }

unfoldable pub any : SymbolPredicate
any = record { ascii = max_word; non_ascii_ranges = (128, u16_max) ∷ [] }

-- Bits `start` to `end` of the word, for `start ≤ end < 128`.
unfoldable pub ascii_range_mask : ℕ → ℕ → Word128
ascii_range_mask start end =
    let below_end = if end == 127 then max_word else dec (shl one_word (end + 1)) in
    word_and (shl max_word start) below_end

unfoldable pub insert_ascii : SymbolPredicate → ℕ → ℕ → SymbolPredicate
unfolding ascii_range_mask
insert_ascii p start end =
    if ltb start 128
    then record p { ascii = word_or p.ascii (ascii_range_mask start (min end 127)) }
    else p

unfoldable pub insert_non_ascii : SymbolPredicate → ℕ → ℕ → SymbolPredicate
insert_non_ascii p start end =
    if leb 128 end
    then record p {
      non_ascii_ranges = normalize_ranges (p.non_ascii_ranges ++ (max start 128, end) ∷ []);
    }
    else p

-- The new predicate, and `false` where the range is reversed and nothing is inserted.
unfoldable pub insert_range : SymbolPredicate → ℕ → ℕ → SymbolPredicate × Bool
unfolding insert_ascii insert_non_ascii
insert_range p start end =
    if ltb end start
    then (p, false)
    else (insert_non_ascii (insert_ascii p start end) start end, true)

unfoldable pub insert : SymbolPredicate → ℕ → SymbolPredicate
unfolding insert_range
insert p symbol = (insert_range p symbol symbol).0

unfoldable pub from_ranges : RangeList → SymbolPredicate → SymbolPredicate
unfolding insert_range
from_ranges [] p = p
from_ranges ((start, end) ∷ ranges) p = from_ranges ranges (insert_range p start end).0

unfoldable pub digit : SymbolPredicate
unfolding from_ranges
digit = from_ranges ((b'0', b'9') ∷ []) empty

unfoldable pub word : SymbolPredicate
unfolding from_ranges insert
word = insert (from_ranges ((b'a', b'z') ∷ (b'A', b'Z') ∷ (b'0', b'9') ∷ []) empty) b'_'

insert_all : List ℕ → SymbolPredicate → SymbolPredicate
unfolding insert
insert_all [] p = p
insert_all (symbol ∷ symbols) p = insert_all symbols (insert p symbol)

unfoldable pub whitespace : SymbolPredicate
unfolding insert_all
whitespace = insert_all (b' ' ∷ 9 ∷ 10 ∷ 0x0b ∷ 0x0c ∷ 13 ∷ []) empty

unfoldable pub union : SymbolPredicate → SymbolPredicate → SymbolPredicate
union p other = record {
  ascii = word_or p.ascii other.ascii;
  non_ascii_ranges = normalize_ranges (p.non_ascii_ranges ++ other.non_ascii_ranges);
}

-- The gaps between the ranges, from `next` on, which is one above the last range seen.
unfoldable pub gaps : ℕ → RangeList → RangeList
gaps next [] = if leb next u16_max then (next, u16_max) ∷ [] else []
gaps next ((start, end) ∷ ranges) =
    let rest = gaps (end + 1) ranges in if ltb next start then (next, start - 1) ∷ rest else rest

unfoldable pub complement : SymbolPredicate → SymbolPredicate
unfolding gaps
complement p = record { ascii = word_not p.ascii; non_ascii_ranges = gaps 128 p.non_ascii_ranges }

unfoldable pub range_holds : Option (ℕ × ℕ) → ℕ → Bool
range_holds none symbol = false
range_holds (some (start, end)) symbol = leb start symbol && leb symbol end

-- The binary search of `partition_point` finds the first range that does not end below `symbol`.
unfoldable pub matches : SymbolPredicate → ℕ → Bool
unfolding range_holds partition_point
matches p symbol =
    if ltb symbol 128
    then not (is_zero (word_and p.ascii (shl one_word symbol)))
    else range_holds
        (get_elem? p.non_ascii_ranges
          (partition_point (λ range. ltb range.1 symbol) p.non_ascii_ranges))
        symbol

unfoldable pub is_nil : RangeList → Bool
is_nil [] = true
is_nil (_ ∷ _) = false

unfoldable pub is_empty : SymbolPredicate → Bool
unfolding is_nil
is_empty p = is_zero p.ascii && is_nil p.non_ascii_ranges
