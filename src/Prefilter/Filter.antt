-- ===== src/Prefilter/Filter.antt =====
-- rustmatch/src/prefilter.rs: `LiteralPrefilter`, bit tables of the first three, four or five units of
-- the necessary literals. `prefix_mappings` is only read in tests.
use Prim.Native.Nat.{bit_xor}
use rustmatch.Prelude.{
  ℕ, ◌+◌, ◌*◌, ◌%◌, ◌^◌, Bool, true, false, not, ◌&&◌, Option, none, some, List, [], ◌∷◌, take,
  drop, get_or, length, ltb, leb, ◌==◌, if◌then◌else◌,
}
use rustmatch.Context.{Units}
use rustmatch.Prefilter.Literal.{NecessaryLiteral, min_literal_units}
use rustmatch.Prefilter.Bits.{Bits, new_words, set_bit, contains_bit}

-- Numbers of words of the three tables.
abbrev pub ascii_triple_words : ℕ
ascii_triple_words = 32768

abbrev pub four_prefix_hash_words : ℕ
four_prefix_hash_words = 8192

abbrev pub five_prefix_hash_words : ℕ
five_prefix_hash_words = 16384

pub record LiteralPrefilter : Type 0 where
  pub ascii_three_exact : Bits
  pub ascii_four_hash : Bits
  pub ascii_five_hash : Bits
  pub has_three : Bool
  pub has_four : Bool
  pub has_five : Bool

abbrev pub all_ascii : List ℕ → Bool
all_ascii [] = true
all_ascii (u ∷ us) = ltb u 128 && all_ascii us

-- The three fields of the index do not overlap, since each unit is below 128.
unfoldable pub ascii_triple_index : List ℕ → ℕ
ascii_triple_index (a ∷ b ∷ c ∷ us) = a * 16384 + b * 128 + c
ascii_triple_index us = 0

hash_units : List ℕ → ℕ → ℕ
hash_units [] hash = hash
hash_units (u ∷ us) hash = hash_units us ((bit_xor hash u * 0x100000001b3) % 2 ^ 64)

-- `bit_count` is a power of two: to mask by `bit_count - 1` is to take the remainder.
unfoldable pub prefix_hash_index : List ℕ → ℕ → ℕ
unfolding hash_units
prefix_hash_index prefix bit_count = hash_units prefix 0xcbf29ce484222325 % bit_count

abbrev pub set_if : Bool → Bits → ℕ → Bits
set_if test words bit = if test then set_bit words bit else words

-- One round of the loop of `LiteralPrefilter::compile`.
unfoldable pub add_hint : LiteralPrefilter → List ℕ → LiteralPrefilter
add_hint f units =
    if length units == min_literal_units
    then record f {
      has_three = true;
      ascii_three_exact =
          set_if (all_ascii (take min_literal_units units)) f.ascii_three_exact
            (ascii_triple_index units);
    }
    else if length units == 4
    then record f {
      has_four = true;
      ascii_four_hash =
          set_if (all_ascii (take 4 units)) f.ascii_four_hash
            (prefix_hash_index (take 4 units) (four_prefix_hash_words * 64));
    }
    else record f {
      has_five = true;
      ascii_five_hash =
          set_if (all_ascii (take 5 units)) f.ascii_five_hash
            (prefix_hash_index (take 5 units) (five_prefix_hash_words * 64));
    }

unfoldable pub add_hints : List NecessaryLiteral → LiteralPrefilter → LiteralPrefilter
unfolding add_hint
add_hints [] f = f
add_hints (hint ∷ hints) f = add_hints hints (add_hint f hint.units)

unfoldable pub blank_filter : LiteralPrefilter
blank_filter = record {
  ascii_three_exact = new_words ascii_triple_words;
  ascii_four_hash = new_words four_prefix_hash_words;
  ascii_five_hash = new_words five_prefix_hash_words;
  has_three = false;
  has_four = false;
  has_five = false;
}

-- `LiteralPrefilter::compile`.
unfoldable pub compile_literals : List NecessaryLiteral → LiteralPrefilter
unfolding blank_filter add_hints
compile_literals hints = add_hints hints blank_filter

-- `input.get(start..start + n)`.
unfoldable pub window : Units → ℕ → ℕ → Option (List ℕ)
window input start n =
    if leb (start + n) (length input) then some (take n (drop start input)) else none

unfoldable pub five_allows : LiteralPrefilter → Option (List ℕ) → Bool
five_allows f none = false
five_allows f (some five) =
    if leb 128 (get_or five 4 0)
    then true
    else f.has_five
      && contains_bit f.ascii_five_hash (prefix_hash_index five (five_prefix_hash_words * 64))

unfoldable pub four_allows : LiteralPrefilter → Option (List ℕ) → Option (List ℕ) → Bool
unfolding five_allows
four_allows f none five = false
four_allows f (some four) five =
    if leb 128 (get_or four 3 0)
    then true
    else if f.has_four
        && contains_bit f.ascii_four_hash (prefix_hash_index four (four_prefix_hash_words * 64))
    then true
    else five_allows f five

-- `prefix_allows`, where three units are left of the input.
unfoldable pub prefix_allows : LiteralPrefilter → Units → ℕ → Bool
unfolding four_allows window
prefix_allows f input start =
    let triple = take 3 (drop start input) in
    if not (all_ascii triple)
    then true
    else if f.has_three && contains_bit f.ascii_three_exact (ascii_triple_index triple)
    then true
    else four_allows f (window input start 4) (window input start 5)
