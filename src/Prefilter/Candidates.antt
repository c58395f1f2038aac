-- ===== src/Prefilter/Candidates.antt =====
-- rustmatch/src/prefilter.rs: `CandidateBitmap`, the starts that the literal filter admits.
use rustmatch.Prelude.{
  ℕ, suc, ◌+◌, ◌/◌, Bool, true, false, ◌||◌, not, List, [], ◌∷◌, ◌++◌, drop, length, ltb,
  if◌then◌else◌, min,
}
use rustmatch.Context.{Units}
use rustmatch.Prefilter.Literal.{min_literal_units}
use rustmatch.Prefilter.Bits.{Bits, new_words, set_bit, contains_bit}
use rustmatch.Prefilter.Filter.{LiteralPrefilter, prefix_allows}

pub record CandidateBitmap : Type 0 where
  pub words : Bits
  pub start_count : ℕ
  pub bit_len : ℕ

-- `CandidateBitmap::new`; the words are as many as hold the bits.
unfoldable pub new_bitmap : ℕ → CandidateBitmap
new_bitmap bit_len = record {
  words = new_words ((bit_len + 63) / 64);
  start_count = 0;
  bit_len = bit_len;
}

unfoldable pub insert : CandidateBitmap → ℕ → CandidateBitmap
insert c start =
    if contains_bit c.words start
    then c
    else record c { words = set_bit c.words start; start_count = c.start_count + 1 }

unfoldable pub copy_prefix : CandidateBitmap → CandidateBitmap → CandidateBitmap
copy_prefix c prefix = record c {
  words = prefix.words ++ drop (length prefix.words) c.words;
  start_count = prefix.start_count;
}

-- The set bits of one word, from the lowest on.
unfoldable pub word_starts : ℕ → List Bool → List ℕ
word_starts n [] = []
word_starts n (true ∷ bits) = n ∷ word_starts (suc n) bits
word_starts n (false ∷ bits) = word_starts (suc n) bits

unfoldable pub words_starts : ℕ → Bits → List ℕ
unfolding word_starts
words_starts base [] = []
words_starts base (word ∷ words) = word_starts base word ++ words_starts (base + 64) words

-- What `CandidateIter` yields.
unfoldable pub iter : CandidateBitmap → List ℕ
unfolding words_starts
iter c = words_starts 0 c.words

abbrev pub u64_max : ℕ
u64_max = 18446744073709551615

-- The loop of `LiteralPrefilter::scan_starts`, with the admissions.
unfoldable pub scan_starts :
    LiteralPrefilter → Units → List ℕ → CandidateBitmap × ℕ → CandidateBitmap × ℕ
unfolding insert
scan_starts f input [] r = r
scan_starts f input (start ∷ starts) (c, admissions) = scan_starts f input starts (
    if ltb (length input) (start + min_literal_units) || not (prefix_allows f input start)
    then (c, admissions)
    else (insert c start, min (admissions + 1) u64_max))
