-- ===== src/Predicate/Insertion.antt =====
-- rustmatch/src/predicate.rs: `insert_range` adds the units of a range.
use rustmatch.Prelude.{
  ℕ, zero, suc, ◌+◌, ◌<◌, ◌≡◌, refl, sym, ap, ap₂, ◌∙◌, inl, inr, true, false, ◌&&◌, [], ◌∷◌, ◌++◌,
  ltb, leb, if◌then◌else◌, arith, Bool-cases, get_or, ◌==◌, replicate, length, length-replicate,
}
use rustmatch.Predicate.Word.{Word128, zip_with, word_and, shl, fill, one_word, max_word, dec}
use rustmatch.Predicate.{ascii_range_mask}

length-fill : (w bits : Word128) → length (fill w bits) ≡ length w
unfolding fill
length-fill [] bits = refl
length-fill (x ∷ w) [] = ap suc (length-fill w [])
length-fill (x ∷ w) (b ∷ bits) = ap suc (length-fill w bits)

get_or-fill :
    (w bits : Word128) (k : ℕ) → k < length w → get_or (fill w bits) k false ≡ get_or bits k false
unfolding fill
get_or-fill [] bits k lt = absurd (omega arith)
get_or-fill (x ∷ w) [] zero lt = refl
get_or-fill (x ∷ w) [] (suc k) lt = get_or-fill w [] k (omega arith) ∙ refl
get_or-fill (x ∷ w) (b ∷ bits) zero lt = refl
get_or-fill (x ∷ w) (b ∷ bits) (suc k) lt = get_or-fill w bits k (omega arith)

get_or-ones : (n k : ℕ) → k < n → get_or (replicate n true) k false ≡ true
get_or-ones zero k lt = absurd (omega arith)
get_or-ones (suc n) zero lt = refl
get_or-ones (suc n) (suc k) lt = get_or-ones n k (omega arith)

get_or-shifted_ones :
    (s n k : ℕ) → k < s + n → get_or (replicate s false ++ replicate n true) k false ≡ leb s k
get_or-shifted_ones zero n k lt = get_or-ones n k (omega arith) ∙ ground arith
get_or-shifted_ones (suc s) n zero lt = ground arith
get_or-shifted_ones (suc s) n (suc k) lt =
    let rest = get_or-shifted_ones s n k (omega arith) in ground arith

get_or-fill_zeros : (w : Word128) (n k : ℕ) → get_or (fill w (replicate n false)) k false ≡ false
unfolding fill
get_or-fill_zeros [] n k = refl
get_or-fill_zeros (x ∷ w) zero zero = refl
get_or-fill_zeros (x ∷ w) zero (suc k) = get_or-fill_zeros w zero k
get_or-fill_zeros (x ∷ w) (suc n) zero = refl
get_or-fill_zeros (x ∷ w) (suc n) (suc k) = get_or-fill_zeros w n k

-- One less than a power of two has the bits below it.
get_or-dec :
    (w : Word128) (j n k : ℕ)
    → j < length w
    → k < length w
    → get_or (dec (fill w (replicate j false ++ true ∷ replicate n false))) k false ≡ ltb k j
unfolding fill dec
get_or-dec [] j n k lt lt' = absurd (omega arith)
get_or-dec (x ∷ w) zero n zero lt lt' = refl
get_or-dec (x ∷ w) zero n (suc k) lt lt' = get_or-fill_zeros w n k ∙ ground arith
get_or-dec (x ∷ w) (suc j) n zero lt lt' = ground arith
get_or-dec (x ∷ w) (suc j) n (suc k) lt lt' =
    let rest = get_or-dec w j n k (omega arith) (omega arith) in ground arith

length-dec : (w : Word128) → length (dec w) ≡ length w
unfolding dec
length-dec [] = refl
length-dec (true ∷ w) = refl
length-dec (false ∷ w) = ap suc (length-dec w)

get_or-word_and :
    (a b : Word128) (k : ℕ)
    → length a ≡ length b
    → get_or (word_and a b) k false ≡ get_or a k false && get_or b k false
unfolding word_and zip_with
get_or-word_and [] [] k same = refl
get_or-word_and [] (y ∷ b) k same = absurd (omega arith)
get_or-word_and (x ∷ a) [] k same = absurd (omega arith)
get_or-word_and (x ∷ a) (y ∷ b) zero same = refl
get_or-word_and (x ∷ a) (y ∷ b) (suc k) same = get_or-word_and a b k (omega arith)

length-word_and : (a b : Word128) → length a ≡ length b → length (word_and a b) ≡ length a
unfolding word_and zip_with
length-word_and [] [] same = refl
length-word_and [] (y ∷ b) same = absurd (omega arith)
length-word_and (x ∷ a) [] same = absurd (omega arith)
length-word_and (x ∷ a) (y ∷ b) same = ap suc (length-word_and a b (omega arith))

abbrev below_end : ℕ → Word128
below_end end = if end == 127 then max_word else dec (shl one_word (end + 1))

length-max_word : length max_word ≡ 128
unfolding max_word
length-max_word = length-replicate 128 true

get_or-below_end : (end k : ℕ) → end < 128 → k < 128 → get_or (below_end end) k false ≡ leb k end
unfolding shl one_word max_word
get_or-below_end end k small lt = elim (Bool-cases (end == 127)) [
  | inl last ↦ rw last (get_or-ones 128 k lt ∙ ground arith)
  | inr inside ↦
      let bits = get_or-dec one_word (end + 1) 127 k (ground arith) lt in
      rw inside (bits ∙ ground arith)
]

length-below_end : (end : ℕ) → length (below_end end) ≡ 128
unfolding shl one_word max_word
length-below_end end = elim (Bool-cases (end == 127)) [
  | inl last ↦ rw last length-max_word
  | inr inside ↦ rw inside (
      length-dec (shl one_word (end + 1))
      ∙ length-fill one_word (replicate (end + 1) false ++ one_word))
]

pub ascii_range_mask-bits :
    (start end k : ℕ)
    → end < 128
    → k < 128
    → get_or (ascii_range_mask start end) k false ≡ leb start k && leb k end
unfolding ascii_range_mask shl max_word
ascii_range_mask-bits start end k small lt =
    let ones = replicate start false ++ max_word in
    let size : length (shl max_word start) ≡ 128 = length-fill max_word ones ∙ length-max_word in
    get_or-word_and (shl max_word start) (below_end end) k (size ∙ sym (length-below_end end))
    ∙ ap₂ ◌&&◌ (get_or-fill max_word ones k lt ∙ get_or-shifted_ones start 128 k (omega arith))
        (get_or-below_end end k small lt)

pub length-ascii_range_mask : (start end : ℕ) → length (ascii_range_mask start end) ≡ 128
unfolding ascii_range_mask shl
length-ascii_range_mask start end =
    let ones = replicate start false ++ max_word in
    let size : length (shl max_word start) ≡ 128 = length-fill max_word ones ∙ length-max_word in
    length-word_and (shl max_word start) (below_end end) (size ∙ sym (length-below_end end)) ∙ size
