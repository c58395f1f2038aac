-- ===== src/Predicate/Word.antt =====
-- rustmatch/src/predicate.rs: the operations on `u128`. A word is its bits, the least significant
-- first; every word of the program has 128 of them.
use rustmatch.Prelude.{ℕ, Bool, true, false, not, ◌&&◌, ◌||◌, List, [], ◌∷◌, ◌++◌, map, replicate}

abbrev pub Word128 : Type 0
Word128 = List Bool

abbrev pub width : ℕ
width = 128

-- 0, `u128::MAX` and 1.
unfoldable pub zero_word : Word128
zero_word = replicate width false

unfoldable pub max_word : Word128
max_word = replicate width true

unfoldable pub one_word : Word128
one_word = true ∷ replicate 127 false

unfoldable pub zip_with : (Bool → Bool → Bool) → Word128 → Word128 → Word128
zip_with f (a ∷ as_bits) (b ∷ bs) = f a b ∷ zip_with f as_bits bs
zip_with f _ _ = []

unfoldable pub word_or : Word128 → Word128 → Word128
unfolding zip_with
word_or = zip_with ◌||◌

unfoldable pub word_and : Word128 → Word128 → Word128
unfolding zip_with
word_and = zip_with ◌&&◌

unfoldable pub word_not : Word128 → Word128
word_not = map not

-- The bits that `w` leaves room for: the result is as long as `w`.
unfoldable pub fill : Word128 → Word128 → Word128
fill [] bits = []
fill (_ ∷ w) [] = false ∷ fill w []
fill (_ ∷ w) (b ∷ bits) = b ∷ fill w bits

-- `w << k`, for `k` below the width.
unfoldable pub shl : Word128 → ℕ → Word128
unfolding fill
shl w k = fill w (replicate k false ++ w)

-- `w - 1`, for a word that is not 0: borrow through the low zeros.
unfoldable pub dec : Word128 → Word128
dec [] = []
dec (true ∷ w) = false ∷ w
dec (false ∷ w) = true ∷ dec w

unfoldable pub is_zero : Word128 → Bool
is_zero [] = true
is_zero (b ∷ w) = not b && is_zero w
