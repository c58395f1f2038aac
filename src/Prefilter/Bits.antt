-- ===== src/Prefilter/Bits.antt =====
-- rustmatch/src/prefilter.rs: a set of numbers as the bits of `u64` words. A word is the list of its
-- 64 bits, the least significant first.
use rustmatch.Prelude.{
  ℕ, zero, suc, ◌*◌, ◌/◌, ◌%◌, ◌<◌, ◌≡◌, refl, sym, subst, ap, ◌∙◌, ◌≢◌, Bool, true, false, List,
  [], get_or, set, replicate, length, length-set, length-replicate, get_or-set_self, get_or-set_ne,
  arith, inl, inr, Bool-cases, ◌==◌, ==_iff,
}

abbrev pub Bits : Type 0
Bits = List (List Bool)

-- `vec![0_u64; n]`.
unfoldable pub new_words : ℕ → Bits
new_words n = replicate n (replicate 64 false)

unfoldable pub set_bit : Bits → ℕ → Bits
set_bit words bit = set words (bit / 64) (set (get_or words (bit / 64) []) (bit % 64) true)

unfoldable pub contains_bit : Bits → ℕ → Bool
contains_bit words bit = get_or (get_or words (bit / 64) []) (bit % 64) false

-- There are n words, each of 64 bits.
pub record IsWords (n : ℕ) (words : Bits) : Type 0 where
  pub size : length words ≡ n
  pub wide : (i : ℕ) → i < n → length (get_or words i []) ≡ 64

get_or-replicate : (n i : ℕ) (w : List Bool) → i < n → get_or (replicate n w) i [] ≡ w
get_or-replicate zero i w h = absurd (omega arith)
get_or-replicate (suc n) zero w h = refl
get_or-replicate (suc n) (suc i) w h = get_or-replicate n i w (omega arith)

pub new_words-IsWords : (n : ℕ) → IsWords n (new_words n)
unfolding new_words
new_words-IsWords n = record {
  size = length-replicate n (replicate 64 false);
  wide = λ i h. ap length (get_or-replicate n i (replicate 64 false) h);
}

pub set_bit-IsWords :
    (n : ℕ) (words : Bits) (bit : ℕ)
    → bit < n * 64
    → IsWords n words
    → IsWords n (set_bit words bit)
unfolding set_bit
set_bit-IsWords n words bit lt h =
    let size = h.size in
    let here : bit / 64 < n = omega arith in
    let word = set (get_or words (bit / 64) []) (bit % 64) true in
    record {
      size = length-set words (bit / 64) word ∙ h.size;
      wide = λ i k. elim (Bool-cases ((bit / 64) == i)) [
        | inl e ↦
            let same = (==_iff (bit / 64) i).0 e in
            subst (λ j. length (get_or (set words (bit / 64) word) j []) ≡ 64) same
              (ap length (get_or-set_self words (bit / 64) word [] (omega arith))
                ∙ length-set (get_or words (bit / 64) []) (bit % 64) true
                ∙ h.wide (bit / 64) here)
        | inr other ↦
            ap length (get_or-set_ne words (bit / 64) i word [] (λ e. ground arith)) ∙ h.wide i k
      ];
    }

-- A bit that is set is set, and the others are as they were.
pub contains_bit-set_bit_self :
    (n : ℕ) (words : Bits) (bit : ℕ)
    → bit < n * 64
    → IsWords n words
    → contains_bit (set_bit words bit) bit ≡ true
unfolding set_bit contains_bit
contains_bit-set_bit_self n words bit lt h =
    let size = h.size in
    let here : bit / 64 < n = omega arith in
    let wide = h.wide (bit / 64) here in
    let word = set (get_or words (bit / 64) []) (bit % 64) true in
    ap (λ w. get_or w (bit % 64) false) (get_or-set_self words (bit / 64) word [] (omega arith))
    ∙ get_or-set_self (get_or words (bit / 64) []) (bit % 64) true false (omega arith)

pub contains_bit-set_bit_ne :
    (n : ℕ) (words : Bits) (bit other : ℕ)
    → bit < n * 64
    → IsWords n words
    → bit ≢ other
    → contains_bit (set_bit words bit) other ≡ contains_bit words other
unfolding set_bit contains_bit
contains_bit-set_bit_ne n words bit other lt h differ =
    let size = h.size in
    let word = set (get_or words (bit / 64) []) (bit % 64) true in
    elim (Bool-cases ((bit / 64) == (other / 64))) [
      | inl e ↦
          let same : bit / 64 ≡ other / 64 = (==_iff (bit / 64) (other / 64)).0 e in
          let apart : bit % 64 ≢ other % 64 = λ k. differ (omega arith) in
          ap (λ i. get_or (get_or (set words (bit / 64) word) i []) (other % 64) false) (sym same)
          ∙ ap (λ w. get_or w (other % 64) false)
              (get_or-set_self words (bit / 64) word [] (omega arith))
          ∙ get_or-set_ne (get_or words (bit / 64) []) (bit % 64) (other % 64) true false apart
          ∙ ap (λ i. get_or (get_or words i []) (other % 64) false) same
      | inr e ↦
          ap (λ w. get_or w (other % 64) false)
            (get_or-set_ne words (bit / 64) (other / 64) word [] (λ k. ground arith))
    ]

pub contains_bit-set_bit_kept :
    (n : ℕ) (words : Bits) (bit other : ℕ)
    → bit < n * 64
    → IsWords n words
    → contains_bit words other ≡ true
    → contains_bit (set_bit words bit) other ≡ true
contains_bit-set_bit_kept n words bit other lt h there = elim (Bool-cases (bit == other)) [
  | inl e ↦
      subst (λ o. contains_bit (set_bit words bit) o ≡ true) ((==_iff bit other).0 e)
        (contains_bit-set_bit_self n words bit lt h)
  | inr e ↦ contains_bit-set_bit_ne n words bit other lt h (λ k. ground arith) ∙ there
]
