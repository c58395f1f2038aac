-- ===== src/Prefilter/Counted.antt =====
-- rustmatch/src/prefilter.rs: the candidate bitmap yields each start that was inserted, and counts
-- them.
use rustmatch.Prelude.{
  ℕ, zero, suc, ◌+◌, ◌-◌, ◌*◌, ◌/◌, ◌%◌, ◌≤◌, ◌<◌, ◌≡◌, refl, sym, subst, ap, ◌∙◌, inl, inr, ⊎_elim,
  Bool, true, false, not, ◌||◌, List, [], ◌∷◌, ◌++◌, arith, Memᴰ, Memᴰ-nil, Memᴰ-cons, Memᴰ-append,
  Bool-cases, get_or, set, drop, replicate, length, length-append, get_or-append_left, ltb,
  get_or_beyond,
}
use rustmatch.Context.{Units}
use rustmatch.Prefilter.Bits.{
  Bits, IsWords, new_words, new_words-IsWords, set_bit, contains_bit, set_bit-IsWords,
  contains_bit-set_bit_self, contains_bit-set_bit_kept,
}
use rustmatch.Prefilter.Filter.{LiteralPrefilter, prefix_allows}
use rustmatch.Prefilter.Candidates.{
  CandidateBitmap, new_bitmap, insert, copy_prefix, word_starts, words_starts, iter, scan_starts,
}

mem-word_starts :
    (n : ℕ) (bits : List Bool) (i : ℕ)
    → get_or bits i false ≡ true
    → Memᴰ (n + i) (word_starts n bits)
unfolding word_starts
mem-word_starts n [] i h = cc
mem-word_starts n (true ∷ bits) zero h =
    (Memᴰ-cons (n + 0) n (word_starts (suc n) bits)).1 (inl (omega arith))
mem-word_starts n (false ∷ bits) zero h = cc
mem-word_starts n (true ∷ bits) (suc i) h =
    let place : suc n + i ≡ n + suc i = omega arith in
    (Memᴰ-cons (n + suc i) n (word_starts (suc n) bits)).1 (
      inr (subst (λ x. Memᴰ x (word_starts (suc n) bits)) place (mem-word_starts (suc n) bits i h)))
mem-word_starts n (false ∷ bits) (suc i) h =
    let place : suc n + i ≡ n + suc i = omega arith in
    subst (λ x. Memᴰ x (word_starts (suc n) bits)) place (mem-word_starts (suc n) bits i h)

mem-words_starts :
    (base : ℕ) (words : Bits) (w i : ℕ)
    → get_or (get_or words w []) i false ≡ true
    → Memᴰ (base + w * 64 + i) (words_starts base words)
unfolding words_starts
mem-words_starts base [] w i h = cc
mem-words_starts base (word ∷ words) zero i h =
    let place : base + i ≡ base + 0 * 64 + i = omega arith in
    (Memᴰ-append (base + 0 * 64 + i) (word_starts base word) (words_starts (base + 64) words)).1
      (inl (subst (λ x. Memᴰ x (word_starts base word)) place (mem-word_starts base word i h)))
mem-words_starts base (word ∷ words) (suc w) i h =
    let place : base + 64 + w * 64 + i ≡ base + suc w * 64 + i = omega arith in
    (Memᴰ-append (base + suc w * 64 + i) (word_starts base word) (words_starts (base + 64) words)).1
      (inr (
        subst (λ x. Memᴰ x (words_starts (base + 64) words)) place
          (mem-words_starts (base + 64) words w i h)))

pub mem-iter :
    (c : CandidateBitmap) (start : ℕ) → contains_bit c.words start ≡ true → Memᴰ start (iter c)
unfolding contains_bit iter
mem-iter c start h =
    let place : 0 + start / 64 * 64 + start % 64 ≡ start = omega arith in
    subst (λ x. Memᴰ x (words_starts 0 c.words)) place
      (mem-words_starts 0 c.words (start / 64) (start % 64) h)

length-word_starts-set :
    (n : ℕ) (bits : List Bool) (i : ℕ)
    → i < length bits
    → get_or bits i false ≡ false
    → length (word_starts n (set bits i true)) ≡ suc (length (word_starts n bits))
unfolding word_starts
length-word_starts-set n [] i lt h = absurd (omega arith)
length-word_starts-set n (true ∷ bits) zero lt h = cc
length-word_starts-set n (false ∷ bits) zero lt h = refl
length-word_starts-set n (true ∷ bits) (suc i) lt h =
    ap suc (length-word_starts-set (suc n) bits i (omega arith) h)
length-word_starts-set n (false ∷ bits) (suc i) lt h =
    length-word_starts-set (suc n) bits i (omega arith) h

length-words_starts-set :
    (base : ℕ) (words : Bits) (w : ℕ) (word : List Bool)
    → w < length words
    → ((n : ℕ) → length (word_starts n word) ≡ suc (length (word_starts n (get_or words w []))))
    → length (words_starts base (set words w word)) ≡ suc (length (words_starts base words))
unfolding words_starts
length-words_starts-set base [] w word lt h = absurd (omega arith)
length-words_starts-set base (x ∷ words) zero word lt h =
    let rest = words_starts (base + 64) words in
    omega (
      arith,
      length-append (word_starts base word) rest,
      length-append (word_starts base x) rest,
      h base,
    )
length-words_starts-set base (x ∷ words) (suc w) word lt h = omega (
  arith,
  length-append (word_starts base x) (words_starts (base + 64) (set words w word)),
  length-append (word_starts base x) (words_starts (base + 64) words),
  length-words_starts-set (base + 64) words w word (omega arith) h,
)

no_starts : (n k : ℕ) → length (word_starts n (replicate k false)) ≡ 0
unfolding word_starts
no_starts n zero = refl
no_starts n (suc k) = no_starts (suc n) k

no_words_starts : (base n k : ℕ) → length (words_starts base (replicate n (replicate k false))) ≡ 0
unfolding words_starts
no_words_starts base zero k = refl
no_words_starts base (suc n) k = omega (
  arith,
  length-append (word_starts base (replicate k false))
      (words_starts (base + 64) (replicate n (replicate k false))),
  no_starts base k,
  no_words_starts (base + 64) n k,
)

-- There are n words, and the count is the number of starts.
pub record IsBitmap (n : ℕ) (c : CandidateBitmap) : Type 0 where
  pub formed : IsWords n c.words
  pub counted : length (iter c) ≡ c.start_count

pub new_bitmap-IsBitmap : (bit_len : ℕ) → IsBitmap ((bit_len + 63) / 64) (new_bitmap bit_len)
unfolding new_bitmap iter new_words
new_bitmap-IsBitmap bit_len = record {
  formed = new_words-IsWords ((bit_len + 63) / 64);
  counted = no_words_starts 0 ((bit_len + 63) / 64) 64;
}

set_one :
    (words : Bits) (start : ℕ)
    → start / 64 < length words
    → start % 64 < length (get_or words (start / 64) [])
    → contains_bit words start ≡ false
    → length (words_starts 0 (set_bit words start)) ≡ suc (length (words_starts 0 words))
unfolding set_bit contains_bit
set_one words start lt lt' h =
    length-words_starts-set 0 words (start / 64)
      (set (get_or words (start / 64) []) (start % 64) true) lt
      (λ n. length-word_starts-set n (get_or words (start / 64) []) (start % 64) lt' h)

record Inserted (n start : ℕ) (c c' : CandidateBitmap) : Type 0 where
  bitmap : IsBitmap n c'
  kept : (i : ℕ) → contains_bit c.words i ≡ true → contains_bit c'.words i ≡ true
  here : contains_bit c'.words start ≡ true

insert-Inserted :
    (n start : ℕ) (c : CandidateBitmap)
    → start < n * 64
    → IsBitmap n c
    → Inserted n start c (insert c start)
unfolding insert iter
insert-Inserted n start c lt h = elim (Bool-cases (contains_bit c.words start)) [
  | inl old ↦ rw old (record { bitmap = h; kept = λ i t. t; here = old })
  | inr new ↦
      let formed = h.formed in
      let size = formed.size in
      let inside : start / 64 < n = omega arith in
      let wide = formed.wide (start / 64) inside in
      rw new (record {
        bitmap = record {
          formed = set_bit-IsWords n c.words start lt formed;
          counted =
              set_one c.words start (omega arith) (omega arith) new
              ∙ ap suc h.counted
              ∙ (let one : suc c.start_count ≡ c.start_count + 1 = omega arith in one);
        };
        kept = λ i t. contains_bit-set_bit_kept n c.words start i lt formed t;
        here = contains_bit-set_bit_self n c.words start lt formed;
      })
]

-- What the loop over the starts leaves.
pub record Scanned (n : ℕ) (f : LiteralPrefilter) (input : Units) (starts : List ℕ)
    (c c' : CandidateBitmap) : Type 0 where
  pub bitmap : IsBitmap n c'
  pub kept : (i : ℕ) → contains_bit c.words i ≡ true → contains_bit c'.words i ≡ true
  pub here :
      (start : ℕ)
      → Memᴰ start starts
      → start + 3 ≤ length input
      → prefix_allows f input start ≡ true
      → contains_bit c'.words start ≡ true

abbrev refused : LiteralPrefilter → Units → ℕ → Bool
refused f input start = ltb (length input) (start + 3) || not (prefix_allows f input start)

pub scan_starts-Scanned :
    (n : ℕ) (f : LiteralPrefilter) (input : Units) (starts : List ℕ) (c : CandidateBitmap)
    (admissions : ℕ)
    → ((start : ℕ) → Memᴰ start starts → start < n * 64)
    → IsBitmap n c
    → Scanned n f input starts c (scan_starts f input starts (c, admissions)).0
unfolding scan_starts
scan_starts-Scanned n f input [] c admissions small h = record {
  bitmap = h;
  kept = λ i t. t;
  here = λ start m fits t. absurd (Memᴰ-nil m);
}
scan_starts-Scanned n f input (x ∷ starts) c admissions small h =
    let small' : (start : ℕ) → Memᴰ start starts → start < n * 64 =
      λ start m. small start ((Memᴰ-cons start x starts).1 (inr m)) in
    elim (Bool-cases (refused f input x)) [
      | inl no_start ↦
          let rest = scan_starts-Scanned n f input starts c admissions small' h in
          rw (no_start, scan_starts)
            (record {
              bitmap = rest.bitmap;
              kept = rest.kept;
              here = λ start m fits t.
                  ⊎_elim
                    (λ e.
                      let fits' : x + 3 ≤ length input = subst (λ y. y + 3 ≤ length input) e fits in
                      let t' : prefix_allows f input x ≡ true =
                        subst (λ y. prefix_allows f input y ≡ true) e t in
                      absurd (ground arith))
                    (λ k. rest.here start k fits t) ((Memᴰ-cons start x starts).0 m);
            })
      | inr taken ↦
          let now = insert-Inserted n x c (small x ((Memᴰ-cons x x starts).1 (inl refl))) h in
          let rest = scan_starts-Scanned n f input starts (insert c x) _ small' now.bitmap in
          rw (taken, scan_starts)
            (record {
              bitmap = rest.bitmap;
              kept = λ i t. rest.kept i (now.kept i t);
              here = λ start m fits t.
                  ⊎_elim
                    (λ e.
                      rest.kept start
                        (subst (λ y. contains_bit (insert c x).words y ≡ true) (sym e) now.here))
                    (λ k. rest.here start k fits t) ((Memᴰ-cons start x starts).0 m);
            })
    ]

drop-replicate : (m n : ℕ) (w : List Bool) → m ≤ n → drop m (replicate n w) ≡ replicate (n - m) w
drop-replicate zero n w h = let e : n - 0 ≡ n = omega arith in ap (λ k. replicate k w) (sym e)
drop-replicate (suc m) zero w h = absurd (omega arith)
drop-replicate (suc m) (suc n) w h =
    let e : n - m ≡ suc n - suc m = omega arith in
    drop-replicate m n w (omega arith) ∙ ap (λ k. replicate k w) e

length-words_starts-append :
    (base : ℕ) (pre : Bits) (n : ℕ)
    → length (words_starts base (pre ++ replicate n (replicate 64 false)))
      ≡ length (words_starts base pre)
unfolding words_starts
length-words_starts-append base [] n = no_words_starts base n 64
length-words_starts-append base (x ∷ pre) n =
    let all = replicate n (replicate 64 false) in
    omega (
      arith,
      length-append (word_starts base x) (words_starts (base + 64) (pre ++ all)),
      length-append (word_starts base x) (words_starts (base + 64) pre),
      length-words_starts-append (base + 64) pre n,
    )

get_or-append_right :
    (xs ys : Bits) (i : ℕ) → length xs ≤ i → get_or (xs ++ ys) i [] ≡ get_or ys (i - length xs) []
get_or-append_right [] ys i h = let e : i - 0 ≡ i = omega arith in ap (λ k. get_or ys k []) (sym e)
get_or-append_right (x ∷ xs) ys zero h = absurd (omega arith)
get_or-append_right (x ∷ xs) ys (suc i) h =
    let e : i - length xs ≡ suc i - suc (length xs) = omega arith in
    get_or-append_right xs ys i (omega arith) ∙ ap (λ k. get_or ys k []) e

append-IsWords : (m n : ℕ) (xs ys : Bits) → IsWords m xs → IsWords n ys → IsWords (m + n) (xs ++ ys)
append-IsWords m n xs ys h k =
    let size = h.size in
    let size' = k.size in
    record {
      size = omega (arith, length-append xs ys);
      wide = λ i lt. elim (Bool-cases (ltb i (length xs))) [
        | inl first ↦
            let here : i < length xs = ground arith in
            ap length (get_or-append_left xs ys i [] here) ∙ h.wide i (omega arith)
        | inr later ↦
            let there : length xs ≤ i = ground arith in
            ap length (get_or-append_right xs ys i there) ∙ k.wide (i - length xs) (omega arith)
      ];
    }

-- The bitmap of the whole input that begins with a sample's words.
pub record Copied (n : ℕ) (sample c : CandidateBitmap) : Type 0 where
  pub bitmap : IsBitmap n c
  pub kept : (i : ℕ) → contains_bit sample.words i ≡ true → contains_bit c.words i ≡ true

bit-inside : (words : Bits) (i : ℕ) → contains_bit words i ≡ true → i / 64 < length words
unfolding contains_bit
bit-inside words i h = elim (Bool-cases (ltb (i / 64) (length words))) [
  | inl lt ↦ ground arith
  | inr ge ↦
      let beyond = get_or_beyond words (i / 64) [] (ground arith) in
      let no : false ≡ true = sym (ap (λ w. get_or w (i % 64) false) beyond) ∙ h in cc no
]

pub copy_prefix-Copied :
    (m bit_len : ℕ) (sample : CandidateBitmap)
    → m ≤ (bit_len + 63) / 64
    → IsBitmap m sample
    → Copied ((bit_len + 63) / 64) sample (copy_prefix (new_bitmap bit_len) sample)
unfolding copy_prefix new_bitmap iter new_words
copy_prefix-Copied m bit_len sample le h =
    let n = (bit_len + 63) / 64 in
    let formed = h.formed in
    let rest = replicate (n - m) (replicate 64 false) in
    let dropped : drop (length sample.words) (replicate n (replicate 64 false)) ≡ rest =
      ap (λ k. drop k (replicate n (replicate 64 false))) formed.size
      ∙ drop-replicate m n (replicate 64 false) le in
    let whole : m + (n - m) ≡ n = omega arith in
    record {
      bitmap = record {
        formed =
            subst (λ ws. IsWords n (sample.words ++ ws)) (sym dropped)
              (subst (λ k. IsWords k (sample.words ++ rest)) whole
                (append-IsWords m (n - m) sample.words rest formed (new_words-IsWords (n - m))));
        counted =
            ap (λ ws. length (words_starts 0 (sample.words ++ ws))) dropped
            ∙ length-words_starts-append 0 sample.words (n - m)
            ∙ h.counted;
      };
      kept = λ i t.
          kept_left sample.words (drop (length sample.words) (replicate n (replicate 64 false))) i
            t;
    }
  where
    kept_left :
        (words more : Bits) (i : ℕ)
        → contains_bit words i ≡ true
        → contains_bit (words ++ more) i ≡ true
    kept_left words more i t =
        let inside = bit-inside words i t in
        unfold contains_bit in
        (ap (λ w. get_or w (i % 64) false) (get_or-append_left words more (i / 64) [] inside) ∙ t)
