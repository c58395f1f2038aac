-- ===== src/Prefilter/Covers.antt =====
-- rustmatch/src/prefilter.rs: the literal filter admits every start at which one of its literals
-- stands.
use rustmatch.Prelude.{
  ℕ, ◌*◌, ◌<◌, ◌≤◌, ◌≡◌, refl, sym, subst, inl, inr, Bool, true, false, List, [], ◌∷◌, take, length,
  arith, Bool-cases, ==_iff, ◌==◌, Memᴰ, Memᴰ-nil, Memᴰ-cons, ⊎_elim,
}
use rustmatch.Prefilter.Literal.{NecessaryLiteral}
use rustmatch.Prefilter.Bits.{
  Bits, IsWords, new_words-IsWords, contains_bit, set_bit-IsWords, contains_bit-set_bit_self,
  contains_bit-set_bit_kept,
}
use rustmatch.Prefilter.Filter.{
  LiteralPrefilter, all_ascii, ascii_triple_index, prefix_hash_index, set_if, add_hint, add_hints,
  blank_filter, compile_literals, ascii_triple_words, four_prefix_hash_words,
  five_prefix_hash_words,
}

-- The bits of the first words are among the bits of the second.
abbrev Kept : Bits → Bits → Type 0
Kept words words' = (i : ℕ) → contains_bit words i ≡ true → contains_bit words' i ≡ true

-- A table after a bit that was set under a test.
record Set (n : ℕ) (test : Bool) (words : Bits) (bit : ℕ) (words' : Bits) : Type 0 where
  formed : IsWords n words'
  kept : Kept words words'
  here : test ≡ true → contains_bit words' bit ≡ true

set_if-Set :
    (n : ℕ) (test : Bool) (words : Bits) (bit : ℕ)
    → IsWords n words
    → (test ≡ true → bit < n * 64)
    → Set n test words bit (set_if test words bit)
set_if-Set n true words bit h lt = record {
  formed = set_bit-IsWords n words bit (lt refl) h;
  kept = λ i there. contains_bit-set_bit_kept n words bit i (lt refl) h there;
  here = λ _. contains_bit-set_bit_self n words bit (lt refl) h;
}
set_if-Set n false words bit h lt = record { formed = h; kept = λ i there. there; here = λ no. cc }

pub record IsFilter (f : LiteralPrefilter) : Type 0 where
  pub three : IsWords ascii_triple_words f.ascii_three_exact
  pub four : IsWords four_prefix_hash_words f.ascii_four_hash
  pub five : IsWords five_prefix_hash_words f.ascii_five_hash

record Grows (f g : LiteralPrefilter) : Type 0 where
  pub three : Kept f.ascii_three_exact g.ascii_three_exact
  pub four : Kept f.ascii_four_hash g.ascii_four_hash
  pub five : Kept f.ascii_five_hash g.ascii_five_hash
  has_three : f.has_three ≡ true → g.has_three ≡ true
  has_four : f.has_four ≡ true → g.has_four ≡ true
  has_five : f.has_five ≡ true → g.has_five ≡ true

-- The table for literals of this length has the literal, if its first units are in ASCII.
abbrev pub Holds : Bool → Bits → ℕ → List ℕ → Type 0
Holds has words index part =
    (has ≡ true) × (all_ascii part ≡ true → contains_bit words index ≡ true)

pub record Covers (f : LiteralPrefilter) (units : List ℕ) : Type 0 where
  pub three :
      length units ≡ 3
      → Holds f.has_three f.ascii_three_exact (ascii_triple_index units) (take 3 units)
  pub four :
      length units ≡ 4
      → Holds f.has_four f.ascii_four_hash
          (prefix_hash_index (take 4 units) (four_prefix_hash_words * 64))
          (take 4 units)
  pub five :
      5 ≤ length units
      → Holds f.has_five f.ascii_five_hash
          (prefix_hash_index (take 5 units) (five_prefix_hash_words * 64))
          (take 5 units)

Covers-Grows :
    (f g : LiteralPrefilter) (units : List ℕ) → Grows f g → Covers f units → Covers g units
Covers-Grows f g units k c = record {
  three = λ e. (k.has_three (c.three e).0, λ a. k.three _ ((c.three e).1 a));
  four = λ e. (k.has_four (c.four e).0, λ a. k.four _ ((c.four e).1 a));
  five = λ e. (k.has_five (c.five e).0, λ a. k.five _ ((c.five e).1 a));
}

triple-lt :
    (units : List ℕ) → all_ascii (take 3 units) ≡ true → ascii_triple_index units < 32768 * 64
unfolding ascii_triple_index
triple-lt [] h = omega arith
triple-lt (a ∷ []) h = omega arith
triple-lt (a ∷ b ∷ []) h = omega arith
triple-lt (a ∷ b ∷ c ∷ us) h = ground arith

hash-lt : (units : List ℕ) (n : ℕ) → 0 < n → prefix_hash_index units n < n
unfolding prefix_hash_index
hash-lt units n pos = omega arith

record Added (f : LiteralPrefilter) (units : List ℕ) (g : LiteralPrefilter) : Type 0 where
  formed : IsFilter g
  grows : Grows f g
  covers : Covers g units

add_hint-Added :
    (f : LiteralPrefilter) (units : List ℕ)
    → 3 ≤ length units
    → IsFilter f
    → Added f units (add_hint f units)
unfolding add_hint
add_hint-Added f units long h = elim (Bool-cases (length units == 3)) [
  | inl e ↦
      let n = (==_iff (length units) 3).0 e in
      let s =
        set_if-Set ascii_triple_words (all_ascii (take 3 units)) f.ascii_three_exact
          (ascii_triple_index units) h.three (triple-lt units) in
      rw e (record {
        formed = record { three = s.formed; four = h.four; five = h.five };
        grows = record {
          three = s.kept;
          four = λ i t. t;
          five = λ i t. t;
          has_three = λ _. refl;
          has_four = λ t. t;
          has_five = λ t. t;
        };
        covers = record {
          three = λ _. (refl, s.here);
          four = λ k. absurd (omega arith);
          five = λ k. absurd (omega arith);
        };
      })
  | inr e ↦ elim (Bool-cases (length units == 4)) [
    | inl e' ↦
        let n = (==_iff (length units) 4).0 e' in
        let s =
          set_if-Set four_prefix_hash_words (all_ascii (take 4 units)) f.ascii_four_hash
            (prefix_hash_index (take 4 units) (four_prefix_hash_words * 64)) h.four
            (λ _. hash-lt (take 4 units) (four_prefix_hash_words * 64) (omega arith)) in
        rw (e, e')
          (record {
            formed = record { three = h.three; four = s.formed; five = h.five };
            grows = record {
              three = λ i t. t;
              four = s.kept;
              five = λ i t. t;
              has_three = λ t. t;
              has_four = λ _. refl;
              has_five = λ t. t;
            };
            covers = record {
              three = λ k. absurd (omega arith);
              four = λ _. (refl, s.here);
              five = λ k. absurd (omega arith);
            };
          })
    | inr e' ↦
        let s =
          set_if-Set five_prefix_hash_words (all_ascii (take 5 units)) f.ascii_five_hash
            (prefix_hash_index (take 5 units) (five_prefix_hash_words * 64)) h.five
            (λ _. hash-lt (take 5 units) (five_prefix_hash_words * 64) (omega arith)) in
        rw (e, e')
          (record {
            formed = record { three = h.three; four = h.four; five = s.formed };
            grows = record {
              three = λ i t. t;
              four = λ i t. t;
              five = s.kept;
              has_three = λ t. t;
              has_four = λ t. t;
              has_five = λ _. refl;
            };
            covers = record {
              three = λ k. absurd (ground arith);
              four = λ k. absurd (ground arith);
              five = λ _. (refl, s.here);
            };
          })
  ]
]

abbrev pub Long : List NecessaryLiteral → Type 0
Long [] = Unit
Long (hint ∷ hints) = (3 ≤ length hint.units) × Long hints

record AllAdded (f : LiteralPrefilter) (hints : List NecessaryLiteral) (g : LiteralPrefilter)
    : Type 0 where
  kept : (units : List ℕ) → Covers f units → Covers g units
  covers : (hint : NecessaryLiteral) → Memᴰ hint hints → Covers g hint.units

add_hints-AllAdded :
    (hints : List NecessaryLiteral) (f : LiteralPrefilter)
    → Long hints
    → IsFilter f
    → AllAdded f hints (add_hints hints f)
unfolding add_hints
add_hints-AllAdded [] f long h = record {
  kept = λ units c. c;
  covers = λ hint m. absurd (Memᴰ-nil m);
}
add_hints-AllAdded (x ∷ hints) f long h =
    let now = add_hint-Added f x.units long.0 h in
    let rest = add_hints-AllAdded hints (add_hint f x.units) long.1 now.formed in
    record {
      kept = λ units c. rest.kept units (Covers-Grows f (add_hint f x.units) units now.grows c);
      covers = λ hint m.
          ⊎_elim
            (λ e.
              subst
                (λ (y : NecessaryLiteral). Covers (add_hints hints (add_hint f x.units)) y.units)
                (sym e) (rest.kept x.units now.covers))
            (λ k. rest.covers hint k) ((Memᴰ-cons hint x hints).0 m);
    }

blank-IsFilter : IsFilter blank_filter
unfolding blank_filter
blank-IsFilter = record {
  three = new_words-IsWords ascii_triple_words;
  four = new_words-IsWords four_prefix_hash_words;
  five = new_words-IsWords five_prefix_hash_words;
}

pub compile_literals-Covers :
    (hints : List NecessaryLiteral) (hint : NecessaryLiteral)
    → Long hints
    → Memᴰ hint hints
    → Covers (compile_literals hints) hint.units
unfolding compile_literals
compile_literals-Covers hints hint long m =
    (add_hints-AllAdded hints blank_filter long blank-IsFilter).covers hint m
