-- ===== src/Parser/Digits.antt =====
-- rustmatch/src/parser.rs: `parse_count` reads a decimal number, whose value is given by the places of
-- its digits, without the cap and the saturating arithmetic of the loop.
use rustmatch.Prelude.{
  ℕ, suc, ◌+◌, ◌-◌, ◌*◌, ◌^◌, ◌≤◌, ◌<◌, ◌≡◌, refl, sym, ap, ◌∙◌, inl, inr, true, false, ◌&&◌, ◌||◌,
  List, [], ◌∷◌, ◌++◌, arith, length, drop, leb, ltb, ◌==◌, min, max, Bool-cases,
}
use rustmatch.Error.{ok}
use rustmatch.Parser.Class.{invalid}
use rustmatch.Parser.Count.{next_count, count_digits, parse_count}

abbrev pub AreDigits : List ℕ → Type 0
AreDigits [] = Unit
AreDigits (d ∷ ds) = (b'0' ≤ d) × (d ≤ b'9') × AreDigits ds

-- The text does not begin with a digit.
abbrev pub Stops : List ℕ → Type 0
Stops [] = Unit
Stops (u ∷ us) = (leb b'0' u && leb u b'9') ≡ false

-- The value of a decimal numeral, by the places of its digits.
unfoldable pub decimal : List ℕ → ℕ
decimal [] = 0
decimal (d ∷ ds) = (d - b'0') * 10 ^ length ds + decimal ds

folded : List ℕ → ℕ → ℕ
folded [] value = value
folded (d ∷ ds) value = folded ds (value * 10 + (d - b'0'))

next_place :
    (value d n r : ℕ) → (value * 10 + d) * 10 ^ n + r ≡ value * 10 ^ suc n + (d * 10 ^ n + r)
next_place value d n r =
    let power : 10 ^ suc n ≡ 10 * 10 ^ n = omega arith in
    omega (arith, ap (λ (p : ℕ). value * p) power)

folded-decimal : (ds : List ℕ) (value : ℕ) → folded ds value ≡ value * 10 ^ length ds + decimal ds
unfolding folded decimal
folded-decimal [] value = omega arith
folded-decimal (d ∷ ds) value =
    let rest = folded-decimal ds (value * 10 + (d - b'0')) in
    rest ∙ next_place value (d - b'0') (length ds) (decimal ds)

next_count-min :
    (value d : ℕ) → d ≤ b'9' → next_count (min value 1001) d ≡ min (value * 10 + (d - b'0')) 1001
next_count-min value d le = omega arith

count_digits-folded :
    (ds rest : List ℕ) (index value : ℕ)
    → AreDigits ds
    → Stops rest
    → count_digits (ds ++ rest) index (min value 1001)
      ≡ (min (folded ds value) 1001, index + length ds)
unfolding count_digits folded
count_digits-folded [] [] index value digits stops = ap (λ i. (min value 1001, i)) (omega arith)
count_digits-folded [] (u ∷ us) index value digits stops =
    rw (stops, count_digits) (ap (λ i. (min value 1001, i)) (omega arith))
count_digits-folded (d ∷ ds) rest index value (low, high, digits) stops =
    let digit : (leb b'0' d && leb d b'9') ≡ true = ground arith in
    let later = count_digits-folded ds rest (index + 1) (value * 10 + (d - b'0')) digits stops in
    let e : index + 1 + length ds ≡ index + suc (length ds) = omega arith in
    rw (digit, count_digits)
      (ap (count_digits (ds ++ rest) (index + 1)) (next_count-min value d high)
        ∙ later
        ∙ ap (λ i. (min (folded ds (value * 10 + (d - b'0'))) 1001, i)) e)

pub count_digits-decimal :
    (ds rest : List ℕ) (index : ℕ)
    → AreDigits ds
    → Stops rest
    → count_digits (ds ++ rest) index 0 ≡ (min (decimal ds) 1001, index + length ds)
count_digits-decimal ds rest index digits stops =
    count_digits-folded ds rest index 0 digits stops
    ∙ ap (λ v. (min v 1001, index + length ds)) (folded-decimal ds 0 ∙ omega arith)

-- Every text is its leading digits and a text that does not begin with a digit.
pub leading_digits :
    (us : List ℕ) → (ds : List ℕ) × (rest : List ℕ) × (us ≡ ds ++ rest) × AreDigits ds × Stops rest
leading_digits [] = ([], [], refl, tt, tt)
leading_digits (u ∷ us) = elim (Bool-cases (leb b'0' u && leb u b'9')) [
  | inl digit ↦
      let (ds, rest, same, digits, stops) = leading_digits us in
      (u ∷ ds, rest, ap (λ xs. u ∷ xs) same, (ground arith, ground arith, digits), stops)
  | inr other ↦ ([], u ∷ us, refl, tt, other)
]

-- A numeral that `parse_count` accepts: at least one digit, and a value of at most 1000.
pub record IsCount (ds : List ℕ) : Type 0 where
  pub digits : AreDigits ds
  pub some_digit : 0 < length ds
  pub small : decimal ds ≤ 1000

module _ (id : ℕ) (units : List ℕ) where
  pub parse_count-ok :
      (quantifier_start start : ℕ) (ds rest : List ℕ)
      → drop start units ≡ ds ++ rest
      → IsCount ds
      → Stops rest
      → parse_count id units quantifier_start start ≡ ok (decimal ds, start + length ds)
  unfolding parse_count
  parse_count-ok quantifier_start start ds rest at h stops =
      let size = h.some_digit in
      let small = h.small in
      let read : count_digits (drop start units) start 0 ≡ (decimal ds, start + length ds) =
        ap (λ us. count_digits us start 0) at
        ∙ count_digits-decimal ds rest start h.digits stops
        ∙ ap (λ v. (v, start + length ds)) (omega arith) in
      let moved : ((start + length ds) == start) ≡ false = ground arith in
      let within : ltb 1000 (decimal ds) ≡ false = ground arith in rw (read, moved, within) refl

  -- What an accepted count is.
  pub record IsRead (start : ℕ) (r : ℕ × ℕ) : Type 0 where
    pub numeral : List ℕ
    pub rest : List ℕ
    pub at : drop start units ≡ numeral ++ rest
    pub count : IsCount numeral
    pub stops : Stops rest
    pub value : r.0 ≡ decimal numeral
    pub after : r.1 ≡ start + length numeral

  pub parse_count-IsRead :
      (quantifier_start start : ℕ) (r : ℕ × ℕ)
      → parse_count id units quantifier_start start ≡ ok r
      → IsRead start r
  unfolding parse_count
  parse_count-IsRead quantifier_start start r h =
      let (ds, rest, at, digits, stops) = leading_digits (drop start units) in
      let read : count_digits (drop start units) start 0
          ≡ (min (decimal ds) 1001, start + length ds) =
        ap (λ us. count_digits us start 0) at ∙ count_digits-decimal ds rest start digits stops in
      let h' = rw read at h in
      elim (Bool-cases ((start + length ds) == start || ltb 1000 (min (decimal ds) 1001))) [
        | inl bad ↦
            let no : invalid {A = ℕ × ℕ} id quantifier_start
                  (min (max (start + length ds) (start + 1)) (length units))
                ≡ ok r =
              rw bad at h' in
            cc no
        | inr good ↦
            let done : ok (min (decimal ds) 1001, start + length ds) ≡ ok r = rw good at h' in
            let same : (min (decimal ds) 1001, start + length ds) ≡ r = cc done in
            let small : decimal ds ≤ 1000 = ground arith in
            record {
              numeral = ds;
              rest = rest;
              at = at;
              count = record { digits = digits; some_digit = ground arith; small = small };
              stops = stops;
              value = sym (ap (λ (x : ℕ × ℕ). x.0) same) ∙ omega arith;
              after = sym (ap (λ (x : ℕ × ℕ). x.1) same);
            }
      ]
