-- ===== src/Parser/Braces.antt =====
-- rustmatch/src/parser.rs: the documented syntax of counted repetitions, `{n}`, `{n,}` and `{n,m}`, and
-- what `parse_counted_repetition` reads after the first count.
use rustmatch.Prelude.{
  ℕ, zero, suc, ◌+◌, ◌≡◌, refl, sym, ap, ◌∙◌, inl, inr, true, false, Option, none, some, List, [],
  ◌∷◌, ◌++◌, arith, length, drop, get_elem?, ==_iff, min, Bool-cases, if◌then◌else◌, append_assoc,
  length-append,
}
use rustmatch.Error.{ok, >>=-eq-ok, ◌>>=◌}
use rustmatch.Parser.Class.{invalid, is_unit, is_some_unit}
use rustmatch.Parser.Count.{parse_count, count_end}
use rustmatch.Parser.Digits.{decimal, IsCount, parse_count-ok, parse_count-IsRead}

-- The text after the opening brace: one numeral, one and a comma, or two.
pub data Counts : Type 0 where
  exactly : List ℕ → Counts
  at_least : List ℕ → Counts
  between : List ℕ → List ℕ → Counts

-- What follows the first numeral, up to the closing brace.
abbrev pub written_end : Counts → List ℕ
written_end (exactly ds) = 0x7d ∷ []
written_end (at_least ds) = b',' ∷ 0x7d ∷ []
written_end (between ds es) = b',' ∷ (es ++ 0x7d ∷ [])

abbrev pub first_numeral : Counts → List ℕ
first_numeral (exactly ds) = ds
first_numeral (at_least ds) = ds
first_numeral (between ds es) = ds

abbrev pub written : Counts → List ℕ
written c = first_numeral c ++ written_end c

-- The bounds that a text stands for.
abbrev pub lower : Counts → ℕ
lower c = decimal (first_numeral c)

abbrev pub upper : Counts → Option ℕ
upper (exactly ds) = some (decimal ds)
upper (at_least ds) = none
upper (between ds es) = some (decimal es)

abbrev pub AreCounts : Counts → Type 0
AreCounts (exactly ds) = IsCount ds
AreCounts (at_least ds) = IsCount ds
AreCounts (between ds es) = IsCount ds × IsCount es

pub drop-append :
    (n : ℕ) (units ds rest : List ℕ) → drop n units ≡ ds ++ rest → drop (n + length ds) units ≡ rest
drop-append n units [] rest at = ap (λ k. drop k units) (omega arith) ∙ at
drop-append zero [] (d ∷ ds) rest at = cc at
drop-append zero (u ∷ units) (d ∷ ds) rest at =
    let tail : units ≡ ds ++ rest = cc at in
    let e : 0 + suc (length ds) ≡ suc (0 + length ds) = omega arith in
    ap (λ k. drop k (u ∷ units)) e ∙ drop-append zero units ds rest tail
drop-append (suc n) [] (d ∷ ds) rest at = cc at
drop-append (suc n) (u ∷ units) (d ∷ ds) rest at =
    let e : suc n + suc (length ds) ≡ suc (n + suc (length ds)) = omega arith in
    ap (λ k. drop k (u ∷ units)) e ∙ drop-append n units (d ∷ ds) rest at

abbrev first_unit : List ℕ → Option ℕ
first_unit [] = none
first_unit (u ∷ us) = some u

get_elem?-drop : (n : ℕ) (units : List ℕ) → get_elem? units n ≡ first_unit (drop n units)
get_elem?-drop zero [] = refl
get_elem?-drop zero (u ∷ units) = refl
get_elem?-drop (suc n) [] = refl
get_elem?-drop (suc n) (u ∷ units) = get_elem?-drop n units

-- Whether the unit at an index is the one expected, by the text from there on.
is_unit-drop :
    (n u : ℕ) (units rest : List ℕ)
    → drop n units ≡ rest
    → is_unit units n u ≡ is_some_unit (first_unit rest) u
is_unit-drop n u units rest at =
    ap (λ o. is_some_unit o u) (get_elem?-drop n units ∙ ap first_unit at)

is_some_unit-cons :
    (rest : List ℕ) (u : ℕ)
    → is_some_unit (first_unit rest) u ≡ true
    → (tail : List ℕ) × (rest ≡ u ∷ tail)
is_some_unit-cons [] u h = cc h
is_some_unit-cons (v ∷ rest) u h = (rest, ap (λ x. x ∷ rest) ((==_iff v u).0 h))

drop-suc : (n u : ℕ) (units rest : List ℕ) → drop n units ≡ u ∷ rest → drop (n + 1) units ≡ rest
drop-suc n u units rest at = drop-append n units (u ∷ []) rest at

module _ (id : ℕ) (units : List ℕ) where
  -- After the first numeral, the code reads the end of a text with this numeral.
  pub count_end-ok :
      (start index : ℕ) (c : Counts) (rest : List ℕ)
      → AreCounts c
      → drop index units ≡ written_end c ++ rest
      → count_end id units start (lower c) index ≡ ok (upper c, index + length (written_end c))
  unfolding count_end
  count_end-ok start index (exactly ds) rest h at =
      let close = is_unit-drop index 0x7d units _ at in rw close refl
  count_end-ok start index (at_least ds) rest h at =
      let other = is_unit-drop index 0x7d units _ at in
      let comma = is_unit-drop index b',' units _ at in
      let close = is_unit-drop (index + 1) 0x7d units _ (drop-suc index b',' units _ at) in
      rw (other, comma, close) refl
  count_end-ok start index (between ds es) rest (h, k) at =
      let after = es ++ 0x7d ∷ rest in
      let at' : drop index units ≡ b',' ∷ after =
        at ∙ ap (λ xs. b',' ∷ xs) (append_assoc es (0x7d ∷ []) rest) in
      let next = drop-suc index b',' units after at' in
      let other = is_unit-drop index 0x7d units _ at' in
      let comma = is_unit-drop index b',' units _ at' in
      let digit = is_unit-drop (index + 1) 0x7d units _ next ∙ not_closed es k in
      let read = parse_count-ok id units start (index + 1) es (0x7d ∷ rest) next k refl in
      let close =
        is_unit-drop (index + 1 + length es) 0x7d units (0x7d ∷ rest)
          (drop-append (index + 1) units es (0x7d ∷ rest) next) in
      let size : index + 1 + length es + 1 ≡ index + suc (length (es ++ 0x7d ∷ [])) =
        omega (arith, length-append es (0x7d ∷ [])) in
      rw (other, comma, digit, read, close) (ap (λ i. ok (some (decimal es), i)) size)
    where
      not_closed :
          (es : List ℕ) → IsCount es → is_some_unit (first_unit (es ++ 0x7d ∷ rest)) 0x7d ≡ false
      not_closed [] k = let none_there = k.some_digit in absurd (omega arith)
      not_closed (d ∷ es) k = let (low, high, ds) = k.digits in ground arith

  -- What the code accepts after the first numeral is the end of a text with this numeral.
  pub record IsEnd (ds : List ℕ) (index : ℕ) (r : Option ℕ × ℕ) : Type 0 where
    pub counts : Counts
    pub rest : List ℕ
    pub first : first_numeral counts ≡ ds
    pub are_counts : AreCounts counts
    pub at : drop index units ≡ written_end counts ++ rest
    pub high : r.0 ≡ upper counts
    pub after : r.1 ≡ index + length (written_end counts)

  pub count_end-IsEnd :
      (start index : ℕ) (ds : List ℕ) (r : Option ℕ × ℕ)
      → IsCount ds
      → count_end id units start (decimal ds) index ≡ ok r
      → IsEnd ds index r
  unfolding count_end
  count_end-IsEnd start index ds r h k = elim (Bool-cases (is_unit units index 0x7d)) [
    | inl close ↦
        let (rest, same) =
          is_some_unit-cons (drop index units) 0x7d
            (sym (is_unit-drop index 0x7d units _ refl) ∙ close) in
        let done : ok (some (decimal ds), index + 1) ≡ ok r = rw close at k in
        let e : (some (decimal ds), index + 1) ≡ r = cc done in
        record {
          counts = exactly ds;
          rest = rest;
          first = refl;
          are_counts = h;
          at = same;
          high = sym (ap (λ (x : Option ℕ × ℕ). x.0) e);
          after = sym (ap (λ (x : Option ℕ × ℕ). x.1) e);
        }
    | inr open_brace ↦ elim (Bool-cases (is_unit units index b',')) [
      | inr neither ↦
          let no : invalid {A = Option ℕ × ℕ} id start (min index (length units)) ≡ ok r =
            rw (open_brace, neither) at k in
          cc no
      | inl comma ↦
          let (tail, same) =
            is_some_unit-cons (drop index units) b','
              (sym (is_unit-drop index b',' units _ refl) ∙ comma) in
          after_comma tail same (drop-suc index b',' units tail same) (rw (open_brace, comma) at k)
    ]
  ]
    where
      last_count :
          (tail : List ℕ)
          → drop index units ≡ b',' ∷ tail
          → drop (index + 1) units ≡ tail
          → (high : ℕ × ℕ) → parse_count id units start (index + 1) ≡ ok high
          → (if is_unit units high.1 0x7d
              then ok (some high.0, high.1 + 1)
              else invalid id start (min high.1 (length units)))
            ≡ ok r
          → IsEnd ds index r
      last_count tail here next high read j =
          let c = parse_count-IsRead id units start (index + 1) high read in
          let es = c.numeral in
          let later : drop high.1 units ≡ c.rest =
            ap (λ i. drop i units) c.after ∙ drop-append (index + 1) units es c.rest c.at in
          elim (Bool-cases (is_unit units high.1 0x7d)) [
            | inr other ↦
                let no : invalid {A = Option ℕ × ℕ} id start (min high.1 (length units)) ≡ ok r =
                  rw other at j in
                cc no
            | inl close ↦
                let (rest, same) =
                  is_some_unit-cons c.rest 0x7d
                    (sym (is_unit-drop high.1 0x7d units c.rest later) ∙ close) in
                let done : ok (some high.0, high.1 + 1) ≡ ok r = rw close at j in
                let e : (some high.0, high.1 + 1) ≡ r = cc done in
                let size = length-append es (0x7d ∷ []) in
                let end = c.after in
                record {
                  counts = between ds es;
                  rest = rest;
                  first = refl;
                  are_counts = (h, c.count);
                  at =
                      here
                      ∙ ap (λ xs. b',' ∷ xs)
                          (sym next
                            ∙ c.at
                            ∙ ap (λ xs. es ++ xs) same
                            ∙ sym (append_assoc es (0x7d ∷ []) rest));
                  high = sym (ap (λ (x : Option ℕ × ℕ). x.0) e) ∙ ap some c.value;
                  after = sym (ap (λ (x : Option ℕ × ℕ). x.1) e) ∙ omega (arith, size, end);
                }
          ]

      after_comma :
          (tail : List ℕ)
          → drop index units ≡ b',' ∷ tail
          → drop (index + 1) units ≡ tail
          → (if is_unit units (index + 1) 0x7d
              then ok (none, index + 2)
              else parse_count id units start (index + 1) >>= (λ (x : ℕ × ℕ).
                if is_unit units x.1 0x7d
                then ok (some x.0, x.1 + 1)
                else invalid id start (min x.1 (length units))))
            ≡ ok r
          → IsEnd ds index r
      after_comma tail here next j = elim (Bool-cases (is_unit units (index + 1) 0x7d)) [
        | inl close ↦
            let (rest, same) =
              is_some_unit-cons tail 0x7d
                (sym (is_unit-drop (index + 1) 0x7d units tail next) ∙ close) in
            let done : ok (none, index + 2) ≡ ok r = rw close at j in
            let e : (none, index + 2) ≡ r = cc done in
            record {
              counts = at_least ds;
              rest = rest;
              first = refl;
              are_counts = h;
              at = here ∙ ap (λ xs. b',' ∷ xs) same;
              high = sym (ap (λ (x : Option ℕ × ℕ). x.0) e);
              after = sym (ap (λ (x : Option ℕ × ℕ). x.1) e);
            }
        | inr more ↦
            let (high, read, done) =
              >>=-eq-ok (parse_count id units start (index + 1)) _ (rw more at j) in
            last_count tail here next high read done
      ]
