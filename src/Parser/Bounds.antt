-- ===== src/Parser/Bounds.antt =====
-- rustmatch/src/parser.rs: `parse_counted_repetition` against the documented syntax of counted
-- repetitions.
use rustmatch.Prelude.{
  ℕ, ◌+◌, ◌≤◌, ◌<◌, ◌≡◌, refl, sym, ap, subst, ◌∙◌, inl, inr, false, Option, none, some, List, ◌++◌,
  arith, length, length-append, append_assoc, drop, Bool-cases, if◌then◌else◌, ◌↔◌,
}
use rustmatch.Error.{Result, ok, err, out_of_fuel, >>=-eq-ok}
use rustmatch.Hir.{Hir, never, repeat_of}
use rustmatch.Parser.Class.{Parser, invalid}
use rustmatch.Parser.Count.{parse_counted_repetition, bad_bounds, parse_count, count_end}
use rustmatch.Parser.Digits.{decimal, IsCount, Stops, IsRead, parse_count-ok, parse_count-IsRead}
use rustmatch.Parser.Braces.{
  Counts, exactly, at_least, between, written, written_end, first_numeral, lower, upper, AreCounts,
  drop-append, IsEnd, count_end-ok, count_end-IsEnd,
}

-- The bounds that are accepted: at most the limit, the lower one not above the upper one, which is
-- not 0.
abbrev pub GoodBounds : ℕ → Option ℕ → Type 0
GoodBounds low none = low ≤ 1000
GoodBounds low (some high) = (low ≤ high) × (0 < high) × (high ≤ 1000)

bad_bounds-GoodBounds :
    (low : ℕ) (high : Option ℕ) → bad_bounds low high ≡ false → GoodBounds low high
unfolding bad_bounds
bad_bounds-GoodBounds low none h = ground arith
bad_bounds-GoodBounds low (some high) h = (ground arith, ground arith, ground arith)

GoodBounds-allowed : (low : ℕ) (high : Option ℕ) → GoodBounds low high → bad_bounds low high ≡ false
unfolding bad_bounds
GoodBounds-allowed low none h = ground arith
GoodBounds-allowed low (some high) (h, k, l) = ground arith

written_end-Stops : (c : Counts) (rest : List ℕ) → Stops (written_end c ++ rest)
written_end-Stops (exactly ds) rest = refl
written_end-Stops (at_least ds) rest = refl
written_end-Stops (between ds es) rest = refl

first_numeral-IsCount : (c : Counts) → AreCounts c → IsCount (first_numeral c)
first_numeral-IsCount (exactly ds) h = h
first_numeral-IsCount (at_least ds) h = h
first_numeral-IsCount (between ds es) (h, k) = h

-- The text from the index on is a counted repetition and what follows it; the result is the
-- expression that it stands for, and the parser after its closing brace.
abbrev pub IsCounted : List ℕ → Hir → Hir → Parser → Parser → Type 0
IsCounted units e e' p p' =
    (c : Counts) × (rest : List ℕ) × (drop (p.index + 1) units ≡ written c ++ rest)
    × AreCounts c
    × GoodBounds (lower c) (upper c)
    × (e' ≡ repeat_of e (lower c) (upper c))
    × (p' ≡ record p { index = p.index + 1 + length (written c) })

parse_counted_repetition-ok :
    (id : ℕ) (units : List ℕ) (e : Hir) (p : Parser) (c : Counts) (rest : List ℕ)
    → drop (p.index + 1) units ≡ written c ++ rest
    → AreCounts c
    → GoodBounds (lower c) (upper c)
    → parse_counted_repetition id units e p
      ≡ ok (repeat_of e (lower c) (upper c), record p { index = p.index + 1 + length (written c) })
unfolding parse_counted_repetition
parse_counted_repetition-ok id units e p c rest at counts bounds =
    let ds = first_numeral c in
    let start = p.index + 1 in
    let at' = at ∙ append_assoc ds (written_end c) rest in
    let count =
      parse_count-ok id units p.index start ds (written_end c ++ rest) at'
        (first_numeral-IsCount c counts) (written_end-Stops c rest) in
    let end =
      count_end-ok id units p.index (start + length ds) c rest counts
        (drop-append start units ds (written_end c ++ rest) at') in
    let good = GoodBounds-allowed (lower c) (upper c) bounds in
    let size : start + length ds + length (written_end c) ≡ start + length (written c) =
      omega (arith, length-append ds (written_end c)) in
    rw (count, end, good)
      (ap (λ i. ok (repeat_of e (lower c) (upper c), record p { index = i })) size)

expression_of : Result (Hir × Parser) → Hir
expression_of (ok (e, p)) = e
expression_of (err x) = never
expression_of out_of_fuel = never

parser_of : Parser → Result (Hir × Parser) → Parser
parser_of q (ok (e, p)) = p
parser_of q (err x) = q
parser_of q out_of_fuel = q

ok-parts :
    (e e' : Hir) (p p' : Parser)
    → ◌≡◌ {A = Result (Hir × Parser)} (ok (e, p)) (ok (e', p'))
    → (e' ≡ e) × (p' ≡ p)
unfolding expression_of parser_of
ok-parts e e' p p' h = (ap expression_of (sym h), ap (parser_of p) (sym h))

-- The two numerals and what is between them, put together.
counts-placed :
    (id : ℕ) (units : List ℕ) (start : ℕ) (r : ℕ × ℕ) (q : Option ℕ × ℕ)
    (first : IsRead id units start r)
    → (end : IsEnd id units first.numeral r.1 q)
    → (drop start units ≡ written end.counts ++ end.rest)
      × (r.0 ≡ lower end.counts)
      × (q.1 ≡ start + length (written end.counts))
counts-placed id units start r q first end =
    let ds = first.numeral in
    let c = end.counts in
    let later : drop r.1 units ≡ first.rest =
      ap (λ i. drop i units) first.after ∙ drop-append start units ds first.rest first.at in
    let text : first.rest ≡ written_end c ++ end.rest = sym later ∙ end.at in
    let same : first_numeral c ≡ ds = end.first in
    let joined = append_assoc (first_numeral c) (written_end c) end.rest in
    let count_after = first.after in
    let end_after = end.after in
    let size = length-append (first_numeral c) (written_end c) in
    let length_same = ap length same in
    (
      first.at
          ∙ ap (λ us. ds ++ us) text
          ∙ ap (λ us. us ++ (written_end c ++ end.rest)) (sym same)
          ∙ sym joined,
      first.value ∙ ap decimal (sym same),
      omega (arith, count_after, end_after, size, length_same),
    )

count_end-IsCounted :
    (id : ℕ) (units : List ℕ) (e e' : Hir) (p p' : Parser) (r : ℕ × ℕ) (q : Option ℕ × ℕ)
    → IsRead id units (p.index + 1) r
    → count_end id units p.index r.0 r.1 ≡ ok q
    → (if bad_bounds r.0 q.0
        then invalid {A = Hir × Parser} id p.index q.1
        else ok (repeat_of e r.0 q.0, record p { index = q.1 }))
      ≡ ok (e', p')
    → IsCounted units e e' p p'
count_end-IsCounted id units e e' p p' r q first ended h =
    let ended' = ap (λ l. count_end id units p.index l r.1) (sym first.value) ∙ ended in
    let end = count_end-IsEnd id units p.index r.1 first.numeral q first.count ended' in
    let c = end.counts in
    let (at, low, after) = counts-placed id units (p.index + 1) r q first end in
    elim (Bool-cases (bad_bounds r.0 q.0)) [
      | inl bad ↦
          let no : invalid {A = Hir × Parser} id p.index q.1 ≡ ok (e', p') = rw bad at h in cc no
      | inr good ↦
          let done : ok (repeat_of e r.0 q.0, record p { index = q.1 }) ≡ ok (e', p') =
            rw good at h in
          let (same, left) = ok-parts (repeat_of e r.0 q.0) e' (record p { index = q.1 }) p' done in
          let bounds = bad_bounds-GoodBounds r.0 q.0 good in
          (
            c,
            end.rest,
            at,
            end.are_counts,
            subst (λ h. GoodBounds (lower c) h) end.high (subst (λ l. GoodBounds l q.0) low bounds),
            same ∙ ap (λ l. repeat_of e l q.0) low ∙ ap (repeat_of e (lower c)) end.high,
            left ∙ ap (λ i. record p { index = i }) after,
          )
    ]

parse_counted_repetition-IsCounted :
    (id : ℕ) (units : List ℕ) (e e' : Hir) (p p' : Parser)
    → parse_counted_repetition id units e p ≡ ok (e', p')
    → IsCounted units e e' p p'
unfolding parse_counted_repetition
parse_counted_repetition-IsCounted id units e e' p p' h =
    let (low, counted, h₁) = >>=-eq-ok (parse_count id units p.index (p.index + 1)) _ h in
    let (high, ended, h₂) = >>=-eq-ok (count_end id units p.index low.0 low.1) _ h₁ in
    let first = parse_count-IsRead id units p.index (p.index + 1) low counted in
    count_end-IsCounted id units e e' p p' low high first ended h₂

-- The parser accepts a counted repetition, with this expression and this parser as the result, if and
-- only if the text after the opening brace begins with `n}`, `n,}` or `n,m}`, where `n` and `m` are
-- decimal numerals of at least one digit with a value of at most 1000, and the upper bound, which is
-- `m`, or `n` in the first form, is not 0 and not below the lower one, which is `n`; the expression is
-- `Hir::repeat` of the given one with these bounds, without an upper one in the second form; and the
-- parser is the given one with its index right after the closing brace.
pub parse_counted_repetition_lem :
    (id : ℕ) (units : List ℕ) (e e' : Hir) (p p' : Parser)
    → (parse_counted_repetition id units e p ≡ ok (e', p')) ↔ IsCounted units e e' p p'
parse_counted_repetition_lem id units e e' p p' = (
  parse_counted_repetition-IsCounted id units e e' p p',
  λ (c, rest, at, counts, bounds, same, after).
      parse_counted_repetition-ok id units e p c rest at counts bounds
      ∙ ap (λ f. ok (f, record p { index = p.index + 1 + length (written c) })) (sym same)
      ∙ ap (λ q. ok (e', q)) (sym after),
)
