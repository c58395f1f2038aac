-- ===== src/Prefilter/Admits.antt =====
-- rustmatch/src/prefilter.rs: `prefix_allows` admits every start at which a literal of the filter
-- stands.
use rustmatch.Prelude.{
  ℕ, zero, suc, ◌+◌, ◌≤◌, ◌<◌, ◌≡◌, refl, sym, subst, ap, true, not, ◌&&◌, Bool, Option, none, some,
  List, [], ◌∷◌, ◌++◌, take, drop, length, arith, if◌then◌else◌, leb, Memᴰ,
}
use rustmatch.Context.{Units}
use rustmatch.Prefilter.Literal.{NecessaryLiteral}
use rustmatch.Prefilter.Spelling.{IsPrefix}
use rustmatch.Prefilter.Bits.{contains_bit}
use rustmatch.Prefilter.Filter.{
  LiteralPrefilter, all_ascii, ascii_triple_index, window, five_allows, four_allows, prefix_allows,
  compile_literals,
}
use rustmatch.Prefilter.Covers.{Covers, Long, compile_literals-Covers}

pub length-drop :
    (n : ℕ) (us : List ℕ) → 0 < length (drop n us) → n + length (drop n us) ≡ length us
length-drop zero us h = omega arith
length-drop (suc n) [] h = absurd (omega arith)
length-drop (suc n) (u ∷ us) h = omega (arith, length-drop n us h)

-- `prefix_allows`, over the input from the start on and the two windows.
abbrev allows_at : LiteralPrefilter → List ℕ → Option (List ℕ) → Option (List ℕ) → Bool
allows_at f rest four five =
    if not (all_ascii (take 3 rest))
    then true
    else if f.has_three && contains_bit f.ascii_three_exact (ascii_triple_index (take 3 rest))
    then true
    else four_allows f four five

abbrev window_at : ℕ → List ℕ → ℕ → Option (List ℕ)
window_at size rest n = if leb n size then some (take n rest) else none

module _ (f : LiteralPrefilter) where
  three_admitted :
      (a b c : ℕ) (r : List ℕ) (four five : Option (List ℕ))
      → Covers f (a ∷ b ∷ c ∷ [])
      → allows_at f (a ∷ b ∷ c ∷ r) four five ≡ true
  three_admitted a b c r four five h = let t = h.three refl in ground arith

  four_admitted :
      (a b c d : ℕ) (r : List ℕ) (five : Option (List ℕ))
      → Covers f (a ∷ b ∷ c ∷ d ∷ [])
      → allows_at f (a ∷ b ∷ c ∷ d ∷ r) (some (a ∷ b ∷ c ∷ d ∷ [])) five ≡ true
  unfolding four_allows
  four_admitted a b c d r five h = let t = h.four refl in ground arith

  five_admitted :
      (a b c d e : ℕ) (r s : List ℕ)
      → Covers f (a ∷ b ∷ c ∷ d ∷ e ∷ s)
      → allows_at f
          (a ∷ b ∷ c ∷ d ∷ e ∷ r)
          (some (a ∷ b ∷ c ∷ d ∷ []))
          (some (a ∷ b ∷ c ∷ d ∷ e ∷ []))
        ≡ true
  unfolding four_allows five_allows
  five_admitted a b c d e r s h = let t = h.five (omega arith) in ground arith

  window_inside :
      (input : Units) (start n : ℕ) (rest : List ℕ)
      → drop start input ≡ rest
      → 0 < n
      → n ≤ length rest
      → window input start n ≡ some (take n rest)
  unfolding window
  window_inside input start n rest e pos le =
      let size : length (drop start input) ≡ length rest = ap length e in
      let fits : leb (start + n) (length input) ≡ true = ground (arith, length-drop start input) in
      rw fits (ap (λ x. some (take n x)) e)

  pub Covers-admitted :
      (units : List ℕ) (input : Units) (start : ℕ)
      → 3 ≤ length units
      → Covers f units
      → IsPrefix units (drop start input)
      → prefix_allows f input start ≡ true
  unfolding prefix_allows
  Covers-admitted [] input start long h p = absurd (omega arith)
  Covers-admitted (a ∷ []) input start long h p = absurd (omega arith)
  Covers-admitted (a ∷ b ∷ []) input start long h p = absurd (omega arith)
  Covers-admitted (a ∷ b ∷ c ∷ []) input start long h (r, e) =
      subst (λ x. allows_at f x (window input start 4) (window input start 5) ≡ true) e
        (three_admitted a b c r (window input start 4) (window input start 5) h)
  Covers-admitted (a ∷ b ∷ c ∷ d ∷ []) input start long h (r, e) =
      let four =
        window_inside input start 4 (a ∷ b ∷ c ∷ d ∷ r) (sym e) (omega arith) (omega arith) in
      subst (λ x. allows_at f x (window input start 4) (window input start 5) ≡ true) e
        (subst (λ w. allows_at f (a ∷ b ∷ c ∷ d ∷ r) w (window input start 5) ≡ true) (sym four)
          (four_admitted a b c d r (window input start 5) h))
  Covers-admitted (a ∷ b ∷ c ∷ d ∷ g ∷ s) input start long h (r, e) =
      let rest = a ∷ b ∷ c ∷ d ∷ g ∷ s ++ r in
      let four = window_inside input start 4 rest (sym e) (omega arith) (omega arith) in
      let five = window_inside input start 5 rest (sym e) (omega arith) (omega arith) in
      subst (λ x. allows_at f x (window input start 4) (window input start 5) ≡ true) e
        (subst (λ w. allows_at f rest w (window input start 5) ≡ true) (sym four)
          (subst (λ w. allows_at f rest (some (take 4 rest)) w ≡ true) (sym five)
            (five_admitted a b c d g (s ++ r) s h)))

-- For literals of at least three units: wherever the input has one of them, the filter that was
-- compiled from them allows a start.
pub prefix_allows-IsPrefix :
    (hints : List NecessaryLiteral) (hint : NecessaryLiteral) (input : Units) (start : ℕ)
    → Long hints
    → Memᴰ hint hints
    → 3 ≤ length hint.units
    → IsPrefix hint.units (drop start input)
    → prefix_allows (compile_literals hints) input start ≡ true
prefix_allows-IsPrefix hints hint input start long m size p =
    Covers-admitted (compile_literals hints) hint.units input start size
      (compile_literals-Covers hints hint long m) p
