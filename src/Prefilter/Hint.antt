-- ===== src/Prefilter/Hint.antt =====
-- rustmatch/src/prefilter.rs: `NecessaryLiteral::from_pattern`, the literal of a whole pattern.
use rustmatch.Prelude.{
  ℕ, zero, suc, ◌≡◌, sym, subst, ap, ◌∙◌, inl, inr, Option, none, some, List, [], ◌∷◌, take, length,
  Bool-cases, arith, ◌≤◌, leb, leb→le, drop, get_elem?, ◌<◌, lt-length_of_get_elem?,
}
use rustmatch.Hir.{Hir}
use rustmatch.Context.{Units, Cursor}
use rustmatch.Semantics.{Matches}
use rustmatch.Prefilter.Literal.{
  max_literal_units, necessary_prefix, NecessaryLiteral, from_pattern,
}
use rustmatch.Prefilter.Spelling.{Spells, IsPrefix, IsPrefix-trans, take-IsPrefix}
use rustmatch.Prefilter.Begins.{necessary_prefix-Begins, nothing-IsPrefix}

drop-elem :
    (input : Units) (p u : ℕ) → get_elem? input p ≡ some u → drop p input ≡ u ∷ drop (suc p) input
drop-elem [] p u h = cc
drop-elem (x ∷ xs) zero u h = let e : x ≡ u = cc h in ap (λ y. y ∷ xs) e
drop-elem (x ∷ xs) (suc p) u h = drop-elem xs p u h

Spells-IsPrefix :
    (input : Units) (w : List ℕ) (p q : ℕ) → Spells input p w q → IsPrefix w (drop p input)
Spells-IsPrefix input [] p q h = nothing-IsPrefix (drop p input)
Spells-IsPrefix input (u ∷ w) p q (at, more) =
    let (r, e) = Spells-IsPrefix input w (suc p) q more in
    (r, ap (λ y. u ∷ y) e ∙ sym (drop-elem input p u at))

-- A match that ends further on begins inside the input.
pub Matches-inside :
    (input : Units) (e : Hir) (s t : Cursor)
    → Matches input e s t
    → s.position < t.position
    → s.position < length input
Matches-inside input e s t m lt =
    let (w, text, pre) = necessary_prefix-Begins input e s t m in
    read w s.position t.position text lt
  where
    read : (w : List ℕ) (p q : ℕ) → Spells input p w q → p < q → p < length input
    read [] p q same k = absurd (omega arith)
    read (u ∷ w) p q (at, more) k = lt-length_of_get_elem? input p at

abbrev literal_units : Option NecessaryLiteral → List ℕ
literal_units none = []
literal_units (some l) = l.units

from_pattern-units :
    (ordinal : ℕ) (e : Hir) (hint : NecessaryLiteral)
    → from_pattern ordinal e ≡ some hint
    → (hint.units ≡ take max_literal_units (necessary_prefix e)) × (3 ≤ length hint.units)
unfolding from_pattern
from_pattern-units ordinal e hint h =
    let units = take max_literal_units (necessary_prefix e) in
    elim (Bool-cases (leb 3 (length units))) [
      | inl long ↦
          let found : some (record { ordinal = ordinal; offset = 0; units = units }) ≡ some hint =
            rw long at h in
          let same : units ≡ hint.units = ap literal_units found in
          (sym same, subst (λ x. 3 ≤ length x) same (leb→le 3 (length units) long))
      | inr short ↦ let no : none ≡ some hint = rw short at h in cc no
    ]

pub from_pattern-long :
    (ordinal : ℕ) (e : Hir) (hint : NecessaryLiteral)
    → from_pattern ordinal e ≡ some hint
    → 3 ≤ length hint.units
from_pattern-long ordinal e hint h = (from_pattern-units ordinal e hint h).1

-- The necessary literal of an expression has at least three units, and the input has it wherever a
-- match of the expression begins.
pub from_pattern-IsPrefix :
    (input : Units) (ordinal : ℕ) (e : Hir) (hint : NecessaryLiteral) (s t : Cursor)
    → from_pattern ordinal e ≡ some hint
    → Matches input e s t
    → (3 ≤ length hint.units) × IsPrefix hint.units (drop s.position input)
from_pattern-IsPrefix input ordinal e hint s t h m =
    let (same, long) = from_pattern-units ordinal e hint h in
    let (w, text, pre) = necessary_prefix-Begins input e s t m in
    let units = take max_literal_units (necessary_prefix e) in
    let start : IsPrefix units (drop s.position input) =
      IsPrefix-trans units (necessary_prefix e) _
        (take-IsPrefix max_literal_units (necessary_prefix e))
        (IsPrefix-trans (necessary_prefix e) w _ pre
          (Spells-IsPrefix input w s.position t.position text)) in
    (long, subst (λ x. IsPrefix x (drop s.position input)) (sym same) start)
