-- ===== src/Prefilter/Assembled.antt =====
-- rustmatch/src/prefilter.rs: the parts of what `Prefilter::compile` assembles.
use rustmatch.Prelude.{
  ℕ, zero, suc, ◌≡◌, refl, subst, inl, inr, Bool, true, false, Option, none, some, List, [], ◌∷◌,
  Memᴰ, Memᴰ-cons, Option-cases, if◌then◌else◌, get_elem?,
}
use rustmatch.Hir.{HirPattern}
use rustmatch.Prefilter.Literal.{NecessaryLiteral, from_pattern}
use rustmatch.Prefilter.Hint.{from_pattern-long}
use rustmatch.Prefilter.Filter.{LiteralPrefilter, compile_literals}
use rustmatch.Prefilter.Covers.{Long}
use rustmatch.Prefilter.StartTable.{StartTable}
use rustmatch.Prefilter.Plan.{assertions, pattern_count, Prefilter, literals_from, with_literals}

-- Each pattern has its literal in the list, and each literal at least three units.
pub record HasLiterals (ordinal : ℕ) (ps : List HirPattern) (hints : List NecessaryLiteral)
    : Type 0 where
  pub long : Long hints
  pub literal :
      (i : ℕ) (p : HirPattern)
      → get_elem? ps i ≡ some p
      → (hint : NecessaryLiteral) × Memᴰ hint hints
        × ((o : ℕ) × (from_pattern o p.expression ≡ some hint))

pub literals_from-HasLiterals :
    (ordinal : ℕ) (ps : List HirPattern) (hints : List NecessaryLiteral)
    → literals_from ordinal ps ≡ some hints
    → HasLiterals ordinal ps hints
unfolding literals_from
literals_from-HasLiterals ordinal [] hints h =
    let e : [] ≡ hints = cc h in
    subst (HasLiterals ordinal []) e (record { long = tt; literal = λ i p at. cc at })
literals_from-HasLiterals ordinal (x ∷ ps) hints h =
    elim (Option-cases (from_pattern ordinal x.expression)) [
      | inl missing ↦ let no : none ≡ some hints = rw (missing, literals_from) at h in cc no
      | inr (hint, found) ↦ elim (Option-cases (literals_from (suc ordinal) ps)) [
        | inl missing ↦
            let no : none ≡ some hints = rw (found, missing, literals_from) at h in cc no
        | inr (others, found') ↦
            let same : some (hint ∷ others) ≡ some hints = rw (found, found', literals_from) at h in
            let e : hint ∷ others ≡ hints = cc same in
            let rest = literals_from-HasLiterals (suc ordinal) ps others found' in
            subst (HasLiterals ordinal (x ∷ ps)) e (record {
              long = (from_pattern-long ordinal x.expression hint found, rest.long);
              literal = at_index ordinal x ps hint others found rest;
            })
      ]
    ]
  where
    at_index :
        (ordinal : ℕ) (x : HirPattern) (ps : List HirPattern) (hint : NecessaryLiteral)
        (others : List NecessaryLiteral)
        → from_pattern ordinal x.expression ≡ some hint
        → HasLiterals (suc ordinal) ps others
        → (i : ℕ) (p : HirPattern) → get_elem? (x ∷ ps) i ≡ some p
        → (g : NecessaryLiteral) × Memᴰ g (hint ∷ others)
          × ((o : ℕ) × (from_pattern o p.expression ≡ some g))
    at_index ordinal x ps hint others found rest zero p at =
        let e : x ≡ p = cc at in
        (
          hint,
          (Memᴰ-cons hint hint others).1 (inl refl),
          (
            ordinal,
            subst (λ (y : HirPattern). from_pattern ordinal y.expression ≡ some hint) e found,
          ),
        )
    at_index ordinal x ps hint others found rest (suc i) p at =
        let (g, m, o) = rest.literal i p at in (g, (Memᴰ-cons g hint others).1 (inr m), o)

-- The parts of a prefilter that is there.
abbrev pub assembled : Bool → Bool → Option StartTable → Option (List NecessaryLiteral) → Prefilter
assembled uses few starts hints =
    if uses
    then record { start_table = none; literal = none; literal_unavailable = assertions }
    else if few
    then record { start_table = starts; literal = none; literal_unavailable = pattern_count }
    else with_literals starts hints

pub assembled-table :
    (uses few : Bool) (starts : Option StartTable) (hints : Option (List NecessaryLiteral))
    (t : StartTable)
    → (assembled uses few starts hints).start_table ≡ some t
    → starts ≡ some t
assembled-table true few starts hints t h = cc h
assembled-table false true starts hints t h = h
assembled-table false false starts none t h = h
assembled-table false false starts (some hints) t h = h

pub assembled-literal :
    (uses few : Bool) (starts : Option StartTable) (o : Option (List NecessaryLiteral))
    (f : LiteralPrefilter)
    → (assembled uses few starts o).literal ≡ some f
    → (hints : List NecessaryLiteral) × (o ≡ some hints) × (compile_literals hints ≡ f)
assembled-literal true few starts o f h = cc h
assembled-literal false true starts o f h = cc h
assembled-literal false false starts none f h = cc h
assembled-literal false false starts (some hints) f h = (hints, refl, cc h)
