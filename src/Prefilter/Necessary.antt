-- ===== src/Prefilter/Necessary.antt =====
-- rustmatch/src/prefilter.rs: `necessary_prefix` is a literal that the text of every match of an
-- expression begins with.
use rustmatch.Prelude.{
  ℕ, zero, suc, ◌≡◌, refl, sym, subst, ap, ap₂, ◌∙◌, true, false, ◌||◌, inl, inr, some, List, [],
  ◌∷◌, take, length, Bool-cases, ◌==◌, ==_iff, arith,
}
use rustmatch.Hir.{
  Hir, Hirs, never, epsilon, assertion, symbol, predicate, sequence, alternation, repeat, nil, cons,
}
use rustmatch.Prefilter.Literal.{
  max_literal_units, append_bounded, append_times, exact_literal, exact_items, exact_alternation,
  exact_branches, is_none, necessary_prefix, prefix_items, necessary_alternation, shared_branches,
  shared_length, necessary_repetition, repeat_bounded,
}
use rustmatch.Prefilter.Spelling.{append_bounded_full}
use rustmatch.Prefilter.Exact.{
  items-cons, alternation-cons, branches-cons, repetition-fields, Spelled, exact_literal-Spelled,
}
use rustmatch.Context.{Units, Cursor}
use rustmatch.Semantics.{Matches}

exact_items_full :
    (es : Hirs) (acc l : List ℕ)
    → length acc ≡ max_literal_units
    → exact_items es acc ≡ some l
    → acc ≡ l
unfolding exact_items
exact_items_full nil acc l full h = cc h
exact_items_full (cons e es) acc l full h =
    let (n, at, others) = items-cons e es acc l h in
    exact_items_full es acc l full
      (subst (λ x. exact_items es x ≡ some l) (append_bounded_full acc n full) others)

append_times_full :
    (n : ℕ) (u acc : List ℕ) → length acc ≡ max_literal_units → append_times n u acc ≡ acc
unfolding append_times
append_times_full zero u acc full = refl
append_times_full (suc n) u acc full =
    ap (append_times n u) (append_bounded_full acc u full) ∙ append_times_full n u acc full

-- Ending the loop early changes nothing.
pub repeat_bounded-append_times :
    (n : ℕ) (u acc : List ℕ) → repeat_bounded n u acc ≡ append_times n u acc
unfolding repeat_bounded append_times
repeat_bounded-append_times zero u acc = refl
repeat_bounded-append_times (suc n) u acc =
    let next = append_bounded acc u in
    elim (Bool-cases (length next == max_literal_units)) [
      | inl full ↦
          rw (full, repeat_bounded)
            (sym (append_times_full n u next ((==_iff (length next) max_literal_units).0 full)))
      | inr room ↦ rw (room, repeat_bounded) (repeat_bounded-append_times n u next)
    ]

take-shared_self : (xs : List ℕ) → take (shared_length xs xs) xs ≡ xs
unfolding shared_length
take-shared_self [] = refl
take-shared_self (x ∷ xs) =
    let same : (x == x) ≡ true = ground arith in rw same (ap (λ r. x ∷ r) (take-shared_self xs))

-- One round of the loop over a sequence, for an item with an exact literal.
abbrev pub after_item : Hirs → List ℕ → List ℕ
after_item es next = elim (length next == max_literal_units) [
  | true ↦ next
  | false ↦ prefix_items es next
]

pub prefix_items-exact :
    (e : Hir) (es : Hirs) (acc n : List ℕ)
    → exact_literal e ≡ some n
    → necessary_prefix e ≡ n
    → prefix_items (cons e es) acc ≡ after_item es (append_bounded acc n)
unfolding prefix_items is_none
prefix_items-exact e es acc n at same =
    ap₂
      (λ o p. elim (is_none o || length (append_bounded acc p) == max_literal_units) [
        | true ↦ append_bounded acc p
        | false ↦ prefix_items es (append_bounded acc p)
      ])
      at same

mutual
  unfolding necessary_prefix

  -- Where an expression has an exact literal, its necessary prefix is that literal.
  pub necessary_prefix-exact_literal :
      (e : Hir) (l : List ℕ) → exact_literal e ≡ some l → necessary_prefix e ≡ l
  necessary_prefix-exact_literal never l h = cc h
  necessary_prefix-exact_literal epsilon l h = cc h
  necessary_prefix-exact_literal (assertion a) l h = cc h
  necessary_prefix-exact_literal (symbol x) l h = cc h
  necessary_prefix-exact_literal (predicate p) l h = cc h
  necessary_prefix-exact_literal (sequence es) l h = prefix_items-exact_items es [] l h
  necessary_prefix-exact_literal (alternation es) l h = alternation-exact es l h
  necessary_prefix-exact_literal (repeat e zero high) l h =
      let (bound, (u, at, lit)) = repetition-fields zero high (exact_literal e) l h in sym lit
  necessary_prefix-exact_literal (repeat e (suc low) high) l h =
      let (bound, (u, at, lit)) = repetition-fields (suc low) high (exact_literal e) l h in
      ap (λ o. necessary_repetition (suc low) o (necessary_prefix e)) at
      ∙ repeat_bounded-append_times (suc low) u []
      ∙ sym lit

  prefix_items-exact_items :
      (es : Hirs) (acc l : List ℕ) → exact_items es acc ≡ some l → prefix_items es acc ≡ l
  prefix_items-exact_items nil acc l h = cc h
  prefix_items-exact_items (cons e es) acc l h =
      let (n, at, others) = items-cons e es acc l h in
      let next = append_bounded acc n in
      let rest = prefix_items-exact_items es next l others in
      prefix_items-exact e es acc n at (necessary_prefix-exact_literal e n at)
      ∙ elim (Bool-cases (length next == max_literal_units)) [
        | inl full ↦
            rw (full, after_item)
              (exact_items_full es next l ((==_iff (length next) max_literal_units).0 full) others)
        | inr room ↦ rw (room, after_item) rest
      ]

  alternation-exact :
      (es : Hirs) (l : List ℕ) → exact_alternation es ≡ some l → necessary_alternation es ≡ l
  alternation-exact nil l h = cc
  alternation-exact (cons e es) l h =
      let (at, all) = alternation-cons e es l h in
      ap (shared_branches es) (necessary_prefix-exact_literal e l at) ∙ branches-exact es l all

  branches-exact :
      (es : Hirs) (first : List ℕ)
      → exact_branches es first ≡ true
      → shared_branches es first ≡ first
  branches-exact nil first h = refl
  branches-exact (cons e es) first h =
      let (at, all) = branches-cons e es first h in
      let rest = branches-exact es first all in
      let same : take (shared_length first (necessary_prefix e)) first ≡ first =
        ap (λ p. take (shared_length first p) first) (necessary_prefix-exact_literal e first at)
        ∙ take-shared_self first in
      ap (λ p. elim p [ [] ↦ [] | x ∷ tail ↦ shared_branches es (x ∷ tail) ]) same
      ∙ whole es first rest
    where
      whole :
          (es : Hirs) (p : List ℕ)
          → shared_branches es p ≡ p
          → elim p [ [] ↦ [] | x ∷ tail ↦ shared_branches es (x ∷ tail) ] ≡ p
      whole es [] k = refl
      whole es (x ∷ tail) k = k

-- Where an expression has an exact literal: that is its necessary prefix, and each match of the
-- expression consumes a text whose first 32 units are the literal.
pub exact_literal_lem :
    (input : Units) (e : Hir) (l : List ℕ)
    → exact_literal e ≡ some l
    → (necessary_prefix e ≡ l) × ((s t : Cursor) → Matches input e s t → Spelled input l s t)
exact_literal_lem input e l h =
    (necessary_prefix-exact_literal e l h, λ s t m. exact_literal-Spelled input e l s t h m)
