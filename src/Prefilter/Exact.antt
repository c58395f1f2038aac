-- ===== src/Prefilter/Exact.antt =====
-- rustmatch/src/prefilter.rs: `exact_literal` returns the text of every match of an expression, up to
-- 32 units.
use rustmatch.Prelude.{
  ℕ, zero, suc, ◌≡◌, refl, sym, subst, ap, ◌∙◌, true, inl, inr, Option, none, some, List, [], ◌∷◌,
  ◌++◌, Bool-cases, ◌==◌, ==_iff, arith, same_naturals-eq, append-nil, append_assoc, if◌then◌else◌,
  ◌≤◌,
}
use rustmatch.Hir.{
  Hir, Hirs, never, epsilon, assertion, symbol, predicate, sequence, alternation, repeat, nil, cons,
}
use rustmatch.Context.{Units, Cursor}
use rustmatch.Semantics.{Relation, Power, Within, Matches, MatchesAll, MatchesAny}
use rustmatch.Prefilter.Literal.{
  append_bounded, append_times, is_literal, exact_repetition, exact_literal, exact_items,
  exact_alternation, exact_branches,
}
use rustmatch.Prefilter.Spelling.{Spells, Spells-append, bounded, append_bounded-bounded}

-- The literal is the text between the cursors, up to 32 units.
abbrev pub Spelled : Units → List ℕ → Cursor → Cursor → Type 0
Spelled input l s t = (w : List ℕ) × Spells input s.position w t.position × (l ≡ bounded w)

-- So is the literal once it is appended to one for the text before.
abbrev Continues : Units → List ℕ → List ℕ → Cursor → Cursor → Type 0
Continues input before l s t =
    (w : List ℕ) × Spells input s.position w t.position × (l ≡ bounded (before ++ w))

pub items-cons :
    (e : Hir) (es : Hirs) (acc l : List ℕ)
    → exact_items (cons e es) acc ≡ some l
    → (n : List ℕ) × (exact_literal e ≡ some n) × (exact_items es (append_bounded acc n) ≡ some l)
unfolding exact_items
items-cons e es acc l h = read (exact_literal e) h
  where
    read :
        (o : Option (List ℕ))
        → (elim o [ none ↦ none | some next ↦ exact_items es (append_bounded acc next) ]) ≡ some l
        → (n : List ℕ) × (o ≡ some n) × (exact_items es (append_bounded acc n) ≡ some l)
    read none k = cc
    read (some n) k = (n, refl, k)

pub alternation-cons :
    (e : Hir) (es : Hirs) (l : List ℕ)
    → exact_alternation (cons e es) ≡ some l
    → (exact_literal e ≡ some l) × (exact_branches es l ≡ true)
unfolding exact_alternation
alternation-cons e es l h = read (exact_literal e) h
  where
    read :
        (o : Option (List ℕ))
        → (elim o [
          | none ↦ none
          | some first ↦ if exact_branches es first then some first else none
        ])
          ≡ some l
        → (o ≡ some l) × (exact_branches es l ≡ true)
    read none k = cc
    read (some first) k = elim (Bool-cases (exact_branches es first)) [
      | inl all ↦
          let same : some first ≡ some l = rw all at k in
          let eq : first ≡ l = cc same in (same, subst (λ x. exact_branches es x ≡ true) eq all)
      | inr differ ↦ let no : none ≡ some l = rw differ at k in cc no
    ]

pub is_literal-eq :
    (o : Option (List ℕ)) (first : List ℕ) → is_literal o first ≡ true → o ≡ some first
unfolding is_literal
is_literal-eq none first h = cc
is_literal-eq (some l) first h = ap some (same_naturals-eq l first h)

pub branches-cons :
    (e : Hir) (es : Hirs) (first : List ℕ)
    → exact_branches (cons e es) first ≡ true
    → (exact_literal e ≡ some first) × (exact_branches es first ≡ true)
unfolding exact_branches
branches-cons e es first h =
    let both : (is_literal (exact_literal e) first ≡ true) × (exact_branches es first ≡ true) =
      ground arith in
    (is_literal-eq (exact_literal e) first both.0, both.1)

pub repetition-fields :
    (low : ℕ) (high : Option ℕ) (o : Option (List ℕ)) (l : List ℕ)
    → exact_repetition low high o ≡ some l
    → (high ≡ some low) × ((u : List ℕ) × (o ≡ some u) × (l ≡ append_times low u []))
unfolding exact_repetition
repetition-fields low none o l h = cc
repetition-fields low (some high) none l h = cc
repetition-fields low (some high) (some u) l h = elim (Bool-cases (low == high)) [
  | inl e ↦
      let same : some (append_times low u []) ≡ some l = rw e at h in
      let eq : append_times low u [] ≡ l = cc same in
      (ap some (sym ((==_iff low high).0 e)), (u, refl, sym eq))
  | inr e ↦ let no : none ≡ some l = rw e at h in cc no
]

module _ (input : Units) where
  times-Continues :
      (R : Relation) (u : List ℕ)
      → ((s t : Cursor) → R s t → Spelled input u s t)
      → (n : ℕ) (before : List ℕ) (s t : Cursor) → Power R n s t
      → Continues input before (append_times n u (bounded before)) s t
  unfolding append_times
  times-Continues R u each zero before s t e =
      ([], ap (λ (c : Cursor). c.position) e, ap bounded (sym (append-nil before)))
  times-Continues R u each (suc n) before s t (m, r, rest) =
      let (w, text, lit) = each s m r in
      let joined : append_bounded (bounded before) u ≡ bounded (before ++ w) =
        ap (append_bounded (bounded before)) lit ∙ append_bounded-bounded before w in
      let (v, more, end) = times-Continues R u each n (before ++ w) m t rest in
      (
        w ++ v,
        Spells-append input s.position m.position t.position w v text more,
        ap (append_times n u) joined ∙ end ∙ ap bounded (append_assoc before w v),
      )

mutual
  unfolding exact_literal Matches

  -- The literal of an expression is the text of each of its matches, up to 32 units.
  pub exact_literal-Spelled :
      (input : Units) (e : Hir) (l : List ℕ) (s t : Cursor)
      → exact_literal e ≡ some l
      → Matches input e s t
      → Spelled input l s t
  exact_literal-Spelled input never l s t h m = cc
  exact_literal-Spelled input epsilon l s t h m =
      let e : [] ≡ l = cc h in ([], ap (λ (c : Cursor). c.position) m, sym e)
  exact_literal-Spelled input (assertion a) l s t h m = cc
  exact_literal-Spelled input (symbol x) l s t h (u, at, same, moved) =
      let e : x ∷ [] ≡ l = cc h in
      (
        x ∷ [],
        (at ∙ ap some (sym ((==_iff x u).0 same)), ap (λ (c : Cursor). c.position) (sym moved)),
        sym e,
      )
  exact_literal-Spelled input (predicate p) l s t h m = cc
  exact_literal-Spelled input (sequence es) l s t h m = exact_items-Continues input es [] l s t h m
  exact_literal-Spelled input (alternation es) l s t h m =
      exact_alternation-Spelled input es l s t h m
  exact_literal-Spelled input (repeat e low high) l s t h (n, above, below, power) =
      let (bound, (u, at, lit)) = repetition-fields low high (exact_literal e) l h in
      let limit : n ≤ low = subst (Within n) bound below in
      let count : n ≡ low = omega arith in
      let (w, text, end) =
        times-Continues input (Matches input e) u
          (λ a b r. exact_literal-Spelled input e u a b at r) low [] s t
          (subst (λ k. Power (Matches input e) k s t) count power) in
      (w, text, lit ∙ end)

  exact_items-Continues :
      (input : Units) (es : Hirs) (before l : List ℕ) (s t : Cursor)
      → exact_items es (bounded before) ≡ some l
      → MatchesAll input es s t
      → Continues input before l s t
  exact_items-Continues input nil before l s t h m =
      let e : bounded before ≡ l = cc h in
      ([], ap (λ (c : Cursor). c.position) m, sym e ∙ ap bounded (sym (append-nil before)))
  exact_items-Continues input (cons e es) before l s t h (m, first, rest) =
      let (n, at, others) = items-cons e es (bounded before) l h in
      let (w, text, lit) = exact_literal-Spelled input e n s m at first in
      let joined : append_bounded (bounded before) n ≡ bounded (before ++ w) =
        ap (append_bounded (bounded before)) lit ∙ append_bounded-bounded before w in
      let (v, more, end) =
        exact_items-Continues input es (before ++ w) l m t
          (subst (λ x. exact_items es x ≡ some l) joined others) rest in
      (
        w ++ v,
        Spells-append input s.position m.position t.position w v text more,
        end ∙ ap bounded (append_assoc before w v),
      )

  exact_alternation-Spelled :
      (input : Units) (es : Hirs) (l : List ℕ) (s t : Cursor)
      → exact_alternation es ≡ some l
      → MatchesAny input es s t
      → Spelled input l s t
  exact_alternation-Spelled input nil l s t h m = cc
  exact_alternation-Spelled input (cons e es) l s t h (inl m) =
      exact_literal-Spelled input e l s t (alternation-cons e es l h).0 m
  exact_alternation-Spelled input (cons e es) l s t h (inr m) =
      exact_branches-Spelled input es l s t (alternation-cons e es l h).1 m

  exact_branches-Spelled :
      (input : Units) (es : Hirs) (l : List ℕ) (s t : Cursor)
      → exact_branches es l ≡ true
      → MatchesAny input es s t
      → Spelled input l s t
  exact_branches-Spelled input nil l s t h m = elim m [ ]
  exact_branches-Spelled input (cons e es) l s t h (inl m) =
      exact_literal-Spelled input e l s t (branches-cons e es l h).0 m
  exact_branches-Spelled input (cons e es) l s t h (inr m) =
      exact_branches-Spelled input es l s t (branches-cons e es l h).1 m
