-- ===== src/Prefilter/Begins.antt =====
-- rustmatch/src/prefilter.rs: the text of every match of an expression begins with its
-- `necessary_prefix`, and the input at the match's start with its `NecessaryLiteral`.
use rustmatch.Prelude.{
  ℕ, zero, suc, ◌≡◌, refl, sym, subst, ap, ap₂, ◌∙◌, true, false, ◌||◌, inl, inr, none, some, List,
  [], ◌∷◌, ◌++◌, take, length, Bool-cases, Option-cases, ◌==◌, ==_iff, arith, append-nil,
  append_assoc, ◌≤◌,
}
use rustmatch.Hir.{
  Hir, Hirs, never, epsilon, assertion, symbol, predicate, sequence, alternation, repeat, nil, cons,
}
use rustmatch.Context.{Units, Cursor}
use rustmatch.Semantics.{Relation, Power, Matches, MatchesAll, MatchesAny}
use rustmatch.Prefilter.Literal.{
  max_literal_units, append_bounded, append_times, exact_literal, is_none, necessary_prefix,
  prefix_items, necessary_alternation, shared_branches, shared_length, necessary_repetition,
}
use rustmatch.Prefilter.Spelling.{
  Spells, Spells-append, IsPrefix, IsPrefix-trans, IsPrefix-append, take-IsPrefix, bounded,
  append_bounded-bounded, append_bounded-IsPrefix,
}
use rustmatch.Prefilter.Exact.{Spelled, exact_literal-Spelled}
use rustmatch.Prefilter.Necessary.{
  after_item, prefix_items-exact, necessary_prefix-exact_literal, repeat_bounded-append_times,
}

-- The text between the cursors begins with p, after the text before them.
abbrev pub Begins : Units → List ℕ → List ℕ → Cursor → Cursor → Type 0
Begins input before p s t =
    (w : List ℕ) × Spells input s.position w t.position × IsPrefix p (before ++ w)

still : (input : Units) (p : List ℕ) (s t : Cursor) → s ≡ t → Begins input p p s t
still input p s t e = ([], ap (λ (c : Cursor). c.position) e, ([], refl))

pub nothing-IsPrefix : (w : List ℕ) → IsPrefix [] w
nothing-IsPrefix w = (w, refl)

-- An item without an exact literal is the last one.
prefix_items_last :
    (e : Hir) (es : Hirs) (acc : List ℕ)
    → exact_literal e ≡ none
    → prefix_items (cons e es) acc ≡ append_bounded acc (necessary_prefix e)
unfolding prefix_items is_none
prefix_items_last e es acc at =
    ap
      (λ o.
        elim (is_none o || length (append_bounded acc (necessary_prefix e)) == max_literal_units) [
          | true ↦ append_bounded acc (necessary_prefix e)
          | false ↦ prefix_items es (append_bounded acc (necessary_prefix e))
        ])
      at

-- What is left of a prefix that is shared with another.
shared-IsPrefix : (p q : List ℕ) → IsPrefix (take (shared_length p q) p) q
unfolding shared_length
shared-IsPrefix [] q = nothing-IsPrefix q
shared-IsPrefix (x ∷ p) [] = nothing-IsPrefix []
shared-IsPrefix (x ∷ p) (y ∷ q) = elim (Bool-cases (x == y)) [
  | inl same ↦
      let (r, e) = shared-IsPrefix p q in rw same (r, ap₂ (λ u v. u ∷ v) ((==_iff x y).0 same) e)
  | inr differ ↦ rw differ (nothing-IsPrefix (y ∷ q))
]

abbrev narrowed : Hirs → List ℕ → List ℕ
narrowed es p = elim p [ [] ↦ [] | x ∷ rest ↦ shared_branches es (x ∷ rest) ]

narrowed-IsPrefix :
    (es : Hirs) (q : List ℕ)
    → ((z : List ℕ) → IsPrefix (shared_branches es z) z)
    → IsPrefix (narrowed es q) q
narrowed-IsPrefix es [] k = ([], refl)
narrowed-IsPrefix es (x ∷ rest) k = k (x ∷ rest)

shared_branches-IsPrefix : (es : Hirs) (p : List ℕ) → IsPrefix (shared_branches es p) p
unfolding shared_branches
shared_branches-IsPrefix nil p = ([], append-nil p)
shared_branches-IsPrefix (cons e es) p =
    let q = take (shared_length p (necessary_prefix e)) p in
    IsPrefix-trans (narrowed es q) q p (narrowed-IsPrefix es q (λ z. shared_branches-IsPrefix es z))
      (take-IsPrefix (shared_length p (necessary_prefix e)) p)

module _ (input : Units) where
  -- A piece of text, and what comes after it.
  then_text :
      (before p : List ℕ) (s m t : Cursor)
      → Begins input before p s m
      → ((v : List ℕ) × Spells input m.position v t.position)
      → Begins input before p s t
  then_text before p s m t (w, text, pre) (v, more) = (
    w ++ v,
    Spells-append input s.position m.position t.position w v text more,
    subst (IsPrefix p) (append_assoc before w v) (IsPrefix-append p (before ++ w) v pre),
  )

  power-text :
      (R : Relation)
      → ((s t : Cursor) → R s t → (w : List ℕ) × Spells input s.position w t.position)
      → (n : ℕ) (s t : Cursor) → Power R n s t
      → (w : List ℕ) × Spells input s.position w t.position
  power-text R each zero s t e = ([], ap (λ (c : Cursor). c.position) e)
  power-text R each (suc n) s t (m, r, rest) =
      let (w, text) = each s m r in
      let (v, more) = power-text R each n m t rest in
      (w ++ v, Spells-append input s.position m.position t.position w v text more)

  -- The first rounds of a repetition of an exact literal.
  power-Begins :
      (R : Relation) (u : List ℕ)
      → ((s t : Cursor) → R s t → Spelled input u s t)
      → (k n : ℕ) (before : List ℕ) (s t : Cursor) → k ≤ n
      → Power R n s t
      → Begins input before (append_times k u (bounded before)) s t
  unfolding append_times
  power-Begins R u each zero n before s t h power =
      then_text before (bounded before) s s t
        (
          [],
          refl,
          IsPrefix-append (bounded before) before [] (take-IsPrefix max_literal_units before),
        )
        (power-text R (λ a b r. let (w, text, lit) = each a b r in (w, text)) n s t power)
  power-Begins R u each (suc k) zero before s t h power = absurd (omega arith)
  power-Begins R u each (suc k) (suc n) before s t h (m, r, rest) =
      let (w, text, lit) = each s m r in
      let joined : append_bounded (bounded before) u ≡ bounded (before ++ w) =
        ap (append_bounded (bounded before)) lit ∙ append_bounded-bounded before w in
      let (v, more, pre) = power-Begins R u each k n (before ++ w) m t (omega arith) rest in
      (
        w ++ v,
        Spells-append input s.position m.position t.position w v text more,
        subst (λ z. IsPrefix (append_times k u z) (before ++ (w ++ v))) (sym joined)
            (subst (IsPrefix _) (append_assoc before w v) pre),
      )

-- The rest of a sequence after an item with an exact literal.
item-Begins :
    (input : Units) (es : Hirs) (before w : List ℕ) (s m t : Cursor)
    → Spells input s.position w m.position
    → ((v : List ℕ) × Spells input m.position v t.position)
    → Begins input (before ++ w) (prefix_items es (bounded (before ++ w))) m t
    → Begins input before (after_item es (bounded (before ++ w))) s t
item-Begins input es before w s m t text rest more =
    let next = bounded (before ++ w) in
    elim (Bool-cases (length next == max_literal_units)) [
      | inl full ↦
          rw (full, after_item)
            (then_text input before next s m t
              (w, text, take-IsPrefix max_literal_units (before ++ w)) rest)
      | inr room ↦
          let (v, read, pre) = more in
          rw (room, after_item)
            (
              w ++ v,
              Spells-append input s.position m.position t.position w v text read,
              subst (IsPrefix (prefix_items es next)) (append_assoc before w v) pre,
            )
    ]

narrowed-Begins :
    (input : Units) (es : Hirs) (q : List ℕ) (s t : Cursor)
    → ((p : List ℕ) → Begins input [] (shared_branches es p) s t)
    → Begins input [] (narrowed es q) s t
narrowed-Begins input es [] s t k = let (w, text, pre) = k [] in (w, text, nothing-IsPrefix w)
narrowed-Begins input es (x ∷ rest) s t k = k (x ∷ rest)

mutual
  unfolding necessary_prefix Matches

  pub necessary_prefix-Begins :
      (input : Units) (e : Hir) (s t : Cursor)
      → Matches input e s t
      → Begins input [] (necessary_prefix e) s t
  necessary_prefix-Begins input never s t m = elim m [ ]
  necessary_prefix-Begins input epsilon s t m = still input [] s t m
  necessary_prefix-Begins input (assertion a) s t m = still input [] s t m.0
  necessary_prefix-Begins input (symbol x) s t (u, at, same, moved) = (
    x ∷ [],
    (at ∙ ap some (sym ((==_iff x u).0 same)), ap (λ (c : Cursor). c.position) (sym moved)),
    ([], refl),
  )
  necessary_prefix-Begins input (predicate p) s t (u, at, same, moved) =
      (u ∷ [], (at, ap (λ (c : Cursor). c.position) (sym moved)), nothing-IsPrefix (u ∷ []))
  necessary_prefix-Begins input (sequence es) s t m = prefix_items-Begins input es [] s t m
  necessary_prefix-Begins input (alternation es) s t m = alternation-Begins input es s t m
  necessary_prefix-Begins input (repeat e zero high) s t (n, above, below, power) =
      let (w, text) =
        power-text input (Matches input e)
          (λ a b r. let (v, read, pre) = necessary_prefix-Begins input e a b r in (v, read)) n s t
          power in
      (w, text, nothing-IsPrefix w)
  necessary_prefix-Begins input (repeat e (suc low) high) s t (zero, above, below, power) =
      absurd (omega arith)
  necessary_prefix-Begins input (repeat e (suc low) high) s t (suc n, above, below, power) =
      let once =
        λ (a b : Cursor) (r : Matches input e a b). necessary_prefix-Begins input e a b r in
      elim (Option-cases (exact_literal e)) [
        | inl open_end ↦
            let (m, first, rest) = power in
            subst (λ o. Begins input [] (necessary_repetition (suc low) o (necessary_prefix e)) s t)
              (sym open_end)
              (then_text input [] (necessary_prefix e) s m t (once s m first) (
                power-text input (Matches input e)
                  (λ a b r. let (v, read, pre) = once a b r in (v, read)) n m t rest))
        | inr (u, at) ↦
            subst (λ o. Begins input [] (necessary_repetition (suc low) o (necessary_prefix e)) s t)
              (sym at)
              (subst (λ p. Begins input [] p s t) (sym (repeat_bounded-append_times (suc low) u []))
                (power-Begins input (Matches input e) u
                  (λ a b r. exact_literal-Spelled input e u a b at r) (suc low) (suc n) [] s t above
                  power))
      ]

  prefix_items-Begins :
      (input : Units) (es : Hirs) (before : List ℕ) (s t : Cursor)
      → MatchesAll input es s t
      → Begins input before (prefix_items es (bounded before)) s t
  prefix_items-Begins input nil before s t m = (
    [],
    ap (λ (c : Cursor). c.position) m,
    IsPrefix-append (bounded before) before [] (take-IsPrefix max_literal_units before),
  )
  prefix_items-Begins input (cons e es) before s t (m, first, others) =
      let ih = necessary_prefix-Begins input e s m first in
      let rest = λ (b : List ℕ). prefix_items-Begins input es b m t others in
      let (v, more, ignored) = rest [] in
      elim (Option-cases (exact_literal e)) [
        | inl open_end ↦
            let (w, text, pre) = ih in
            subst (λ p. Begins input before p s t)
              (sym (prefix_items_last e es (bounded before) open_end))
              (then_text input before (append_bounded (bounded before) (necessary_prefix e)) s m t
                (w, text, append_bounded-IsPrefix before w (necessary_prefix e) pre) (v, more))
        | inr (n, at) ↦
            let (w, text, lit) = exact_literal-Spelled input e n s m at first in
            let joined : append_bounded (bounded before) n ≡ bounded (before ++ w) =
              ap (append_bounded (bounded before)) lit ∙ append_bounded-bounded before w in
            let step =
              prefix_items-exact e es (bounded before) n at (necessary_prefix-exact_literal e n at)
              ∙ ap (after_item es) joined in
            subst (λ p. Begins input before p s t) (sym step)
              (item-Begins input es before w s m t text (v, more) (rest (before ++ w)))
      ]

  alternation-Begins :
      (input : Units) (es : Hirs) (s t : Cursor)
      → MatchesAny input es s t
      → Begins input [] (necessary_alternation es) s t
  alternation-Begins input nil s t m = elim m [ ]
  alternation-Begins input (cons e es) s t (inl m) =
      let (w, text, pre) = necessary_prefix-Begins input e s t m in
      (
        w,
        text,
        IsPrefix-trans _ (necessary_prefix e) w (shared_branches-IsPrefix es (necessary_prefix e))
            pre,
      )
  alternation-Begins input (cons e es) s t (inr m) =
      branches-Begins input es (necessary_prefix e) s t m

  branches-Begins :
      (input : Units) (es : Hirs) (p : List ℕ) (s t : Cursor)
      → MatchesAny input es s t
      → Begins input [] (shared_branches es p) s t
  branches-Begins input nil p s t m = elim m [ ]
  branches-Begins input (cons e es) p s t (inl m) =
      let q = take (shared_length p (necessary_prefix e)) p in
      let (w, text, pre) = necessary_prefix-Begins input e s t m in
      (
        w,
        text,
        IsPrefix-trans (narrowed es q) q w
            (narrowed-IsPrefix es q (λ z. shared_branches-IsPrefix es z))
            (IsPrefix-trans q (necessary_prefix e) w (shared-IsPrefix p (necessary_prefix e)) pre),
      )
  branches-Begins input (cons e es) p s t (inr m) =
      narrowed-Begins input es (take (shared_length p (necessary_prefix e)) p) s t
        (λ q. branches-Begins input es q s t m)
