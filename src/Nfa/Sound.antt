-- ===== src/Nfa/Sound.antt =====
-- A walk of the automaton that rustmatch/src/nfa.rs compiles, from the root to a pattern's terminal
-- state, is a match of that pattern's expression.
use rustmatch.Prelude.{
  ℕ, zero, suc, ◌+◌, ◌<◌, ◌≡◌, refl, sym, subst, inl, inr, ◌↔◌, arith, true, List, [], ◌∷◌, Memᴰ,
  Memᴰ-nil, get_elem?, get_or, length, some, Bool-cases, ltb, ltb→lt, get_or_beyond, ◌∙◌,
}
use rustmatch.Error.{ok}
use rustmatch.Predicate.{SymbolPredicate}
use rustmatch.Hir.{HirPattern}
use rustmatch.Context.{Units, Cursor}
use rustmatch.Semantics.{Matches}
use rustmatch.Nfa.Builder.{Edge, Builder, edges_from, push_terminal, lookup}
use rustmatch.Nfa.Growth.{
  count, terminals_at, IsFormed, Below-refl, Below-trans, Includes, with_state, with_state-Grows,
  count-with_state,
}
use rustmatch.Nfa.Labels.{Label, Respects, push_edge-Respects, with_state-Extension}
use rustmatch.Nfa.Safety.{is_safe}
use rustmatch.Nfa.Correct.{compile_expression-Fragment}
use rustmatch.Nfa.Labels.{Trail-Respects}
use rustmatch.Nfa.Database.{compile_patterns, initial}
use rustmatch.Nfa.Accepts.{
  SafePatterns, Accepts, entry_edge, opened, terminal, opened-Grows, mem-push_terminal, Step,
  take-Step, patterns-Below, patterns_complete, count-opened, edges_from-push_terminal,
}

lt_of_mem : (xss : List (List ℕ)) (q o : ℕ) → Memᴰ o (get_or xss q []) → q < length xss
lt_of_mem xss q o m = elim (Bool-cases (ltb q (length xss))) [
  | inl lt ↦ ltb→lt q (length xss) lt
  | inr ge ↦ absurd (Memᴰ-nil (subst (Memᴰ o) (get_or_beyond xss q [] (ground arith)) m))
]

module _ (input : Units) (table : List SymbolPredicate) (origin : Cursor)
    (all : List HirPattern) where
  -- The pattern with this ordinal matches from the origin up to the cursor.
  abbrev Means : ℕ → Cursor → Type 0
  Means o t = (p : HirPattern) × (get_elem? all o ≡ some p) × Matches input p.expression origin t

  -- A label with only the origin at the root, and with matches alone at the terminals.
  record Labelled (b : Builder) : Type 1 where
    label : Label
    valid : Respects input table label (edges_from b)
    root : (s : Cursor) → label 0 s ↔ (s ≡ origin)
    ends : (q o : ℕ) (t : Cursor) → Memᴰ o (terminals_at b q) → label q t → Means o t

  module _ (p : HirPattern) (ps : List HirPattern) (ordinal : ℕ) (b b' : Builder)
      (safe : is_safe p.expression ≡ true) (f : IsFormed b) (pos : 0 < count b)
      (x : Step input p ps ordinal b b') (inc : Includes table x.now.body.predicates)
      (at_o : get_elem? all ordinal ≡ some p) where
    Labelled-step : Labelled b → Labelled (push_terminal x.now.body (terminal b) ordinal)
    Labelled-step L =
        let F = compile_expression-Fragment input p.expression safe in
        let g₁ = with_state-Grows b f in
        let g₂ = with_state-Grows (with_state b) g₁.formed in
        let size₁ = count-with_state b in
        let size₂ = count-with_state (with_state b) in
        let size = count-opened b f pos in
        let (X₀, new₀) =
          with_state-Extension input table L.label b
            (λ s.
              (t : Cursor) → Matches input p.expression s t → Matches input p.expression origin t)
            f L.valid in
        let (X₁, new₁) =
          with_state-Extension input table X₀.label (with_state b)
            (λ t. Matches input p.expression origin t) g₁.formed X₀.valid in
        let at_root : (s : Cursor) → X₁.label 0 s ↔ (s ≡ origin) = λ s. (
          λ h. (L.root s).0 ((X₀.agrees 0 pos s).0 ((X₁.agrees 0 (omega arith) s).0 h)),
          λ e. (X₁.agrees 0 (omega arith) s).1 ((X₀.agrees 0 pos s).1 ((L.root s).1 e)),
        ) in
        let at_first : (s : Cursor)
            → X₁.label (count b) s ↔ (
                (t : Cursor)
                → Matches input p.expression s t
                → Matches input p.expression origin t) =
          λ s. (
            λ h. (new₀ s).0 ((X₁.agrees (count b) (omega arith) s).0 h),
            λ h. (X₁.agrees (count b) (omega arith) s).1 ((new₀ s).1 h),
          ) in
        let v₂ =
          push_edge-Respects input table X₁.label (with_state (with_state b)) 0
            (entry_edge (count b)) g₂.formed (omega arith) X₁.valid
            (λ s t h e.
              (at_first t).1
                (λ u m. subst (λ y. Matches input p.expression y u) (sym e ∙ (at_root s).0 h) m)) in
        let X₂ =
          F.sound (count b) (terminal b) (opened b) x.now.body table X₁.label x.now.run inc v₂
            (λ s t h m. (new₁ t).1 ((at_first s).0 h t m))
            (λ s t h k. (at_first t).1 (λ u m. (at_first s).0 h u (F.absorb s t u k m))) in
        record {
          label = X₂.label;
          valid = same_edges X₂.label X₂.valid;
          root = λ s. (
            λ h. (at_root s).0 ((X₂.agrees 0 (omega arith) s).0 h),
            λ e. (X₂.agrees 0 (omega arith) s).1 ((at_root s).1 e),
          );
          ends = λ q o t m h.
              elim ((mem-push_terminal x.now.body (terminal b) ordinal x.body.formed x.in_range q
                  o).0
                m) [
                  | inl old ↦
                      let m' =
                        subst (Memᴰ o) (x.body.quiet q ∙ (opened-Grows b f pos).quiet q) old in
                      let lt : q < length b.terminals = lt_of_mem b.terminals q o m' in
                      let same = f.same in
                      L.ends q o t m' (
                        (X₀.agrees q (omega arith) t).0
                          ((X₁.agrees q (omega arith) t).0 ((X₂.agrees q (omega arith) t).0 h)))
                  | inr (at_terminal, is_ordinal) ↦ (
                    p,
                    subst (λ k. get_elem? all k ≡ some p) (sym is_ordinal) at_o,
                    (new₁ t).0 (
                        (X₂.agrees (terminal b) (omega arith) t).0
                          (subst (λ k. X₂.label k t) at_terminal h)),
                  )
                ];
        }
      where
        same_edges :
            (P : Label)
            → Respects input table P (edges_from x.now.body)
            → Respects input table P (edges_from (push_terminal x.now.body (terminal b) ordinal))
        same_edges P v q e m =
            v q e (subst (Memᴰ e) (edges_from-push_terminal x.now.body (terminal b) ordinal q) m)

  Labelled-patterns :
      (ps : List HirPattern) (ordinal : ℕ) (b b' : Builder)
      → SafePatterns ps
      → IsFormed b
      → 0 < count b
      → compile_patterns ps ordinal b ≡ ok b'
      → Includes table b'.predicates
      → ((i : ℕ) (p : HirPattern) → get_elem? ps i ≡ some p → get_elem? all (ordinal + i) ≡ some p)
      → Labelled b
      → Labelled b'
  unfolding compile_patterns
  Labelled-patterns [] ordinal b b' safe f pos h inc from L =
      let e : b ≡ b' = cc h in subst Labelled e L
  Labelled-patterns (p ∷ ps) ordinal b b' safe f pos h inc from L =
      let x = take-Step input p ps ordinal b b' safe.0 f pos h in
      let next = push_terminal x.now.body (terminal b) ordinal in
      let (f', rest) =
        patterns-Below input ps (suc ordinal) next b' safe.1 x.next_formed x.next_pos x.now.rest in
      let below = Below-trans x.next_below rest in
      let zero_eq : ordinal + 0 ≡ ordinal = omega arith in
      let L' =
        Labelled-step p ps ordinal b b' safe.0 f pos x
          (λ id q k. inc id q (below.predicates id q k))
          (subst (λ k. get_elem? all k ≡ some p) zero_eq (from 0 p refl)) L in
      Labelled-patterns ps (suc ordinal) next b' safe.1 x.next_formed x.next_pos x.now.rest inc
        (λ i q at_i. subst (λ k. get_elem? all k ≡ some q) (omega arith) (from (suc i) q at_i)) L'

pub initial-IsFormed : IsFormed initial
unfolding lookup
initial-IsFormed = record {
  same = refl;
  targets = λ q e m. absurd (Memᴰ-nil (no_edges q e m));
  interned = λ p id h. cc;
}
  where
    no_edges : (q : ℕ) (e : Edge) → Memᴰ e (edges_from initial q) → Memᴰ e []
    no_edges zero e m = m
    no_edges (suc q) e m = m

module _ (input : Units) (patterns : List HirPattern) (b : Builder) (safe : SafePatterns patterns)
    (compiled : compile_patterns patterns 0 initial ≡ ok b) (s t : Cursor) where
  initial-Labelled : Labelled input b.predicates s patterns initial
  initial-Labelled = record {
    label = λ q u. (q ≡ 0) × (u ≡ s);
    valid = λ q e m. absurd (nothing q e m);
    root = λ u. (λ h. h.1, λ e. (refl, e));
    ends = λ q o u m h. absurd (no_ends q o m);
  }
    where
      nothing : (q : ℕ) (e : Edge) → Memᴰ e (edges_from initial q) → ⊥
      nothing zero e m = Memᴰ-nil m
      nothing (suc q) e m = Memᴰ-nil m

      no_ends : (q o : ℕ) → Memᴰ o (terminals_at initial q) → ⊥
      no_ends zero o m = Memᴰ-nil m
      no_ends (suc q) o m = Memᴰ-nil m

  -- A walk from the root to where a pattern ends is a match of that pattern.
  pub patterns_sound :
      (i : ℕ)
      → Accepts input b i s t
      → (p : HirPattern) × (get_elem? patterns i ≡ some p) × Matches input p.expression s t
  patterns_sound i (q, m, walk) =
      let L =
        Labelled-patterns input b.predicates s patterns patterns 0 initial b safe initial-IsFormed
          (omega arith) compiled (λ id p h. h)
          (λ j p h. subst (λ k. get_elem? patterns k ≡ some p) (omega arith) h) initial-Labelled in
      L.ends q i t m (Trail-Respects L.valid walk ((L.root s).1 refl))

  -- For patterns whose expressions are safe and that compile without an error: the automaton accepts
  -- for an ordinal, from one cursor to another, if and only if there is a pattern with that ordinal
  -- and its expression matches between the two.
  pub compile_patterns_iff :
      (i : ℕ)
      → Accepts input b i s t
        ↔ ((p : HirPattern) × (get_elem? patterns i ≡ some p) × Matches input p.expression s t)
  compile_patterns_iff i = (
    patterns_sound i,
    λ (p, at_i, m).
        subst (λ k. Accepts input b k s t) (omega arith)
          (patterns_complete input patterns 0 initial b b s t safe initial-IsFormed (omega arith)
            compiled (Below-refl b) i p at_i m),
  )
