-- ===== src/Nfa/Accepts.antt =====
-- What the automaton that rustmatch/src/nfa.rs compiles from a list of patterns accepts: for each
-- pattern, the moves of the cursor that the pattern's expression means.
use rustmatch.Prelude.{
  ℕ, zero, suc, ◌+◌, ◌<◌, ◌≡◌, refl, sym, subst, ◌⊎◌, inl, inr, ◌↔◌, arith, true, List, [], ◌∷◌,
  ◌++◌, Memᴰ, get_elem?, get_or, some, length-set,
}
use rustmatch.Error.{ok, >>=-eq-ok}
use rustmatch.Hir.{HirPattern}
use rustmatch.Context.{Units, Cursor}
use rustmatch.Semantics.{Matches}
use rustmatch.Nfa.Builder.{
  Edge, Builder, epsilon, edges_from, push_edge, push_terminal, add_epsilon,
}
use rustmatch.Nfa.Compile.{compile_expression}
use rustmatch.Nfa.Paths.{step}
use rustmatch.Nfa.Growth.{
  count, terminals_at, IsFormed, Below, Below-refl, Below-trans, Grows, Grows-trans, with_state,
  with_state-Grows, count-with_state, mem-push, add_state-bind, push_edge-Grows, mem-push_edge,
  count-push_edge,
}
use rustmatch.Nfa.Fragment.{Run, Walk}
use rustmatch.Nfa.Safety.{is_safe}
use rustmatch.Nfa.Correct.{compile_expression-Fragment}
use rustmatch.Nfa.Database.{compile_patterns}

abbrev pub SafePatterns : List HirPattern → Type 0
SafePatterns [] = Unit
SafePatterns (p ∷ ps) = (is_safe p.expression ≡ true) × SafePatterns ps

-- A walk from the root to a state where the pattern with this ordinal ends.
abbrev pub Accepts : Units → Builder → ℕ → Cursor → Cursor → Type 0
Accepts input d ordinal s t = (q : ℕ) × Memᴰ ordinal (terminals_at d q) × Walk input d q t 0 s

abbrev pub entry_edge : ℕ → Edge
entry_edge first = record { kind = epsilon; target = first }

-- The builder of one round when the expression is compiled: two new states, the first of which the
-- root leads to.
abbrev pub opened : Builder → Builder
opened b = push_edge (with_state (with_state b)) 0 (entry_edge (count b))

abbrev pub terminal : Builder → ℕ
terminal b = count (with_state b)

-- One round of the loop of `compile`, taken apart.
pub record Round (p : HirPattern) (ps : List HirPattern) (ordinal : ℕ) (b b' : Builder)
    : Type 0 where
  pub body : Builder
  pub run : Run (compile_expression p.expression) (count b) (terminal b) (opened b) body
  pub rest : compile_patterns ps (suc ordinal) (push_terminal body (terminal b) ordinal) ≡ ok b'

module _ (b : Builder) (f : IsFormed b) (pos : 0 < count b) where
  pub opened-Grows : Grows b (opened b)
  opened-Grows =
      let g₁ = with_state-Grows b f in
      let g₂ = with_state-Grows (with_state b) g₁.formed in
      let size₁ = count-with_state b in
      let size₂ = count-with_state (with_state b) in
      Grows-trans g₁ (
        Grows-trans g₂ (
          push_edge-Grows (with_state (with_state b)) 0 (entry_edge (count b)) g₂.formed
            (omega arith) (omega arith)))

  pub count-opened : count (opened b) ≡ count b + 2
  count-opened =
      let g₁ = with_state-Grows b f in
      let g₂ = with_state-Grows (with_state b) g₁.formed in
      let size₁ = count-with_state b in
      let size₂ = count-with_state (with_state b) in
      omega (
        arith,
        count-push_edge (with_state (with_state b)) 0 (entry_edge (count b)) g₂.formed
            (omega arith),
      )

  round :
      (p : HirPattern) (ps : List HirPattern) (ordinal : ℕ) (b' : Builder)
      → compile_patterns (p ∷ ps) ordinal b ≡ ok b'
      → Round p ps ordinal b b'
  unfolding compile_patterns add_epsilon
  round p ps ordinal b' h =
      let h₁ = add_state-bind b _ h in
      let h₂ = add_state-bind (with_state b) _ h₁ in
      let (b₃, ran, rest) =
        >>=-eq-ok (compile_expression p.expression (count b) (terminal b) (opened b)) _ h₂ in
      let size = count-opened in
      let size₁ = count-with_state b in
      record {
        body = b₃;
        run = record {
          formed = opened-Grows.formed;
          start_lt = omega arith;
          end_lt = omega arith;
          runs = ran;
        };
        rest = rest;
      }

-- A terminal is added to a state in range.
module _ (b : Builder) (q o : ℕ) (f : IsFormed b) (lt : q < count b) where
  pub mem-push_terminal :
      (r x : ℕ)
      → Memᴰ x (terminals_at (push_terminal b q o) r)
        ↔ (Memᴰ x (terminals_at b r) ⊎ ((r ≡ q) × (x ≡ o)))
  unfolding push_terminal
  mem-push_terminal r x = mem-push b.terminals q o r x (omega (arith, f.same))

  push_terminal-IsFormed : IsFormed (push_terminal b q o)
  unfolding push_terminal
  push_terminal-IsFormed = record {
    same = omega (arith, f.same, length-set b.terminals q (get_or b.terminals q [] ++ o ∷ []));
    targets = f.targets;
    interned = f.interned;
  }

  push_terminal-Below : Below b (push_terminal b q o)
  unfolding push_terminal
  push_terminal-Below = record {
    states = omega arith;
    edges = λ r e m. m;
    predicates = λ id p h. h;
    terminals = λ r x m. (mem-push_terminal r x).1 (inl m);
  }

pub edges_from-push_terminal :
    (b : Builder) (q o r : ℕ) → edges_from (push_terminal b q o) r ≡ edges_from b r
unfolding push_terminal
edges_from-push_terminal b q o r = refl

module _ (input : Units) where
  -- What one round gives, once the contract of its expression is at hand.
  pub record Step (p : HirPattern) (ps : List HirPattern) (ordinal : ℕ) (b b' : Builder)
      : Type 0 where
    pub now : Round p ps ordinal b b'
    pub body : Grows (opened b) now.body
    pub next_formed : IsFormed (push_terminal now.body (terminal b) ordinal)
    pub next_below : Below now.body (push_terminal now.body (terminal b) ordinal)
    pub in_range : terminal b < count now.body
    pub next_pos : 0 < count (push_terminal now.body (terminal b) ordinal)

  pub take-Step :
      (p : HirPattern) (ps : List HirPattern) (ordinal : ℕ) (b b' : Builder)
      → is_safe p.expression ≡ true
      → IsFormed b
      → 0 < count b
      → compile_patterns (p ∷ ps) ordinal b ≡ ok b'
      → Step p ps ordinal b b'
  take-Step p ps ordinal b b' safe f pos h =
      let w = round b f pos p ps ordinal b' h in
      let g =
        (compile_expression-Fragment input p.expression safe).grows (count b) (terminal b)
          (opened b) w.body w.run in
      let lt : terminal b < count w.body = omega (arith, g.below.states, w.run.end_lt) in
      let below = push_terminal-Below w.body (terminal b) ordinal g.formed lt in
      record {
        now = w;
        body = g;
        next_formed = push_terminal-IsFormed w.body (terminal b) ordinal g.formed lt;
        next_below = below;
        in_range = lt;
        next_pos = omega (arith, below.states);
      }

  pub patterns-Below :
      (ps : List HirPattern) (ordinal : ℕ) (b b' : Builder)
      → SafePatterns ps
      → IsFormed b
      → 0 < count b
      → compile_patterns ps ordinal b ≡ ok b'
      → IsFormed b' × Below b b'
  unfolding compile_patterns
  patterns-Below [] ordinal b b' safe f pos h =
      let e : b ≡ b' = cc h in subst (λ y. IsFormed y × Below b y) e (f, Below-refl b)
  patterns-Below (p ∷ ps) ordinal b b' safe f pos h =
      let x = take-Step p ps ordinal b b' safe.0 f pos h in
      let (f', below) =
        patterns-Below ps (suc ordinal) (push_terminal x.now.body (terminal b) ordinal) b' safe.1
          x.next_formed x.next_pos x.now.rest in
      (
        f',
        Below-trans (opened-Grows b f pos).below
            (Below-trans x.body.below (Below-trans x.next_below below)),
      )

  -- A match of a pattern is a walk of the automaton.
  pub patterns_complete :
      (ps : List HirPattern) (ordinal : ℕ) (b b' d : Builder) (s t : Cursor)
      → SafePatterns ps
      → IsFormed b
      → 0 < count b
      → compile_patterns ps ordinal b ≡ ok b'
      → Below b' d
      → (i : ℕ) (p : HirPattern) → get_elem? ps i ≡ some p
      → Matches input p.expression s t
      → Accepts input d (ordinal + i) s t
  patterns_complete [] ordinal b b' d s t safe f pos h below i p at_i m = cc
  patterns_complete (p ∷ ps) ordinal b b' d s t safe f pos h below (suc i) q at_i m =
      let x = take-Step p ps ordinal b b' safe.0 f pos h in
      subst (λ o. Accepts input d o s t) (omega arith)
        (patterns_complete ps (suc ordinal) (push_terminal x.now.body (terminal b) ordinal) b' d s t
          safe.1 x.next_formed x.next_pos x.now.rest below i q at_i m)
  patterns_complete (p ∷ ps) ordinal b b' d s t safe f pos h below zero q at_i m =
      let x = take-Step p ps ordinal b b' safe.0 f pos h in
      let (f', rest) =
        patterns-Below ps (suc ordinal) (push_terminal x.now.body (terminal b) ordinal) b' safe.1
          x.next_formed x.next_pos x.now.rest in
      let ends = Below-trans rest below in
      let bodies = Below-trans x.next_below ends in
      let all = Below-trans x.body.below bodies in
      let same : p ≡ q = cc at_i in
      let g₂ = with_state-Grows (with_state b) (with_state-Grows b f).formed in
      let size₁ = count-with_state b in
      let size₂ = count-with_state (with_state b) in
      let entry =
        (mem-push_edge (with_state (with_state b)) 0 (entry_edge (count b)) g₂.formed (omega arith)
            0 (entry_edge (count b))).1
          (inr (refl, refl)) in
      let accepted =
        (mem-push_terminal x.now.body (terminal b) ordinal x.body.formed x.in_range (terminal b)
            ordinal).1
          (inr (refl, refl)) in
      subst (λ o. Accepts input d o s t) (omega arith)
        (
          terminal b,
          ends.terminals (terminal b) ordinal accepted,
          step (entry_edge (count b)) s (all.edges 0 (entry_edge (count b)) entry) refl (
              (compile_expression-Fragment input p.expression safe.0).complete (count b)
                (terminal b) (opened b) x.now.body d s t x.now.run bodies
                (subst (λ (y : HirPattern). Matches input y.expression s t) (sym same) m)),
        )
