-- ===== src/Nfa/Shared.antt =====
-- rustmatch/src/nfa.rs: `compile_repetition` loops an unbounded repetition with no required round
-- through the start state that it is given, and the branches of an alternation share that state.
use rustmatch.Prelude.{
  true, false, ◌==◌, ==_iff, get_elem?, ap, sym, ◌∙◌, subst, ◌+◌, ℕ, ◌≡◌, refl, none, some, List,
  [], ◌∷◌, inl, inr, ⊎_elim, ◌≢◌, Memᴰ-cons, suc, zero, arith,
}
use rustmatch.Error.{ok}
use rustmatch.Hir.{Hir, HirPattern, symbol, alternation, repeat, cons, nil}
use rustmatch.Context.{Cursor}
use rustmatch.Semantics.{Matches, Power, Reads}
use rustmatch.Nfa.Builder.{
  add_state, add_epsilon, push_edge, push_terminal, for_index, Builder, EdgeKind, epsilon, Edge,
}
use rustmatch.Nfa.Compile.{
  compile_expression, compile_repetition, repetition_tail, required_loop, unbounded_loop,
}
use rustmatch.Nfa.Database.{compile_patterns, initial}
use rustmatch.Nfa.Paths.{here, step}
use rustmatch.Nfa.Accepts.{Accepts}

-- `x*|y`.
abbrev pub star_branch : ℕ → ℕ → Hir
star_branch x y = alternation (cons (repeat (symbol x) 0 none) (cons (symbol y) nil))

abbrev pub star_branch_patterns : ℕ → ℕ → List HirPattern
star_branch_patterns x y =
    record {
      pattern_id = 0;
      expression = star_branch x y;
      nullable = true;
      minimum_consumed = some 0;
    }
    ∷ []

abbrev pub at_start : Cursor
at_start = record { position = 0; after_current = false }

abbrev pub after_units : ℕ → Cursor
after_units n = record { position = n; after_current = true }

abbrev edge : EdgeKind → ℕ → Edge
edge kind target = record { kind = kind; target = target }

-- What the compiler builds for it.
abbrev star_branch_automaton : ℕ → ℕ → Builder
star_branch_automaton x y = record {
  edges =
      (edge epsilon 1 ∷ [])
      ∷ (edge epsilon 2 ∷ edge (EdgeKind.symbol x) 3 ∷ edge (EdgeKind.symbol y) 2 ∷ [])
      ∷ []
      ∷ (edge epsilon 1 ∷ [])
      ∷ [];
  terminals = [] ∷ [] ∷ (0 ∷ []) ∷ [] ∷ [];
  predicates = [];
  predicate_ids = [];
}

compile-star_branch :
    (x y : ℕ)
    → compile_patterns (star_branch_patterns x y) 0 initial ≡ ok (star_branch_automaton x y)
unfolding compile_patterns compile_expression compile_repetition repetition_tail required_loop
    unbounded_loop add_state add_epsilon push_edge push_terminal for_index
compile-star_branch x y = refl

reads-position :
    (input : List ℕ) (x n : ℕ) (s t : Cursor)
    → Power (Reads input (λ u. x == u)) n s t
    → t.position ≡ s.position + n
reads-position input x zero s t e = omega (arith, ap (λ (c : Cursor). c.position) e)
reads-position input x (suc n) s t (m, (u, at, eq, e), p) =
    omega (arith, ap (λ (c : Cursor). c.position) e, reads-position input x n m t p)

star-same :
    (x y n : ℕ) → Power (Reads (x ∷ y ∷ []) (λ u. x == u)) n at_start (after_units 2) → x ≡ y
star-same x y zero p =
    absurd (omega (arith, reads-position (x ∷ y ∷ []) x 0 at_start (after_units 2) p))
star-same x y (suc zero) p =
    absurd (omega (arith, reads-position (x ∷ y ∷ []) x 1 at_start (after_units 2) p))
star-same x y (suc (suc n)) (m, (u, at, eq, e), (k, (v, at', eq', e'), p)) =
    let here_position : m.position ≡ 1 = ap (λ (c : Cursor). c.position) e in
    let same : some y ≡ some v = subst (λ i. get_elem? (x ∷ y ∷ []) i ≡ some v) here_position at' in
    let y_is : y ≡ v = cc same in (==_iff x v).0 eq' ∙ sym y_is

-- For two different units, the automaton of `x*|y` accepts the text `xy`, which the expression
-- does not match.
pub star_branch-Accepts :
    (x y : ℕ)
    → x ≢ y
    → ((b : Builder) × (compile_patterns (star_branch_patterns x y) 0 initial ≡ ok b)
        × Accepts (x ∷ y ∷ []) b 0 at_start (after_units 2))
      × (¬ Matches (x ∷ y ∷ []) (star_branch x y) at_start (after_units 2))
unfolding Matches
star_branch-Accepts x y apart = (
  (
    star_branch_automaton x y,
    compile-star_branch x y,
    (
      2,
      (Memᴰ-cons 0 0 []).1 (inl refl),
      step (edge epsilon 1) at_start ((Memᴰ-cons _ _ []).1 (inl refl)) refl (
          step (edge (EdgeKind.symbol x) 3) (after_units 1)
            ((Memᴰ-cons _ _ _).1 (inr ((Memᴰ-cons _ _ _).1 (inl refl))))
            (x, refl, (==_iff x x).1 refl, refl)
            (step (edge epsilon 1) (after_units 1) ((Memᴰ-cons _ _ []).1 (inl refl)) refl (
              step (edge (EdgeKind.symbol y) 2) (after_units 2)
                ((Memᴰ-cons _ _ _).1
                  (inr ((Memᴰ-cons _ _ _).1 (inr ((Memᴰ-cons _ _ []).1 (inl refl))))))
                (y, refl, (==_iff y y).1 refl, refl) here))),
    ),
  ),
  ⊎_elim (λ (n, low, within, p). apart (star-same x y n p))
      (⊎_elim (λ (u, at, eq, e). let f : 2 ≡ 1 = ap (λ (c : Cursor). c.position) e in omega arith)
        (λ k. k)),
)
