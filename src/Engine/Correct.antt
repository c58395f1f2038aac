-- ===== src/Engine/Correct.antt =====
-- The scanner of rustmatch/src/engine.rs on the database that rustmatch/src/nfa.rs compiles: one
-- start leaves, for each pattern, the end of its longest match.
use rustmatch.Prelude.{
  ℕ, suc, ◌<◌, ◌≤◌, ◌≡◌, refl, sym, subst, ap, ap₂, ◌∙◌, fun_ext, ◌⊎◌, inl, inr, ◌↔◌, List, [], ◌∷◌,
  Memᴰ, arith, none, some, get_elem?, length, map, lt-length_of_get_elem?,
}
use rustmatch.Error.{ok}
use rustmatch.Hir.{HirPattern}
use rustmatch.Context.{Units}
use rustmatch.Semantics.{Matches}
use rustmatch.Nfa.Builder.{Edge, Builder}
use rustmatch.Nfa.Growth.{IsFormed, Below}
use rustmatch.Nfa.Paths.{Trail}
use rustmatch.Nfa.Database.{compile_patterns, initial, finish, state_count, edges_from}
use rustmatch.Nfa.Layout.{finish_lem}
use rustmatch.Nfa.Accepts.{SafePatterns, Accepts, patterns-Below}
use rustmatch.Nfa.Sound.{initial-IsFormed, compile_patterns_iff}
use rustmatch.Engine.Closure.{follows_assertions}
use rustmatch.Engine.Scan.{best, scan_start}
use rustmatch.Engine.Longest.{begins_at, ends_at, EndsAt, scan_start_lem}

ids_of :
    (patterns : List HirPattern)
    → length (map (λ (p : HirPattern). p.pattern_id) patterns) ≡ length patterns
ids_of [] = refl
ids_of (p ∷ ps) = ap suc (ids_of ps)

pub length-pattern_ids :
    (patterns : List HirPattern) (b : Builder)
    → length (finish patterns b).pattern_ids ≡ length patterns
unfolding finish
length-pattern_ids patterns b = ids_of patterns

predicates-finish :
    (patterns : List HirPattern) (b : Builder) → (finish patterns b).predicates ≡ b.predicates
unfolding finish
predicates-finish patterns b = refl

module _ (input : Units) (patterns : List HirPattern) (b : Builder) (safe : SafePatterns patterns)
    (compiled : compile_patterns patterns 0 initial ≡ ok b) where
  formed : IsFormed b × Below initial b
  formed = patterns-Below input patterns 0 initial b safe initial-IsFormed (omega arith) compiled

  pub sizes : length b.terminals ≡ length b.edges
  sizes = let f = formed.0 in let same = f.same in omega arith

  pub finish-target :
      (q : ℕ) (e : Edge)
      → Memᴰ e (edges_from (finish patterns b) q)
      → e.target < state_count (finish patterns b)
  finish-target q e m =
      let (count, edges, ends) = finish_lem patterns b sizes in
      let f = formed.0 in
      let lt = f.targets q e (subst (Memᴰ e) (edges q) m) in omega (arith, count, lt)

  pub root_in_range : 0 < state_count (finish patterns b)
  root_in_range =
      let (count, edges, ends) = finish_lem patterns b sizes in
      let below = formed.1 in let states = below.states in omega (arith, count, states)

  pub EndsAt-Accepts :
      (i start e : ℕ)
      → EndsAt (finish patterns b) input finish-target 0 (begins_at start) i e
        ↔ Accepts input b i (begins_at start) (ends_at e)
  EndsAt-Accepts i start e =
      let (count, edges, ends) = finish_lem patterns b sizes in
      let routes = λ (q : ℕ).
        ap₂ (λ es table. Trail input es table q (ends_at e) 0 (begins_at start)) (fun_ext edges)
          (predicates-finish patterns b) in
      (
        λ (q, m, walk). (q, subst (Memᴰ i) (ends q) m, subst (λ (T : Type 0). T) (routes q) walk),
        λ (q, m, walk).
            (q, subst (Memᴰ i) (sym (ends q)) m, subst (λ (T : Type 0). T) (sym (routes q)) walk),
      )

  -- For patterns whose expressions are safe and that compile without an error: after the scan of one
  -- start, the entry of a pattern is the end of its longest non-empty match that begins there, and
  -- the entry is empty if the pattern has no such match.
  pub scan_start-longest :
      (i : ℕ) (p : HirPattern) (start : ℕ)
      → get_elem? patterns i ≡ some p
      → let r = scan_start (finish patterns b) (follows_assertions input) input 0 start in
        ((e : ℕ) × (best r i ≡ some e)
          × (start < e)
          × Matches input p.expression (begins_at start) (ends_at e)
          × ((e' : ℕ)
              → start < e'
              → Matches input p.expression (begins_at start) (ends_at e')
              → e' ≤ e))
        ⊎ ((best r i ≡ none)
            × ((e' : ℕ) → start < e' → ¬ Matches input p.expression (begins_at start) (ends_at e')))
  scan_start-longest i p start at_i =
      elim (scan_start_lem (finish patterns b) input finish-target 0 start i root_in_range
        (omega (arith, length-pattern_ids patterns b, lt-length_of_get_elem? patterns i at_i))) [
          | inl (e, found, lt, ends, most) ↦
              inl (e, found, lt, meaning e ends, λ e' lt' m. most e' lt' (ending e' m))
          | inr (empty, nothing) ↦ inr (empty, λ e' lt' m. nothing e' lt' (ending e' m))
        ]
    where
      meaning :
          (e : ℕ)
          → EndsAt (finish patterns b) input finish-target 0 (begins_at start) i e
          → Matches input p.expression (begins_at start) (ends_at e)
      meaning e ends =
          let (p', at_i', m) =
            (compile_patterns_iff input patterns b safe compiled (begins_at start) (ends_at e) i).0
              ((EndsAt-Accepts i start e).0 ends) in
          let both : some p' ≡ some p = sym at_i' ∙ at_i in
          let same : p' ≡ p = cc both in
          subst (λ (y : HirPattern). Matches input y.expression (begins_at start) (ends_at e)) same
            m

      ending :
          (e : ℕ)
          → Matches input p.expression (begins_at start) (ends_at e)
          → EndsAt (finish patterns b) input finish-target 0 (begins_at start) i e
      ending e m = (EndsAt-Accepts i start e).1 (
          (compile_patterns_iff input patterns b safe compiled (begins_at start) (ends_at e) i).1
            (p, at_i, m))
