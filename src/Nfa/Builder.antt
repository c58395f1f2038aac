-- ===== src/Nfa/Builder.antt =====
-- rustmatch/src/nfa.rs: the state that the compiler threads through its functions, and the three
-- functions that change it. A state and a predicate are their index.
use rustmatch.Prelude.{
  ℕ, Option, none, some, List, [], ◌∷◌, ◌++◌, leb, if◌then◌else◌, get_or, set, length, ite,
}
use rustmatch.Error.{Result, ok, err, pattern_set_too_large, ◌>>=◌}
use rustmatch.Predicate.{SymbolPredicate, SymbolPredicate-discrete}
use rustmatch.Hir.{Assertion}

pub data EdgeKind : Type 0 where
  epsilon : EdgeKind
  assertion : Assertion → EdgeKind
  symbol : ℕ → EdgeKind
  predicate : ℕ → EdgeKind

pub record Edge : Type 0 where
  pub kind : EdgeKind
  pub target : ℕ

-- `pending_edges`, `pending_terminals`, `predicates`, and the map `predicate_ids`.
pub record Builder : Type 0 where
  pub edges : List (List Edge)
  pub terminals : List (List ℕ)
  pub predicates : List SymbolPredicate
  pub predicate_ids : List (SymbolPredicate × ℕ)

abbrev pub u32_max : ℕ
u32_max = 4294967295

-- `StateId::for_index` and `PredicateId::for_index`.
unfoldable pub for_index : ℕ → Result ℕ
for_index index = if leb index u32_max then ok index else err pattern_set_too_large

abbrev pub edges_from : Builder → ℕ → List Edge
edges_from b state = get_or b.edges state []

-- `edges[state].push(edge)`. Every state in use is in range, so no push is lost.
unfoldable pub push_edge : Builder → ℕ → Edge → Builder
push_edge b state edge = record b {
  edges = set b.edges state (get_or b.edges state [] ++ edge ∷ []);
}

unfoldable pub push_terminal : Builder → ℕ → ℕ → Builder
push_terminal b state ordinal = record b {
  terminals = set b.terminals state (get_or b.terminals state [] ++ ordinal ∷ []);
}

unfoldable pub add_epsilon : Builder → ℕ → ℕ → Builder
unfolding push_edge
add_epsilon b start end = push_edge b start (record { kind = epsilon; target = end })

unfoldable pub add_state : Builder → Result (ℕ × Builder)
unfolding for_index
add_state b = do
  id ← for_index (length b.edges)
  ok (id, record b { edges = b.edges ++ [] ∷ []; terminals = b.terminals ++ [] ∷ [] })

unfoldable pub lookup : SymbolPredicate → List (SymbolPredicate × ℕ) → Option ℕ
unfolding SymbolPredicate-discrete
lookup p [] = none
lookup p ((q, id) ∷ ids) = ite (SymbolPredicate-discrete q p) (some id) (lookup p ids)

intern_new : SymbolPredicate → Builder → Result (ℕ × Builder)
unfolding for_index
intern_new p b = do
  id ← for_index (length b.predicates)
  ok (
    id,
    record b { predicates = b.predicates ++ p ∷ []; predicate_ids = (p, id) ∷ b.predicate_ids },
  )

unfoldable pub intern_predicate : SymbolPredicate → Builder → Result (ℕ × Builder)
unfolding lookup intern_new
intern_predicate p b = elim (lookup p b.predicate_ids) [
  | none ↦ intern_new p b
  | some id ↦ ok (id, b)
]
