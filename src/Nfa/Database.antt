-- ===== src/Nfa/Database.antt =====
-- rustmatch/src/nfa.rs: `compile`, from the patterns to the immutable database with its dense
-- arrays, and the database's accessors.
use rustmatch.Prelude.{
  ℕ, suc, Bool, false, ◌||◌, Option, none, some, List, [], ◌∷◌, ◌++◌, map, take, drop, ◌==◌, length,
  get_elem?,
}
use rustmatch.Error.{Result, ok, ◌>>=◌}
use rustmatch.Predicate.{SymbolPredicate, matches}
use rustmatch.Hir.{HirPattern, uses_assertions}
use rustmatch.Nfa.Builder.{
  EdgeKind, epsilon, assertion, symbol, predicate, Edge, Builder, push_terminal, add_epsilon,
  add_state,
}
use rustmatch.Nfa.Compile.{compile_expression}

-- The root state 0, and nothing else.
abbrev pub initial : Builder
initial = record { edges = [] ∷ []; terminals = [] ∷ []; predicates = []; predicate_ids = [] }

-- The loop over the patterns, from the ordinal given.
unfoldable pub compile_patterns : List HirPattern → ℕ → Builder → Result Builder
compile_patterns [] ordinal b = ok b
compile_patterns (p ∷ ps) ordinal b = do
  (first, b₁) ← add_state b
  (terminal, b₂) ← add_state b₁
  b₃ ← compile_expression p.expression first terminal (add_epsilon b₂ 0 first)
  compile_patterns ps (suc ordinal) (push_terminal b₃ terminal ordinal)

pub record State : Type 0 where
  pub edge_start : ℕ
  pub edge_len : ℕ
  pub terminal_start : ℕ
  pub terminal_len : ℕ

-- The three arrays that the last loop of `compile` fills.
pub record Arrays : Type 0 where
  pub states : List State
  pub edges : List Edge
  pub terminal_ordinals : List ℕ

abbrev pub no_arrays : Arrays
no_arrays = record { states = []; edges = []; terminal_ordinals = [] }

-- One round of that loop.
abbrev pub lay_out_state : List Edge → List ℕ → Arrays → Arrays
lay_out_state state_edges state_terminals a = record {
  states =
      a.states
      ++ (record {
        edge_start = length a.edges;
        edge_len = length state_edges;
        terminal_start = length a.terminal_ordinals;
        terminal_len = length state_terminals;
      })
        ∷ [];
  edges = a.edges ++ state_edges;
  terminal_ordinals = a.terminal_ordinals ++ state_terminals;
}

unfoldable pub lay_out : List (List Edge) → List (List ℕ) → Arrays → Arrays
lay_out (es ∷ ess) (ts ∷ tss) a = lay_out ess tss (lay_out_state es ts a)
lay_out _ _ a = a

pub record PatternDatabase : Type 0 where
  pub root : ℕ
  pub arrays : Arrays
  pub predicates : List SymbolPredicate
  pub pattern_ids : List ℕ
  pub uses_assertions : Bool

unfoldable pub any_uses_assertions : List HirPattern → Bool
any_uses_assertions [] = false
any_uses_assertions (p ∷ ps) = uses_assertions p.expression || any_uses_assertions ps

unfoldable pub finish : List HirPattern → Builder → PatternDatabase
unfolding any_uses_assertions lay_out
finish patterns b = record {
  root = 0;
  arrays = lay_out b.edges b.terminals no_arrays;
  predicates = b.predicates;
  pattern_ids = map (λ (p : HirPattern). p.pattern_id) patterns;
  uses_assertions = any_uses_assertions patterns;
}

unfoldable pub compile : List HirPattern → Result PatternDatabase
unfolding any_uses_assertions compile_patterns finish
compile patterns = do b ← compile_patterns patterns 0 initial; ok (finish patterns b)

-- `xs[start..start + len]`.
abbrev pub slice {ℓ} : {A : Type ℓ} → ℕ → ℕ → List A → List A
slice start len xs = take len (drop start xs)

abbrev pub state_edges : Arrays → Option State → List Edge
state_edges a none = []
state_edges a (some state) = slice state.edge_start state.edge_len a.edges

abbrev pub state_terminals : Arrays → Option State → List ℕ
state_terminals a none = []
state_terminals a (some state) = slice state.terminal_start state.terminal_len a.terminal_ordinals

abbrev pub state_count : PatternDatabase → ℕ
state_count db = length db.arrays.states

-- `edges_from` and `terminals_at`; every state in use is in range.
unfoldable pub edges_from : PatternDatabase → ℕ → List Edge
edges_from db state = state_edges db.arrays (get_elem? db.arrays.states state)

unfoldable pub terminals_at : PatternDatabase → ℕ → List ℕ
terminals_at db state = state_terminals db.arrays (get_elem? db.arrays.states state)

unfoldable pub named_matches : Option SymbolPredicate → ℕ → Bool
named_matches none unit = false
named_matches (some p) unit = matches p unit

unfoldable pub edge_matches : PatternDatabase → EdgeKind → ℕ → Bool
unfolding named_matches
edge_matches db epsilon unit = false
edge_matches db (assertion a) unit = false
edge_matches db (symbol expected) unit = expected == unit
edge_matches db (predicate id) unit = named_matches (get_elem? db.predicates id) unit
