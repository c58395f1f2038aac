-- ===== src/Engine/Closure.antt =====
-- rustmatch/src/engine.rs: the closures over edges that consume nothing. The three functions
-- `extend_epsilon_closure`, `extend_epsilon_closure_generation` and `extend_assertion_closure` are
-- one loop over the edges that they follow; a generation stamp that equals the current generation
-- is a set flag.
use rustmatch.Prelude.{
  ℕ, zero, suc, Bool, true, false, not, ◌&&◌, List, [], ◌∷◌, ◌++◌, get_or, set, if◌then◌else◌,
  length,
}
use rustmatch.Context.{Units, Cursor, assertion_matches}
use rustmatch.Nfa.Builder.{EdgeKind, epsilon, assertion, symbol, predicate, Edge}

-- `output` and `visited`; the stack's top is the first element.
pub record Closure : Type 0 where
  pub output : List ℕ
  pub visited : List Bool

abbrev pub is_visited : List Bool → ℕ → Bool
is_visited visited q = get_or visited q false

-- `edge.kind == EdgeKind::Epsilon`.
unfoldable pub follows_epsilon : EdgeKind → Bool
follows_epsilon epsilon = true
follows_epsilon (assertion a) = false
follows_epsilon (symbol x) = false
follows_epsilon (predicate id) = false

-- `follows_without_consuming` at a position.
unfoldable pub follows_assertions : Units → Cursor → EdgeKind → Bool
follows_assertions input s epsilon = true
follows_assertions input s (assertion a) = assertion_matches input a s
follows_assertions input s (symbol x) = false
follows_assertions input s (predicate id) = false

-- The inner loop: targets not visited yet are marked and pushed.
unfoldable pub push_targets :
    (EdgeKind → Bool) → List Edge → List Bool → List ℕ → List Bool × List ℕ
push_targets follows [] visited stack = (visited, stack)
push_targets follows (e ∷ es) visited stack =
    elim (follows e.kind && not (is_visited visited e.target)) [
      | true ↦ push_targets follows es (set visited e.target true) (e.target ∷ stack)
      | false ↦ push_targets follows es visited stack
    ]

-- `while let Some(state) = stack.pop()`, on fuel; each round takes a state off the stack.
unfoldable pub drain_stack : (EdgeKind → Bool) → (ℕ → List Edge) → ℕ → List ℕ → Closure → Closure
drain_stack follows edges zero stack c = c
drain_stack follows edges (suc fuel) [] c = c
drain_stack follows edges (suc fuel) (q ∷ stack) c =
    let (visited, stack') = push_targets follows (edges q) c.visited stack in
    drain_stack follows edges fuel stack'
      (record { output = c.output ++ q ∷ []; visited = visited })

-- Every state is pushed at most once, so there are at most as many rounds as flags.
unfoldable pub extend_closure : (EdgeKind → Bool) → (ℕ → List Edge) → ℕ → Closure → Closure
unfolding drain_stack
extend_closure follows edges seed c =
    if is_visited c.visited seed
    then c
    else drain_stack follows edges (suc (length c.visited)) (seed ∷ [])
        (record c { visited = set c.visited seed true })
