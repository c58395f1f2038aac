-- ===== src/Prefilter/StartTable.antt =====
-- rustmatch/src/prefilter.rs: `StartTable`, the first unit and the first two units of a match, and
-- the closures that it is compiled with. A stamp that equals the current generation is a set flag.
use rustmatch.Prelude.{
  ℕ, zero, suc, ◌+◌, ◌*◌, Bool, true, false, not, ◌||◌, Option, none, some, List, [], ◌∷◌, ◌++◌,
  get_elem?, set, replicate, length, leb, if◌then◌else◌,
}
use rustmatch.Context.{Units}
use rustmatch.Nfa.Builder.{EdgeKind, Edge}
use rustmatch.Nfa.Database.{PatternDatabase, edges_from, terminals_at, edge_matches, state_count}
use rustmatch.Engine.Closure.{Closure, is_visited, follows_epsilon}
use rustmatch.Engine.Scan.{sort_ordinals}
use rustmatch.Prefilter.Bits.{Bits, new_words, set_bit, contains_bit}

-- `start..start + n`.
unfoldable pub range : ℕ → ℕ → List ℕ
range start zero = []
range start (suc n) = start ∷ range (suc start) n

-- The targets of the edges that pass are pushed; the stack's top is the first element.
unfoldable pub push_all_targets : (EdgeKind → Bool) → List Edge → List ℕ → List ℕ
push_all_targets passes [] stack = stack
push_all_targets passes (e ∷ es) stack =
    push_all_targets passes es (if passes e.kind then e.target ∷ stack else stack)

-- `while let Some(state) = stack.pop()`, on fuel. A state is marked when it is taken off the stack.
unfoldable pub drain : (ℕ → List Edge) → ℕ → List ℕ → Closure → Closure
unfolding push_all_targets
drain edges zero stack c = c
drain edges (suc fuel) [] c = c
drain edges (suc fuel) (q ∷ stack) c = elim (is_visited c.visited q) [
  | true ↦ drain edges fuel stack c
  | false ↦
      drain edges fuel (push_all_targets follows_epsilon (edges q) stack)
        (record { output = c.output ++ q ∷ []; visited = set c.visited q true })
]

-- The edges of the states from i on that are not marked.
unfoldable pub edges_left : (ℕ → List Edge) → ℕ → List Bool → ℕ
edges_left edges i [] = 0
edges_left edges i (true ∷ visited) = edges_left edges (suc i) visited
edges_left edges i (false ∷ visited) = length (edges i) + edges_left edges (suc i) visited

module _ (db : PatternDatabase) where
  abbrev pub fresh : Closure
  fresh = record { output = []; visited = replicate (state_count db) false }

  -- A round takes an entry off the stack, and each edge is pushed at most once.
  unfoldable pub close : List ℕ → List ℕ
  unfolding drain edges_left
  close stack =
      sort_ordinals
        (drain (edges_from db) (suc (length stack + edges_left (edges_from db) 0 fresh.visited))
          stack fresh).output

  unfoldable pub push_matching : List ℕ → ℕ → List ℕ → List ℕ
  unfolding push_all_targets
  push_matching [] symbol stack = stack
  push_matching (q ∷ source) symbol stack =
      push_matching source symbol
        (push_all_targets (λ kind. edge_matches db kind symbol) (edges_from db q) stack)

  -- `epsilon_closure_into` and `transition_into`.
  unfoldable pub epsilon_closure : List ℕ → List ℕ
  unfolding close
  epsilon_closure seeds = close seeds

  unfoldable pub transition : List ℕ → ℕ → List ℕ
  unfolding close push_matching
  transition source symbol = close (push_matching source symbol [])

pub record StartTable : Type 0 where
  pub first_ascii : Bits
  pub pair_ascii : Bits

abbrev pub is_nil {ℓ} : {A : Type ℓ} → List A → Bool
is_nil [] = true
is_nil (x ∷ xs) = false

module _ (db : PatternDatabase) where
  unfoldable pub any_terminal : List ℕ → Bool
  any_terminal [] = false
  any_terminal (q ∷ qs) = not (is_nil (terminals_at db q)) || any_terminal qs

  -- The inner loop, over the second units.
  unfoldable pub add_pairs : Bool → List ℕ → ℕ → List ℕ → Bits → Bits
  add_pairs accepts states first [] pairs = pairs
  add_pairs accepts states first (second ∷ seconds) pairs = add_pairs accepts states first seconds (
      if accepts || not (is_nil (transition db states second))
      then set_bit pairs (first * 128 + second)
      else pairs)

  -- One round of the outer loop.
  unfoldable pub add_first : List ℕ → ℕ → StartTable → StartTable
  unfolding any_terminal add_pairs
  add_first root first table =
      let states = transition db root first in
      if is_nil states then table else record {
        first_ascii = set_bit table.first_ascii first;
        pair_ascii = add_pairs (any_terminal states) states first (range 0 128) table.pair_ascii;
      }

  unfoldable pub add_firsts : List ℕ → List ℕ → StartTable → StartTable
  unfolding add_first
  add_firsts root [] table = table
  add_firsts root (first ∷ firsts) table = add_firsts root firsts (add_first root first table)

  -- `StartTable::compile`.
  unfoldable pub compile_table : Option StartTable
  unfolding add_firsts
  compile_table =
      if db.uses_assertions
      then none
      else some (
          add_firsts (epsilon_closure db (db.root ∷ [])) (range 0 128)
            (record { first_ascii = new_words 2; pair_ascii = new_words 256 }))

unfoldable pub pair_allowed : StartTable → ℕ → Option ℕ → Bool
pair_allowed table first none = true
pair_allowed table first (some second) =
    if leb 128 second then true else contains_bit table.pair_ascii (first * 128 + second)

unfoldable pub first_allowed : StartTable → Option ℕ → Option ℕ → Bool
unfolding pair_allowed
first_allowed table none second = false
first_allowed table (some first) second =
    if leb 128 first
    then true
    else if not (contains_bit table.first_ascii first)
    then false
    else pair_allowed table first second

-- `StartTable::allows`, for a start in the input.
unfoldable pub allows : StartTable → Units → ℕ → Bool
unfolding first_allowed
allows table input start = first_allowed table (get_elem? input start) (get_elem? input (start + 1))
