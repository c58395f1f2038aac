-- ===== src/Examples.antt =====
-- Small inputs for the theorems about rustmatch/src/parser.rs, rustmatch/src/nfa.rs, rustmatch/src/hir.rs,
-- rustmatch/src/predicate.rs and rustmatch/src/engine.rs.
use rustmatch.Prelude.{
  Option, ◌≤◌, ⊎_elim, ◌<◌, Memᴰ-cons, Memᴰ-nil, ℕ, zero, suc, ◌≡◌, refl, ◌↔◌, ◌⊎◌, none, some,
  List, [], ◌∷◌, get_elem?, get_or, Memᴰ, true, false, replicate, arith, ap,
}
use rustmatch.Error.{ok}
use rustmatch.Predicate.{empty, is_empty, matches}
use rustmatch.Predicate.Word.{zero_word, is_zero}
use rustmatch.Predicate.Vacant.{is_empty-matches}
use rustmatch.Hir.{
  Hir, Hirs, never, epsilon, symbol, sequence, alternation, repeat, nil, cons, HirPattern,
  sequence_of, alternation_of, repeat_of, minimum_consumed, nullable,
}
use rustmatch.Hir.Normal.{sequence_of-Matches, alternation_of-Matches, repeat_of-Matches}
use rustmatch.Hir.Metadata.{AtLeast, minimum_consumed_lem, nullable_lem}
use rustmatch.Context.{Units}
use rustmatch.Semantics.{Matches}
use rustmatch.Nfa.Builder.{
  Edge, EdgeKind, Builder, add_state, add_epsilon, push_edge, push_terminal, for_index,
}
use rustmatch.Nfa.Compile.{
  compile_expression, compile_repetition, repetition_tail, required_loop, unbounded_loop,
}
use rustmatch.Nfa.Database.{
  compile_patterns, initial, finish, state_count, edges_from, terminals_at,
}
use rustmatch.Nfa.Layout.{finish_lem}
use rustmatch.Nfa.Fragment.{Fragment}
use rustmatch.Nfa.Safety.{Back, is_safe, is_plain}
use rustmatch.Nfa.Correct.{compile_expression-Fragment}
use rustmatch.Nfa.Accepts.{Accepts}
use rustmatch.Nfa.Sound.{compile_patterns_iff}
use rustmatch.Nfa.Shared.{
  star_branch, star_branch_patterns, star_branch-Accepts, at_start, after_units,
}
use rustmatch.Parser.Class.{Parser}
use rustmatch.Parser.Count.{
  parse_counted_repetition, parse_count, count_digits, count_end, bad_bounds,
}
use rustmatch.Parser.Bounds.{IsCounted, parse_counted_repetition_lem}
use rustmatch.Engine.Closure.{Closure, is_visited, follows_epsilon, extend_closure}
use rustmatch.Engine.Closure.{follows_assertions}
use rustmatch.Engine.Scan.{best, scan_start}
use rustmatch.Engine.Longest.{begins_at, ends_at}
use rustmatch.Engine.Correct.{scan_start-longest}
use rustmatch.Engine.Flags.{InRange}
use rustmatch.Engine.Reach.{
  Reach, IsClosed, followed, followed-InRange, blank-IsClosed, extend_closure_lem,
}
mod Scanning
mod Filtering
mod Parsing
mod Matching
mod Symbols

abbrev pub text : Units
text = 97 ∷ 98 ∷ 98 ∷ []

-- `ab+`.
abbrev pub some_bs : Hir
some_bs = sequence (cons (symbol 97) (cons (repeat (symbol 98) 1 none) nil))

abbrev pub some_bs_pattern : HirPattern
some_bs_pattern = record {
  pattern_id = 7;
  expression = some_bs;
  nullable = false;
  minimum_consumed = some 2;
}

abbrev pub patterns : List HirPattern
patterns = some_bs_pattern ∷ []

abbrev pub edge : EdgeKind → ℕ → Edge
edge kind target = record { kind = kind; target = target }

abbrev pub automaton : Builder
automaton = record {
  edges =
      (edge EdgeKind.epsilon 1 ∷ [])
      ∷ (edge (EdgeKind.symbol 97) 3 ∷ [])
      ∷ []
      ∷ (edge (EdgeKind.symbol 98) 4 ∷ [])
      ∷ (edge EdgeKind.epsilon 2 ∷ edge (EdgeKind.symbol 98) 5 ∷ [])
      ∷ (edge EdgeKind.epsilon 4 ∷ [])
      ∷ [];
  terminals = [] ∷ [] ∷ (0 ∷ []) ∷ [] ∷ [] ∷ [] ∷ [];
  predicates = [];
  predicate_ids = [];
}

pub automaton_compiled : compile_patterns patterns 0 initial ≡ ok automaton
unfolding compile_patterns compile_expression compile_repetition repetition_tail required_loop
    unbounded_loop add_state add_epsilon push_edge push_terminal for_index
automaton_compiled = refl

pub some_bs_safe : is_safe some_bs ≡ true
unfolding is_safe is_plain
some_bs_safe = refl

compile_patterns_iff_example : Accepts text automaton 0 at_start (after_units 3) ↔ (
    (p : HirPattern) × (get_elem? patterns 0 ≡ some p)
    × Matches text p.expression at_start (after_units 3))
compile_patterns_iff_example =
    compile_patterns_iff text patterns automaton (some_bs_safe, tt) automaton_compiled at_start
      (after_units 3) 0

scan_start-longest_example :
    let r = scan_start (finish patterns automaton) (follows_assertions text) text 0 0 in
    ((e : ℕ) × (best r 0 ≡ some e)
      × (0 < e)
      × Matches text some_bs (begins_at 0) (ends_at e)
      × ((e' : ℕ) → 0 < e' → Matches text some_bs (begins_at 0) (ends_at e') → e' ≤ e))
    ⊎ ((best r 0 ≡ none) × ((e' : ℕ) → 0 < e' → ¬ Matches text some_bs (begins_at 0) (ends_at e')))
scan_start-longest_example =
    scan_start-longest text patterns automaton (some_bs_safe, tt) automaton_compiled 0
      some_bs_pattern 0 refl

compile_expression-Fragment_example :
    Fragment text (compile_expression some_bs) (Matches text some_bs) (Back text some_bs)
compile_expression-Fragment_example = compile_expression-Fragment text some_bs some_bs_safe

star_branch-Accepts_example :
    ((b : Builder) × (compile_patterns (star_branch_patterns 97 98) 0 initial ≡ ok b)
      × Accepts (97 ∷ 98 ∷ []) b 0 at_start (after_units 2))
    × (¬ Matches (97 ∷ 98 ∷ []) (star_branch 97 98) at_start (after_units 2))
star_branch-Accepts_example = star_branch-Accepts 97 98 (λ e. omega arith)

finish_lem_example :
    (state_count (finish patterns automaton) ≡ 6)
    × ((q : ℕ) → edges_from (finish patterns automaton) q ≡ get_or automaton.edges q [])
    × ((q : ℕ) → terminals_at (finish patterns automaton) q ≡ get_or automaton.terminals q [])
finish_lem_example = finish_lem patterns automaton refl

-- A loop of two states, and a third one.
abbrev loop_edges : ℕ → List Edge
loop_edges zero = edge EdgeKind.epsilon 1 ∷ edge (EdgeKind.symbol 97) 2 ∷ []
loop_edges (suc zero) = edge EdgeKind.epsilon 0 ∷ []
loop_edges (suc (suc q)) = []

loop-target : (q : ℕ) (e : Edge) → Memᴰ e (loop_edges q) → e.target < 3
loop-target zero e m =
    ⊎_elim (λ x. omega (arith, ap (λ (y : Edge). y.target) x))
      (λ k.
        ⊎_elim (λ x. omega (arith, ap (λ (y : Edge). y.target) x)) (λ no. absurd (Memᴰ-nil no))
          ((Memᴰ-cons e _ []).0 k))
      ((Memᴰ-cons e _ _).0 m)
loop-target (suc zero) e m =
    ⊎_elim (λ x. omega (arith, ap (λ (y : Edge). y.target) x)) (λ no. absurd (Memᴰ-nil no))
      ((Memᴰ-cons e _ []).0 m)
loop-target (suc (suc q)) e m = absurd (Memᴰ-nil m)

loop_in_range : (q : ℕ) → InRange 3 (followed follows_epsilon (loop_edges q))
loop_in_range q = followed-InRange follows_epsilon 3 (loop_edges q) (loop-target q)

abbrev nothing_visited : Closure
nothing_visited = record { output = []; visited = replicate 3 false }

nothing-IsClosed : IsClosed follows_epsilon loop_edges 3 loop_in_range nothing_visited
nothing-IsClosed = blank-IsClosed follows_epsilon loop_edges 3 loop_in_range

extend_closure_lem_example :
    IsClosed follows_epsilon loop_edges 3 loop_in_range
      (extend_closure follows_epsilon loop_edges 0 nothing_visited)
    × ((q : ℕ)
        → (is_visited (extend_closure follows_epsilon loop_edges 0 nothing_visited).visited q
            ≡ true)
          ↔ ((is_visited nothing_visited.visited q ≡ true)
              ⊎ Reach follows_epsilon loop_edges 3 loop_in_range 0 q))
extend_closure_lem_example =
    extend_closure_lem follows_epsilon loop_edges 3 loop_in_range 0 nothing_visited (omega arith)
      nothing-IsClosed

abbrev parts : Hirs
parts =
    cons (symbol 97) (cons epsilon (cons (sequence (cons (symbol 98) (cons (symbol 98) nil))) nil))

sequence_of-Matches_example :
    Matches text (sequence_of parts) at_start (after_units 3)
    ↔ Matches text (sequence parts) at_start (after_units 3)
sequence_of-Matches_example = sequence_of-Matches text parts at_start (after_units 3)

abbrev branches : Hirs
branches =
    cons never (cons (alternation (cons (symbol 97) (cons (symbol 98) nil))) (cons epsilon nil))

alternation_of-Matches_example :
    Matches text (alternation_of branches) at_start (after_units 1)
    ↔ Matches text (alternation branches) at_start (after_units 1)
alternation_of-Matches_example = alternation_of-Matches text branches at_start (after_units 1)

repeat_of-Matches_example :
    Matches text (repeat_of (symbol 97) 1 (some 1)) at_start (after_units 1)
    ↔ Matches text (repeat (symbol 97) 1 (some 1)) at_start (after_units 1)
repeat_of-Matches_example =
    repeat_of-Matches text (symbol 97) 1 (some 1) at_start (after_units 1) (omega arith)

pub some_bs-Matches : Matches text some_bs at_start (after_units 3)
unfolding Matches
some_bs-Matches = (
  after_units 1,
  (97, refl, refl, refl),
  (
    after_units 3,
    (
      2,
      omega arith,
      tt,
      (after_units 2, (98, refl, refl, refl), (after_units 3, (98, refl, refl, refl), refl)),
    ),
    refl,
  ),
)

minimum_consumed_lem_example : AtLeast (minimum_consumed some_bs) 0 3
minimum_consumed_lem_example =
    minimum_consumed_lem text some_bs at_start (after_units 3) some_bs-Matches

-- `a*` over the empty text.
empty-Matches : Matches text (repeat (symbol 97) 0 none) at_start at_start
unfolding Matches
empty-Matches = (0, omega arith, tt, refl)

nullable_lem_example : nullable (repeat (symbol 97) 0 none) ≡ true
nullable_lem_example =
    nullable_lem text (repeat (symbol 97) 0 none) at_start at_start empty-Matches refl

empty-is_empty : is_empty empty ≡ true
unfolding is_empty is_zero zero_word
empty-is_empty = refl

is_empty-matches_example : matches empty 97 ≡ false
is_empty-matches_example = is_empty-matches empty 97 empty-is_empty

-- `a{2,3}`, from the brace on.
abbrev counted : Units
counted = 97 ∷ 123 ∷ 50 ∷ 44 ∷ 51 ∷ 125 ∷ []

abbrev parser_at : ℕ → Parser
parser_at n = record { index = n; case_insensitive = false; group_depth = 0 }

parse_counted_repetition_lem_example :
    (parse_counted_repetition 7 counted (symbol 97) (parser_at 1)
      ≡ ok (repeat (symbol 97) 2 (some 3), parser_at 6))
    ↔ IsCounted counted (symbol 97) (repeat (symbol 97) 2 (some 3)) (parser_at 1) (parser_at 6)
parse_counted_repetition_lem_example =
    parse_counted_repetition_lem 7 counted (symbol 97) (repeat (symbol 97) 2 (some 3)) (parser_at 1)
      (parser_at 6)
