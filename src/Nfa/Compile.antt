-- ===== src/Nfa/Compile.antt =====
-- rustmatch/src/nfa.rs: `compile_expression`, `compile_repetition` and `compile`.
use rustmatch.Prelude.{
  ℕ, zero, suc, ◌-◌, Bool, true, false, ◌&&◌, Option, none, some, ◌==◌, if◌then◌else◌,
}
use rustmatch.Error.{Result, ok, ◌>>=◌}
use rustmatch.Predicate.{SymbolPredicate}
use rustmatch.Hir.{
  Hir, Hirs, never, epsilon, assertion, symbol, predicate, sequence, alternation, repeat, nil, cons,
}
use rustmatch.Nfa.Builder.{EdgeKind, Builder, push_edge, add_epsilon, add_state, intern_predicate}

-- The compiler of one expression, from a start state to an end state.
abbrev pub Compiler : Type 0
Compiler = ℕ → ℕ → Builder → Result Builder

abbrev pub add_edge : EdgeKind → Compiler
add_edge kind start end b = ok (push_edge b start (record { kind = kind; target = end }))

abbrev pub compile_predicate : SymbolPredicate → Compiler
compile_predicate p start end b = do
  (id, b') ← intern_predicate p b
  add_edge (EdgeKind.predicate id) start end b'

-- The next state of a loop: `end` in the last round, else a new one.
abbrev pub next_state : Bool → ℕ → Builder → Result (ℕ × Builder)
next_state true end b = ok (end, b)
next_state false end b = add_state b

-- `max == Some(min)`.
abbrev pub is_exact : ℕ → Option ℕ → Bool
is_exact low none = false
is_exact low (some limit) = limit == low

-- `for required in 0..min`: the rounds left, the current state. The round is the last one where
-- none is left. The result is the state reached.
unfoldable pub required_loop : Compiler → Bool → ℕ → ℕ → ℕ → Builder → Result (ℕ × Builder)
required_loop c exact zero current end b = ok (current, b)
required_loop c exact (suc k) current end b = do
  (next, b₁) ← next_state (k == 0 && exact) end b
  b₂ ← c current next b₁
  required_loop c exact k next end b₂

-- `for optional in min..limit`.
unfoldable pub optional_loop : Compiler → ℕ → ℕ → ℕ → Builder → Result Builder
optional_loop c zero current end b = ok b
optional_loop c (suc k) current end b = do
  (next, b₁) ← next_state (k == 0) end (add_epsilon b current end)
  b₂ ← c current next b₁
  optional_loop c k next end b₂

unfoldable pub unbounded_loop : Compiler → ℕ → ℕ → Builder → Result Builder
unbounded_loop c current end b = do
  (loop_end, b₁) ← add_state (add_epsilon b current end)
  b₂ ← c current loop_end b₁
  ok (add_epsilon b₂ loop_end current)

-- The `match max` after the required rounds.
unfoldable pub repetition_tail : Compiler → ℕ → Option ℕ → ℕ → ℕ → ℕ → Builder → Result Builder
repetition_tail c low none start current end b = unbounded_loop c current end b
repetition_tail c low (some limit) start current end b =
    if limit == low
    then (if low == 0 then ok (add_epsilon b start end) else ok b)
    else optional_loop c (limit - low) current end b

unfoldable pub compile_repetition : Compiler → ℕ → Option ℕ → Compiler
compile_repetition c low high start end b = do
  (current, b') ← required_loop c (is_exact low high) low start end b
  repetition_tail c low high start current end b'

is_nil : Hirs → Bool
is_nil nil = true
is_nil (cons e es) = false

unfoldable mutual
  unfolding is_nil

  pub compile_expression : Hir → ℕ → ℕ → Builder → Result Builder
  compile_expression never start end b = ok b
  compile_expression epsilon start end b = add_edge EdgeKind.epsilon start end b
  compile_expression (assertion a) start end b = add_edge (EdgeKind.assertion a) start end b
  compile_expression (symbol x) start end b = add_edge (EdgeKind.symbol x) start end b
  compile_expression (predicate p) start end b = compile_predicate p start end b
  compile_expression (sequence es) start end b = compile_sequence es start end b
  compile_expression (alternation es) start end b = compile_alternation es start end b
  compile_expression (repeat e low high) start end b =
      compile_repetition (compile_expression e) low high start end b

  -- The items of a sequence that are left; the last one leads to `end`.
  pub compile_sequence : Hirs → ℕ → ℕ → Builder → Result Builder
  compile_sequence nil current end b = ok b
  compile_sequence (cons e es) current end b = do
    (next, b₁) ← next_state (is_nil es) end b
    b₂ ← compile_expression e current next b₁
    compile_sequence es next end b₂

  pub compile_alternation : Hirs → ℕ → ℕ → Builder → Result Builder
  compile_alternation nil start end b = ok b
  compile_alternation (cons e es) start end b = do
    b' ← compile_expression e start end b
    compile_alternation es start end b'
