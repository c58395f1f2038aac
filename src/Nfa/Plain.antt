-- ===== src/Nfa/Plain.antt =====
-- rustmatch/src/nfa.rs: patterns without assertions compile to an automaton without assertion edges.
use rustmatch.Prelude.{
  ℕ, zero, suc, ◌-◌, ◌≡◌, refl, sym, subst, ◌⊎◌, inl, inr, ⊎_elim, Bool, true, false, ◌&&◌, ◌||◌,
  Option, none, some, List, [], ◌∷◌, ◌++◌, Memᴰ, Memᴰ-nil, Memᴰ-concat, get_or, set, length,
  get_or-concat_default, ◌==◌, Bool-cases, Option-cases,
}
use rustmatch.Error.{Result, ok, ◌>>=◌, >>=-eq-ok}
use rustmatch.Predicate.{SymbolPredicate}
use rustmatch.Hir.{
  Hir, Hirs, never, epsilon, assertion, symbol, predicate, sequence, alternation, repeat, nil, cons,
  HirPattern, uses_assertions, uses_assertions_any,
}
use rustmatch.Nfa.Builder.{
  EdgeKind, Edge, Builder, edges_from, push_edge, push_terminal, add_epsilon, add_state,
  intern_predicate, lookup, for_index,
}
use rustmatch.Nfa.Compile.{
  Compiler, next_state, is_exact, required_loop, optional_loop, unbounded_loop, repetition_tail,
  compile_repetition, compile_expression, compile_sequence, compile_alternation,
}
use rustmatch.Nfa.Database.{compile_patterns, initial, any_uses_assertions}

abbrev pub is_assertion : EdgeKind → Bool
is_assertion EdgeKind.epsilon = false
is_assertion (EdgeKind.assertion a) = true
is_assertion (EdgeKind.symbol x) = false
is_assertion (EdgeKind.predicate id) = false

-- No edge of the automaton is an assertion.
abbrev pub IsPlain : Builder → Type 0
IsPlain b = (q : ℕ) (e : Edge) → Memᴰ e (edges_from b q) → is_assertion e.kind ≡ false

mem-set :
    (xss : List (List Edge)) (i r : ℕ) (es : List Edge) (e : Edge)
    → Memᴰ e (get_or (set xss i es) r [])
    → Memᴰ e (get_or xss r []) ⊎ Memᴰ e es
mem-set [] i r es e m = inl m
mem-set (xs ∷ xss) zero zero es e m = inr m
mem-set (xs ∷ xss) zero (suc r) es e m = inl m
mem-set (xs ∷ xss) (suc i) zero es e m = inl m
mem-set (xs ∷ xss) (suc i) (suc r) es e m = mem-set xss i r es e m

push_edge-IsPlain :
    (b : Builder) (q : ℕ) (edge : Edge)
    → is_assertion edge.kind ≡ false
    → IsPlain b
    → IsPlain (push_edge b q edge)
unfolding push_edge
push_edge-IsPlain b q edge plain h r e m =
    ⊎_elim (h r e)
      (λ k.
        ⊎_elim (h q e) (λ same. subst (λ (y : Edge). is_assertion y.kind ≡ false) (sym same) plain)
          ((Memᴰ-concat e edge (edges_from b q)).0 k))
      (mem-set b.edges q r (edges_from b q ++ edge ∷ []) e m)

-- A computation whose result has no assertion edge, where the builder had none.
abbrev Plainly {ℓ} : {A : Type ℓ} → (A → Builder) → Result A → Type ℓ
Plainly {A = A} builder call = (value : A) → call ≡ ok value → IsPlain (builder value)

abbrev itself : Builder → Builder
itself b = b

abbrev second : ℕ × Builder → Builder
second x = x.1

Plainly-bind :
    {A B : Type 0} (in_a : A → Builder) (in_b : B → Builder) (call : Result A) (next : A → Result B)
    → Plainly in_a call
    → ((a : A) → IsPlain (in_a a) → Plainly in_b (next a))
    → Plainly in_b (call >>= next)
Plainly-bind in_a in_b call next first rest value h =
    let (a, ran, returned) = >>=-eq-ok call next h in rest a (first a ran) value returned

Plainly-ok : {A : Type 0} (in_a : A → Builder) (a : A) → IsPlain (in_a a) → Plainly in_a (ok a)
Plainly-ok in_a a h value e = let same : a ≡ value = cc e in subst (λ x. IsPlain (in_a x)) same h

add_state-Plainly : (b : Builder) → IsPlain b → Plainly second (add_state b)
unfolding add_state
add_state-Plainly b h (id, b') ran =
    let (i, found, returned) = >>=-eq-ok (for_index (length b.edges)) _ ran in
    Plainly-ok second
      (i, record b { edges = b.edges ++ [] ∷ []; terminals = b.terminals ++ [] ∷ [] })
      (λ q e m. h q e (subst (Memᴰ e) (get_or-concat_default b.edges q []) m)) (id, b') returned

next_state-Plainly :
    (last : Bool) (end : ℕ) (b : Builder) → IsPlain b → Plainly second (next_state last end b)
next_state-Plainly true end b h = Plainly-ok second (end, b) h
next_state-Plainly false end b h = add_state-Plainly b h

add_epsilon-IsPlain : (b : Builder) (q r : ℕ) → IsPlain b → IsPlain (add_epsilon b q r)
unfolding add_epsilon
add_epsilon-IsPlain b q r h =
    push_edge-IsPlain b q (record { kind = EdgeKind.epsilon; target = r }) refl h

intern_predicate-Plainly :
    (p : SymbolPredicate) (b : Builder) → IsPlain b → Plainly second (intern_predicate p b)
unfolding intern_predicate
intern_predicate-Plainly p b h = elim (Option-cases (lookup p b.predicate_ids)) [
  | inl fresh ↦
      rw (fresh, intern_predicate)
        (λ value ran.
          let (id, found, returned) = >>=-eq-ok (for_index (length b.predicates)) _ ran in
          Plainly-ok second
            (
              id,
              record b {
                predicates = b.predicates ++ p ∷ [];
                predicate_ids = (p, id) ∷ b.predicate_ids;
              },
            )
            h value returned)
  | inr (id, known) ↦ rw (known, intern_predicate) (Plainly-ok second (id, b) h)
]

abbrev PlainCompiler : Compiler → Type 0
PlainCompiler c = (start end : ℕ) (b : Builder) → IsPlain b → Plainly itself (c start end b)

module _ (c : Compiler) (plain : PlainCompiler c) where
  required_loop-Plainly :
      (exact : Bool) (k current end : ℕ) (b : Builder)
      → IsPlain b
      → Plainly second (required_loop c exact k current end b)
  unfolding required_loop
  required_loop-Plainly exact zero current end b h = Plainly-ok second (current, b) h
  required_loop-Plainly exact (suc k) current end b h =
      Plainly-bind second second (next_state (k == 0 && exact) end b) _
        (next_state-Plainly (k == 0 && exact) end b h)
        (λ (next, b₁) h₁.
          Plainly-bind itself second (c current next b₁) _ (plain current next b₁ h₁)
            (λ b₂ h₂. required_loop-Plainly exact k next end b₂ h₂))

  optional_loop-Plainly :
      (k current end : ℕ) (b : Builder)
      → IsPlain b
      → Plainly itself (optional_loop c k current end b)
  unfolding optional_loop
  optional_loop-Plainly zero current end b h = Plainly-ok itself b h
  optional_loop-Plainly (suc k) current end b h =
      Plainly-bind second itself (next_state (k == 0) end (add_epsilon b current end)) _
        (next_state-Plainly (k == 0) end (add_epsilon b current end)
          (add_epsilon-IsPlain b current end h))
        (λ (next, b₁) h₁.
          Plainly-bind itself itself (c current next b₁) _ (plain current next b₁ h₁)
            (λ b₂ h₂. optional_loop-Plainly k next end b₂ h₂))

  unbounded_loop-Plainly :
      (current end : ℕ) (b : Builder) → IsPlain b → Plainly itself (unbounded_loop c current end b)
  unfolding unbounded_loop
  unbounded_loop-Plainly current end b h =
      Plainly-bind second itself (add_state (add_epsilon b current end)) _
        (add_state-Plainly (add_epsilon b current end) (add_epsilon-IsPlain b current end h))
        (λ (loop_end, b₁) h₁.
          Plainly-bind itself itself (c current loop_end b₁) _ (plain current loop_end b₁ h₁)
            (λ b₂ h₂.
              Plainly-ok itself (add_epsilon b₂ loop_end current)
                (add_epsilon-IsPlain b₂ loop_end current h₂)))

  repetition_tail-Plainly :
      (low : ℕ) (high : Option ℕ) (start current end : ℕ) (b : Builder)
      → IsPlain b
      → Plainly itself (repetition_tail c low high start current end b)
  unfolding repetition_tail
  repetition_tail-Plainly low none start current end b h = unbounded_loop-Plainly current end b h
  repetition_tail-Plainly low (some limit) start current end b h =
      elim (Bool-cases (limit == low)) [
        | inl exact ↦ elim (Bool-cases (low == 0)) [
          | inl empty ↦
              rw (exact, empty)
                (Plainly-ok itself (add_epsilon b start end) (add_epsilon-IsPlain b start end h))
          | inr more ↦ rw (exact, more) (Plainly-ok itself b h)
        ]
        | inr wide ↦ rw wide (optional_loop-Plainly (limit - low) current end b h)
      ]

  compile_repetition-Plainly :
      (low : ℕ) (high : Option ℕ) → PlainCompiler (compile_repetition c low high)
  unfolding compile_repetition
  compile_repetition-Plainly low high start end b h =
      Plainly-bind second itself (required_loop c (is_exact low high) low start end b) _
        (required_loop-Plainly (is_exact low high) low start end b h)
        (λ (current, b') h'. repetition_tail-Plainly low high start current end b' h')

or_false : (x y : Bool) → (x || y) ≡ false → (x ≡ false) × (y ≡ false)
or_false true y h = cc h
or_false false y h = (refl, h)

mutual
  unfolding compile_expression uses_assertions

  compile_expression-Plainly :
      (e : Hir) → uses_assertions e ≡ false → PlainCompiler (compile_expression e)
  compile_expression-Plainly never h start end b p = Plainly-ok itself b p
  compile_expression-Plainly epsilon h start end b p =
      let edge : Edge = record { kind = EdgeKind.epsilon; target = end } in
      Plainly-ok itself (push_edge b start edge) (push_edge-IsPlain b start edge refl p)
  compile_expression-Plainly (assertion a) h start end b p = cc h
  compile_expression-Plainly (symbol x) h start end b p =
      let edge : Edge = record { kind = EdgeKind.symbol x; target = end } in
      Plainly-ok itself (push_edge b start edge) (push_edge-IsPlain b start edge refl p)
  compile_expression-Plainly (predicate q) h start end b p =
      Plainly-bind second itself (intern_predicate q b) _ (intern_predicate-Plainly q b p)
        (λ (id, b') p'.
          let edge : Edge = record { kind = EdgeKind.predicate id; target = end } in
          Plainly-ok itself (push_edge b' start edge) (push_edge-IsPlain b' start edge refl p'))
  compile_expression-Plainly (sequence es) h start end b p =
      compile_sequence-Plainly es h start end b p
  compile_expression-Plainly (alternation es) h start end b p =
      compile_alternation-Plainly es h start end b p
  compile_expression-Plainly (repeat e low high) h start end b p =
      compile_repetition-Plainly (compile_expression e) (compile_expression-Plainly e h) low high
        start end b p

  compile_sequence-Plainly :
      (es : Hirs) → uses_assertions_any es ≡ false → PlainCompiler (compile_sequence es)
  compile_sequence-Plainly nil h start end b p = Plainly-ok itself b p
  compile_sequence-Plainly (cons e es) h start end b p =
      let (here, rest) = or_false (uses_assertions e) (uses_assertions_any es) h in
      Plainly-bind second itself _ _ (next_state-Plainly _ end b p) (λ (next, b₁) p₁.
        Plainly-bind itself itself (compile_expression e start next b₁) _
          (compile_expression-Plainly e here start next b₁ p₁)
          (λ b₂ p₂. compile_sequence-Plainly es rest next end b₂ p₂))

  compile_alternation-Plainly :
      (es : Hirs) → uses_assertions_any es ≡ false → PlainCompiler (compile_alternation es)
  compile_alternation-Plainly nil h start end b p = Plainly-ok itself b p
  compile_alternation-Plainly (cons e es) h start end b p =
      let (here, rest) = or_false (uses_assertions e) (uses_assertions_any es) h in
      Plainly-bind itself itself (compile_expression e start end b) _
        (compile_expression-Plainly e here start end b p)
        (λ b' p'. compile_alternation-Plainly es rest start end b' p')

push_terminal-IsPlain : (b : Builder) (q o : ℕ) → IsPlain b → IsPlain (push_terminal b q o)
unfolding push_terminal
push_terminal-IsPlain b q o h = h

patterns-Plainly :
    (ps : List HirPattern) (ordinal : ℕ) (b : Builder)
    → any_uses_assertions ps ≡ false
    → IsPlain b
    → Plainly itself (compile_patterns ps ordinal b)
unfolding compile_patterns any_uses_assertions
patterns-Plainly [] ordinal b h p = Plainly-ok itself b p
patterns-Plainly (x ∷ ps) ordinal b h p =
    let (here, rest) = or_false (uses_assertions x.expression) (any_uses_assertions ps) h in
    Plainly-bind second itself (add_state b) _ (add_state-Plainly b p) (λ (first, b₁) p₁.
      Plainly-bind second itself (add_state b₁) _ (add_state-Plainly b₁ p₁) (λ (terminal, b₂) p₂.
        Plainly-bind itself itself
          (compile_expression x.expression first terminal (add_epsilon b₂ 0 first)) _
          (compile_expression-Plainly x.expression here first terminal (add_epsilon b₂ 0 first)
            (add_epsilon-IsPlain b₂ 0 first p₂))
          (λ b₃ p₃.
            patterns-Plainly ps (suc ordinal) (push_terminal b₃ terminal ordinal) rest
              (push_terminal-IsPlain b₃ terminal ordinal p₃))))

-- Patterns without assertions compile to an automaton in which no edge is an assertion.
pub compile_patterns-IsPlain :
    (patterns : List HirPattern) (b : Builder)
    → any_uses_assertions patterns ≡ false
    → compile_patterns patterns 0 initial ≡ ok b
    → IsPlain b
compile_patterns-IsPlain patterns b h compiled =
    patterns-Plainly patterns 0 initial h no_edges b compiled
  where
    no_edges : IsPlain initial
    no_edges zero e m = absurd (Memᴰ-nil m)
    no_edges (suc q) e m = absurd (Memᴰ-nil m)
