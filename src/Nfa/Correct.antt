-- ===== src/Nfa/Correct.antt =====
-- `compile_expression` (rustmatch/src/nfa.rs) meets the contract of an expression's meaning.
use rustmatch.Prelude.{
  ℕ, zero, suc, ◌+◌, ◌-◌, ◌≤◌, ◌<◌, ◌≡◌, refl, subst, ◌⊎◌, inl, inr, ◌↔◌, ⊎_elim, arith, Bool, true,
  false, Option, none, some, ◌==◌, ◌&&◌, ◌||◌, Bool-cases, leb,
}
use rustmatch.Error.{ok}
use rustmatch.Hir.{
  Hir, Hirs, never, epsilon, assertion, symbol, predicate, sequence, alternation, repeat, nil, cons,
}
use rustmatch.Context.{Units, Cursor}
use rustmatch.Semantics.{
  Relation, Compose, Never, Within, Holds, Reads, Matches, MatchesAll, MatchesAny,
}
use rustmatch.Nfa.Builder.{EdgeKind, Builder, add_epsilon}
use rustmatch.Nfa.Compile.{
  Compiler, add_edge, required_loop, optional_loop, unbounded_loop, repetition_tail,
  compile_repetition, compile_expression, compile_sequence, compile_alternation,
}
use rustmatch.Nfa.Fragment.{Fragment, Fragment-ext, Fragment-never, Fragment-edge}
use rustmatch.Nfa.Combine.{Fragment-both, Fragment-after, Fragment-predicate}
use rustmatch.Nfa.Counting.{Count, Same, Count-zero, Count-ext, Count-never}
use rustmatch.Nfa.Repeat.{
  >>=-ok, with_tail, exactly, suc-eq-zero, Fragment-epsilon, Fragment-exactly, Fragment-optional,
  Fragment-required, back_of,
}
use rustmatch.Nfa.Unbounded.{Fragment-unbounded}
use rustmatch.Nfa.Safety.{
  Back, BackFirst, BackRepeat, is_plain, is_safe, is_safe_all, is_safe_branches, plain-Back,
  has_item, required_exactly,
}

-- The counts that `repeat` allows.
abbrev Allowed : ℕ → Option ℕ → ℕ → Type 0
Allowed low high n = (low ≤ n) × Within n high

==_refl : (n : ℕ) → (n == n) ≡ true
==_refl n = ground arith

-- The four shapes of `compile_repetition`.
repetition-exact :
    (c : Compiler) (low start end : ℕ) (b : Builder)
    → compile_repetition c (suc low) (some (suc low)) start end b ≡ exactly c (suc low) start end b
unfolding compile_repetition repetition_tail
repetition-exact c low start end b = rw (==_refl (suc low), suc-eq-zero low)

repetition-none :
    (c : Compiler) (low start end : ℕ) (b : Builder)
    → compile_repetition c low none start end b
      ≡ with_tail c false (unbounded_loop c) low start end b
unfolding compile_repetition repetition_tail
repetition-none c low start end b = refl

repetition-some :
    (c : Compiler) (low limit : ℕ)
    → (limit == low) ≡ false
    → (start end : ℕ) (b : Builder)
    → compile_repetition c low (some limit) start end b
      ≡ with_tail c false (optional_loop c (limit - low)) low start end b
unfolding compile_repetition repetition_tail
repetition-some c low limit e start end b = rw e

repetition-zero :
    (c : Compiler) (start end : ℕ) (b : Builder)
    → compile_repetition c 0 (some 0) start end b ≡ add_edge EdgeKind.epsilon start end b
unfolding compile_repetition repetition_tail required_loop add_epsilon
repetition-zero c start end b = refl

optional-zero : (c : Compiler) (start end : ℕ) (b : Builder) → optional_loop c 0 start end b ≡ ok b
unfolding optional_loop
optional-zero c start end b = refl

module _ (input : Units) {c : Compiler} {R B : Relation} (F : Fragment input c R B) where
  Fragment-exact :
      (low : ℕ)
      → Fragment input
          (compile_repetition c (suc low) (some (suc low)))
          (Count R (Allowed (suc low) (some (suc low))))
          B
  Fragment-exact low =
      Fragment-ext input (repetition-exact c low)
        (Count-ext R (λ n. n ≡ suc low) (Allowed (suc low) (some (suc low)))
          (λ n. (λ a. omega arith, λ e. omega arith)))
        (λ s t. (λ h. h, λ h. h)) (Fragment-exactly input F low)

  Fragment-open :
      ((s t : Cursor) → ¬ B s t)
      → (low : ℕ)
      → Fragment input
          (compile_repetition c low none)
          (Count R (Allowed low none))
          (back_of B R low)
  Fragment-open plain low =
      Fragment-ext input (repetition-none c low)
        (Count-ext R (λ n. low ≤ n) (Allowed low none) (λ n. (λ a. a.0, λ a. (a, tt))))
        (λ s t. (λ h. h, λ h. h))
        (Fragment-required input F (λ j n. j ≤ n) (Fragment-unbounded input F plain)
          (Count-ext R (λ n. Unit {0}) (λ n. 0 ≤ n) (λ n. (λ a. tt, λ a. omega arith)))
          (λ j n. (λ a. omega arith, λ a. omega arith)) (λ j a. omega arith) low)

  -- The rounds from `low` to `limit` that may be left out; if `limit` is smaller, nothing matches.
  Fragment-rounds :
      ((s t : Cursor) → ¬ B s t)
      → (low limit : ℕ) → (limit == low) ≡ false
      → Fragment input (optional_loop c (limit - low)) (Count R (λ n. n + low ≤ limit)) Never
  Fragment-rounds plain low limit e = elim (Sub-cases low limit e) [
    | inl (d, e, le) ↦ rw e (
        Fragment-ext input (λ start end b. refl)
          (Count-ext R (λ n. n ≤ suc d) (λ n. n + low ≤ limit)
            (λ n. (λ a. omega arith, λ a. omega arith)))
          (λ s t. (λ h. h, λ h. h)) (Fragment-optional input F plain d))
    | inr (e, lt) ↦ rw e (
        Fragment-ext input (optional-zero c)
          (Count-never R (λ n. n + low ≤ limit) (λ n a. omega arith)) (λ s t. (λ h. h, λ h. h))
          (Fragment-never input))
  ]
    where
      Sub-cases :
          (low limit : ℕ)
          → (limit == low) ≡ false
          → ((d : ℕ) × (limit - low ≡ suc d) × (limit ≡ suc d + low))
            ⊎ ((limit - low ≡ 0) × (limit < low))
      Sub-cases low limit e = elim (Bool-cases (leb limit low)) [
        | inl le ↦ inr (ground arith, ground arith)
        | inr gt ↦ inl (limit - low - 1, ground arith, ground arith)
      ]

  Fragment-closed :
      ((s t : Cursor) → ¬ B s t)
      → (low limit : ℕ) → (limit == low) ≡ false
      → Fragment input
          (compile_repetition c low (some limit))
          (Count R (Allowed low (some limit)))
          (back_of B Never low)
  Fragment-closed plain low limit e =
      Fragment-ext input (repetition-some c low limit e)
        (Count-ext R (λ n. (low ≤ n) × (n + low ≤ limit + low)) (Allowed low (some limit))
          (λ n. (λ a. (a.0, omega arith), λ a. (a.0, omega arith))))
        (λ s t. (λ h. h, λ h. h))
        (Fragment-required input F (λ j n. (j ≤ n) × (n + low ≤ limit + j))
          (Fragment-rounds plain low limit e)
          (Count-ext R (λ n. n + low ≤ limit) (λ n. (0 ≤ n) × (n + low ≤ limit + 0))
            (λ n. (λ a. omega arith, λ a. (omega arith, omega arith))))
          (λ j n. (λ a. (omega arith, omega arith), λ a. (omega arith, omega arith)))
          (λ j a. omega arith) low)

  -- A body that comes back to its start is compiled well only under a fixed count.
  Fragment-repetition :
      (low : ℕ) (high : Option ℕ)
      → ((s t : Cursor) → ¬ B s t) ⊎ (required_exactly low high ≡ true)
      → Fragment input
          (compile_repetition c low high)
          (Count R (Allowed low high))
          (BackRepeat R B low high)
  Fragment-repetition zero none (inl plain) = Fragment-open plain 0
  Fragment-repetition (suc low) none (inl plain) = Fragment-open plain (suc low)
  Fragment-repetition zero (some zero) (inl plain) =
      Fragment-ext input (repetition-zero c)
        (Count-zero R (Allowed 0 (some 0)) (λ n a. omega arith) (omega arith, omega arith))
        (λ s t. (λ h. h, λ h. h)) (Fragment-epsilon input)
  Fragment-repetition zero (some (suc limit)) (inl plain) =
      Fragment-closed plain 0 (suc limit) (suc-eq-zero limit)
  Fragment-repetition (suc low) (some limit) (inl plain) = elim (Bool-cases (limit == suc low)) [
    | inl e ↦ let e' : limit ≡ suc low = ground arith in rw e' (Fragment-exact low)
    | inr e ↦ Fragment-closed plain (suc low) limit e
  ]
  Fragment-repetition zero high (inr exact) = cc
  Fragment-repetition (suc low) none (inr exact) = cc
  Fragment-repetition (suc low) (some limit) (inr exact) =
      let e : limit ≡ suc low = ground arith in rw e (Fragment-exact low)

-- The last item of a sequence leads to the end itself.
sequence-one :
    (e : Hir) (start end : ℕ) (b : Builder)
    → compile_sequence (cons e nil) start end b ≡ compile_expression e start end b
unfolding compile_expression
sequence-one e start end b = rw >>=-ok

Compose-same : (R : Relation) (s t : Cursor) → Compose R Same s t ↔ R s t
Compose-same R s t = (λ (m, r, e). subst (R s) e r, λ r. (t, r, refl))

&&-parts : (a b : Bool) → (a && b) ≡ true → (a ≡ true) × (b ≡ true)
&&-parts true b h = (refl, h)
&&-parts false b h = cc

||-cases : (a b : Bool) → (a || b) ≡ true → (a ≡ true) ⊎ (b ≡ true)
||-cases true b h = inl refl
||-cases false b h = inr h

mutual
  unfolding Matches Back is_safe compile_expression

  Fragment-expression :
      (input : Units) (e : Hir)
      → is_safe e ≡ true
      → Fragment input (compile_expression e) (Matches input e) (Back input e)
  Fragment-expression input never h = Fragment-never input
  Fragment-expression input epsilon h = Fragment-epsilon input
  Fragment-expression input (assertion a) h =
      Fragment-edge input (EdgeKind.assertion a) (Holds input a) (λ table s t. (λ f. f, λ f. f))
  Fragment-expression input (symbol x) h =
      Fragment-edge input (EdgeKind.symbol x) (Reads input (λ u. x == u))
        (λ table s t. (λ f. f, λ f. f))
  Fragment-expression input (predicate p) h = Fragment-predicate input p
  Fragment-expression input (sequence es) h =
      Fragment-sequence input es (&&-parts _ _ h).0 (&&-parts _ _ h).1
  Fragment-expression input (alternation es) h = Fragment-alternation input es h
  Fragment-expression input (repeat e low high) h =
      let (safe, shape) = &&-parts _ _ h in
      Fragment-ext input (λ start end b. refl)
        (λ s t. (λ (n, a, w, p). (n, (a, w), p), λ (n, (a, w), p). (n, a, w, p)))
        (λ s t. (λ k. k, λ k. k))
        (Fragment-repetition input (Fragment-expression input e safe) low high
          (⊎_elim (λ plain. inl (λ s t. plain-Back input e s t plain)) inr (||-cases _ _ shape)))

  Fragment-sequence :
      (input : Units) (es : Hirs)
      → has_item es ≡ true
      → is_safe_all es ≡ true
      → Fragment input (compile_sequence es) (MatchesAll input es) (BackFirst input es)
  Fragment-sequence input nil items h = cc
  Fragment-sequence input (cons e nil) items h =
      Fragment-ext input (sequence-one e) (Compose-same (Matches input e)) (λ s t. (λ k. k, λ k. k))
        (Fragment-expression input e (&&-parts _ _ h).0)
  Fragment-sequence input (cons e (cons f es)) items h =
      Fragment-after input (Fragment-expression input e (&&-parts _ _ h).0)
        (Fragment-sequence input (cons f es) refl (&&-parts _ _ h).1)

  Fragment-alternation :
      (input : Units) (es : Hirs)
      → is_safe_branches es ≡ true
      → Fragment input (compile_alternation es) (MatchesAny input es) Never
  Fragment-alternation input nil h = Fragment-never input
  Fragment-alternation input (cons e es) h =
      let (front, others) = &&-parts (is_safe e && is_plain e) (is_safe_branches es) h in
      let (safe, plain) = &&-parts (is_safe e) (is_plain e) front in
      Fragment-both input (Fragment-expression input e safe) (Fragment-alternation input es others)
        (λ s t. plain-Back input e s t plain) (λ s t k. k)

-- The compiler of a safe expression meets the contract of the expression's meaning. For a call that
-- returns, on a well-formed builder that has both states: the builder stays well-formed, only grows and
-- keeps the patterns that end in each state; every match is a walk from the start state to the end state
-- in each builder that has all of the new one. Take a table that has the predicates of the new builder, and a
-- labelling of the states that respects the old edges under it, whose label of the start state is
-- carried to that of the end state by every match, and whose label of the start state is closed under
-- the moves after which the automaton stands at its start state again (`Back`): it extends to a
-- labelling that respects the new edges too and is as before on the old states. A move of `Back`
-- followed by a match is a match.
pub compile_expression-Fragment :
    (input : Units) (e : Hir)
    → is_safe e ≡ true
    → Fragment input (compile_expression e) (Matches input e) (Back input e)
compile_expression-Fragment = Fragment-expression
