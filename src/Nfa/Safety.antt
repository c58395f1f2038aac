-- ===== src/Nfa/Safety.antt =====
-- Which expressions rustmatch/src/nfa.rs compiles to their meaning. The compiler lets an unbounded
-- repetition loop through the start state that it is given, which other edges may leave too.
use rustmatch.Prelude.{ℕ, zero, suc, ◌≡◌, Bool, true, false, ◌&&◌, ◌||◌, Option, none, some}
use rustmatch.Hir.{
  Hir, Hirs, never, epsilon, assertion, symbol, predicate, sequence, alternation, repeat, nil, cons,
}
use rustmatch.Context.{Units, Cursor}
use rustmatch.Semantics.{Relation, Never, Matches}
use rustmatch.Nfa.Compile.{is_exact}

-- The moves after which the compiled expression stands at its start state again.
abbrev pub BackRepeat : Relation → Relation → ℕ → Option ℕ → Relation
BackRepeat R B zero none = R
BackRepeat R B zero (some limit) = Never
BackRepeat R B (suc low) high = B

unfoldable mutual
  pub Back : Units → Hir → Cursor → Cursor → Type 0
  Back input never s t = ⊥
  Back input epsilon s t = ⊥
  Back input (assertion a) s t = ⊥
  Back input (symbol x) s t = ⊥
  Back input (predicate p) s t = ⊥
  Back input (sequence es) s t = BackFirst input es s t
  Back input (alternation es) s t = ⊥
  Back input (repeat e low high) s t = BackRepeat (Matches input e) (Back input e) low high s t

  pub BackFirst : Units → Hirs → Cursor → Cursor → Type 0
  BackFirst input nil s t = ⊥
  BackFirst input (cons e es) s t = Back input e s t

is_unbounded_star : ℕ → Option ℕ → Bool
is_unbounded_star zero none = true
is_unbounded_star low high = false

-- No run comes back to the start state.
unfoldable mutual
  unfolding is_unbounded_star

  pub is_plain : Hir → Bool
  is_plain (sequence es) = is_plain_first es
  is_plain (repeat e zero none) = false
  is_plain (repeat e zero (some limit)) = true
  is_plain (repeat e (suc low) high) = is_plain e
  is_plain _ = true

  pub is_plain_first : Hirs → Bool
  is_plain_first nil = true
  is_plain_first (cons e es) = is_plain e

abbrev pub has_item : Hirs → Bool
has_item nil = false
has_item (cons e es) = true

abbrev pub required_exactly : ℕ → Option ℕ → Bool
required_exactly zero high = false
required_exactly (suc low) high = is_exact (suc low) high

-- Sequences have items, the branches of an alternation do not come back to the shared start
-- state, nor does what is repeated, unless the count is fixed.
unfoldable mutual
  unfolding is_plain

  pub is_safe : Hir → Bool
  is_safe (sequence es) = has_item es && is_safe_all es
  is_safe (alternation es) = is_safe_branches es
  is_safe (repeat e low high) = is_safe e && (is_plain e || required_exactly low high)
  is_safe _ = true

  pub is_safe_all : Hirs → Bool
  is_safe_all nil = true
  is_safe_all (cons e es) = is_safe e && is_safe_all es

  pub is_safe_branches : Hirs → Bool
  is_safe_branches nil = true
  is_safe_branches (cons e es) = is_safe e && is_plain e && is_safe_branches es

mutual
  unfolding Back is_plain

  pub plain-Back : (input : Units) (e : Hir) (s t : Cursor) → is_plain e ≡ true → ¬ Back input e s t
  plain-Back input never s t h = λ x. x
  plain-Back input epsilon s t h = λ x. x
  plain-Back input (assertion a) s t h = λ x. x
  plain-Back input (symbol x) s t h = λ x. x
  plain-Back input (predicate p) s t h = λ x. x
  plain-Back input (sequence es) s t h = plain_first-Back input es s t h
  plain-Back input (alternation es) s t h = λ x. x
  plain-Back input (repeat e zero none) s t h = cc
  plain-Back input (repeat e zero (some limit)) s t h = λ x. x
  plain-Back input (repeat e (suc low) high) s t h = plain-Back input e s t h

  plain_first-Back :
      (input : Units) (es : Hirs) (s t : Cursor)
      → is_plain_first es ≡ true
      → ¬ BackFirst input es s t
  plain_first-Back input nil s t h = λ x. x
  plain_first-Back input (cons e es) s t h = plain-Back input e s t h
