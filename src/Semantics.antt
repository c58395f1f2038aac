-- ===== src/Semantics.antt =====
-- What an expression means, with no automaton in it: the moves of a cursor over the input that it
-- allows. It is the relation that the reference interpreter in the tests of
-- rustmatch/src/engine.rs (`interpret_from`) computes.
use rustmatch.Prelude.{ℕ, zero, suc, ◌≤◌, ◌≡◌, Bool, true, Option, none, some, ◌⊎◌, get_elem?, ◌==◌}
use rustmatch.Predicate.{matches}
use rustmatch.Hir.{
  Assertion, Hir, Hirs, never, epsilon, assertion, symbol, predicate, sequence, alternation, repeat,
  nil, cons,
}
use rustmatch.Context.{Units, Cursor, assertion_matches, advance}

abbrev pub Relation : Type 1
Relation = Cursor → Cursor → Type 0

-- One move after the other.
abbrev pub Compose : Relation → Relation → Relation
Compose R S s t = (m : Cursor) × R s m × S m t

-- Exactly n moves.
abbrev pub Power : Relation → ℕ → Relation
Power R zero s t = s ≡ t
Power R (suc n) s t = (m : Cursor) × R s m × Power R n m t

abbrev pub Within : ℕ → Option ℕ → Type 0
Within n none = Unit
Within n (some limit) = n ≤ limit

abbrev pub Never : Relation
Never s t = ⊥

module _ (input : Units) where
  -- The unit at the cursor passes the test and is consumed.
  abbrev pub Reads : (ℕ → Bool) → Relation
  Reads p s t = (u : ℕ) × (get_elem? input s.position ≡ some u) × (p u ≡ true) × (t ≡ advance s)

  abbrev pub Holds : Assertion → Relation
  Holds a s t = (s ≡ t) × (assertion_matches input a s ≡ true)

-- The cursor moves from the first to the second over text that the expression accepts.
unfoldable mutual
  pub Matches : Units → Hir → Cursor → Cursor → Type 0
  Matches input never s t = ⊥
  Matches input epsilon s t = s ≡ t
  Matches input (assertion a) s t = Holds input a s t
  Matches input (symbol x) s t = Reads input (λ u. x == u) s t
  Matches input (predicate p) s t = Reads input (matches p) s t
  Matches input (sequence es) s t = MatchesAll input es s t
  Matches input (alternation es) s t = MatchesAny input es s t
  Matches input (repeat e low high) s t =
      (n : ℕ) × (low ≤ n) × Within n high × Power (Matches input e) n s t

  pub MatchesAll : Units → Hirs → Cursor → Cursor → Type 0
  MatchesAll input nil s t = s ≡ t
  MatchesAll input (cons e es) s t = (m : Cursor) × Matches input e s m × MatchesAll input es m t

  pub MatchesAny : Units → Hirs → Cursor → Cursor → Type 0
  MatchesAny input nil s t = ⊥
  MatchesAny input (cons e es) s t = Matches input e s t ⊎ MatchesAny input es s t
