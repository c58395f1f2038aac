-- ===== src/Nfa/Paths.antt =====
-- The runs of an automaton: the edges that a cursor can take, and the walks along them. `edges`
-- gives a state's edges, `table` the predicates that edges name.
use rustmatch.Prelude.{ℕ, ◌≡◌, List, Memᴰ, some, get_elem?, ◌==◌}
use rustmatch.Predicate.{SymbolPredicate, matches}
use rustmatch.Context.{Units, Cursor}
use rustmatch.Semantics.{Relation, Reads, Holds}
use rustmatch.Nfa.Builder.{EdgeKind, Edge, epsilon, assertion, symbol, predicate}

abbrev pub Table : Type 0
Table = List SymbolPredicate

abbrev pub Fires : Units → Table → EdgeKind → Relation
Fires input table epsilon s t = s ≡ t
Fires input table (assertion a) s t = Holds input a s t
Fires input table (symbol x) s t = Reads input (λ u. x == u) s t
Fires input table (predicate id) s t =
    (p : SymbolPredicate) × (get_elem? table id ≡ some p) × Reads input (matches p) s t

module _ (input : Units) (edges : ℕ → List Edge) (table : Table) where
  -- The last state and cursor are where the walk ends.
  pub data Trail (r : ℕ) (u : Cursor) : ℕ → Cursor → Type 0 where
    here : Trail r u r u
    step :
        {q : ℕ} {s : Cursor} (e : Edge) (t : Cursor)
        → Memᴰ e (edges q)
        → Fires input table e.kind s t
        → Trail r u e.target t
        → Trail r u q s

  pub Trail-trans :
      {r v : ℕ} {u w : Cursor} {q : ℕ} {s : Cursor} → Trail r u q s → Trail v w r u → Trail v w q s
  Trail-trans here p = p
  Trail-trans (step e t m f rest) p = step e t m f (Trail-trans rest p)
