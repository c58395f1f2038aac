-- ===== src/Engine/Walks.antt =====
-- The walks of an automaton, taken apart at the last unit that they consume, as the scanners of
-- rustmatch/src/engine.rs follow them.
use rustmatch.Prelude.{
  ℕ, ◌<◌, ◌≡◌, refl, sym, subst, ◌∙◌, ◌⊎◌, inl, inr, true, Memᴰ, none, some, get_elem?,
  Option-cases,
}
use rustmatch.Predicate.{SymbolPredicate, matches}
use rustmatch.Context.{Units, Cursor, advance}
use rustmatch.Nfa.Builder.{EdgeKind, Edge, epsilon, assertion, symbol, predicate}
use rustmatch.Nfa.Database.{PatternDatabase, edges_from, edge_matches, state_count, named_matches}
use rustmatch.Nfa.Paths.{Fires, Trail, here, step, Trail-trans}
use rustmatch.Engine.Closure.{follows_assertions}
use rustmatch.Engine.Reach.{Reach, mem-followed}
use rustmatch.Engine.Step.{Reaches, Fired}

module _ (db : PatternDatabase) (input : Units) where
  -- An edge that fires is followed where it stands, or is fired by the unit there.
  abbrev pub Stays : EdgeKind → Cursor → Cursor → Type 0
  Stays kind s t = (s ≡ t) × (follows_assertions input s kind ≡ true)

  abbrev pub Consumes : EdgeKind → Cursor → Cursor → Type 0
  Consumes kind s t =
      (unit : ℕ) × (get_elem? input s.position ≡ some unit)
      × (edge_matches db kind unit ≡ true)
      × (t ≡ advance s)

  pub Fires-cases :
      (kind : EdgeKind) (s t : Cursor)
      → Fires input db.predicates kind s t
      → Stays kind s t ⊎ Consumes kind s t
  unfolding follows_assertions edge_matches named_matches
  Fires-cases epsilon s t e = inl (e, refl)
  Fires-cases (assertion a) s t (e, h) = inl (e, h)
  Fires-cases (symbol x) s t r = inr r
  Fires-cases (predicate id) s t (p, at, (u, here_unit, m, e)) =
      inr (u, here_unit, subst (λ o. named_matches o u ≡ true) (sym at) m, e)

  Stays-Fires :
      (kind : EdgeKind) (s : Cursor)
      → follows_assertions input s kind ≡ true
      → Fires input db.predicates kind s s
  unfolding follows_assertions
  Stays-Fires epsilon s h = refl
  Stays-Fires (assertion a) s h = (refl, h)
  Stays-Fires (symbol x) s h = cc
  Stays-Fires (predicate id) s h = cc

  pub Consumes-Fires :
      (kind : EdgeKind) (s t : Cursor) → Consumes kind s t → Fires input db.predicates kind s t
  unfolding edge_matches named_matches
  Consumes-Fires epsilon s t (u, at, m, e) = cc
  Consumes-Fires (assertion a) s t (u, at, m, e) = cc
  Consumes-Fires (symbol x) s t r = r
  Consumes-Fires (predicate id) s t (u, at, m, e) =
      elim (Option-cases (get_elem? db.predicates id)) [
        | inl missing ↦ absurd (
            let g : named_matches none u ≡ true = subst (λ o. named_matches o u ≡ true) missing m in
            unnamed u g)
        | inr (p, found) ↦
            (p, found, (u, at, named p u (subst (λ o. named_matches o u ≡ true) found m), e))
      ]
    where
      unnamed : (u : ℕ) → named_matches none u ≡ true → ⊥
      unnamed u h = cc

      named : (p : SymbolPredicate) (u : ℕ) → named_matches (some p) u ≡ true → matches p u ≡ true
      named p u h = h

module _ (db : PatternDatabase) (input : Units)
    (targets : (q : ℕ) (e : Edge) → Memᴰ e (edges_from db q) → e.target < state_count db) where
  abbrev pub ReachesAt : Cursor → ℕ → ℕ → Type 0
  ReachesAt s = Reaches db (follows_assertions input) targets s

  abbrev pub WalkTo : ℕ → Cursor → ℕ → Cursor → Type 0
  WalkTo r u q s = Trail input (edges_from db) db.predicates r u q s

  Reaches-before :
      (s : Cursor) (q : ℕ) (e : Edge) {r : ℕ}
      → Memᴰ e (edges_from db q)
      → follows_assertions input s e.kind ≡ true
      → ReachesAt s e.target r
      → ReachesAt s q r
  Reaches-before s q e m f Reach.here =
      Reach.after Reach.here
        ((mem-followed (follows_assertions input s) (edges_from db q) e.target).1 (e, m, f, refl))
  Reaches-before s q e m f (Reach.after r k) = Reach.after (Reaches-before s q e m f r) k

  pub Reaches-Walk : (s : Cursor) (q : ℕ) {r : ℕ} → ReachesAt s q r → WalkTo r s q s
  Reaches-Walk s q Reach.here = here
  Reaches-Walk s q (Reach.after {q = p} {r = r} way k) =
      let (e, m, f, same) = (mem-followed (follows_assertions input s) (edges_from db p) r).0 k in
      Trail-trans input (edges_from db) db.predicates (Reaches-Walk s q way)
        (step e s m (Stays-Fires db input e.kind s f) (subst (λ y. WalkTo r s y s) same here))

  -- The last unit consumed: the walk before it, the edge that it fires, and what follows.
  pub record LastUnit (r : ℕ) (u : Cursor) (q : ℕ) (s : Cursor) : Type 0 where
    pub state : ℕ
    pub cursor : Cursor
    pub before : WalkTo state cursor q s
    pub unit : ℕ
    pub at : get_elem? input cursor.position ≡ some unit
    pub next : u ≡ advance cursor
    pub fired : Fired db (follows_assertions input) targets u (edges_from db state) unit r

  pub Walk-cases :
      {r : ℕ} {u : Cursor} {q : ℕ} {s : Cursor}
      → WalkTo r u q s
      → ((s ≡ u) × ReachesAt s q r) ⊎ LastUnit r u q s
  Walk-cases here = inl (refl, Reach.here)
  Walk-cases {r} {u} {q} {s} (step e t m f rest) = elim (Walk-cases rest) [
    | inr last ↦ inr (record {
      state = last.state;
      cursor = last.cursor;
      before = step e t m f last.before;
      unit = last.unit;
      at = last.at;
      next = last.next;
      fired = last.fired;
    })
    | inl (stay, way) ↦ elim (Fires-cases db input e.kind s t f) [
      | inl (same, follow) ↦ inl (
        same ∙ stay,
        Reaches-before s q e m follow (subst (λ c. ReachesAt c e.target r) (sym same) way),
      )
      | inr (unit, at, fires, next) ↦ inr (record {
        state = q;
        cursor = s;
        before = here;
        unit = unit;
        at = at;
        next = sym stay ∙ next;
        fired = (e, m, fires, subst (λ c. ReachesAt c e.target r) stay way);
      })
    ]
  ]
