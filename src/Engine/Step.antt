-- ===== src/Engine/Step.antt =====
-- One unit of a scan of rustmatch/src/engine.rs: the active states after it are those that a
-- consuming edge leads to, and what these reach without consuming.
use rustmatch.Prelude.{
  ℕ, ◌<◌, ◌≡◌, refl, subst, sym, ◌⊎◌, inl, inr, ◌↔◌, ⊎_elim, Bool, true, false, List, [], ◌∷◌, Memᴰ,
  Memᴰ-nil, Memᴰ-cons, Bool-cases, if◌then◌else◌,
}
use rustmatch.Context.{Cursor}
use rustmatch.Nfa.Builder.{EdgeKind, Edge}
use rustmatch.Nfa.Database.{PatternDatabase, edges_from, edge_matches, state_count}
use rustmatch.Engine.Closure.{Closure, is_visited}
use rustmatch.Engine.Flags.{InRange, flag-replicate}
use rustmatch.Engine.Reach.{
  followed, followed-InRange, Reach, IsClosed, blank-IsClosed, extend_closure_lem,
}
use rustmatch.Engine.Scan.{blank, extend, fire_edges, fire_states}

module _ (db : PatternDatabase) (follows : Cursor → EdgeKind → Bool)
    (targets : (q : ℕ) (e : Edge) → Memᴰ e (edges_from db q) → e.target < state_count db)
    (s : Cursor) where
  pub next_in_range : (q : ℕ) → InRange (state_count db) (followed (follows s) (edges_from db q))
  next_in_range q = followed-InRange (follows s) (state_count db) (edges_from db q) (targets q)

  abbrev pub IsClosedHere : Closure → Type 0
  IsClosedHere = IsClosed (follows s) (edges_from db) (state_count db) next_in_range

  abbrev pub Reaches : ℕ → ℕ → Type 0
  Reaches = Reach (follows s) (edges_from db) (state_count db) next_in_range

  -- An edge that the unit fires leads to a state that reaches q.
  abbrev pub Fired : List Edge → ℕ → ℕ → Type 0
  Fired es unit q =
      (e : Edge) × Memᴰ e es × (edge_matches db e.kind unit ≡ true) × Reaches e.target q

  abbrev pub FiredFrom : List ℕ → ℕ → ℕ → Type 0
  FiredFrom qs unit q = (p : ℕ) × Memᴰ p qs × Fired (edges_from db p) unit q

  abbrev Adds : Closure → Closure → (ℕ → Type 0) → Type 0
  Adds c c' New =
      IsClosedHere c'
      × ((q : ℕ) → (is_visited c'.visited q ≡ true) ↔ ((is_visited c.visited q ≡ true) ⊎ New q))

  Fired-cons :
      (e : Edge) (es : List Edge) (unit q : ℕ)
      → edge_matches db e.kind unit ≡ true
      → Fired (e ∷ es) unit q ↔ (Reaches e.target q ⊎ Fired es unit q)
  Fired-cons e es unit q fires = (
    λ (x, m, f, r).
        ⊎_elim (λ same. inl (subst (λ (y : Edge). Reaches y.target q) same r))
          (λ k. inr (x, k, f, r)) ((Memᴰ-cons x e es).0 m),
    ⊎_elim (λ r. (e, (Memᴰ-cons e e es).1 (inl refl), fires, r))
        (λ (x, m, f, r). (x, (Memᴰ-cons x e es).1 (inr m), f, r)),
  )

  Fired-skip :
      (e : Edge) (es : List Edge) (unit q : ℕ)
      → edge_matches db e.kind unit ≡ false
      → Fired (e ∷ es) unit q ↔ Fired es unit q
  Fired-skip e es unit q out = (
    λ (x, m, f, r).
        ⊎_elim
          (λ same. absurd (
            let g : edge_matches db e.kind unit ≡ true =
              subst (λ (y : Edge). edge_matches db y.kind unit ≡ true) same f in
            cc (g, out)))
          (λ k. (x, k, f, r)) ((Memᴰ-cons x e es).0 m),
    λ (x, m, f, r). (x, (Memᴰ-cons x e es).1 (inr m), f, r),
  )

  fire_edges-Adds :
      (unit : ℕ) (es : List Edge) (c : Closure)
      → ((e : Edge) → Memᴰ e es → e.target < state_count db)
      → IsClosedHere c
      → Adds c (fire_edges db follows s unit es c) (Fired es unit)
  unfolding fire_edges
  fire_edges-Adds unit [] c fits i =
      (i, λ q. (inl, ⊎_elim (λ v. v) (λ (e, m, f, r). absurd (Memᴰ-nil m))))
  fire_edges-Adds unit (e ∷ es) c fits i =
      let later : (x : Edge) → Memᴰ x es → x.target < state_count db =
        λ x m. fits x ((Memᴰ-cons x e es).1 (inr m)) in
      elim (Bool-cases (edge_matches db e.kind unit)) [
        | inl yes₀ ↦
            let (closed, adds) =
              extend_closure_lem (follows s) (edges_from db) (state_count db) next_in_range e.target
                c (fits e ((Memᴰ-cons e e es).1 (inl refl))) i in
            let (closed', adds') =
              fire_edges-Adds unit es (extend db follows s e.target c) later closed in
            subst
              (λ b.
                Adds c
                  (fire_edges db follows s unit es
                    (if b then extend db follows s e.target c else c))
                  (Fired (e ∷ es) unit))
              (sym yes₀)
              (
                closed',
                λ q. (
                  λ v.
                      ⊎_elim
                        (λ w.
                          ⊎_elim inl (λ r. inr ((Fired-cons e es unit q yes₀).1 (inl r)))
                            ((adds q).0 w))
                        (λ r. inr ((Fired-cons e es unit q yes₀).1 (inr r))) ((adds' q).0 v),
                  ⊎_elim (λ v. (adds' q).1 (inl ((adds q).1 (inl v))))
                      (λ f.
                        ⊎_elim (λ r. (adds' q).1 (inl ((adds q).1 (inr r))))
                          (λ r. (adds' q).1 (inr r)) ((Fired-cons e es unit q yes₀).0 f)),
                ),
              )
        | inr out ↦
            let (closed', adds') = fire_edges-Adds unit es c later i in
            subst
              (λ b.
                Adds c
                  (fire_edges db follows s unit es
                    (if b then extend db follows s e.target c else c))
                  (Fired (e ∷ es) unit))
              (sym out)
              (
                closed',
                λ q. (
                  λ v. ⊎_elim inl (λ r. inr ((Fired-skip e es unit q out).1 r)) ((adds' q).0 v),
                  ⊎_elim (λ v. (adds' q).1 (inl v))
                      (λ f. (adds' q).1 (inr ((Fired-skip e es unit q out).0 f))),
                ),
              )
      ]

  fire_states-Adds :
      (unit : ℕ) (qs : List ℕ) (c : Closure)
      → IsClosedHere c
      → Adds c (fire_states db follows s unit qs c) (FiredFrom qs unit)
  unfolding fire_states
  fire_states-Adds unit [] c i = (i, λ q. (inl, ⊎_elim (λ v. v) (λ (p, m, r). absurd (Memᴰ-nil m))))
  fire_states-Adds unit (p ∷ ps) c i =
      let (closed, adds) = fire_edges-Adds unit (edges_from db p) c (targets p) i in
      let (closed', adds') =
        fire_states-Adds unit ps (fire_edges db follows s unit (edges_from db p) c) closed in
      (
        closed',
        λ q. (
          λ v.
              ⊎_elim
                (λ w. ⊎_elim inl (λ r. inr (p, (Memᴰ-cons p p ps).1 (inl refl), r)) ((adds q).0 w))
                (λ (x, m, r). inr (x, (Memᴰ-cons x p ps).1 (inr m), r)) ((adds' q).0 v),
          ⊎_elim (λ v. (adds' q).1 (inl ((adds q).1 (inl v))))
              (λ (x, m, r).
                ⊎_elim
                  (λ same.
                    (adds' q).1
                      (inl ((adds q).1 (inr (subst (λ y. Fired (edges_from db y) unit q) same r)))))
                  (λ k. (adds' q).1 (inr (x, k, r))) ((Memᴰ-cons x p ps).0 m)),
        ),
      )

  -- Where every edge leads to a state in range: the states active after a unit are exactly those
  -- that the target of a fired edge of an active state reaches without consuming.
  pub fire_states_lem :
      (unit : ℕ) (active : List ℕ) (q : ℕ)
      → Memᴰ q (fire_states db follows s unit active (blank db)).output ↔ FiredFrom active unit q
  fire_states_lem unit active q =
      let start = blank-IsClosed (follows s) (edges_from db) (state_count db) next_in_range in
      let (closed, adds) = fire_states-Adds unit active (blank db) start in
      (
        λ m.
            ⊎_elim (λ v. absurd (let fresh = flag-replicate (state_count db) q in cc (fresh, v)))
              (λ r. r) ((adds q).0 ((closed.listed q).0 m)),
        λ r. (closed.listed q).1 ((adds q).1 (inr r)),
      )
