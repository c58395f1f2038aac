-- ===== src/Engine/Front.antt =====
-- The active states of the scanners of rustmatch/src/engine.rs are the states that walks reach.
use rustmatch.Prelude.{
  ℕ, ◌<◌, ◌≡◌, refl, sym, subst, ap, ap₂, ◌∙◌, ◌⊎◌, inl, inr, ◌↔◌, ⊎_elim, Bool, true, List, Memᴰ,
  arith, some, get_elem?,
}
use rustmatch.Context.{Units, Cursor, advance}
use rustmatch.Nfa.Builder.{Edge}
use rustmatch.Nfa.Database.{PatternDatabase, edges_from, state_count}
use rustmatch.Nfa.Paths.{here, step, Trail-trans}
use rustmatch.Engine.Closure.{follows_assertions}
use rustmatch.Engine.Flags.{flag-replicate}
use rustmatch.Engine.Reach.{blank-IsClosed, extend_closure_lem}
use rustmatch.Engine.Scan.{blank, extend, fire_states}
use rustmatch.Engine.Step.{next_in_range, Fired, FiredFrom, fire_states_lem}
use rustmatch.Engine.Walks.{
  Fires-cases, Consumes-Fires, Reaches-Walk, ReachesAt, WalkTo, Walk-cases,
}

-- The second cursor is the first, or stands after units consumed since.
abbrev pub Later : Cursor → Cursor → Type 0
Later s u = (s ≡ u) ⊎ ((s.position < u.position) × (u.after_current ≡ true))

Cursor-eq : (s t : Cursor) → s.position ≡ t.position → s.after_current ≡ t.after_current → s ≡ t
Cursor-eq s t p a =
    ap₂ (λ (n : ℕ) (b : Bool). let c : Cursor = record { position = n; after_current = b } in c) p a

pub Later-eq : (o s t : Cursor) → Later o s → Later o t → s.position ≡ t.position → s ≡ t
Later-eq o s t (inl a) (inl b) e = sym a ∙ b
Later-eq o s t (inl a) (inr (lt, b)) e = absurd (omega (arith, ap (λ (c : Cursor). c.position) a))
Later-eq o s t (inr (lt, a)) (inl b) e = absurd (omega (arith, ap (λ (c : Cursor). c.position) b))
Later-eq o s t (inr (lt, a)) (inr (lt', b)) e = Cursor-eq s t e (a ∙ sym b)

pub Later-advance : (o s : Cursor) → Later o s → Later o (advance s)
Later-advance o s (inl a) = inr (omega (arith, ap (λ (c : Cursor). c.position) a), refl)
Later-advance o s (inr (lt, a)) = inr (omega arith, refl)

module _ (db : PatternDatabase) (input : Units)
    (targets : (q : ℕ) (e : Edge) → Memᴰ e (edges_from db q) → e.target < state_count db) where
  pub Walk-Later :
      {r : ℕ} {u : Cursor} {q : ℕ} {s : Cursor} → WalkTo db input targets r u q s → Later s u
  Walk-Later here = inl refl
  Walk-Later {r} {u} {q} {s} (step e t m f rest) = elim (Fires-cases db input e.kind s t f) [
    | inl (same, follow) ↦ subst (λ c. Later c u) (sym same) (Walk-Later rest)
    | inr (unit, at, fires, next) ↦ further (Walk-Later rest) next
  ]
    where
      further : Later t u → t ≡ advance s → Later s u
      further (inl a) next = inr (
        omega (arith, ap (λ (c : Cursor). c.position) (sym a ∙ next)),
        ap (λ (c : Cursor). c.after_current) (sym a ∙ next),
      )
      further (inr (lt, b)) next = inr (omega (arith, ap (λ (c : Cursor). c.position) next), b)

  module _ (root : ℕ) (origin : Cursor) where
    -- The list holds the states that walks from the root reach with the cursor at s.
    abbrev pub IsFront : List ℕ → Cursor → Type 0
    IsFront active s = (q : ℕ) → Memᴰ q active ↔ WalkTo db input targets q s root origin

    -- From a root in range: the closure of the root is the front where a scan begins.
    pub extend-IsFront :
        root < state_count db
        → IsFront (extend db (follows_assertions input) origin root (blank db)).output origin
    extend-IsFront lt q =
        let within = next_in_range db (follows_assertions input) targets origin in
        let (closed, adds) =
          extend_closure_lem (follows_assertions input origin) (edges_from db) (state_count db)
            within root (blank db) lt
            (blank-IsClosed (follows_assertions input origin) (edges_from db) (state_count db)
              within) in
        (
          λ m.
              ⊎_elim (λ v. absurd (let fresh = flag-replicate (state_count db) q in cc (fresh, v)))
                (λ way. Reaches-Walk db input targets origin root way)
                ((adds q).0 ((closed.listed q).0 m)),
          λ walk. (closed.listed q).1 ((adds q).1 (inr (way q walk))),
        )
      where
        way :
            (q : ℕ)
            → WalkTo db input targets q origin root origin
            → ReachesAt db input targets origin root q
        way q walk = elim (Walk-cases db input targets walk) [
          | inl (stay, way₀) ↦ way₀
          | inr last ↦ absurd (back last.cursor last.next (Walk-Later last.before))
        ]
          where
            back : (c : Cursor) → origin ≡ advance c → Later origin c → ⊥
            back c next (inl a) =
                omega
                  (arith, ap (λ (k : Cursor). k.position) next, ap (λ (k : Cursor). k.position) a)
            back c next (inr (lt', b)) = omega (arith, ap (λ (k : Cursor). k.position) next)

    -- One unit of the input takes a front to the front one position further.
    pub fire_states-IsFront :
        (s : Cursor) (unit : ℕ) (active : List ℕ)
        → Later origin s
        → get_elem? input s.position ≡ some unit
        → IsFront active s
        → IsFront
            (fire_states db (follows_assertions input) (advance s) unit active (blank db)).output
            (advance s)
    fire_states-IsFront s unit active later at front q =
        let fires =
          fire_states_lem db (follows_assertions input) targets (advance s) unit active q in
        (λ m. onward (fires.0 m), λ walk. fires.1 (fired walk))
      where
        onward :
            FiredFrom db (follows_assertions input) targets (advance s) active unit q
            → WalkTo db input targets q (advance s) root origin
        onward (p, m, (e, k, matched, way)) =
            Trail-trans input (edges_from db) db.predicates ((front p).0 m) (
              step e (advance s) k
                (Consumes-Fires db input e.kind s (advance s) (unit, at, matched, refl))
                (Reaches-Walk db input targets (advance s) e.target way))

        fired :
            WalkTo db input targets q (advance s) root origin
            → FiredFrom db (follows_assertions input) targets (advance s) active unit q
        fired walk = elim (Walk-cases db input targets walk) [
          | inl (stay, way) ↦ absurd (back stay later)
          | inr last ↦
              let same : last.cursor ≡ s =
                Later-eq origin last.cursor s (Walk-Later last.before) later
                  (omega (arith, ap (λ (k : Cursor). k.position) last.next)) in
              let unit_eq : some last.unit ≡ some unit =
                sym last.at ∙ ap (λ (k : Cursor). get_elem? input k.position) same ∙ at in
              let unit_same : last.unit ≡ unit = cc unit_eq in
              (
                last.state,
                (front last.state).1 (
                    subst (λ c. WalkTo db input targets last.state c root origin) same last.before),
                subst
                    (λ n.
                      Fired db (follows_assertions input) targets (advance s)
                        (edges_from db last.state) n q)
                    unit_same last.fired,
              )
        ]
          where
            back : origin ≡ advance s → Later origin s → ⊥
            back stay (inl a) =
                omega
                  (arith, ap (λ (k : Cursor). k.position) stay, ap (λ (k : Cursor). k.position) a)
            back stay (inr (lt, b)) = omega (arith, ap (λ (k : Cursor). k.position) stay)
