-- ===== src/Engine/Plain.antt =====
-- rustmatch/src/engine.rs: on an automaton without assertion edges the two scanners are one.
use rustmatch.Prelude.{
  ℕ, zero, suc, ◌≡◌, refl, ap, ap₂, ◌∙◌, inl, inr, Bool, true, false, not, ◌&&◌, List, [], ◌∷◌,
  ◌++◌, Memᴰ, Memᴰ-cons, set, drop, length, if◌then◌else◌,
}
use rustmatch.Context.{Units, Cursor, advance}
use rustmatch.Nfa.Builder.{EdgeKind, Edge}
use rustmatch.Nfa.Database.{PatternDatabase, edges_from, edge_matches}
use rustmatch.Nfa.Plain.{is_assertion}
use rustmatch.Engine.Closure.{
  Closure, is_visited, follows_epsilon, follows_assertions, push_targets, drain_stack,
  extend_closure,
}
use rustmatch.Engine.Scan.{
  Ends, record_states, blank, no_ends, extend, fire_edges, fire_states, scan_units, scan_start,
  scan_starts, scan_with_assertions, scan_without_assertions_nfa, deliver,
}

pub follows-same :
    (input : Units) (s : Cursor) (kind : EdgeKind)
    → is_assertion kind ≡ false
    → follows_assertions input s kind ≡ follows_epsilon kind
unfolding follows_assertions follows_epsilon
follows-same input s EdgeKind.epsilon h = refl
follows-same input s (EdgeKind.assertion a) h = cc h
follows-same input s (EdgeKind.symbol x) h = refl
follows-same input s (EdgeKind.predicate id) h = refl

module _ (f g : EdgeKind → Bool) where
  push_targets-same :
      (es : List Edge) (visited : List Bool) (stack : List ℕ)
      → ((e : Edge) → Memᴰ e es → f e.kind ≡ g e.kind)
      → push_targets f es visited stack ≡ push_targets g es visited stack
  unfolding push_targets
  push_targets-same [] visited stack h = refl
  push_targets-same (e ∷ es) visited stack h =
      let later : (x : Edge) → Memᴰ x es → f x.kind ≡ g x.kind =
        λ x m. h x ((Memᴰ-cons x e es).1 (inr m)) in
      let marked = push_targets-same es (set visited e.target true) (e.target ∷ stack) later in
      let skipped = push_targets-same es visited stack later in
      ap
        (λ b. elim (b && not (is_visited visited e.target)) as (λ x. List Bool × List ℕ) [
          | true ↦ push_targets f es (set visited e.target true) (e.target ∷ stack)
          | false ↦ push_targets f es visited stack
        ])
        (h e ((Memᴰ-cons e e es).1 (inl refl)))
      ∙ ap₂
          (λ x y.
            elim (g e.kind && not (is_visited visited e.target)) as (λ z. List Bool × List ℕ) [
              | true ↦ x
              | false ↦ y
            ])
          marked skipped

  module _ (edges : ℕ → List Edge)
      (h : (q : ℕ) (e : Edge) → Memᴰ e (edges q) → f e.kind ≡ g e.kind) where
    drain_stack-same :
        (fuel : ℕ) (stack : List ℕ) (c : Closure)
        → drain_stack f edges fuel stack c ≡ drain_stack g edges fuel stack c
    unfolding drain_stack
    drain_stack-same zero stack c = refl
    drain_stack-same (suc fuel) [] c = refl
    drain_stack-same (suc fuel) (q ∷ stack) c =
        let pushed = push_targets-same (edges q) c.visited stack (h q) in
        ap
          (λ (p : List Bool × List ℕ).
            drain_stack f edges fuel p.1 (record { output = c.output ++ q ∷ []; visited = p.0 }))
          pushed
        ∙ drain_stack-same fuel (push_targets g (edges q) c.visited stack).1 (record {
          output = c.output ++ q ∷ [];
          visited = (push_targets g (edges q) c.visited stack).0;
        })

    extend_closure-same :
        (seed : ℕ) (c : Closure) → extend_closure f edges seed c ≡ extend_closure g edges seed c
    unfolding extend_closure
    extend_closure-same seed c =
        ap (λ d. if is_visited c.visited seed then c else d)
          (drain_stack-same (suc (length c.visited)) (seed ∷ [])
            (record c { visited = set c.visited seed true }))

module _ (db : PatternDatabase) (input : Units)
    (plain : (q : ℕ) (e : Edge) → Memᴰ e (edges_from db q) → is_assertion e.kind ≡ false) where
  extend-same :
      (s : Cursor) (seed : ℕ) (c : Closure)
      → extend db (follows_assertions input) s seed c ≡ extend db (λ x. follows_epsilon) s seed c
  extend-same s seed c =
      extend_closure-same (follows_assertions input s) follows_epsilon (edges_from db)
        (λ q e m. follows-same input s e.kind (plain q e m)) seed c

  fire_edges-same :
      (s : Cursor) (unit : ℕ) (es : List Edge) (c : Closure)
      → fire_edges db (follows_assertions input) s unit es c
        ≡ fire_edges db (λ x. follows_epsilon) s unit es c
  unfolding fire_edges
  fire_edges-same s unit [] c = refl
  fire_edges-same s unit (e ∷ es) c =
      fire_edges-same s unit es (
        if edge_matches db e.kind unit
        then extend db (follows_assertions input) s e.target c
        else c)
      ∙ ap
          (λ d.
            fire_edges db (λ x. follows_epsilon) s unit es
              (if edge_matches db e.kind unit then d else c))
          (extend-same s e.target c)

  fire_states-same :
      (s : Cursor) (unit : ℕ) (qs : List ℕ) (c : Closure)
      → fire_states db (follows_assertions input) s unit qs c
        ≡ fire_states db (λ x. follows_epsilon) s unit qs c
  unfolding fire_states
  fire_states-same s unit [] c = refl
  fire_states-same s unit (q ∷ qs) c =
      fire_states-same s unit qs
        (fire_edges db (follows_assertions input) s unit (edges_from db q) c)
      ∙ ap (λ d. fire_states db (λ x. follows_epsilon) s unit qs d)
          (fire_edges-same s unit (edges_from db q) c)

  break-same :
      (units : List ℕ) (s : Cursor) (out : List ℕ) (r : Ends)
      → scan_units db (follows_assertions input) units s out r
        ≡ scan_units db (λ x. follows_epsilon) units s out r
      → (elim out as (λ x. Ends) [
        | [] ↦ r
        | q ∷ qs ↦ scan_units db (follows_assertions input) units s (q ∷ qs) r
      ])
        ≡ (elim out as (λ x. Ends) [
          | [] ↦ r
          | q ∷ qs ↦ scan_units db (λ x. follows_epsilon) units s (q ∷ qs) r
        ])
  break-same units s [] r h = refl
  break-same units s (q ∷ qs) r h = h

  scan_units-same :
      (units : List ℕ) (s : Cursor) (active : List ℕ) (r : Ends)
      → scan_units db (follows_assertions input) units s active r
        ≡ scan_units db (λ x. follows_epsilon) units s active r
  unfolding scan_units
  scan_units-same [] s active r = refl
  scan_units-same (unit ∷ units) s active r =
      let out =
        (fire_states db (follows_assertions input) (advance s) unit active (blank db)).output in
      let e =
        ap (λ (c : Closure). c.output) (fire_states-same (advance s) unit active (blank db)) in
      let r' = record_states db out (advance s).position r in
      break-same units (advance s) out r' (scan_units-same units (advance s) out r')
      ∙ ap
          (λ o. elim o as (λ x. Ends) [
            | [] ↦ record_states db o (advance s).position r
            | q ∷ qs ↦
                scan_units db (λ x. follows_epsilon) units (advance s) (q ∷ qs)
                  (record_states db o (advance s).position r)
          ])
          e

  scan_start-same :
      (root start : ℕ)
      → scan_start db (follows_assertions input) input root start
        ≡ scan_start db (λ x. follows_epsilon) input root start
  unfolding scan_start
  scan_start-same root start =
      let s : Cursor = record { position = start; after_current = false } in
      scan_units-same (drop start input) s
        (extend db (follows_assertions input) s root (blank db)).output (no_ends db)
      ∙ ap
          (λ (c : Closure).
            scan_units db (λ x. follows_epsilon) (drop start input) s c.output (no_ends db))
          (extend-same s root (blank db))

  scan_starts-same :
      (root : ℕ) (starts : List ℕ)
      → scan_starts db (follows_assertions input) input root starts
        ≡ scan_starts db (λ x. follows_epsilon) input root starts
  unfolding scan_starts
  scan_starts-same root [] = refl
  scan_starts-same root (start ∷ starts) =
      ap₂ ◌++◌ (ap (deliver db start) (scan_start-same root start)) (scan_starts-same root starts)

  -- For a database without assertion edges: the scanner for assertions and the one without deliver
  -- the same events from the same starts.
  pub scan_with_assertions-nfa :
      (starts : List ℕ)
      → scan_with_assertions db input starts ≡ scan_without_assertions_nfa db input starts
  unfolding scan_with_assertions scan_without_assertions_nfa
  scan_with_assertions-nfa starts = scan_starts-same db.root starts
