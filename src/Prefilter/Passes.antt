-- ===== src/Prefilter/Passes.antt =====
-- rustmatch/src/prefilter.rs: the start table allows every start of a non-empty match.
use rustmatch.Prelude.{
  ℕ, suc, ◌+◌, ◌<◌, ◌≡◌, refl, sym, subst, ap, ◌∙◌, ◌⊎◌, inl, inr, ⊎_elim, true, false, not, ◌||◌,
  some, List, [], ◌∷◌, arith, Memᴰ, Memᴰ-nil, Memᴰ-cons, Bool-cases, Option-cases, get_elem?, leb,
}
use rustmatch.Context.{Units, Cursor, advance}
use rustmatch.Nfa.Builder.{Edge}
use rustmatch.Nfa.Database.{PatternDatabase, edges_from, terminals_at, state_count}
use rustmatch.Nfa.Paths.{here, step}
use rustmatch.Nfa.Plain.{is_assertion}
use rustmatch.Engine.Plain.{follows-same}
use rustmatch.Engine.Walks.{Fires-cases, WalkTo}
use rustmatch.Engine.Longest.{begins_at, ends_at, EndsAt}
use rustmatch.Prefilter.StartTable.{
  transition, epsilon_closure, StartTable, is_nil, any_terminal, compile_table, pair_allowed,
  first_allowed, allows,
}
use rustmatch.Prefilter.Closing.{
  IsClosedOver, transition-IsClosedOver, transition-fired, epsilon_closure-IsClosedOver,
}
use rustmatch.Prefilter.Pairs.{follows_up, compile_table-Tells}

mem-is_nil : (q : ℕ) (xs : List ℕ) → Memᴰ q xs → is_nil xs ≡ false
mem-is_nil q [] m = absurd (Memᴰ-nil m)
mem-is_nil q (x ∷ xs) m = refl

mem-any_terminal :
    (db : PatternDatabase) (q o : ℕ) (states : List ℕ)
    → Memᴰ q states
    → Memᴰ o (terminals_at db q)
    → any_terminal db states ≡ true
unfolding any_terminal
mem-any_terminal db q o [] m k = absurd (Memᴰ-nil m)
mem-any_terminal db q o (x ∷ states) m k =
    ⊎_elim
      (λ e.
        let some_here =
          mem-is_nil o (terminals_at db x) (subst (λ y. Memᴰ o (terminals_at db y)) e k) in
        let here : (not (is_nil (terminals_at db x)) || any_terminal db states) ≡ true =
          rw some_here refl in
        here)
      (λ j.
        let later = mem-any_terminal db q o states j k in
        let there : (not (is_nil (terminals_at db x)) || any_terminal db states) ≡ true =
          ground arith in
        there)
      ((Memᴰ-cons q x states).0 m)

module _ (db : PatternDatabase) (input : Units)
    (targets : (q : ℕ) (e : Edge) → Memᴰ e (edges_from db q) → e.target < state_count db)
    (plain : (q : ℕ) (e : Edge) → Memᴰ e (edges_from db q) → is_assertion e.kind ≡ false) where
  -- What a walk from a state of the set is after its first unit.
  abbrev AfterUnit : List ℕ → ℕ → Cursor → Cursor → Type 0
  AfterUnit states r u s =
      (unit : ℕ) × (get_elem? input s.position ≡ some unit)
      × ((q : ℕ) × Memᴰ q (transition db states unit) × WalkTo db input targets r u q (advance s))

  walk_cases :
      {r : ℕ} {u : Cursor} {q : ℕ} {s : Cursor} (stack states : List ℕ)
      → IsClosedOver db targets stack states
      → Memᴰ q states
      → WalkTo db input targets r u q s
      → ((s ≡ u) × Memᴰ r states) ⊎ AfterUnit states r u s
  walk_cases stack states h m here = inl (refl, m)
  walk_cases {r} {u} {q} {s} stack states h m (step e t k f rest) =
      let onward = λ (n : Memᴰ e.target states). walk_cases stack states h n rest in
      elim (Fires-cases db input e.kind s t f) [
        | inl (same, follow) ↦
            let epsilon_edge = sym (follows-same input s e.kind (plain q e k)) ∙ follow in
            subst (λ c. ((c ≡ u) × Memᴰ r states) ⊎ AfterUnit states r u c) (sym same)
              (onward (h.closed q e m k epsilon_edge))
        | inr (unit, at, fires, next) ↦ inr (
          unit,
          at,
          (
            e.target,
            transition-fired db targets states unit q e m k fires,
            subst (λ c. WalkTo db input targets r u e.target c) next rest,
          ),
        )
      ]

  module _ (root_lt : db.root < state_count db) (table : StartTable)
      (compiled : compile_table db ≡ some table) where
    -- The second unit, where the first one is in ASCII.
    second_allowed :
        (start first o e r q : ℕ)
        → first < 128
        → Memᴰ q (transition db (epsilon_closure db (db.root ∷ [])) first)
        → Memᴰ o (terminals_at db r)
        → WalkTo db input targets r (ends_at e) q (advance (begins_at start))
        → pair_allowed table first (get_elem? input (start + 1)) ≡ true
    unfolding pair_allowed
    second_allowed start first o e r q small m ends walk =
        elim (Option-cases (get_elem? input (start + 1))) [
          | inl last ↦ rw (last, pair_allowed) refl
          | inr (second, at) ↦ elim (Bool-cases (leb 128 second)) [
            | inl large ↦ rw (at, pair_allowed, large) refl
            | inr ascii ↦
                let tells = compile_table-Tells db table first compiled small in
                let set =
                  tells.pair_set second (ground arith) (mem-is_nil q states m)
                    (continues second at) in
                rw (at, pair_allowed, ascii) set
          ]
        ]
      where
        states : List ℕ
        states = transition db (epsilon_closure db (db.root ∷ [])) first

        continues :
            (second : ℕ)
            → get_elem? input (start + 1) ≡ some second
            → follows_up db (any_terminal db states) states second ≡ true
        continues second at =
            elim (walk_cases _ states
              (transition-IsClosedOver db targets (epsilon_closure db (db.root ∷ [])) first) m
              walk) [
                | inl (same, k) ↦ let found = mem-any_terminal db r o states k ends in rw found refl
                | inr (unit, at', (p, k, rest)) ↦
                    let place : suc start ≡ start + 1 = omega arith in
                    let both : some unit ≡ some second =
                      sym at' ∙ ap (get_elem? input) place ∙ at in
                    let eq : unit ≡ second = cc both in
                    let filled : is_nil (transition db states second) ≡ false =
                      mem-is_nil p (transition db states second)
                        (subst (λ y. Memᴰ p (transition db states y)) eq k) in
                    ground arith
              ]

    -- For a database without assertion edges, whose edges lead to states in range and whose root is in
    -- range: a table that is compiled from it allows every start from which a walk of the automaton
    -- ends further on in a state where a pattern ends.
    pub allows-EndsAt :
        (start o e : ℕ)
        → start < e
        → EndsAt db input targets db.root (begins_at start) o e
        → allows table input start ≡ true
    unfolding allows
    allows-EndsAt start o e lt (r, ends, walk) =
        let closed = epsilon_closure-IsClosedOver db targets db.root root_lt in
        let root = epsilon_closure db (db.root ∷ []) in
        elim (walk_cases (db.root ∷ []) root closed
          (closed.begun db.root ((Memᴰ-cons db.root db.root []).1 (inl refl))) walk) [
            | inl (same, k) ↦
                let e_eq : start ≡ e = ap (λ (c : Cursor). c.position) same in absurd (omega arith)
            | inr (first, at, (q, m, rest)) ↦ elim (Bool-cases (leb 128 first)) [
              | inl large ↦ rw (at, first_allowed, large) refl
              | inr ascii ↦
                  let small : first < 128 = ground arith in
                  let tells = compile_table-Tells db table first compiled small in
                  let set = tells.first_set (mem-is_nil q (transition db root first) m) in
                  rw (at, first_allowed, ascii, set)
                    (second_allowed start first o e r q small m ends rest)
            ]
          ]
