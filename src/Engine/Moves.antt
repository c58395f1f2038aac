-- ===== src/Engine/Moves.antt =====
-- rustmatch/src/engine.rs: `DeterministicCache::transition` and the step without the cache.
use rustmatch.Prelude.{
  ℕ, ◌<◌, ◌≤◌, ◌≡◌, ◌≢◌, refl, sym, subst, ap, ◌∙◌, ◌⊎◌, inl, inr, ⊎_elim, Bool, true, false,
  Option, none, some, List, [], ◌∷◌, arith, get_elem?, length, ◌==◌, if◌then◌else◌, Bool-cases,
  lt-length_of_get_elem?,
}
use rustmatch.Nfa.Database.{PatternDatabase}
use rustmatch.Engine.Cache.{
  DeterministicState, DeterministicCache, Counters, TransitionOutcome, Machine, unknown_transition,
  dead_transition, fallback_transition, stored_transition, intern, compute_transition, outcome_for,
  count_fallback,
}
use rustmatch.Engine.CachedScan.{
  nfa_states_at, states_or_none, stored, transition_or_unknown, count_miss, count_hit, or_fallback,
  resolve, learn, follow, transition,
}
use rustmatch.Engine.Coherent.{Has, Keeps, Keeps-refl, Keeps-trans}
use rustmatch.Engine.Learn.{
  Leads, IsCoherent, intern-Interned, with_transition, set_state-Keeps, set_state-IsCoherent,
}

module _ (db : PatternDatabase) where
  -- A step to the set of states given.
  abbrev pub Arrives : TransitionOutcome → Machine → List ℕ → Type 0
  Arrives TransitionOutcome.dead m states = states ≡ []
  Arrives (TransitionOutcome.cached c) m states = Has m.cache c states × (states ≢ [])
  Arrives TransitionOutcome.uncached m states = (m.next ≡ states) × (states ≢ [])

  pub record Moves (m : Machine) (states : List ℕ) (r : TransitionOutcome × Machine) : Type 0 where
    pub coherent : IsCoherent db r.1.cache
    pub keeps : Keeps m.cache r.1.cache
    pub arrives : Arrives r.0 r.1 states

  -- What is stored for the set of states.
  abbrev Stored : DeterministicCache → ℕ → List ℕ → Type 0
  Stored cache t states =
      ((t ≡ dead_transition) × (states ≡ []))
      ⊎ ((t ≡ fallback_transition) × (states ≢ []))
      ⊎ (Has cache t states × (states ≢ []))

  Has-lt :
      (cache : DeterministicCache) (t : ℕ) (states : List ℕ)
      → Has cache t states
      → t < length cache.states
  Has-lt cache t states (d, at, e) = lt-length_of_get_elem? cache.states t at

  outcome_for-Arrives :
      (t : ℕ) (c : Counters) (m : Machine) (states : List ℕ)
      → length m.cache.states ≤ fallback_transition
      → (t ≡ fallback_transition → m.next ≡ states)
      → Stored m.cache t states
      → Arrives (outcome_for t c).0 m states
  unfolding outcome_for
  outcome_for-Arrives t c m states small next (inl (e, empty)) = rw (e, outcome_for) empty
  outcome_for-Arrives t c m states small next (inr (inl (e, some_state))) =
      let here : m.next ≡ states = next e in rw (e, outcome_for) (here, some_state)
  outcome_for-Arrives t c m states small next (inr (inr (h, some_state))) =
      let lt = Has-lt m.cache t states h in
      let not_dead : (t == dead_transition) ≡ false = ground arith in
      let not_fallback : (t == fallback_transition) ≡ false = ground arith in
      rw (not_dead, not_fallback, outcome_for) (h, some_state)

  record Resolved (cache : DeterministicCache) (states : List ℕ) (r : ℕ × DeterministicCache)
      : Type 0 where
    coherent : IsCoherent db r.1
    keeps : Keeps cache r.1
    stored_as : Stored r.1 r.0 states

  resolve-Resolved :
      (cache : DeterministicCache) (states : List ℕ)
      → IsCoherent db cache
      → Resolved cache states (resolve db cache states)
  unfolding resolve
  resolve-Resolved cache [] h = record {
    coherent = h;
    keeps = Keeps-refl cache;
    stored_as = inl (refl, refl);
  }
  resolve-Resolved cache (q ∷ qs) h =
      let i = intern-Interned db cache (q ∷ qs) h in
      record {
        coherent = i.coherent;
        keeps = i.keeps;
        stored_as = named (intern db cache (q ∷ qs)).0 (λ c e. i.found c e);
      }
    where
      named :
          (o : Option ℕ)
          → ((c : ℕ) → o ≡ some c → Has (intern db cache (q ∷ qs)).1 c (q ∷ qs))
          → Stored (intern db cache (q ∷ qs)).1 (or_fallback o) (q ∷ qs)
      named none found = inr (inl (refl, λ e. cc))
      named (some c) found = inr (inr (found c refl, λ e. cc))

  learn-Moves :
      (i symbol : ℕ) (m : Machine) (d : DeterministicState)
      → IsCoherent db m.cache
      → get_elem? m.cache.states i ≡ some d
      → Moves m (compute_transition db d.nfa_states symbol) (learn db i symbol m)
  unfolding learn
  learn-Moves i symbol m d h at =
      let here : nfa_states_at m.cache i ≡ d.nfa_states = ap (λ o. states_or_none o) at in
      let next = compute_transition db (nfa_states_at m.cache i) symbol in
      let target = compute_transition db d.nfa_states symbol in
      let same : next ≡ target = ap (λ s. compute_transition db s symbol) here in
      let x = resolve-Resolved m.cache next h in
      let r = resolve db m.cache next in
      let (d', at', e') = x.keeps.states i d.nfa_states (d, at, refl) in
      let set = set_state-Keeps db r.1 i symbol r.0 in
      let leads : Leads db r.1 d'.nfa_states symbol r.0 =
        subst (λ s. Leads db r.1 s symbol r.0) (sym e')
          (⊎_elim (λ (e, empty). inr (inl (e, sym same ∙ empty)))
            (⊎_elim (λ (e, some_state). inr (inr (inl (e, λ empty. some_state (same ∙ empty)))))
              (λ (found, some_state).
                inr
                  (inr (inr (subst (Has r.1 r.0) same found, λ empty. some_state (same ∙ empty))))))
            x.stored_as) in
      let coherent = set_state-IsCoherent db r.1 i symbol r.0 d' x.coherent at' leads in
      let stored_as : Stored (with_transition db r.1 i symbol r.0) r.0 target =
        ⊎_elim (λ (e, empty). inl (e, sym same ∙ empty))
          (⊎_elim (λ (e, some_state). inr (inl (e, λ empty. some_state (same ∙ empty))))
            (λ (found, some_state). inr (
              inr (
                set.states r.0 target (subst (Has r.1 r.0) same found),
                λ empty. some_state (same ∙ empty),
              ))))
          x.stored_as in
      record {
        coherent = coherent;
        keeps = Keeps-trans x.keeps set;
        arrives =
            outcome_for-Arrives r.0 (count_miss m.counters) (learn db i symbol m).1 target
              coherent.small (λ e. same) stored_as;
      }

  -- The two cases of a known transition.
  abbrev follow_if : ℕ → ℕ → ℕ → Bool → Machine → TransitionOutcome × Machine
  unfolding outcome_for
  follow_if i symbol t falls m =
      if falls
      then (
        TransitionOutcome.uncached,
        record m {
          counters = count_fallback m.counters;
          next = compute_transition db (nfa_states_at m.cache i) symbol;
        },
      )
      else (let (outcome, counters) = outcome_for t (count_hit m.counters) in
          (outcome, record m { counters = counters }))

  follow-Moves :
      (i symbol : ℕ) (m : Machine) (d : DeterministicState)
      → IsCoherent db m.cache
      → get_elem? m.cache.states i ≡ some d
      → (stored_transition d symbol == unknown_transition) ≡ false
      → Moves m
          (compute_transition db d.nfa_states symbol)
          (follow db i symbol (stored_transition d symbol) m)
  unfolding follow
  follow-Moves i symbol m d h at known =
      let here : nfa_states_at m.cache i ≡ d.nfa_states = ap (λ o. states_or_none o) at in
      let t = stored_transition d symbol in
      let target = compute_transition db d.nfa_states symbol in
      let same : compute_transition db (nfa_states_at m.cache i) symbol ≡ target =
        ap (λ s. compute_transition db s symbol) here in
      let stored_as : Stored m.cache t target =
        ⊎_elim (λ e. absurd (ground arith)) (λ x. x) (h.transitions i d symbol at) in
      elim (Bool-cases (t == fallback_transition)) [
        | inl falls ↦
            subst (λ b. Moves m target (follow_if i symbol t b m)) (sym falls)
              (record {
                coherent = h;
                keeps = Keeps-refl m.cache;
                arrives = (same, falls_back t target m.cache falls h.small stored_as);
              })
        | inr goes ↦
            subst (λ b. Moves m target (follow_if i symbol t b m)) (sym goes)
              (record {
                coherent = h;
                keeps = Keeps-refl m.cache;
                arrives =
                    outcome_for-Arrives t (count_hit m.counters)
                      (record m { counters = (outcome_for t (count_hit m.counters)).1 }) target
                      h.small (λ e. absurd (ground arith)) stored_as;
              })
      ]
    where
      falls_back :
          (t : ℕ) (target : List ℕ) (cache : DeterministicCache)
          → (t == fallback_transition) ≡ true
          → length cache.states ≤ fallback_transition
          → Stored cache t target
          → target ≢ []
      falls_back t target cache falls small (inl (e, empty)) = absurd (ground arith)
      falls_back t target cache falls small (inr (inl (e, some_state))) = some_state
      falls_back t target cache falls small (inr (inr (found, some_state))) = some_state

  pub transition-Moves :
      (i symbol : ℕ) (m : Machine) (d : DeterministicState)
      → IsCoherent db m.cache
      → get_elem? m.cache.states i ≡ some d
      → Moves m (compute_transition db d.nfa_states symbol) (transition db i symbol m)
  unfolding transition stored
  transition-Moves i symbol m d h at =
      let t = stored_transition d symbol in
      let here : stored m.cache i symbol ≡ t = ap (λ o. transition_or_unknown o symbol) at in
      let target = compute_transition db d.nfa_states symbol in
      subst
        (λ n.
          Moves m target
            (if n == unknown_transition then learn db i symbol m else follow db i symbol n m))
        (sym here)
        (elim (Bool-cases (t == unknown_transition)) [
          | inl new ↦
              subst
                (λ b. Moves m target (if b then learn db i symbol m else follow db i symbol t m))
                (sym new) (learn-Moves i symbol m d h at)
          | inr known ↦
              subst
                (λ b. Moves m target (if b then learn db i symbol m else follow db i symbol t m))
                (sym known) (follow-Moves i symbol m d h at known)
        ])
