-- ===== src/Engine/Learn.antt =====
-- rustmatch/src/engine.rs: a transition of the deterministic cache keeps the cache's invariant and
-- leads where the automaton leads.
use rustmatch.Prelude.{
  ℕ, ◌<◌, ◌≤◌, ◌≡◌, ◌≢◌, refl, sym, subst, ap, ◌∙◌, ◌⊎◌, inl, inr, ⊎_elim, ◌||◌, Option, none, some,
  List, [], ◌∷◌, ◌++◌, arith, get_elem?, length, ltb, leb, Bool-cases, Option-cases, length-append,
  get_elem?-append_left, get_elem?-concat, get_elem?-append_lt, get_elem?_beyond, lt-trichotomy,
}
use rustmatch.Nfa.Database.{PatternDatabase}
use rustmatch.Engine.Cache.{
  DeterministicState, DeterministicCache, unknown_transition, dead_transition, fallback_transition,
  stored_transition, find_transition, push_bucket, state_set_hash, set_transition, set_state,
  lookup, intern, add_new, new_state, terminals_of, compute_transition,
}
use rustmatch.Engine.Coherent.{
  Has, Keeps, Keeps-refl, lookup-Has, stored-set_transition, get_or-replicate,
  set_transition-states, set_transition-terminals, length-set_state, set_state-cases, set_state-Has,
}

module _ (db : PatternDatabase) where
  -- A transition with the unit from the set of states may have this value.
  abbrev pub Leads : DeterministicCache → List ℕ → ℕ → ℕ → Type 0
  Leads cache states symbol t =
      (t ≡ unknown_transition)
      ⊎ ((t ≡ dead_transition) × (compute_transition db states symbol ≡ []))
      ⊎ ((t ≡ fallback_transition) × (compute_transition db states symbol ≢ []))
      ⊎ (Has cache t (compute_transition db states symbol)
          × (compute_transition db states symbol ≢ []))

  pub record IsCoherent (cache : DeterministicCache) : Type 0 where
    pub small : length cache.states ≤ fallback_transition
    pub terminals :
        (i : ℕ) (d : DeterministicState)
        → get_elem? cache.states i ≡ some d
        → d.terminals ≡ terminals_of db d.nfa_states
    pub transitions :
        (i : ℕ) (d : DeterministicState) (symbol : ℕ)
        → get_elem? cache.states i ≡ some d
        → Leads cache d.nfa_states symbol (stored_transition d symbol)

  Leads-Keeps :
      {cache cache' : DeterministicCache} (states : List ℕ) (symbol t : ℕ)
      → Keeps cache cache'
      → Leads cache states symbol t
      → Leads cache' states symbol t
  Leads-Keeps states symbol t k (inl u) = inl u
  Leads-Keeps states symbol t k (inr (inl x)) = inr (inl x)
  Leads-Keeps states symbol t k (inr (inr (inl x))) = inr (inr (inl x))
  Leads-Keeps states symbol t k (inr (inr (inr (h, x)))) =
      inr (inr (inr (k.states t (compute_transition db states symbol) h, x)))

  stored-new_state :
      (states : List ℕ) (symbol : ℕ)
      → stored_transition (new_state db states) symbol ≡ unknown_transition
  unfolding stored_transition new_state find_transition
  stored-new_state states symbol = elim (Bool-cases (ltb symbol 128)) [
    | inl low ↦ rw low (get_or-replicate 128 symbol unknown_transition)
    | inr high ↦ rw high
  ]

  new_state-fields :
      (states : List ℕ)
      → ((new_state db states).nfa_states ≡ states)
        × ((new_state db states).terminals ≡ terminals_of db states)
  unfolding new_state
  new_state-fields states = (refl, refl)

  -- A state found in a list with one more state is an old one or the new one.
  concat-cases :
      (ds : List DeterministicState) (x d : DeterministicState) (i : ℕ)
      → get_elem? (ds ++ x ∷ []) i ≡ some d
      → (get_elem? ds i ≡ some d) ⊎ (x ≡ d)
  concat-cases ds x d i h = elim (lt-trichotomy i (length ds)) [
    | inl lt ↦ inl (sym (get_elem?-append_lt ds (x ∷ []) i lt) ∙ h)
    | inr (inl e) ↦
        let found : some x ≡ some d =
          sym (get_elem?-concat ds x) ∙ ap (λ j. get_elem? (ds ++ x ∷ []) j) (sym e) ∙ h in
        inr (cc found)
    | inr (inr gt) ↦
        let gone : none ≡ some d =
          sym (get_elem?_beyond (ds ++ x ∷ []) i (omega (arith, length-append ds (x ∷ [])))) ∙ h in
        absurd (cc gone)
  ]

  -- What interning a set of states gives: its number, or nothing where the cache is full.
  pub record Interned (cache : DeterministicCache) (states : List ℕ)
      (r : Option ℕ × DeterministicCache) : Type 0 where
    pub keeps : Keeps cache r.1
    pub coherent : IsCoherent r.1
    pub found : (c : ℕ) → r.0 ≡ some c → Has r.1 c states

  extended-Interned :
      (cache : DeterministicCache) (states : List ℕ) (buckets : List (ℕ × List ℕ))
      → IsCoherent cache
      → length cache.states < fallback_transition
      → Interned cache states (
        some (length cache.states),
        record cache { states = cache.states ++ new_state db states ∷ []; hash_buckets = buckets },
      )
  extended-Interned cache states buckets h room =
      let x = new_state db states in
      let fields = new_state-fields states in
      let size = length-append cache.states (x ∷ []) in
      let cache' : DeterministicCache = record cache {
        states = cache.states ++ x ∷ [];
        hash_buckets = buckets;
      } in
      let keeps : Keeps cache cache' = record {
        budget = refl;
        size = omega arith;
        states = λ i s (d, at, e). (d, get_elem?-append_left cache.states (x ∷ []) i d at, e);
      } in
      record {
        keeps = keeps;
        coherent = record {
          small = omega arith;
          terminals = λ i d at.
              ⊎_elim (h.terminals i d)
                (λ e.
                  subst (λ (y : DeterministicState). y.terminals ≡ terminals_of db y.nfa_states) e
                    (fields.1 ∙ ap (λ qs. terminals_of db qs) (sym fields.0)))
                (concat-cases cache.states x d i at);
          transitions = λ i d symbol at.
              ⊎_elim
                (λ old.
                  Leads-Keeps d.nfa_states symbol (stored_transition d symbol) keeps
                    (h.transitions i d symbol old))
                (λ e. inl (
                  subst
                    (λ (y : DeterministicState). stored_transition y symbol ≡ unknown_transition) e
                    (stored-new_state states symbol)))
                (concat-cases cache.states x d i at);
        };
        found = λ c e.
            let at : length cache.states ≡ c = cc e in
            (
              x,
              subst (λ j. get_elem? (cache.states ++ x ∷ []) j ≡ some x) at
                  (get_elem?-concat cache.states x),
              fields.0,
            );
      }

  add_new-Interned :
      (cache : DeterministicCache) (states : List ℕ)
      → IsCoherent cache
      → Interned cache states (add_new db cache states)
  unfolding add_new
  add_new-Interned cache states h =
      elim (Bool-cases
        (leb cache.budget (length cache.states) || leb fallback_transition (length cache.states))) [
          | inl full ↦
              rw full (record { keeps = Keeps-refl cache; coherent = h; found = λ c e. cc })
          | inr room ↦ rw room (
              extended-Interned cache states
                (push_bucket (state_set_hash states) (length cache.states) cache.hash_buckets) h
                (ground arith))
        ]

  -- Interning a set of states keeps a coherent cache coherent and every state in it under its number,
  -- and a number that it returns is that of a state with this set.
  pub intern-Interned :
      (cache : DeterministicCache) (states : List ℕ)
      → IsCoherent cache
      → Interned cache states (intern db cache states)
  unfolding intern
  intern-Interned cache states h = elim (Option-cases (lookup cache states)) [
    | inl missing ↦ rw (missing, intern) (add_new-Interned cache states h)
    | inr (c, found) ↦
        rw (found, intern)
          (record {
            keeps = Keeps-refl cache;
            coherent = h;
            found = λ c' e.
                let at : c ≡ c' = cc e in
                subst (λ j. Has cache j states) at (lookup-Has cache states c found);
          })
  ]

  -- Setting a transition that leads where the automaton leads.
  abbrev pub with_transition : DeterministicCache → ℕ → ℕ → ℕ → DeterministicCache
  with_transition cache i symbol t = record cache { states = set_state cache.states i symbol t }

  pub set_state-Keeps :
      (cache : DeterministicCache) (i symbol t : ℕ) → Keeps cache (with_transition cache i symbol t)
  set_state-Keeps cache i symbol t = record {
    budget = refl;
    size = omega (arith, length-set_state cache.states i symbol t);
    states = λ j states (d, at, e).
        let (d', at', e') = set_state-Has cache.states i symbol t j d at in (d', at', e' ∙ e);
  }

  pub set_state-IsCoherent :
      (cache : DeterministicCache) (i symbol t : ℕ) (d : DeterministicState)
      → IsCoherent cache
      → get_elem? cache.states i ≡ some d
      → Leads cache d.nfa_states symbol t
      → IsCoherent (with_transition cache i symbol t)
  set_state-IsCoherent cache i symbol t d h at leads =
      let keeps = set_state-Keeps cache i symbol t in
      record {
        small = omega (arith, length-set_state cache.states i symbol t, h.small);
        terminals = λ j d' at'.
            ⊎_elim (h.terminals j d')
              (λ (x, e, f, g).
                subst (λ (y : DeterministicState). y.terminals ≡ terminals_of db y.nfa_states)
                  (sym g)
                  (set_transition-terminals x symbol t
                    ∙ h.terminals j x f
                    ∙ ap (λ qs. terminals_of db qs) (sym (set_transition-states x symbol t))))
              (set_state-cases cache.states i symbol t j d' at');
        transitions = λ j d' v at'. Leads-Keeps d'.nfa_states v (stored_transition d' v) keeps (
            ⊎_elim (h.transitions j d' v)
              (λ (x, e, f, g).
                subst
                  (λ (y : DeterministicState). Leads cache y.nfa_states v (stored_transition y v))
                  (sym g)
                  (subst (λ qs. Leads cache qs v (stored_transition (set_transition x symbol t) v))
                    (sym (set_transition-states x symbol t)) (changed j x v e f)))
              (set_state-cases cache.states i symbol t j d' at'));
      }
    where
      changed :
          (j : ℕ) (x : DeterministicState) (v : ℕ)
          → j ≡ i
          → get_elem? cache.states j ≡ some x
          → Leads cache x.nfa_states v (stored_transition (set_transition x symbol t) v)
      changed j x v e f =
          let both : some x ≡ some d = sym f ∙ ap (λ k. get_elem? cache.states k) e ∙ at in
          let same : x ≡ d = cc both in
          ⊎_elim (λ kept. subst (Leads cache x.nfa_states v) (sym kept) (h.transitions j x v f))
            (λ (is, now). subst (Leads cache x.nfa_states v) (sym now) (
              subst (λ w. Leads cache x.nfa_states w t) (sym is)
                (subst (λ (y : DeterministicState). Leads cache y.nfa_states symbol t) (sym same)
                  leads)))
            (stored-set_transition x symbol t v)
