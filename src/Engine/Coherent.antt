-- ===== src/Engine/Coherent.antt =====
-- The invariant of the deterministic cache of rustmatch/src/engine.rs: a transition that is stored
-- leads where the automaton leads.
use rustmatch.Prelude.{
  ℕ, zero, suc, ◌≤◌, ◌≡◌, refl, sym, subst, ap, ◌∙◌, ◌⊎◌, inl, inr, ⊎_elim, Option, some, List, [],
  ◌∷◌, ◌++◌, arith, replicate, get_or, get_elem?, set, length, Bool-cases, Option-cases,
  same_naturals, same_naturals-eq,
}
use rustmatch.Engine.Cache.{
  DeterministicState, DeterministicCache, unknown_transition, stored_transition, find_transition,
  set_transition, set_state, lookup, find_candidate, holds_states, bucket, state_set_hash,
}

-- A state of the cache with this set of states.
abbrev pub Has : DeterministicCache → ℕ → List ℕ → Type 0
Has cache i states =
    (d : DeterministicState) × (get_elem? cache.states i ≡ some d) × (d.nfa_states ≡ states)

-- The second cache has the states of the first under the same numbers.
pub record Keeps (cache cache' : DeterministicCache) : Type 0 where
  pub budget : cache'.budget ≡ cache.budget
  pub size : length cache.states ≤ length cache'.states
  pub states : (i : ℕ) (states : List ℕ) → Has cache i states → Has cache' i states

pub Keeps-refl : (cache : DeterministicCache) → Keeps cache cache
Keeps-refl cache = record { budget = refl; size = omega arith; states = λ i states h. h }

pub Keeps-trans : {a b c : DeterministicCache} → Keeps a b → Keeps b c → Keeps a c
Keeps-trans k l = record {
  budget = l.budget ∙ k.budget;
  size = omega (arith, k.size, l.size);
  states = λ i s h. l.states i s (k.states i s h);
}

find_candidate-states :
    (states : List DeterministicState) (wanted cs : List ℕ) (c : ℕ)
    → find_candidate states wanted cs ≡ some c
    → (d : DeterministicState) × (get_elem? states c ≡ some d) × (d.nfa_states ≡ wanted)
unfolding find_candidate holds_states
find_candidate-states states wanted [] c h = cc
find_candidate-states states wanted (x ∷ xs) c h = elim (Option-cases (get_elem? states x)) [
  | inl missing ↦ find_candidate-states states wanted xs c (rw missing at h)
  | inr (d, found) ↦ elim (Bool-cases (same_naturals d.nfa_states wanted)) [
    | inl same ↦
        let is : ◌≡◌ {A = Option ℕ} (some x) (some c) = rw (found, same) at h in
        let at : x ≡ c = cc is in
        (
          d,
          subst (λ i. get_elem? states i ≡ some d) at found,
          same_naturals-eq d.nfa_states wanted same,
        )
    | inr other ↦ find_candidate-states states wanted xs c (rw (found, other) at h)
  ]
]

-- What the cache finds for a set of states is a state with this set.
pub lookup-Has :
    (cache : DeterministicCache) (states : List ℕ) (c : ℕ)
    → lookup cache states ≡ some c
    → Has cache c states
unfolding lookup
lookup-Has cache states c h =
    find_candidate-states cache.states states (bucket (state_set_hash states) cache.hash_buckets) c
      h

find-concat :
    (ts : List (ℕ × ℕ)) (u t v : ℕ)
    → (find_transition (ts ++ (u, t) ∷ []) v ≡ find_transition ts v)
      ⊎ ((v ≡ u) × (find_transition (ts ++ (u, t) ∷ []) v ≡ t))
unfolding find_transition
find-concat [] u t v = ground arith
find-concat ((c, x) ∷ ts) u t v = ground (arith, find-concat ts u t v)

set-cases :
    (xs : List ℕ) (u t v d : ℕ)
    → (get_or (set xs u t) v d ≡ get_or xs v d) ⊎ ((v ≡ u) × (get_or (set xs u t) v d ≡ t))
set-cases [] u t v d = inl refl
set-cases (x ∷ xs) zero t zero d = inr (refl, refl)
set-cases (x ∷ xs) zero t (suc v) d = inl refl
set-cases (x ∷ xs) (suc u) t zero d = inl refl
set-cases (x ∷ xs) (suc u) t (suc v) d = ground (arith, set-cases xs u t v d)

-- A transition that is stored is read again, and the others are as they were.
pub stored-set_transition :
    (d : DeterministicState) (u t v : ℕ)
    → (stored_transition (set_transition d u t) v ≡ stored_transition d v)
      ⊎ ((v ≡ u) × (stored_transition (set_transition d u t) v ≡ t))
unfolding stored_transition set_transition
stored-set_transition d u t v = ground (
  arith,
  find-concat d.non_ascii_transitions u t v,
  set-cases d.ascii_transitions u t v unknown_transition,
)

pub get_or-replicate : (n v a : ℕ) → get_or (replicate n a) v a ≡ a
get_or-replicate zero v a = refl
get_or-replicate (suc n) zero a = refl
get_or-replicate (suc n) (suc v) a = get_or-replicate n v a

pub set_transition-states :
    (d : DeterministicState) (u t : ℕ) → (set_transition d u t).nfa_states ≡ d.nfa_states
unfolding set_transition
set_transition-states d u t = ground arith

pub set_transition-terminals :
    (d : DeterministicState) (u t : ℕ) → (set_transition d u t).terminals ≡ d.terminals
unfolding set_transition
set_transition-terminals d u t = ground arith

pub length-set_state :
    (ds : List DeterministicState) (i u t : ℕ) → length (set_state ds i u t) ≡ length ds
unfolding set_state
length-set_state [] i u t = refl
length-set_state (d ∷ ds) zero u t = refl
length-set_state (d ∷ ds) (suc i) u t = ap suc (length-set_state ds i u t)

-- Each state is the old one, or the old one with the transition set.
pub set_state-cases :
    (ds : List DeterministicState) (i u t j : ℕ) (d' : DeterministicState)
    → get_elem? (set_state ds i u t) j ≡ some d'
    → (get_elem? ds j ≡ some d')
      ⊎ ((d : DeterministicState) × (j ≡ i)
          × (get_elem? ds j ≡ some d)
          × (d' ≡ set_transition d u t))
unfolding set_state
set_state-cases [] i u t j d' h = inl h
set_state-cases (d ∷ ds) zero u t zero d' h =
    let e : set_transition d u t ≡ d' = cc h in inr (d, refl, refl, sym e)
set_state-cases (d ∷ ds) zero u t (suc j) d' h = inl h
set_state-cases (d ∷ ds) (suc i) u t zero d' h = inl h
set_state-cases (d ∷ ds) (suc i) u t (suc j) d' h =
    ⊎_elim inl (λ (x, e, f, g). inr (x, ap suc e, f, g)) (set_state-cases ds i u t j d' h)

pub set_state-Has :
    (ds : List DeterministicState) (i u t j : ℕ) (d : DeterministicState)
    → get_elem? ds j ≡ some d
    → (d' : DeterministicState) × (get_elem? (set_state ds i u t) j ≡ some d')
      × (d'.nfa_states ≡ d.nfa_states)
unfolding set_state
set_state-Has [] i u t j d h = cc
set_state-Has (x ∷ ds) zero u t zero d h =
    let e : x ≡ d = cc h in
    (
      set_transition x u t,
      refl,
      set_transition-states x u t ∙ ap (λ (y : DeterministicState). y.nfa_states) e,
    )
set_state-Has (x ∷ ds) zero u t (suc j) d h = (d, h, refl)
set_state-Has (x ∷ ds) (suc i) u t zero d h = (d, h, refl)
set_state-Has (x ∷ ds) (suc i) u t (suc j) d h = set_state-Has ds i u t j d h
