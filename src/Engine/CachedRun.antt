-- ===== src/Engine/CachedRun.antt =====
-- rustmatch/src/engine.rs: one start of `scan_without_assertions_cached` records what the automaton
-- records, whatever the cache holds.
use rustmatch.Prelude.{
  ℕ, suc, ◌<◌, ◌≡◌, ◌≢◌, refl, sym, subst, ap, ◌∙◌, Option, none, some, List, [], ◌∷◌, ◌++◌, arith,
  get_elem?, drop,
}
use rustmatch.Context.{Units}
use rustmatch.Nfa.Database.{PatternDatabase, terminals_at}
use rustmatch.Engine.Scan.{Ends, record_all, record_states, no_ends, record_terminal}
use rustmatch.Engine.Cache.{
  DeterministicCache, TransitionOutcome, ScanCursor, Machine, lookup, intern, add_new, terminals_of,
  compute_transition, root_states, new_cache, count_fallback, find_candidate, bucket,
}
use rustmatch.Engine.CachedScan.{
  terminals_or_none, outcome_uncached, transition, fall_back, cursor_step, cached_units,
  cached_start,
}
use rustmatch.Engine.Coherent.{Has, Keeps, Keeps-refl, Keeps-trans, lookup-Has}
use rustmatch.Engine.Learn.{IsCoherent, intern-Interned}
use rustmatch.Engine.Moves.{Arrives, Moves, transition-Moves}

module _ (db : PatternDatabase) where
  -- The loop over the units with the automaton alone, whose states are sorted after each unit.
  unfoldable pub sorted_units : List ℕ → ℕ → List ℕ → Ends → Ends
  sorted_units [] position active r = r
  sorted_units (unit ∷ units) position active r =
      let next = compute_transition db active unit in
      let r' = record_states db next (suc position) r in
      elim next [ [] ↦ r | q ∷ qs ↦ sorted_units units (suc position) (q ∷ qs) r' ]

  unfoldable pub sorted_start : Units → ℕ → Ends
  unfolding sorted_units
  sorted_start input start = sorted_units (drop start input) start (root_states db) (no_ends db)

  -- The states of the automaton that the cursor stands for.
  abbrev pub At : ScanCursor → Machine → List ℕ → Type 0
  At (ScanCursor.cached i) m states = Has m.cache i states
  At ScanCursor.uncached m states = m.active ≡ states

  outcome_uncached-Arrives :
      (next : List ℕ) (o : Option ℕ) (m : Machine)
      → m.next ≡ next
      → ((c : ℕ) → o ≡ some c → Has m.cache c next)
      → Arrives db (outcome_uncached db next o) m next
  unfolding outcome_uncached
  outcome_uncached-Arrives [] o m here found = refl
  outcome_uncached-Arrives (q ∷ qs) none m here found = (here, λ e. cc)
  outcome_uncached-Arrives (q ∷ qs) (some c) m here found = (found c refl, λ e. cc)

  fall_back-Moves :
      (symbol : ℕ) (m : Machine)
      → IsCoherent db m.cache
      → Moves db m (compute_transition db m.active symbol) (fall_back db symbol m)
  unfolding fall_back
  fall_back-Moves symbol m h =
      let next = compute_transition db m.active symbol in
      record {
        coherent = h;
        keeps = Keeps-refl m.cache;
        arrives =
            outcome_uncached-Arrives next (lookup m.cache next)
              (record m { counters = count_fallback m.counters; next = next }) refl
              (λ c e. lookup-Has m.cache next c e);
      }

  -- For a cache that is coherent and a cursor that stands for a set of states: a step keeps the
  -- cache coherent and every state in it under its number, and it arrives at the states that the
  -- automaton reaches with the unit from this set.
  pub cursor_step-Moves :
      (cursor : ScanCursor) (symbol : ℕ) (m : Machine) (states : List ℕ)
      → IsCoherent db m.cache
      → At cursor m states
      → Moves db m (compute_transition db states symbol) (cursor_step db cursor symbol m)
  unfolding cursor_step
  cursor_step-Moves (ScanCursor.cached i) symbol m states h (d, at, e) =
      subst (λ s. Moves db m (compute_transition db s symbol) (transition db i symbol m)) e
        (transition-Moves db i symbol m d h at)
  cursor_step-Moves ScanCursor.uncached symbol m states h e =
      subst (λ s. Moves db m (compute_transition db s symbol) (fall_back db symbol m)) e
        (fall_back-Moves symbol m h)

  record_all-append :
      (xs ys : List ℕ) (end : ℕ) (r : Ends)
      → record_all (xs ++ ys) end r ≡ record_all ys end (record_all xs end r)
  unfolding record_all
  record_all-append [] ys end r = refl
  record_all-append (x ∷ xs) ys end r = record_all-append xs ys end (record_terminal r x end)

  record_all-terminals :
      (qs : List ℕ) (end : ℕ) (r : Ends)
      → record_all (terminals_of db qs) end r ≡ record_states db qs end r
  unfolding record_states terminals_of record_all
  record_all-terminals [] end r = refl
  record_all-terminals (q ∷ qs) end r =
      record_all-append (terminals_at db q) (terminals_of db qs) end r
      ∙ record_all-terminals qs end (record_all (terminals_at db q) end r)

  record Runs (m : Machine) (r : Ends) (x : Machine × Ends) : Type 0 where
    coherent : IsCoherent db x.0.cache
    keeps : Keeps m.cache x.0.cache
    same : x.1 ≡ r

  terminals_at_state :
      (cache : DeterministicCache) (i : ℕ) (states : List ℕ) (end : ℕ) (r : Ends)
      → IsCoherent db cache
      → Has cache i states
      → record_all (terminals_or_none (get_elem? cache.states i)) end r
        ≡ record_states db states end r
  terminals_at_state cache i states end r h (d, at, e) =
      ap (λ o. record_all (terminals_or_none o) end r) at
      ∙ ap (λ os. record_all os end r) (h.terminals i d at)
      ∙ record_all-terminals d.nfa_states end r
      ∙ ap (λ s. record_states db s end r) e

  -- What the two loops do with the states after a unit.
  unfoldable pub sorted_after : List ℕ → List ℕ → ℕ → Ends → Ends
  unfolding sorted_units
  sorted_after units next position r = elim next as (λ x. Ends) [
    | [] ↦ r
    | q ∷ qs ↦ sorted_units units position (q ∷ qs) (record_states db next position r)
  ]

  sorted_after-next :
      (units next : List ℕ) (position : ℕ) (r : Ends)
      → next ≢ []
      → sorted_after units next position r
        ≡ sorted_units units position next (record_states db next position r)
  unfolding sorted_after
  sorted_after-next units [] position r h = absurd (h refl)
  sorted_after-next units (q ∷ qs) position r h = refl

  abbrev cached_after : List ℕ → TransitionOutcome → ℕ → Machine → Ends → Machine × Ends
  unfolding cached_units
  cached_after units outcome position m r = elim outcome [
    | TransitionOutcome.dead ↦ (m, r)
    | TransitionOutcome.cached state ↦
        cached_units db units position (ScanCursor.cached state) m
          (record_all (terminals_or_none (get_elem? m.cache.states state)) position r)
    | TransitionOutcome.uncached ↦
        cached_units db units position ScanCursor.uncached
          (record m { active = m.next; next = m.active }) (record_states db m.next position r)
  ]

  -- The loops agree on the units that are left.
  abbrev Agree : List ℕ → ℕ → Type 0
  Agree units position =
      (cursor : ScanCursor) (m : Machine) (r : Ends) (states : List ℕ)
      → IsCoherent db m.cache
      → At cursor m states
      → Runs m (sorted_units units position states r) (cached_units db units position cursor m r)

  cached_after-Runs :
      (units next : List ℕ) (outcome : TransitionOutcome) (position : ℕ) (m m' : Machine) (r : Ends)
      → Agree units position
      → Moves db m next (outcome, m')
      → Runs m (sorted_after units next position r) (cached_after units outcome position m' r)
  unfolding cached_after sorted_after
  cached_after-Runs units next TransitionOutcome.dead position m m' r agree step = record {
    coherent = step.coherent;
    keeps = step.keeps;
    same = subst (λ n. r ≡ sorted_after units n position r) (sym step.arrives) refl;
  }
  cached_after-Runs units next (TransitionOutcome.cached i) position m m' r agree step =
      let (has, some_state) = step.arrives in
      let r' = record_all (terminals_or_none (get_elem? m'.cache.states i)) position r in
      let runs = agree (ScanCursor.cached i) m' r' next step.coherent has in
      record {
        coherent = runs.coherent;
        keeps = Keeps-trans step.keeps runs.keeps;
        same =
            runs.same
            ∙ ap (λ x. sorted_units units position next x)
                (terminals_at_state m'.cache i next position r step.coherent has)
            ∙ sym (sorted_after-next units next position r some_state);
      }
  cached_after-Runs units next TransitionOutcome.uncached position m m' r agree step =
      let (here, some_state) = step.arrives in
      let swapped : Machine = record m' { active = m'.next; next = m'.active } in
      let runs =
        agree ScanCursor.uncached swapped (record_states db m'.next position r) next step.coherent
          here in
      record {
        coherent = runs.coherent;
        keeps = Keeps-trans step.keeps runs.keeps;
        same =
            runs.same
            ∙ ap (λ s. sorted_units units position next (record_states db s position r)) here
            ∙ sym (sorted_after-next units next position r some_state);
      }

  cached_units-Runs : (units : List ℕ) (position : ℕ) → Agree units position
  unfolding cached_units sorted_units sorted_after
  cached_units-Runs [] position cursor m r states h at = record {
    coherent = h;
    keeps = Keeps-refl m.cache;
    same = refl;
  }
  cached_units-Runs (unit ∷ units) position cursor m r states h at =
      let x = cursor_step db cursor unit m in
      cached_after-Runs units (compute_transition db states unit) x.0 (suc position) m x.1 r
        (cached_units-Runs units (suc position)) (cursor_step-Moves cursor unit m states h at)

  empty_cache : ℕ → DeterministicCache
  empty_cache budget = record { budget = budget; states = []; hash_buckets = [] }

  empty-IsCoherent : (budget : ℕ) → IsCoherent db (empty_cache budget)
  unfolding empty_cache
  empty-IsCoherent budget = record {
    small = omega arith;
    terminals = λ i d at. cc;
    transitions = λ i d symbol at. cc;
  }

  intern-first :
      (budget : ℕ) (states : List ℕ)
      → 0 < budget
      → (intern db (empty_cache budget) states).0 ≡ some 0
  unfolding empty_cache intern lookup add_new find_candidate bucket
  intern-first budget states h = ground arith

  -- A new cache with room for one state holds the states before the first unit as its state 0.
  pub new_cache-IsCoherent :
      (budget : ℕ)
      → 0 < budget
      → IsCoherent db (new_cache db budget) × Has (new_cache db budget) 0 (root_states db)
  unfolding new_cache empty_cache
  new_cache-IsCoherent budget h =
      let i = intern-Interned db (empty_cache budget) (root_states db) (empty-IsCoherent budget) in
      (i.coherent, i.found 0 (intern-first budget (root_states db) h))

  pub cached_start-sorted :
      (input : Units) (start : ℕ) (m : Machine)
      → IsCoherent db m.cache
      → Has m.cache 0 (root_states db)
      → let x = cached_start db input start m in
        IsCoherent db x.0.cache
        × Has x.0.cache 0 (root_states db)
        × (x.1 ≡ sorted_start input start)
  unfolding cached_start sorted_start
  cached_start-sorted input start m h root =
      let x =
        cached_units-Runs (drop start input) start (ScanCursor.cached 0)
          (record m { active = []; next = [] }) (no_ends db) (root_states db) h root in
      (x.coherent, x.keeps.states 0 (root_states db) root, x.same)
