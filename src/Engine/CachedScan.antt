-- ===== src/Engine/CachedScan.antt =====
-- rustmatch/src/engine.rs: `DeterministicCache::transition` and `scan_without_assertions_cached`.
use rustmatch.Prelude.{
  ℕ, suc, ◌+◌, Option, none, some, List, [], ◌∷◌, ◌++◌, get_elem?, ◌==◌, if◌then◌else◌, drop,
}
use rustmatch.Context.{Units}
use rustmatch.Nfa.Database.{PatternDatabase}
use rustmatch.Engine.Scan.{
  Ends, Match, record_all, record_states, no_ends, deliver, scan_without_assertions_nfa,
}
use rustmatch.Engine.Cache.{
  DeterministicState, DeterministicCache, Counters, TransitionOutcome, ScanCursor, Machine,
  count_fallback, outcome_for, unknown_transition, dead_transition, fallback_transition,
  stored_transition, set_state, lookup, intern, compute_transition, new_cache,
}

-- `cache.states[state]`; every state in use is in range.
abbrev pub states_or_none : Option DeterministicState → List ℕ
states_or_none none = []
states_or_none (some d) = d.nfa_states

abbrev pub terminals_or_none : Option DeterministicState → List ℕ
terminals_or_none none = []
terminals_or_none (some d) = d.terminals

abbrev pub transition_or_unknown : Option DeterministicState → ℕ → ℕ
unfolding stored_transition
transition_or_unknown none symbol = unknown_transition
transition_or_unknown (some d) symbol = stored_transition d symbol

abbrev pub nfa_states_at : DeterministicCache → ℕ → List ℕ
nfa_states_at cache state = states_or_none (get_elem? cache.states state)

unfoldable pub stored : DeterministicCache → ℕ → ℕ → ℕ
unfolding stored_transition
stored cache state symbol = transition_or_unknown (get_elem? cache.states state) symbol

abbrev pub count_miss : Counters → Counters
count_miss c = record c { cache_misses = c.cache_misses + 1 }

abbrev pub count_hit : Counters → Counters
count_hit c = record c { cache_hits = c.cache_hits + 1 }

abbrev pub or_fallback : Option ℕ → ℕ
or_fallback none = fallback_transition
or_fallback (some state) = state

module _ (db : PatternDatabase) where
  -- The transition to the states computed, which are interned.
  unfoldable pub resolve : DeterministicCache → List ℕ → ℕ × DeterministicCache
  resolve cache [] = (dead_transition, cache)
  resolve cache (q ∷ qs) =
      let (state, cache') = intern db cache (q ∷ qs) in (or_fallback state, cache')

  -- The arm of an unknown transition.
  unfoldable pub learn : ℕ → ℕ → Machine → TransitionOutcome × Machine
  unfolding resolve outcome_for
  learn state symbol m =
      let next = compute_transition db (nfa_states_at m.cache state) symbol in
      let (transition, cache) = resolve m.cache next in
      let (outcome, counters) = outcome_for transition (count_miss m.counters) in
      (
        outcome,
        record m {
          cache = record cache { states = set_state cache.states state symbol transition };
          counters = counters;
          next = next;
        },
      )

  -- The arm of a known transition.
  unfoldable pub follow : ℕ → ℕ → ℕ → Machine → TransitionOutcome × Machine
  unfolding outcome_for
  follow state symbol known m =
      if known == fallback_transition
      then (
        TransitionOutcome.uncached,
        record m {
          counters = count_fallback m.counters;
          next = compute_transition db (nfa_states_at m.cache state) symbol;
        },
      )
      else (let (outcome, counters) = outcome_for known (count_hit m.counters) in
          (outcome, record m { counters = counters }))

  -- `DeterministicCache::transition`.
  unfoldable pub transition : ℕ → ℕ → Machine → TransitionOutcome × Machine
  unfolding learn follow stored
  transition state symbol m =
      if stored m.cache state symbol == unknown_transition
      then learn state symbol m
      else follow state symbol (stored m.cache state symbol) m

  unfoldable pub outcome_uncached : List ℕ → Option ℕ → TransitionOutcome
  outcome_uncached [] state = TransitionOutcome.dead
  outcome_uncached (q ∷ qs) none = TransitionOutcome.uncached
  outcome_uncached (q ∷ qs) (some state) = TransitionOutcome.cached state

  -- The step from states that the cache does not hold.
  unfoldable pub fall_back : ℕ → Machine → TransitionOutcome × Machine
  unfolding outcome_uncached
  fall_back symbol m =
      let next = compute_transition db m.active symbol in
      (
        outcome_uncached next (lookup m.cache next),
        record m { counters = count_fallback m.counters; next = next },
      )

  unfoldable pub cursor_step : ScanCursor → ℕ → Machine → TransitionOutcome × Machine
  unfolding transition fall_back
  cursor_step (ScanCursor.cached state) symbol m = transition state symbol m
  cursor_step ScanCursor.uncached symbol m = fall_back symbol m

  -- The loop over the units from the position on.
  unfoldable pub cached_units : List ℕ → ℕ → ScanCursor → Machine → Ends → Machine × Ends
  unfolding cursor_step
  cached_units [] position cursor m r = (m, r)
  cached_units (unit ∷ units) position cursor m r =
      let (outcome, m') = cursor_step cursor unit m in
      elim outcome [
        | TransitionOutcome.dead ↦ (m', r)
        | TransitionOutcome.cached state ↦
            cached_units units (suc position) (ScanCursor.cached state) m'
              (record_all (terminals_or_none (get_elem? m'.cache.states state)) (suc position) r)
        | TransitionOutcome.uncached ↦
            cached_units units (suc position) ScanCursor.uncached
              (record m' { active = m'.next; next = m'.active })
              (record_states db m'.next (suc position) r)
      ]

  -- One start: what it leaves in the cache, and in `best_end`.
  unfoldable pub cached_start : Units → ℕ → Machine → Machine × Ends
  unfolding cached_units
  cached_start input start m =
      cached_units (drop start input) start (ScanCursor.cached 0)
        (record m { active = []; next = [] }) (no_ends db)

  unfoldable pub cached_starts : Units → List ℕ → Machine → List Match × Machine
  unfolding cached_start
  cached_starts input [] m = ([], m)
  cached_starts input (start ∷ starts) m =
      let (m', r) = cached_start input start m in
      let (events, last) = cached_starts input starts m' in (deliver db start r ++ events, last)

  abbrev pub new_machine : ℕ → Machine
  new_machine budget = record {
    cache = new_cache db budget;
    counters = record { cache_hits = 0; cache_misses = 0; fallback_transitions = 0 };
    active = [];
    next = [];
  }

  unfoldable pub scan_without_assertions_cached : Units → ℕ → List ℕ → List Match × Machine
  unfolding cached_starts
  scan_without_assertions_cached input budget starts =
      cached_starts input starts (new_machine budget)

  -- The events of `scan_without_assertions_dispatch`.
  unfoldable pub scan_without_assertions_dispatch : Units → ℕ → List ℕ → List Match
  unfolding scan_without_assertions_cached
  scan_without_assertions_dispatch input budget starts =
      if budget == 0
      then scan_without_assertions_nfa db input starts
      else (scan_without_assertions_cached input budget starts).0
