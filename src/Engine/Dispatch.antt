-- ===== src/Engine/Dispatch.antt =====
-- rustmatch/src/engine.rs: `scan_without_assertions_dispatch` gives the same events with every budget
-- for the cache.
use rustmatch.Prelude.{
  ℕ, suc, ◌<◌, ◌≡◌, refl, sym, ap, ap₂, ◌∙◌, inl, inr, Bool, false, List, [], ◌∷◌, ◌++◌, arith,
  Memᴰ, drop, ◌==◌, Bool-cases,
}
use rustmatch.Context.{Units, Cursor, advance}
use rustmatch.Nfa.Builder.{EdgeKind, Edge}
use rustmatch.Nfa.Database.{PatternDatabase, edges_from, state_count}
use rustmatch.Engine.Closure.{follows_epsilon}
use rustmatch.Engine.Scan.{
  Ends, record_states, blank, no_ends, extend, fire_states, scan_units, scan_start, scan_starts,
  scan_without_assertions_nfa, deliver,
}
use rustmatch.Engine.Cache.{Machine, compute_transition, root_states}
use rustmatch.Engine.CachedScan.{
  cached_start, cached_starts, new_machine, scan_without_assertions_cached,
  scan_without_assertions_dispatch,
}
use rustmatch.Engine.Coherent.{Has}
use rustmatch.Engine.Learn.{IsCoherent}
use rustmatch.Engine.CachedRun.{
  sorted_units, sorted_start, new_cache-IsCoherent, cached_start-sorted,
}
use rustmatch.Engine.Events.{
  OrdinalsInRange, IsListedHere, no_ends-IsListed, record_states-IsListed, events_of,
  deliver-events_of,
}
use rustmatch.Engine.Sorted.{scan_start-sorted}

module _ (db : PatternDatabase) (ordinals : OrdinalsInRange db) where
  break-IsListed :
      (follows : Cursor → EdgeKind → Bool) (units : List ℕ) (s : Cursor) (out : List ℕ) (r : Ends)
      → IsListedHere db r
      → IsListedHere db (scan_units db follows units s out r)
      → IsListedHere db
          (elim out as (λ x. Ends) [ [] ↦ r | q ∷ qs ↦ scan_units db follows units s (q ∷ qs) r ])
  break-IsListed follows units s [] r now later = now
  break-IsListed follows units s (q ∷ qs) r now later = later

  scan_units-IsListed :
      (follows : Cursor → EdgeKind → Bool) (units : List ℕ) (s : Cursor) (active : List ℕ)
      (r : Ends)
      → IsListedHere db r
      → IsListedHere db (scan_units db follows units s active r)
  unfolding scan_units
  scan_units-IsListed follows [] s active r h = h
  scan_units-IsListed follows (unit ∷ units) s active r h =
      let next = (fire_states db follows (advance s) unit active (blank db)).output in
      let now = record_states-IsListed db next (advance s).position r ordinals h in
      let r' = record_states db next (advance s).position r in
      break-IsListed follows units (advance s) next r' now
        (scan_units-IsListed follows units (advance s) next r' now)

  -- Every ordinal that a start touches is in range and has an end.
  pub scan_start-IsListed :
      (follows : Cursor → EdgeKind → Bool) (input : Units) (root start : ℕ)
      → IsListedHere db (scan_start db follows input root start)
  unfolding scan_start
  scan_start-IsListed follows input root start =
      let s : Cursor = record { position = start; after_current = false } in
      scan_units-IsListed follows (drop start input) s (extend db follows s root (blank db)).output
        (no_ends db) (no_ends-IsListed db)

  sorted_units-IsListed :
      (units : List ℕ) (position : ℕ) (active : List ℕ) (r : Ends)
      → IsListedHere db r
      → IsListedHere db (sorted_units db units position active r)
  unfolding sorted_units
  sorted_units-IsListed [] position active r h = h
  sorted_units-IsListed (unit ∷ units) position active r h =
      let next = compute_transition db active unit in
      let now = record_states-IsListed db next (suc position) r ordinals h in
      let r' = record_states db next (suc position) r in
      go next r' now (sorted_units-IsListed units (suc position) next r' now)
    where
      go :
          (next : List ℕ) (r' : Ends)
          → IsListedHere db r'
          → IsListedHere db (sorted_units db units (suc position) next r')
          → IsListedHere db (elim next as (λ x. Ends) [
            | [] ↦ r
            | q ∷ qs ↦ sorted_units db units (suc position) (q ∷ qs) r'
          ])
      go [] r' now later = h
      go (q ∷ qs) r' now later = later

  sorted_start-IsListed :
      (input : Units) (start : ℕ) → IsListedHere db (sorted_start db input start)
  unfolding sorted_start
  sorted_start-IsListed input start =
      sorted_units-IsListed (drop start input) start (root_states db) (no_ends db)
        (no_ends-IsListed db)

  module _ (targets : (q : ℕ) (e : Edge) → Memᴰ e (edges_from db q) → e.target < state_count db)
      (input : Units) where
    start-events :
        (start : ℕ)
        → deliver db start (sorted_start db input start)
          ≡ deliver db start (scan_start db (λ s. follows_epsilon) input db.root start)
    start-events start =
        deliver-events_of db start (sorted_start db input start) (sorted_start-IsListed input start)
        ∙ ap (events_of db start) (sym (scan_start-sorted db targets input start))
        ∙ sym (
            deliver-events_of db start (scan_start db (λ s. follows_epsilon) input db.root start)
              (scan_start-IsListed (λ s. follows_epsilon) input db.root start))

    cached_starts-events :
        (starts : List ℕ) (m : Machine)
        → IsCoherent db m.cache
        → Has m.cache 0 (root_states db)
        → (cached_starts db input starts m).0
          ≡ scan_starts db (λ s. follows_epsilon) input db.root starts
    unfolding cached_starts scan_starts
    cached_starts-events [] m h root = refl
    cached_starts-events (start ∷ starts) m h root =
        let (h', root', same) = cached_start-sorted db input start m h root in
        ap₂ ◌++◌ (ap (deliver db start) same ∙ start-events start)
          (cached_starts-events starts (cached_start db input start m).0 h' root')

    -- For a database whose edges and terminals are in range: the scan with the cache delivers the
    -- events of the scan with the automaton, in the same order, for every budget and every list of
    -- starts.
    pub scan_without_assertions_dispatch-nfa :
        (budget : ℕ) (starts : List ℕ)
        → scan_without_assertions_dispatch db input budget starts
          ≡ scan_without_assertions_nfa db input starts
    unfolding scan_without_assertions_dispatch scan_without_assertions_cached
        scan_without_assertions_nfa
    scan_without_assertions_dispatch-nfa budget starts = elim (Bool-cases (budget == 0)) [
      | inl zero_budget ↦ rw zero_budget refl
      | inr room ↦
          let (h, root) = new_cache-IsCoherent db budget (ground arith) in
          rw room (cached_starts-events starts (new_machine db budget) h root)
    ]
