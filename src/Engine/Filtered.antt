-- ===== src/Engine/Filtered.antt =====
-- rustmatch/src/engine.rs: `scan_with_stats`, the scan of the starts that the prefilter plans. The
-- byte counts of `ScanStats` are left out.
use rustmatch.Prelude.{ℕ, ◌-◌, Bool, List, length, ◌==◌, if◌then◌else◌}
use rustmatch.Context.{Units}
use rustmatch.Nfa.Database.{PatternDatabase}
use rustmatch.Engine.Scan.{Match, scan_with_assertions}
use rustmatch.Engine.CachedScan.{scan_without_assertions_dispatch, scan_without_assertions_cached}
use rustmatch.Prefilter.StartTable.{range}
use rustmatch.Prefilter.Plan.{
  Prefilter, PrefilterPath, PrefilterBypass, ScanPlan, all, table, candidates, plan, path,
  bypass_of, admissions_of, candidate_count, plan_starts, allowed,
}

pub record ScanStats : Type 0 where
  pub cache_states : ℕ
  pub cache_hits : ℕ
  pub cache_misses : ℕ
  pub fallback_transitions : ℕ
  pub assertion_bypasses : ℕ
  pub prefilter_path : PrefilterPath
  pub prefilter_bypass : PrefilterBypass
  pub prefilter_admissions : ℕ
  pub prefilter_candidate_starts : ℕ
  pub prefilter_starts_scanned : ℕ
  pub prefilter_starts_skipped : ℕ

unfoldable pub starts_scanned : ScanPlan → Units → ℕ
starts_scanned (all why) input = length input
starts_scanned (table t why) input = length (allowed t input (range 0 (length input)))
starts_scanned (candidates c admissions) input = c.start_count

-- `metrics` as it is set up, with the starts that are scanned.
abbrev pub plan_stats : ScanPlan → Units → ℕ → ScanStats
plan_stats p input scanned = record {
  cache_states = 0;
  cache_hits = 0;
  cache_misses = 0;
  fallback_transitions = 0;
  assertion_bypasses = 0;
  prefilter_path = path p;
  prefilter_bypass = bypass_of p;
  prefilter_admissions = admissions_of p;
  prefilter_candidate_starts = candidate_count p;
  prefilter_starts_scanned = scanned;
  prefilter_starts_skipped = length input - scanned;
}

module _ (db : PatternDatabase) where
  -- What the scan with the cache adds to the counters.
  unfoldable pub with_cache_stats : Units → ℕ → List ℕ → ScanStats → ScanStats
  with_cache_stats input budget starts stats =
      if budget == 0
      then stats
      else (let (events, m) = scan_without_assertions_cached db input budget starts in
          record stats {
            cache_states = length m.cache.states;
            cache_hits = m.counters.cache_hits;
            cache_misses = m.counters.cache_misses;
            fallback_transitions = m.counters.fallback_transitions;
          })

  unfoldable pub scan_planned : Units → ℕ → ScanPlan → List Match × ScanStats
  unfolding starts_scanned with_cache_stats
  scan_planned input budget p =
      if db.uses_assertions
      then (
        scan_with_assertions db input (range 0 (length input)),
        record (plan_stats p input (length input)) { assertion_bypasses = 1 },
      )
      else (
        scan_without_assertions_dispatch db input budget (plan_starts p input),
        with_cache_stats input budget (plan_starts p input)
            (plan_stats p input (starts_scanned p input)),
      )

  unfoldable pub scan_with_stats : Prefilter → Units → ℕ → Bool → Bool → List Match × ScanStats
  unfolding scan_planned
  scan_with_stats prefilter input budget prefilter_enabled literal_prefilter_enabled =
      scan_planned input budget (plan prefilter input prefilter_enabled literal_prefilter_enabled)

  -- `scan`.
  unfoldable pub scan : Prefilter → Units → ℕ → Bool → Bool → List Match
  unfolding scan_with_stats
  scan prefilter input budget prefilter_enabled literal_prefilter_enabled =
      (scan_with_stats prefilter input budget prefilter_enabled literal_prefilter_enabled).0
