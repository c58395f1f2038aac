-- ===== src/Matcher/Workers.antt =====
-- rustmatch/src/api.rs: `Matcher::scan`, with a worker thread for each partition but the first, and
-- rustmatch/src/shared_engine.rs. A worker is a function of its partition and the input; what the
-- operating system does is whether a thread starts. The plan of rustmatch/src/shared_candidate.rs is
-- the parameter `shared_plan`.
use rustmatch.Prelude.{
  ℕ, suc, ◌+◌, Bool, true, false, ◌&&◌, Option, none, some, List, [], ◌∷◌, ◌++◌, length, leb,
  if◌then◌else◌,
}
use rustmatch.Error.{worker_unavailable, Result, err, ok, ◌>>=◌}
use rustmatch.Context.{Units}
use rustmatch.Engine.Scan.{Match}
use rustmatch.Engine.CachedScan.{scan_without_assertions_dispatch}
use rustmatch.Engine.Filtered.{scan}
use rustmatch.Prefilter.Filter.{LiteralPrefilter, prefix_allows}
use rustmatch.Prefilter.Candidates.{CandidateBitmap, iter}
use rustmatch.Prefilter.Plan.{Prefilter}
use rustmatch.Matcher.Partitions.{MatcherPartition, Matcher}

abbrev pub min_shared_partition_count : ℕ
min_shared_partition_count = 16

abbrev pub min_shared_input_units : ℕ
min_shared_input_units = 33554432

unfoldable pub is_eligible : ℕ → ℕ → Bool → Bool → Bool
is_eligible partition_count input_units prefilter_enabled literal_prefilter_enabled =
    prefilter_enabled
    && literal_prefilter_enabled
    && leb min_shared_partition_count partition_count
    && leb min_shared_input_units input_units

abbrev pub literal_allows : Option LiteralPrefilter → Units → ℕ → Bool
unfolding prefix_allows
literal_allows none input start = false
literal_allows (some filter) input start = prefix_allows filter input start

-- `Prefilter::shared_allows_start`.
unfoldable pub shared_allows_start : Prefilter → Units → ℕ → Bool
unfolding prefix_allows
shared_allows_start prefilter input start =
    leb (start + 3) (length input) && literal_allows prefilter.literal input start

-- `filter(|&start| prefilter.shared_allows_start(units, start))`.
unfoldable pub shared_starts : Prefilter → Units → List ℕ → List ℕ
unfolding shared_allows_start
shared_starts prefilter input [] = []
shared_starts prefilter input (start ∷ starts) =
    if shared_allows_start prefilter input start
    then start ∷ shared_starts prefilter input starts
    else shared_starts prefilter input starts

-- The events of `scan_with_shared_candidates_and_stats`.
unfoldable pub scan_partition_shared : MatcherPartition → Units → CandidateBitmap → List Match
unfolding shared_starts scan_without_assertions_dispatch
scan_partition_shared partition input candidates =
    scan_without_assertions_dispatch partition.database input partition.state_cache_budget
      (shared_starts partition.prefilter input (iter candidates))

-- Whether the workers of the partitions start, from this index on.
unfoldable pub spawns_from : (ℕ → Bool) → ℕ → List MatcherPartition → Bool
spawns_from spawned partition_index [] = true
spawns_from spawned partition_index (partition ∷ partitions) =
    spawned partition_index && spawns_from spawned (suc partition_index) partitions

-- The output of each partition, in the order of the partitions.
unfoldable pub outputs : (MatcherPartition → List Match) → List MatcherPartition → List Match
outputs scan_one [] = []
outputs scan_one (partition ∷ partitions) = scan_one partition ++ outputs scan_one partitions

-- The plan of the shared candidates: `shared_candidate::plan` for the prefilters of the partitions.
abbrev pub SharedPlan : Type 0
SharedPlan = List MatcherPartition → Units → Result (Option CandidateBitmap)

module _ (spawned : ℕ → Bool) (shared_plan : SharedPlan) where
  -- How each partition is scanned, with the candidates if there are any.
  unfoldable pub scan_one : Matcher → Units → Option CandidateBitmap → MatcherPartition → List Match
  unfolding scan scan_partition_shared
  scan_one matcher input none partition =
      scan partition.database partition.prefilter input partition.state_cache_budget
        matcher.prefilter_enabled matcher.literal_prefilter_enabled
  scan_one matcher input (some candidates) partition =
      scan_partition_shared partition input candidates

  unfoldable pub shared_candidate_plan : Matcher → Units → Result (Option CandidateBitmap)
  unfolding is_eligible
  shared_candidate_plan matcher input =
      if is_eligible (length matcher.partitions) (length input) matcher.prefilter_enabled
        matcher.literal_prefilter_enabled
      then shared_plan matcher.partitions input
      else ok none

  -- The first partition is scanned on the caller's thread, after every worker has started.
  unfoldable pub scan_parallel :
      Matcher → Units → MatcherPartition → List MatcherPartition → Result (List Match)
  unfolding shared_candidate_plan spawns_from outputs scan_one
  scan_parallel matcher input first others = do
    plan ← shared_candidate_plan matcher input
    (if spawns_from spawned 1 others
        then ok (outputs (scan_one matcher input plan) (first ∷ others))
        else err worker_unavailable)

  -- `Matcher::scan`; `build` gives at least one partition.
  unfoldable pub scan_partitions : Matcher → Units → List MatcherPartition → Result (List Match)
  unfolding scan_parallel scan_one
  scan_partitions matcher input [] = ok []
  scan_partitions matcher input (partition ∷ []) = ok (scan_one matcher input none partition)
  scan_partitions matcher input (first ∷ second ∷ others) =
      scan_parallel matcher input first (second ∷ others)

  unfoldable pub scan_matcher : Matcher → Units → Result (List Match)
  unfolding scan_partitions
  scan_matcher matcher input = scan_partitions matcher input matcher.partitions
