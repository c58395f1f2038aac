-- ===== src/Matcher/Partitions.antt =====
-- rustmatch/src/api.rs: `MatcherBuilder::build` and `compile_partitions`.
use rustmatch.Prelude.{
  ℕ, zero, suc, ◌+◌, ◌/◌, ◌%◌, ◌==◌, min, Bool, List, [], ◌∷◌, length, ltb, if◌then◌else◌,
}
use rustmatch.Error.{no_patterns, invalid_worker_count, Result, err, ok, ◌>>=◌}
use rustmatch.Hir.{HirPattern}
use rustmatch.Nfa.Database.{PatternDatabase, compile, slice}
use rustmatch.Prefilter.Plan.{Prefilter, compile_prefilter}
use rustmatch.Matcher.Builder.{MatcherBuilder}

pub record MatcherPartition : Type 0 where
  pub database : PatternDatabase
  pub prefilter : Prefilter
  pub state_cache_budget : ℕ

pub record Matcher : Type 0 where
  pub partitions : List MatcherPartition
  pub prefilter_enabled : Bool
  pub literal_prefilter_enabled : Bool

-- `whole / parts + usize::from(index < whole % parts)`.
abbrev pub share : ℕ → ℕ → ℕ → ℕ
share whole parts index = whole / parts + (if ltb index (whole % parts) then 1 else 0)

module _ (patterns : List HirPattern) (partition_count total_state_cache_budget : ℕ) where
  -- The loop from the partition with this index on, whose patterns begin at the start.
  unfoldable pub partitions_from : ℕ → ℕ → ℕ → Result (List MatcherPartition)
  unfolding compile compile_prefilter
  partitions_from zero partition_index start = ok []
  partitions_from (suc left) partition_index start =
      let pattern_count = share (length patterns) partition_count partition_index in
      let partition_patterns = slice start pattern_count patterns in
      do
        database ← compile partition_patterns
        rest ← partitions_from left (suc partition_index) (start + pattern_count)
        (ok (
            record {
              database = database;
              prefilter = compile_prefilter partition_patterns database;
              state_cache_budget = share total_state_cache_budget partition_count partition_index;
            }
            ∷ rest))

-- The count of partitions is not 0 where `build` calls this.
unfoldable pub compile_partitions : List HirPattern → ℕ → ℕ → Result (List MatcherPartition)
unfolding partitions_from
compile_partitions patterns requested_worker_count total_state_cache_budget =
    let partition_count = min requested_worker_count (length patterns) in
    partitions_from patterns partition_count total_state_cache_budget partition_count 0 0

unfoldable pub build : MatcherBuilder → Result Matcher
unfolding compile_partitions
build builder =
    if length builder.patterns == 0
    then err no_patterns
    else if builder.worker_count == 0
    then err invalid_worker_count
    else do
      partitions ←
          compile_partitions builder.patterns builder.worker_count builder.state_cache_budget
      (ok (record {
        partitions = partitions;
        prefilter_enabled = builder.prefilter_enabled;
        literal_prefilter_enabled = builder.literal_prefilter_enabled;
      }))
