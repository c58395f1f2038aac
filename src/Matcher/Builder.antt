-- ===== src/Matcher/Builder.antt =====
-- rustmatch/src/api.rs: `MatcherBuilder`, which collects the patterns.
use rustmatch.Prelude.{ℕ, ◌==◌, ◌||◌, Bool, true, false, List, [], ◌∷◌, ◌++◌, if◌then◌else◌}
use rustmatch.Error.{duplicate_pattern_id, Result, out_of_fuel, err, ok}
use rustmatch.Hir.{HirPattern}
use rustmatch.Parser.{parse_with_flags}

-- The hash set of the identifiers is a list of them.
pub record MatcherBuilder : Type 0 where
  pub pattern_ids : List ℕ
  pub patterns : List HirPattern
  pub state_cache_budget : ℕ
  pub worker_count : ℕ
  pub prefilter_enabled : Bool
  pub literal_prefilter_enabled : Bool

-- `MatcherBuilder::default`.
unfoldable pub new_builder : MatcherBuilder
new_builder = record {
  pattern_ids = [];
  patterns = [];
  state_cache_budget = 8192;
  worker_count = 1;
  prefilter_enabled = true;
  literal_prefilter_enabled = true;
}

unfoldable pub set_state_cache_budget : MatcherBuilder → ℕ → MatcherBuilder
set_state_cache_budget builder state_budget = record builder { state_cache_budget = state_budget }

unfoldable pub set_worker_count : MatcherBuilder → ℕ → MatcherBuilder
set_worker_count builder worker_count = record builder { worker_count = worker_count }

unfoldable pub contains : List ℕ → ℕ → Bool
contains [] pattern_id = false
contains (x ∷ xs) pattern_id = (x == pattern_id) || contains xs pattern_id

-- The end of `add_with_flags`, from the `?` after the parser on.
unfoldable pub register : MatcherBuilder → ℕ → Result HirPattern → Result {0} Unit × MatcherBuilder
register builder pattern_id out_of_fuel = (out_of_fuel, builder)
register builder pattern_id (err failure) = (err failure, builder)
register builder pattern_id (ok parsed) = (
  ok tt,
  record builder {
    pattern_ids = pattern_id ∷ builder.pattern_ids;
    patterns = builder.patterns ++ parsed ∷ [];
  },
)

-- What `add_with_flags` returns, and the builder that it leaves.
unfoldable pub add_with_flags :
    (ℕ → ℕ × ℕ) → MatcherBuilder → ℕ → List ℕ → Bool → Result {0} Unit × MatcherBuilder
unfolding contains register parse_with_flags
add_with_flags lower_upper builder pattern_id pattern case_insensitive =
    if contains builder.pattern_ids pattern_id
    then (err (duplicate_pattern_id pattern_id), builder)
    else register builder pattern_id
        (parse_with_flags pattern_id pattern lower_upper case_insensitive)
