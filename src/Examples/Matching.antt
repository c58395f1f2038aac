-- ===== src/Examples/Matching.antt =====
-- Small inputs for the theorems about rustmatch/src/api.rs.
use rustmatch.Prelude.{
  ◌<◌, ◌≡◌, refl, ◌↔◌, inl, true, false, none, List, [], ◌∷◌, Memᴰ, arith, length,
}
use rustmatch.Error.{ok, err, worker_unavailable}
use rustmatch.Hir.{HirPattern}
use rustmatch.Nfa.Builder.{add_state, add_epsilon, push_edge, push_terminal, for_index}
use rustmatch.Nfa.Compile.{
  compile_expression, compile_repetition, repetition_tail, required_loop, unbounded_loop,
}
use rustmatch.Nfa.Database.{compile, compile_patterns}
use rustmatch.Engine.Scan.{Match}
use rustmatch.Engine.Report.{Reports}
use rustmatch.Matcher.Builder.{MatcherBuilder, new_builder, add_with_flags}
use rustmatch.Matcher.Partitions.{Matcher, MatcherPartition, build, compile_partitions}
use rustmatch.Matcher.Workers.{SharedPlan, scan_matcher, shared_candidate_plan, is_eligible}
use rustmatch.Matcher.Registered.{
  IsRegistered, Registration, add_with_flags_lem, add_with_flags-IsRegistered,
  new_builder-IsRegistered,
}
use rustmatch.Matcher.Balanced.{AreCompiled, joined, Near, total_budget, compile_partitions_lem}
use rustmatch.Matcher.Delivered.{scan_matcher-Reports, scan_matcher-unavailable}
use rustmatch.Examples.{text, some_bs_pattern, some_bs_safe}

-- `ab+` twice, under the identifiers 7 and 8, for two workers and nine states of the cache.
abbrev two_patterns : List HirPattern
two_patterns = some_bs_pattern ∷ record some_bs_pattern { pattern_id = 8 } ∷ []

abbrev filled_builder : MatcherBuilder
filled_builder = record {
  pattern_ids = 8 ∷ 7 ∷ [];
  patterns = two_patterns;
  state_cache_budget = 9;
  worker_count = 2;
  prefilter_enabled = true;
  literal_prefilter_enabled = true;
}

abbrev compiled_parts : List MatcherPartition
compiled_parts = elim (compile_partitions two_patterns 2 9) [ ok ps ↦ ps | _ ↦ [] ]

parts_compiled : compile_partitions two_patterns 2 9 ≡ ok compiled_parts
unfolding compile_partitions compile compile_patterns compile_expression compile_repetition
    repetition_tail required_loop unbounded_loop add_state add_epsilon push_edge push_terminal
    for_index
parts_compiled = refl

abbrev built_matcher : Matcher
built_matcher = record {
  partitions = compiled_parts;
  prefilter_enabled = true;
  literal_prefilter_enabled = true;
}

matcher_built : build filled_builder ≡ ok built_matcher
unfolding build compile_partitions compile compile_patterns compile_expression compile_repetition
    repetition_tail required_loop unbounded_loop add_state add_epsilon push_edge push_terminal
    for_index
matcher_built = refl

abbrev no_plan : SharedPlan
no_plan ps input = ok none

abbrev second_match : Match
second_match = record { pattern_id = 8; span = record { start = 0; end = 3 } }

scan_matcher-Reports_example :
    (events : List Match) × (scan_matcher (λ k. true) no_plan built_matcher text ≡ ok events)
    × ((x : Match) → Memᴰ x events ↔ Reports text two_patterns x.span.start x)
scan_matcher-Reports_example =
    scan_matcher-Reports (λ k. true) no_plan filled_builder built_matcher text
      (some_bs_safe, (some_bs_safe, tt)) matcher_built (λ k. refl) (inl refl)

not_shared : shared_candidate_plan (λ k. false) no_plan built_matcher text ≡ ok none
unfolding shared_candidate_plan is_eligible compile_partitions compile compile_patterns
    compile_expression compile_repetition repetition_tail required_loop unbounded_loop add_state
    add_epsilon push_edge push_terminal for_index
not_shared = refl

two_parts : 1 < length compiled_parts
unfolding compile_partitions compile compile_patterns compile_expression compile_repetition
    repetition_tail required_loop unbounded_loop add_state add_epsilon push_edge push_terminal
    for_index
two_parts = omega arith

scan_matcher-unavailable_example :
    scan_matcher (λ k. false) no_plan built_matcher text ≡ err worker_unavailable
scan_matcher-unavailable_example =
    scan_matcher-unavailable (λ k. false) no_plan built_matcher text none 1 not_shared (omega arith)
      two_parts refl

compile_partitions_lem_example :
    (slices : List (List HirPattern)) × AreCompiled slices compiled_parts
    × (joined slices ≡ two_patterns)
    × (length compiled_parts ≡ 2)
    × Near 1 slices
    × (0 < 1)
    × (total_budget compiled_parts ≡ 9)
compile_partitions_lem_example =
    compile_partitions_lem two_patterns 2 9 compiled_parts (omega arith) (omega arith)
      parts_compiled

add_with_flags_lem_example :
    Registration new_builder 7 2
      (add_with_flags (λ unit. (unit, unit)) new_builder 7 (97 ∷ 98 ∷ []) false)
add_with_flags_lem_example =
    add_with_flags_lem (λ unit. (unit, unit)) new_builder 7 (97 ∷ 98 ∷ []) false

add_with_flags-IsRegistered_example :
    IsRegistered (add_with_flags (λ unit. (unit, unit)) new_builder 7 (97 ∷ 98 ∷ []) false).1
add_with_flags-IsRegistered_example =
    add_with_flags-IsRegistered (λ unit. (unit, unit)) new_builder 7 (97 ∷ 98 ∷ []) false
      new_builder-IsRegistered
