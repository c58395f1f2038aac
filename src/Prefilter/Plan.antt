-- ===== src/Prefilter/Plan.antt =====
-- rustmatch/src/prefilter.rs: `Prefilter` and the plan that it makes for an input.
use rustmatch.Prelude.{
  ℕ, suc, ◌-◌, ◌*◌, Bool, not, Option, none, some, List, [], ◌∷◌, length, ltb, leb, if◌then◌else◌,
  min,
}
use rustmatch.Hir.{HirPattern}
use rustmatch.Context.{Units}
use rustmatch.Nfa.Database.{PatternDatabase}
use rustmatch.Prefilter.Literal.{NecessaryLiteral, from_pattern}
use rustmatch.Prefilter.Filter.{LiteralPrefilter, compile_literals}
use rustmatch.Prefilter.StartTable.{StartTable, compile_table, allows, range}
use rustmatch.Prefilter.Candidates.{CandidateBitmap, new_bitmap, copy_prefix, iter, scan_starts}

pub data PrefilterPath : Type 0 where
  all_starts by_table by_literal : PrefilterPath

pub data PrefilterBypass : Type 0 where
  not_bypassed disabled literal_disabled assertions : PrefilterBypass
  pattern_count input_size unfilterable dense_sample : PrefilterBypass

pub record Prefilter : Type 0 where
  pub start_table : Option StartTable
  pub literal : Option LiteralPrefilter
  pub literal_unavailable : PrefilterBypass

pub data ScanPlan : Type 0 where
  all : PrefilterBypass → ScanPlan
  table : StartTable → PrefilterBypass → ScanPlan
  candidates : CandidateBitmap → ℕ → ScanPlan

abbrev pub min_literal_pattern_count : ℕ
min_literal_pattern_count = 256

abbrev pub min_literal_input_units : ℕ
min_literal_input_units = 1048576

abbrev pub density_sample_units : ℕ
density_sample_units = 65536

-- The literals of all patterns, from the ordinal on, or nothing where one pattern has none.
unfoldable pub literals_from : ℕ → List HirPattern → Option (List NecessaryLiteral)
literals_from ordinal [] = some []
literals_from ordinal (p ∷ ps) = elim (from_pattern ordinal p.expression) [
  | none ↦ none
  | some hint ↦ elim (literals_from (suc ordinal) ps) [
    | none ↦ none
    | some hints ↦ some (hint ∷ hints)
  ]
]

abbrev pub with_literals : Option StartTable → Option (List NecessaryLiteral) → Prefilter
with_literals starts none = record {
  start_table = starts;
  literal = none;
  literal_unavailable = unfilterable;
}
with_literals starts (some hints) = record {
  start_table = starts;
  literal = some (compile_literals hints);
  literal_unavailable = not_bypassed;
}

-- `Prefilter::compile`.
unfoldable pub compile_prefilter : List HirPattern → PatternDatabase → Prefilter
compile_prefilter patterns db =
    if db.uses_assertions
    then record { start_table = none; literal = none; literal_unavailable = assertions }
    else if ltb (length patterns) min_literal_pattern_count
    then record {
      start_table = compile_table db;
      literal = none;
      literal_unavailable = pattern_count;
    }
    else with_literals (compile_table db) (literals_from 0 patterns)

abbrev pub table_or_all : Option StartTable → PrefilterBypass → ScanPlan
table_or_all none why = all why
table_or_all (some t) why = table t why

unfoldable pub start_or_all : Prefilter → PrefilterBypass → ScanPlan
start_or_all p why = table_or_all p.start_table why

-- The candidates of the whole input, after those of the sample.
unfoldable pub plan_candidates : LiteralPrefilter → Units → ℕ → CandidateBitmap × ℕ → ScanPlan
plan_candidates filter input sample_len (sample, admissions) =
    let (found, total) =
      scan_starts filter input (range sample_len (length input - sample_len))
        (copy_prefix (new_bitmap (length input)) sample, admissions) in
    candidates found total

-- The branch of `plan` where there is a filter and the input is long.
unfoldable pub plan_literal : Prefilter → LiteralPrefilter → Units → ScanPlan
unfolding plan_candidates start_or_all
plan_literal p filter input =
    let sample_len = min (length input) density_sample_units in
    let (sample, admissions) =
      scan_starts filter input (range 0 sample_len) (new_bitmap sample_len, 0) in
    if leb sample_len (sample.start_count * 2)
    then start_or_all p dense_sample
    else plan_candidates filter input sample_len (sample, admissions)

unfoldable pub plan_filter : Prefilter → Option LiteralPrefilter → Units → ScanPlan
unfolding plan_literal start_or_all
plan_filter p none input = start_or_all p p.literal_unavailable
plan_filter p (some filter) input =
    if ltb (length input) min_literal_input_units
    then start_or_all p input_size
    else plan_literal p filter input

-- `Prefilter::plan`.
unfoldable pub plan : Prefilter → Units → Bool → Bool → ScanPlan
unfolding plan_filter start_or_all
plan p input enabled literal_enabled =
    if not enabled
    then all disabled
    else if not literal_enabled
    then start_or_all p literal_disabled
    else plan_filter p p.literal input

unfoldable pub path : ScanPlan → PrefilterPath
path (all why) = all_starts
path (table t why) = by_table
path (candidates c admissions) = by_literal

unfoldable pub bypass_of : ScanPlan → PrefilterBypass
bypass_of (all why) = why
bypass_of (table t why) = why
bypass_of (candidates c admissions) = not_bypassed

unfoldable pub admissions_of : ScanPlan → ℕ
admissions_of (candidates c admissions) = admissions
admissions_of _ = 0

unfoldable pub candidate_count : ScanPlan → ℕ
candidate_count (candidates c admissions) = c.start_count
candidate_count _ = 0

-- `filter(|&start| table.allows(units, start))`.
unfoldable pub allowed : StartTable → Units → List ℕ → List ℕ
allowed t input [] = []
allowed t input (start ∷ starts) =
    if allows t input start then start ∷ allowed t input starts else allowed t input starts

-- The starts that a plan scans.
unfoldable pub plan_starts : ScanPlan → Units → List ℕ
unfolding allowed
plan_starts (all why) input = range 0 (length input)
plan_starts (table t why) input = allowed t input (range 0 (length input))
plan_starts (candidates c admissions) input = iter c
