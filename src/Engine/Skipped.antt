-- ===== src/Engine/Skipped.antt =====
-- rustmatch/src/engine.rs: the starts that `ScanStats` counts as scanned and as skipped.
use rustmatch.Prelude.{
  ℕ, zero, suc, ◌+◌, ◌-◌, ◌≤◌, ◌≡◌, refl, sym, subst, ap, ◌∙◌, inl, inr, Bool, true, false, not,
  ◌||◌, Option, none, some, List, [], ◌∷◌, arith, Bool-cases, Option-cases, if◌then◌else◌, length,
  ltb, min, ◌==◌,
}
use rustmatch.Context.{Units}
use rustmatch.Nfa.Database.{PatternDatabase}
use rustmatch.Engine.Scan.{Match, scan_with_assertions}
use rustmatch.Engine.CachedScan.{scan_without_assertions_dispatch}
use rustmatch.Engine.Filtered.{
  ScanStats, starts_scanned, with_cache_stats, scan_planned, scan_with_stats, plan_stats,
}
use rustmatch.Prefilter.Filter.{LiteralPrefilter, prefix_allows}
use rustmatch.Prefilter.StartTable.{StartTable, range}
use rustmatch.Prefilter.Candidates.{
  CandidateBitmap, new_bitmap, copy_prefix, insert, scan_starts, u64_max,
}
use rustmatch.Prefilter.Complete.{sampled, sample_size, found-Scanned, plan_literal-cases}
use rustmatch.Prefilter.Plan.{
  Prefilter, PrefilterBypass, ScanPlan, min_literal_input_units, table_or_all, start_or_all,
  plan_literal, plan_filter, plan, allowed, plan_starts, dense_sample, input_size, literal_disabled,
  disabled,
}

length-range : (start n : ℕ) → length (range start n) ≡ n
unfolding range
length-range start zero = refl
length-range start (suc n) = ap suc (length-range (suc start) n)

length-allowed :
    (t : StartTable) (input : Units) (starts : List ℕ)
    → length (allowed t input starts) ≤ length starts
unfolding allowed
length-allowed t input [] = omega arith
length-allowed t input (x ∷ starts) = ground (arith, length-allowed t input starts)

insert-count : (c : CandidateBitmap) (start : ℕ) → (insert c start).start_count ≤ c.start_count + 1
unfolding insert
insert-count c start = ground arith

scan_starts-count :
    (f : LiteralPrefilter) (input : Units) (starts : List ℕ) (c : CandidateBitmap) (admissions : ℕ)
    → (scan_starts f input starts (c, admissions)).0.start_count ≤ c.start_count + length starts
unfolding scan_starts
scan_starts-count f input [] c admissions = omega arith
scan_starts-count f input (x ∷ starts) c admissions =
    elim (Bool-cases (ltb (length input) (x + 3) || not (prefix_allows f input x))) [
      | inl refused ↦
          let rest = scan_starts-count f input starts c admissions in
          rw (refused, scan_starts) (omega arith)
      | inr taken ↦
          let rest = scan_starts-count f input starts (insert c x) (min (admissions + 1) u64_max) in
          rw (taken, scan_starts) (omega (arith, insert-count c x))
    ]

-- The plan scans as many starts as are counted, and no more than there are.
abbrev IsCounted : Units → ScanPlan → Type 0
IsCounted input p =
    (starts_scanned p input ≡ length (plan_starts p input))
    × (starts_scanned p input ≤ length input)

all-IsCounted : (input : Units) (why : PrefilterBypass) → IsCounted input (ScanPlan.all why)
unfolding starts_scanned plan_starts
all-IsCounted input why = (sym (length-range 0 (length input)), omega arith)

start_or_all-IsCounted :
    (p : Prefilter) (input : Units) (why : PrefilterBypass) → IsCounted input (start_or_all p why)
unfolding start_or_all starts_scanned plan_starts
start_or_all-IsCounted p input why = elim (Option-cases p.start_table) [
  | inl missing ↦
      subst (λ o. IsCounted input (table_or_all o why)) (sym missing) (all-IsCounted input why)
  | inr (t, there) ↦
      subst (λ o. IsCounted input (table_or_all o why)) (sym there)
        (
          refl,
          omega (
            arith,
            length-allowed t input (range 0 (length input)),
            length-range 0 (length input),
          ),
        )
]

copy_prefix-count :
    (c sample : CandidateBitmap) → (copy_prefix c sample).start_count ≡ sample.start_count
unfolding copy_prefix
copy_prefix-count c sample = refl

new_bitmap-count : (n : ℕ) → (new_bitmap n).start_count ≡ 0
unfolding new_bitmap
new_bitmap-count n = refl

plan_literal-IsCounted :
    (p : Prefilter) (f : LiteralPrefilter) (input : Units)
    → IsCounted input (plan_literal p f input)
unfolding starts_scanned plan_starts
plan_literal-IsCounted p f input = elim (plan_literal-cases f input p) [
  | inl dense ↦ subst (IsCounted input) (sym dense) (start_or_all-IsCounted p input dense_sample)
  | inr sparse ↦
      let size = sample_size f input in
      let b = (found-Scanned f input).bitmap in
      let sample = (sampled f input).0 in
      let first = scan_starts-count f input (range 0 size) (new_bitmap size) 0 in
      let rest =
        scan_starts-count f input (range size (length input - size))
          (copy_prefix (new_bitmap (length input)) sample) (sampled f input).1 in
      subst (IsCounted input) (sym sparse) (
        sym b.counted,
        omega (
          arith,
          first,
          rest,
          length-range 0 size,
          length-range size (length input - size),
          new_bitmap-count size,
          copy_prefix-count (new_bitmap (length input)) sample,
        ),
      )
]

plan_filter-IsCounted :
    (p : Prefilter) (input : Units) (o : Option LiteralPrefilter)
    → IsCounted input (plan_filter p o input)
unfolding plan_filter
plan_filter-IsCounted p input none = start_or_all-IsCounted p input p.literal_unavailable
plan_filter-IsCounted p input (some f) =
    elim (Bool-cases (ltb (length input) min_literal_input_units)) [
      | inl short ↦ rw short (start_or_all-IsCounted p input input_size)
      | inr long ↦ rw long (plan_literal-IsCounted p f input)
    ]

plan-IsCounted :
    (p : Prefilter) (input : Units) (enabled literal_enabled : Bool)
    → IsCounted input (plan p input enabled literal_enabled)
unfolding plan
plan-IsCounted p input false literal_enabled = all-IsCounted input disabled
plan-IsCounted p input true false = start_or_all-IsCounted p input literal_disabled
plan-IsCounted p input true true = plan_filter-IsCounted p input p.literal

with_cache_stats-starts :
    (db : PatternDatabase) (input : Units) (budget : ℕ) (starts : List ℕ) (stats : ScanStats)
    → let s = with_cache_stats db input budget starts stats in
      (s.prefilter_starts_scanned ≡ stats.prefilter_starts_scanned)
      × (s.prefilter_starts_skipped ≡ stats.prefilter_starts_skipped)
unfolding with_cache_stats
with_cache_stats-starts db input budget starts stats = elim (Bool-cases (budget == 0)) [
  | inl nfa ↦ rw nfa (refl, refl)
  | inr cached ↦ rw cached (refl, refl)
]

-- One of two scans is made.
either :
    (test : Bool) (a c : List Match × ScanStats) (all_starts k : ℕ)
    → a.1.prefilter_starts_scanned + a.1.prefilter_starts_skipped ≡ all_starts
    → c.1.prefilter_starts_scanned + c.1.prefilter_starts_skipped ≡ all_starts
    → c.1.prefilter_starts_scanned ≡ k
    → let r : List Match × ScanStats = if test then a else c in
      (r.1.prefilter_starts_scanned + r.1.prefilter_starts_skipped ≡ all_starts)
      × (test ≡ false → r.1.prefilter_starts_scanned ≡ k)
either true a c all_starts k whole whole' same = (whole, λ no. cc no)
either false a c all_starts k whole whole' same = (whole', λ _. same)

-- For every database, prefilter, budget and setting: the starts that a scan counts as scanned and as
-- skipped are together those of the input, and without assertions the scanned ones are as many as
-- the plan lists.
pub scan_with_stats-starts :
    (db : PatternDatabase) (prefilter : Prefilter) (input : Units) (budget : ℕ)
    (enabled literal_enabled : Bool)
    → let s = (scan_with_stats db prefilter input budget enabled literal_enabled).1 in
      (s.prefilter_starts_scanned + s.prefilter_starts_skipped ≡ length input)
      × (db.uses_assertions ≡ false
          → s.prefilter_starts_scanned
            ≡ length (plan_starts (plan prefilter input enabled literal_enabled) input))
unfolding scan_with_stats scan_planned
scan_with_stats-starts db prefilter input budget enabled literal_enabled =
    let p = plan prefilter input enabled literal_enabled in
    let starts = plan_starts p input in
    let (same, le) = plan-IsCounted prefilter input enabled literal_enabled in
    let (scanned, skipped) =
      with_cache_stats-starts db input budget starts
        (plan_stats p input (starts_scanned p input)) in
    either db.uses_assertions
      (
        scan_with_assertions db input (range 0 (length input)),
        record (plan_stats p input (length input)) { assertion_bypasses = 1 },
      )
      (
        scan_without_assertions_dispatch db input budget starts,
        with_cache_stats db input budget starts (plan_stats p input (starts_scanned p input)),
      )
      (length input) (length starts) (omega arith) (omega arith) (scanned ∙ same)
