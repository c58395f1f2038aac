-- ===== src/Engine/Answers.antt =====
-- rustmatch/src/engine.rs: `scan` over what rustmatch/src/nfa.rs and rustmatch/src/prefilter.rs
-- compile from patterns.
use rustmatch.Prelude.{
  ℕ, ◌+◌, ◌<◌, ◌≤◌, ◌≡◌, refl, sym, subst, ap, ◌∙◌, ◌↔◌, inl, inr, Bool, true, false, some, List,
  arith, Memᴰ, Bool-cases, if◌then◌else◌, length, get_elem?, drop, ltb, ◌++◌, length-append,
}
use rustmatch.Error.{ok}
use rustmatch.Hir.{HirPattern}
use rustmatch.Context.{Units}
use rustmatch.Semantics.{Matches}
use rustmatch.Nfa.Builder.{Builder}
use rustmatch.Nfa.Database.{
  compile_patterns, initial, finish, any_uses_assertions, state_count, PatternDatabase,
}
use rustmatch.Nfa.Accepts.{SafePatterns}
use rustmatch.Nfa.Sound.{compile_patterns_iff}
use rustmatch.Engine.Scan.{Match, scan_with_assertions}
use rustmatch.Engine.CachedScan.{scan_without_assertions_dispatch}
use rustmatch.Engine.Longest.{begins_at, ends_at, EndsAt}
use rustmatch.Engine.Correct.{finish-target, root_in_range, EndsAt-Accepts}
use rustmatch.Engine.Report.{Reports, scan_with_assertions-Reports}
use rustmatch.Engine.Exact.{finish-plain, scan_without_assertions_dispatch-Reports}
use rustmatch.Engine.Filtered.{
  scan_planned, scan_with_stats, scan, ScanStats, plan_stats, with_cache_stats, starts_scanned,
}
use rustmatch.Prefilter.Literal.{NecessaryLiteral}
use rustmatch.Prefilter.Spelling.{IsPrefix}
use rustmatch.Prefilter.Hint.{Matches-inside, from_pattern-IsPrefix}
use rustmatch.Prefilter.Filter.{LiteralPrefilter, compile_literals, prefix_allows}
use rustmatch.Prefilter.Admits.{length-drop, prefix_allows-IsPrefix}
use rustmatch.Prefilter.StartTable.{StartTable, compile_table, range}
use rustmatch.Prefilter.Pairs.{mem-range}
use rustmatch.Prefilter.Passes.{allows-EndsAt}
use rustmatch.Prefilter.Plan.{
  ScanPlan, literals_from, compile_prefilter, min_literal_pattern_count, plan, plan_starts,
}
use rustmatch.Prefilter.Assembled.{literals_from-HasLiterals, assembled-table, assembled-literal}
use rustmatch.Prefilter.Complete.{Passes, plan-IsPlanned}

abbrev chosen : Bool → List Match × ScanStats → List Match × ScanStats → List Match
chosen test a c = let r : List Match × ScanStats = if test then a else c in r.0

module _ (input : Units) (patterns : List HirPattern) (b : Builder) (safe : SafePatterns patterns)
    (compiled : compile_patterns patterns 0 initial ≡ ok b) where
  prefilter-table :
      (t : StartTable)
      → (compile_prefilter patterns (finish patterns b)).start_table ≡ some t
      → compile_table (finish patterns b) ≡ some t
  unfolding compile_prefilter
  prefilter-table t h =
      let db = finish patterns b in
      assembled-table db.uses_assertions (ltb (length patterns) min_literal_pattern_count)
        (compile_table db) (literals_from 0 patterns) t h

  prefilter-literal :
      (f : LiteralPrefilter)
      → (compile_prefilter patterns (finish patterns b)).literal ≡ some f
      → (hints : List NecessaryLiteral) × (literals_from 0 patterns ≡ some hints)
        × (compile_literals hints ≡ f)
  unfolding compile_prefilter
  prefilter-literal f h =
      let db = finish patterns b in
      assembled-literal db.uses_assertions (ltb (length patterns) min_literal_pattern_count)
        (compile_table db) (literals_from 0 patterns) f h

  match_inside :
      (p : HirPattern) (start e : ℕ)
      → start < e
      → Matches input p.expression (begins_at start) (ends_at e)
      → start < length input
  match_inside p start e lt m = Matches-inside input p.expression (begins_at start) (ends_at e) m lt

  Reports-inside : (start : ℕ) (x : Match) → Reports input patterns start x → start < length input
  Reports-inside start x r =
      let l = r.longest in match_inside r.pattern start x.span.end l.after l.matches

  root-EndsAt :
      (start o e : ℕ) (p : HirPattern)
      → get_elem? patterns o ≡ some p
      → Matches input p.expression (begins_at start) (ends_at e)
      → EndsAt
          (finish patterns b)
          input
          (finish-target input patterns b safe compiled)
          (finish patterns b).root
          (begins_at start)
          o
          e
  unfolding finish
  root-EndsAt start o e p at m = (EndsAt-Accepts input patterns b safe compiled o start e).1 (
      (compile_patterns_iff input patterns b safe compiled (begins_at start) (ends_at e) o).1
        (p, at, m))

  root-lt : (finish patterns b).root < state_count (finish patterns b)
  unfolding finish
  root-lt = root_in_range input patterns b safe compiled

  finish-uses_assertions : (finish patterns b).uses_assertions ≡ any_uses_assertions patterns
  unfolding finish
  finish-uses_assertions = refl

  pub Reports-Passes :
      any_uses_assertions patterns ≡ false
      → (start : ℕ) (x : Match) → Reports input patterns start x
      → Passes (compile_prefilter patterns (finish patterns b)) input start
  Reports-Passes plain start x r =
      let db = finish patterns b in
      let l = r.longest in
      let e = x.span.end in
      record {
        inside = Reports-inside start x r;
        by_table = λ t h.
            allows-EndsAt db input (finish-target input patterns b safe compiled)
              (finish-plain input patterns b safe compiled plain) root-lt t (prefilter-table t h)
              start r.ordinal e l.after (root-EndsAt start r.ordinal e r.pattern r.at l.matches);
        by_literal = λ f h.
            let (hints, all, same) = prefilter-literal f h in
            let has = literals_from-HasLiterals 0 patterns hints all in
            let (hint, m, (o, found)) = has.literal r.ordinal r.pattern r.at in
            let (long, pre) =
              from_pattern-IsPrefix input o r.pattern.expression hint (begins_at start) (ends_at e)
                found l.matches in
            (
              prefix_fits hint.units start long pre (Reports-inside start x r),
              subst (λ g. prefix_allows g input start ≡ true) same
                  (prefix_allows-IsPrefix hints hint input start has.long m long pre),
            );
      }
    where
      prefix_fits :
          (units : List ℕ) (start : ℕ)
          → 3 ≤ length units
          → IsPrefix units (drop start input)
          → start < length input
          → start + 3 ≤ length input
      prefix_fits units start long (r, e) lt =
          let size : length (units ++ r) ≡ length (drop start input) = ap length e in
          omega (arith, length-append units r, length-drop start input)

  -- For patterns whose expressions are safe and that compile without an error: with every budget
  -- for the cache and every setting of the prefilter, the events of a scan are exactly the longest
  -- non-empty matches of each pattern, from every start of the input.
  pub scan-Reports :
      (budget : ℕ) (enabled literal_enabled : Bool) (x : Match)
      → Memᴰ x (
          scan
            (finish patterns b)
            (compile_prefilter patterns (finish patterns b))
            input
            budget
            enabled
            literal_enabled)
        ↔ Reports input patterns x.span.start x
  unfolding scan scan_with_stats scan_planned
  scan-Reports budget enabled literal_enabled x =
      let db = finish patterns b in
      let p = plan (compile_prefilter patterns db) input enabled literal_enabled in
      let every = range 0 (length input) in
      elim (Bool-cases (any_uses_assertions patterns)) [
        | inl some_use ↦
            let uses : db.uses_assertions ≡ true = finish-uses_assertions ∙ some_use in
            let same : scan db (compile_prefilter patterns db) input budget enabled literal_enabled
                ≡ scan_with_assertions db input every =
              ap
                (λ u.
                  chosen u (scan_with_assertions db input every, with_assertions_stats p)
                    (
                      scan_without_assertions_dispatch db input budget (plan_starts p input),
                      planned_stats db budget p,
                    ))
                uses in
            from_starts every same
              (scan_with_assertions-Reports input patterns b safe compiled every x)
              (λ r.
                let lt = Reports-inside x.span.start x r in
                mem-range 0 (length input) x.span.start (omega arith) (omega arith))
        | inr plain ↦
            let uses : db.uses_assertions ≡ false = finish-uses_assertions ∙ plain in
            let same : scan db (compile_prefilter patterns db) input budget enabled literal_enabled
                ≡ scan_without_assertions_dispatch db input budget (plan_starts p input) =
              ap
                (λ u.
                  chosen u (scan_with_assertions db input every, with_assertions_stats p)
                    (
                      scan_without_assertions_dispatch db input budget (plan_starts p input),
                      planned_stats db budget p,
                    ))
                uses in
            from_starts (plan_starts p input) same
              (scan_without_assertions_dispatch-Reports input patterns b safe compiled plain budget
                (plan_starts p input) x)
              (λ r.
                plan-IsPlanned (compile_prefilter patterns db) input x.span.start
                  (Reports-Passes plain x.span.start x r) enabled literal_enabled)
      ]
    where
      with_assertions_stats : ScanPlan → ScanStats
      with_assertions_stats p = record (plan_stats p input (length input)) {
        assertion_bypasses = 1;
      }

      planned_stats : PatternDatabase → ℕ → ScanPlan → ScanStats
      planned_stats db budget p =
          with_cache_stats db input budget (plan_starts p input)
            (plan_stats p input (starts_scanned p input))

      from_starts :
          {events events' : List Match} (starts : List ℕ)
          → events ≡ events'
          → Memᴰ x events' ↔ ((start : ℕ) × Memᴰ start starts × Reports input patterns start x)
          → (Reports input patterns x.span.start x → Memᴰ x.span.start starts)
          → Memᴰ x events ↔ Reports input patterns x.span.start x
      from_starts starts same exact planned = (
        λ m.
            let (start, k, r) = exact.0 (subst (Memᴰ x) same m) in
            subst (λ y. Reports input patterns y x) (sym r.begins) r,
        λ r. subst (Memᴰ x) (sym same) (exact.1 (x.span.start, planned r, r)),
      )
