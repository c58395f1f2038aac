-- ===== src/Matcher/Merged.antt =====
-- rustmatch/src/api.rs and rustmatch/src/shared_engine.rs: the events of the partitions together are
-- those of all patterns.
use rustmatch.Prelude.{
  ℕ, ◌+◌, ◌≤◌, ◌≡◌, refl, sym, subst, ◌↔◌, inl, inr, ⊎_elim, Bool, true, false, Option, none, some,
  List, [], ◌∷◌, length, Memᴰ, Memᴰ-nil, Memᴰ-cons, Bool-cases, ltb, leb, if◌then◌else◌, arith,
}
use rustmatch.Error.{ok, >>=-eq-ok}
use rustmatch.Hir.{HirPattern}
use rustmatch.Context.{Units}
use rustmatch.Nfa.Builder.{Builder}
use rustmatch.Nfa.Database.{
  PatternDatabase, compile, compile_patterns, initial, finish, any_uses_assertions,
}
use rustmatch.Nfa.Accepts.{SafePatterns}
use rustmatch.Engine.Scan.{Match}
use rustmatch.Engine.CachedScan.{scan_without_assertions_dispatch}
use rustmatch.Engine.Filtered.{scan}
use rustmatch.Engine.Report.{Reports}
use rustmatch.Engine.Exact.{scan_without_assertions_dispatch-Reports}
use rustmatch.Engine.Answers.{scan-Reports, Reports-Passes}
use rustmatch.Prefilter.Filter.{LiteralPrefilter, prefix_allows}
use rustmatch.Prefilter.StartTable.{StartTable}
use rustmatch.Prefilter.Literal.{NecessaryLiteral}
use rustmatch.Prefilter.Candidates.{CandidateBitmap, iter}
use rustmatch.Prefilter.Plan.{
  Prefilter, compile_prefilter, assertions, pattern_count, with_literals, min_literal_pattern_count,
}
use rustmatch.Matcher.Partitions.{MatcherPartition}
use rustmatch.Matcher.Workers.{
  shared_allows_start, shared_starts, literal_allows, scan_partition_shared,
}

mem-shared_starts :
    (p : Prefilter) (input : Units) (start : ℕ) (starts : List ℕ)
    → Memᴰ start starts
    → shared_allows_start p input start ≡ true
    → Memᴰ start (shared_starts p input starts)
unfolding shared_starts
mem-shared_starts p input start [] m h = absurd (Memᴰ-nil m)
mem-shared_starts p input start (x ∷ starts) m h =
    let rest = mem-shared_starts p input start starts in
    elim (Bool-cases (shared_allows_start p input x)) [
      | inl yes_x ↦ rw yes_x (
          (Memᴰ-cons start x (shared_starts p input starts)).1
            (⊎_elim (λ e. inl e) (λ k. inr (rest k h)) ((Memᴰ-cons start x starts).0 m)))
      | inr no_x ↦ rw no_x (
          ⊎_elim
            (λ e.
              let same : shared_allows_start p input x ≡ true =
                subst (λ y. shared_allows_start p input y ≡ true) e h in
              absurd (cc (same, no_x)))
            (λ k. rest k h) ((Memᴰ-cons start x starts).0 m))
    ]

-- The candidates hold every start that the filter of a prefilter allows.
pub record IsCovered (input : Units) (c : CandidateBitmap) (p : Prefilter) : Type 0 where
  pub filter : LiteralPrefilter
  pub present : p.literal ≡ some filter
  pub covers :
      (start : ℕ)
      → start + 3 ≤ length input
      → prefix_allows filter input start ≡ true
      → Memᴰ start (iter c)

allows_shared :
    (input : Units) (p : Prefilter) (f : LiteralPrefilter) (start : ℕ)
    → p.literal ≡ some f
    → start + 3 ≤ length input
    → prefix_allows f input start ≡ true
    → shared_allows_start p input start ≡ true
unfolding shared_allows_start
allows_shared input p f start at fits allowed =
    let long : leb (start + 3) (length input) ≡ true = ground arith in
    let here : literal_allows p.literal input start ≡ true = rw (at, literal_allows) allowed in
    rw (long, here) refl

-- A prefilter with literals is of patterns without assertions.
literal-plain :
    (uses few : Bool) (starts : Option StartTable) (o : Option (List NecessaryLiteral))
    (f : LiteralPrefilter)
    → (let p : Prefilter =
          if uses
          then record { start_table = none; literal = none; literal_unavailable = assertions }
          else if few
          then record { start_table = starts; literal = none; literal_unavailable = pattern_count }
          else with_literals starts o in
        p.literal)
      ≡ some f
    → uses ≡ false
literal-plain true few starts o f h = cc h
literal-plain false few starts o f h = refl

module _ (input : Units) (patterns : List HirPattern) (b : Builder) (safe : SafePatterns patterns)
    (compiled : compile_patterns patterns 0 initial ≡ ok b) where
  prefilter-plain :
      (f : LiteralPrefilter)
      → (compile_prefilter patterns (finish patterns b)).literal ≡ some f
      → any_uses_assertions patterns ≡ false
  unfolding compile_prefilter finish
  prefilter-plain f h =
      literal-plain (finish patterns b).uses_assertions
        (ltb (length patterns) min_literal_pattern_count) _ _ f h

  -- The starts of shared candidates that the partition's own filter allows give its events.
  shared-Reports :
      (budget : ℕ) (c : CandidateBitmap)
      → IsCovered input c (compile_prefilter patterns (finish patterns b))
      → (x : Match)
      → Memᴰ x (
          scan_without_assertions_dispatch
            (finish patterns b)
            input
            budget
            (shared_starts (compile_prefilter patterns (finish patterns b)) input (iter c)))
        ↔ Reports input patterns x.span.start x
  shared-Reports budget c covered x =
      let p = compile_prefilter patterns (finish patterns b) in
      let plain = prefilter-plain covered.filter covered.present in
      let starts = shared_starts p input (iter c) in
      let exact =
        scan_without_assertions_dispatch-Reports input patterns b safe compiled plain budget starts
          x in
      (
        λ m.
            let (start, k, r) = exact.0 m in
            subst (λ y. Reports input patterns y x) (sym r.begins) r,
        λ r.
            let start = x.span.start in
            let passes = Reports-Passes input patterns b safe compiled plain start x r in
            let (fits, allowed) = passes.by_literal covered.filter covered.present in
            exact.1 (
              start,
              mem-shared_starts p input start (iter c) (covered.covers start fits allowed)
                  (allows_shared input p covered.filter start covered.present fits allowed),
              r,
            ),
      )

-- A partition that was compiled from patterns.
module _ (input : Units) (patterns : List HirPattern) (p : MatcherPartition)
    (safe : SafePatterns patterns) (compiled : compile patterns ≡ ok p.database)
    (filtered : p.prefilter ≡ compile_prefilter patterns p.database) where
  builder_of :
      (b : Builder) × (compile_patterns patterns 0 initial ≡ ok b)
      × (finish patterns b ≡ p.database)
  unfolding compile
  builder_of =
      let (b, made, done) = >>=-eq-ok (compile_patterns patterns 0 initial) _ compiled in
      (b, made, cc done)

  pub scan_partition-Reports :
      (enabled literal_enabled : Bool) (x : Match)
      → Memᴰ x (scan p.database p.prefilter input p.state_cache_budget enabled literal_enabled)
        ↔ Reports input patterns x.span.start x
  scan_partition-Reports enabled literal_enabled x =
      let (b, made, same) = builder_of in
      subst
        (λ f.
          Memᴰ x (scan p.database f input p.state_cache_budget enabled literal_enabled)
          ↔ Reports input patterns x.span.start x)
        (sym filtered)
        (subst
          (λ db.
            Memᴰ x (
              scan db (compile_prefilter patterns db) input p.state_cache_budget enabled
                literal_enabled)
            ↔ Reports input patterns x.span.start x)
          same
          (scan-Reports input patterns b safe made p.state_cache_budget enabled literal_enabled x))

  pub scan_partition_shared-Reports :
      (c : CandidateBitmap)
      → IsCovered input c p.prefilter
      → (x : Match)
      → Memᴰ x (scan_partition_shared p input c) ↔ Reports input patterns x.span.start x
  unfolding scan_partition_shared
  scan_partition_shared-Reports c covered x =
      let (b, made, same) = builder_of in
      let Exact : PatternDatabase → Prefilter → Type 0 = λ db f.
        IsCovered input c f
        → Memᴰ x (
            scan_without_assertions_dispatch db input p.state_cache_budget
              (shared_starts f input (iter c)))
          ↔ Reports input patterns x.span.start x in
      subst (Exact p.database) (sym filtered)
        (subst (λ db. Exact db (compile_prefilter patterns db)) same
          (λ k. shared-Reports input patterns b safe made p.state_cache_budget c k x))
        covered
