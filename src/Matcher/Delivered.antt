-- ===== src/Matcher/Delivered.antt =====
-- rustmatch/src/api.rs: what `Matcher::scan` delivers, for a matcher that was built.
use rustmatch.Prelude.{
  ℕ, suc, ◌+◌, ◌<◌, ◌≤◌, ◌==◌, ==_iff, ◌≡◌, refl, sym, subst, ap, ◌∙◌, ◌↔◌, ◌⊎◌, inl, inr, Bool,
  true, false, ◌&&◌, Option, none, some, List, [], ◌∷◌, length, Memᴰ, Bool-cases, arith, append-nil,
}
use rustmatch.Error.{
  worker_unavailable, no_patterns, invalid_worker_count, Result, err, ok, >>=-eq-ok,
}
use rustmatch.Hir.{HirPattern}
use rustmatch.Context.{Units}
use rustmatch.Nfa.Database.{compile}
use rustmatch.Nfa.Accepts.{SafePatterns}
use rustmatch.Engine.Scan.{Match}
use rustmatch.Engine.Report.{Reports}
use rustmatch.Prefilter.Plan.{compile_prefilter}
use rustmatch.Prefilter.Candidates.{CandidateBitmap}
use rustmatch.Matcher.Builder.{MatcherBuilder}
use rustmatch.Matcher.Partitions.{MatcherPartition, Matcher, compile_partitions, build}
use rustmatch.Matcher.Workers.{
  is_eligible, spawns_from, outputs, SharedPlan, scan_one, shared_candidate_plan, scan_parallel,
  scan_partitions, scan_matcher,
}
use rustmatch.Matcher.Balanced.{AreCompiled, joined, compile_partitions_lem}
use rustmatch.Matcher.Merged.{IsCovered, scan_partition-Reports, scan_partition_shared-Reports}
use rustmatch.Matcher.Joined.{outputs-Reports}

abbrev partitions_of : Result Matcher → List MatcherPartition
partitions_of (ok m) = m.partitions
partitions_of _ = []

-- A matcher that was built has the partitions of the builder's patterns.
build-partitions :
    (builder : MatcherBuilder) (m : Matcher)
    → build builder ≡ ok m
    → (slices : List (List HirPattern)) × AreCompiled slices m.partitions
      × (joined slices ≡ builder.patterns)
unfolding build
build-partitions builder m h = elim (Bool-cases (length builder.patterns == 0)) [
  | inl none_there ↦ let no : err no_patterns ≡ ok m = rw none_there at h in cc no
  | inr patterns_there ↦ elim (Bool-cases (builder.worker_count == 0)) [
    | inl no_worker ↦
        let no : err invalid_worker_count ≡ ok m = rw (patterns_there, no_worker) at h in cc no
    | inr workers_there ↦
        let returned = rw (patterns_there, workers_there) at h in
        let (ps, compiled, done) =
          >>=-eq-ok
            (compile_partitions builder.patterns builder.worker_count builder.state_cache_budget) _
            returned in
        let (slices, made, all, count, near, filled, budget) =
          compile_partitions_lem builder.patterns builder.worker_count builder.state_cache_budget ps
            (ground arith) (ground arith) compiled in
        let same : ps ≡ m.partitions = ap partitions_of done in
        (slices, subst (AreCompiled slices) same made, all)
  ]
]

spawns_from-all :
    (spawned : ℕ → Bool) (i : ℕ) (ps : List MatcherPartition)
    → ((k : ℕ) → spawned k ≡ true)
    → spawns_from spawned i ps ≡ true
unfolding spawns_from
spawns_from-all spawned i [] all_start = refl
spawns_from-all spawned i (p ∷ ps) all_start =
    let here = all_start i in
    let rest = spawns_from-all spawned (suc i) ps all_start in ground arith

spawns_from-fails :
    (spawned : ℕ → Bool) (i : ℕ) (ps : List MatcherPartition) (k : ℕ)
    → i ≤ k
    → k < i + length ps
    → spawned k ≡ false
    → spawns_from spawned i ps ≡ false
unfolding spawns_from
spawns_from-fails spawned i [] k low high failed = absurd (omega arith)
spawns_from-fails spawned i (p ∷ ps) k low high failed = elim (Bool-cases (i == k)) [
  | inl here ↦
      let no : spawned i ≡ false = ap spawned ((==_iff i k).0 here) ∙ failed in
      let r : (spawned i && spawns_from spawned (suc i) ps) ≡ false = rw no refl in r
  | inr later ↦
      let rest = spawns_from-fails spawned (suc i) ps k (ground arith) (omega arith) failed in
      let r : (spawned i && spawns_from spawned (suc i) ps) ≡ false = ground arith in r
]

-- What a plan for the shared candidates may return: nothing, or candidates that hold every start
-- that the filter of one of the partitions allows.
abbrev pub IsConservative : SharedPlan → List MatcherPartition → Units → Type 0
IsConservative shared_plan ps input =
    (shared_plan ps input ≡ ok none)
    ⊎ ((c : CandidateBitmap) × (shared_plan ps input ≡ ok (some c))
        × ((p : MatcherPartition) → Memᴰ p ps → IsCovered input c p.prefilter))

module _ (spawned : ℕ → Bool) (shared_plan : SharedPlan) where
  -- The plan that the scan follows.
  abbrev Planned : Matcher → Units → Option CandidateBitmap → Type 0
  Planned m input none = shared_candidate_plan spawned shared_plan m input ≡ ok none
  Planned m input (some c) =
      (shared_candidate_plan spawned shared_plan m input ≡ ok (some c))
      × ((p : MatcherPartition) → Memᴰ p m.partitions → IsCovered input c p.prefilter)

  shared_candidate_plan-Planned :
      (m : Matcher) (input : Units)
      → IsConservative shared_plan m.partitions input
      → (c : Option CandidateBitmap) × Planned m input c
  unfolding shared_candidate_plan
  shared_candidate_plan-Planned m input (inl nothing) =
      elim (Bool-cases (
        is_eligible (length m.partitions) (length input) m.prefilter_enabled
          m.literal_prefilter_enabled)) [
            | inl eligible ↦ (none, rw eligible nothing)
            | inr small ↦ (none, rw small refl)
          ]
  shared_candidate_plan-Planned m input (inr (c, found, covers)) =
      elim (Bool-cases (
        is_eligible (length m.partitions) (length input) m.prefilter_enabled
          m.literal_prefilter_enabled)) [
            | inl eligible ↦ (some c, (rw eligible found, covers))
            | inr small ↦ (none, rw small refl)
          ]

  -- One partition is scanned alone, several with the plan, each partition for its events.
  scan_one-Reports :
      (m : Matcher) (input : Units) (c : Option CandidateBitmap)
      → Planned m input c
      → (slice : List HirPattern) (p : MatcherPartition) → Memᴰ p m.partitions
      → SafePatterns slice
      → compile slice ≡ ok p.database
      → p.prefilter ≡ compile_prefilter slice p.database
      → (x : Match)
      → Memᴰ x (scan_one spawned shared_plan m input c p) ↔ Reports input slice x.span.start x
  unfolding scan_one
  scan_one-Reports m input none planned slice p at safe compiled filtered x =
      scan_partition-Reports input slice p safe compiled filtered m.prefilter_enabled
        m.literal_prefilter_enabled x
  scan_one-Reports m input (some c) (planned, covers) slice p at safe compiled filtered x =
      scan_partition_shared-Reports input slice p safe compiled filtered c (covers p at) x

  Planned-result :
      (m : Matcher) (input : Units) (c : Option CandidateBitmap)
      → Planned m input c
      → shared_candidate_plan spawned shared_plan m input ≡ ok c
  Planned-result m input none planned = planned
  Planned-result m input (some c) (planned, covers) = planned

  -- What a scan returns where every worker starts.
  Delivers : Matcher → Units → List MatcherPartition → Type 0
  Delivers m input ps =
      (c : Option CandidateBitmap) × ((c ≡ none) ⊎ Planned m input c)
      × (scan_partitions spawned shared_plan m input ps
          ≡ ok (outputs (scan_one spawned shared_plan m input c) ps))

  scan_partitions-Delivers :
      (m : Matcher) (input : Units) (ps : List MatcherPartition)
      → ((k : ℕ) → spawned k ≡ true)
      → (c : Option CandidateBitmap) → Planned m input c
      → Delivers m input ps
  unfolding scan_partitions scan_parallel outputs Delivers
  scan_partitions-Delivers m input [] all_start c planned = (none, inl refl, refl)
  scan_partitions-Delivers m input (p ∷ []) all_start c planned =
      (none, inl refl, ap ok (sym (append-nil (scan_one spawned shared_plan m input none p))))
  scan_partitions-Delivers m input (p ∷ q ∷ ps) all_start c planned =
      let start = spawns_from-all spawned 1 (q ∷ ps) all_start in
      (c, inr planned, rw (Planned-result m input c planned, start) refl)

  -- For a builder whose patterns are safe, a matcher that it built, workers that all start, and a
  -- plan for the shared candidates that is nothing or misses no start that a partition's filter
  -- allows: a scan returns, and its events are exactly the longest non-empty matches of each of the
  -- builder's patterns, from every start of the input.
  pub scan_matcher-Reports :
      (builder : MatcherBuilder) (m : Matcher) (input : Units)
      → SafePatterns builder.patterns
      → build builder ≡ ok m
      → ((k : ℕ) → spawned k ≡ true)
      → IsConservative shared_plan m.partitions input
      → (events : List Match) × (scan_matcher spawned shared_plan m input ≡ ok events)
        × ((x : Match) → Memᴰ x events ↔ Reports input builder.patterns x.span.start x)
  unfolding scan_matcher Delivers
  scan_matcher-Reports builder m input safe built all_start conservative =
      let (slices, made, all) = build-partitions builder m built in
      let (c, planned) = shared_candidate_plan-Planned m input conservative in
      let (d, how, returned) = scan_partitions-Delivers m input m.partitions all_start c planned in
      let one = scan_one spawned shared_plan m input d in
      let safe_slices = subst SafePatterns (sym all) safe in
      (
        outputs one m.partitions,
        returned,
        λ x.
            subst (λ ps. Memᴰ x (outputs one m.partitions) ↔ Reports input ps x.span.start x) all
              (outputs-Reports input one slices m.partitions made safe_slices (each m input d how)
                x),
      )
    where
      each :
          (m : Matcher) (input : Units) (d : Option CandidateBitmap)
          → (d ≡ none) ⊎ Planned m input d
          → (slice : List HirPattern) (p : MatcherPartition) → Memᴰ p m.partitions
          → SafePatterns slice
          → compile slice ≡ ok p.database
          → p.prefilter ≡ compile_prefilter slice p.database
          → (x : Match)
          → Memᴰ x (scan_one spawned shared_plan m input d p) ↔ Reports input slice x.span.start x
      each m input d (inr planned) slice p at safe compiled filtered x =
          scan_one-Reports m input d planned slice p at safe compiled filtered x
      each m input d (inl e) slice p at safe compiled filtered x =
          subst
            (λ o.
              Memᴰ x (scan_one spawned shared_plan m input o p)
              ↔ Reports input slice x.span.start x)
            (sym e)
            (scan_partition-Reports input slice p safe compiled filtered m.prefilter_enabled
              m.literal_prefilter_enabled x)

  -- For a matcher with several partitions and a plan for the shared candidates that returns: where
  -- the worker of one of the partitions but the first does not start, a scan returns the error for
  -- this and delivers nothing.
  pub scan_matcher-unavailable :
      (m : Matcher) (input : Units) (c : Option CandidateBitmap) (k : ℕ)
      → shared_candidate_plan spawned shared_plan m input ≡ ok c
      → 0 < k
      → k < length m.partitions
      → spawned k ≡ false
      → scan_matcher spawned shared_plan m input ≡ err worker_unavailable
  unfolding scan_matcher
  scan_matcher-unavailable m input c k planned low high failed = fails m.partitions high
    where
      fails :
          (ps : List MatcherPartition)
          → k < length ps
          → scan_partitions spawned shared_plan m input ps ≡ err worker_unavailable
      fails [] lt = absurd (omega arith)
      fails (p ∷ []) lt = absurd (omega arith)
      fails (p ∷ q ∷ ps) lt =
          let stopped = spawns_from-fails spawned 1 (q ∷ ps) k low (omega arith) failed in
          rw (planned, stopped, scan_partitions, scan_parallel) refl
