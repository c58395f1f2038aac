-- ===== src/Prefilter/Complete.antt =====
-- rustmatch/src/prefilter.rs: a plan scans every start that the start table and the literal filter
-- allow.
use rustmatch.Prelude.{
  ℕ, ◌+◌, ◌-◌, ◌*◌, ◌/◌, ◌≤◌, ◌<◌, ◌≡◌, refl, sym, subst, ◌⊎◌, inl, inr, ⊎_elim, Bool, true, false,
  Option, none, some, List, [], ◌∷◌, arith, Memᴰ, Memᴰ-nil, Memᴰ-cons, Bool-cases, Option-cases,
  length, ltb, leb, min,
}
use rustmatch.Context.{Units}
use rustmatch.Prefilter.Filter.{LiteralPrefilter, prefix_allows}
use rustmatch.Prefilter.StartTable.{StartTable, allows, range}
use rustmatch.Prefilter.Pairs.{mem-range, range-lt}
use rustmatch.Prefilter.Candidates.{CandidateBitmap, new_bitmap, copy_prefix, iter, scan_starts}
use rustmatch.Prefilter.Counted.{
  mem-iter, new_bitmap-IsBitmap, Scanned, scan_starts-Scanned, Copied, copy_prefix-Copied,
}
use rustmatch.Prefilter.Plan.{
  Prefilter, PrefilterBypass, ScanPlan, density_sample_units, min_literal_input_units, table_or_all,
  start_or_all, plan_candidates, plan_literal, plan_filter, plan, allowed, plan_starts,
  dense_sample, input_size, literal_disabled, disabled, candidates,
}

mem-allowed :
    (t : StartTable) (input : Units) (start : ℕ) (starts : List ℕ)
    → Memᴰ start starts
    → allows t input start ≡ true
    → Memᴰ start (allowed t input starts)
unfolding allowed
mem-allowed t input start [] m h = absurd (Memᴰ-nil m)
mem-allowed t input start (x ∷ starts) m h =
    let rest = mem-allowed t input start starts in
    elim (Bool-cases (allows t input x)) [
      | inl yes_x ↦ rw yes_x (
          (Memᴰ-cons start x (allowed t input starts)).1
            (⊎_elim (λ e. inl e) (λ k. inr (rest k h)) ((Memᴰ-cons start x starts).0 m)))
      | inr no_x ↦ rw no_x (
          ⊎_elim
            (λ e.
              let same : allows t input x ≡ true = subst (λ y. allows t input y ≡ true) e h in
              absurd (cc (same, no_x)))
            (λ k. rest k h) ((Memᴰ-cons start x starts).0 m))
    ]

-- The sample, and the whole bitmap.
module _ (f : LiteralPrefilter) (input : Units) where
  abbrev pub sample_size : ℕ
  sample_size = min (length input) density_sample_units

  abbrev pub sampled : CandidateBitmap × ℕ
  sampled = scan_starts f input (range 0 sample_size) (new_bitmap sample_size, 0)

  abbrev pub words_for : ℕ → ℕ
  words_for n = (n + 63) / 64

  sampled-Scanned :
      Scanned
        (words_for sample_size)
        f
        input
        (range 0 sample_size)
        (new_bitmap sample_size)
        sampled.0
  sampled-Scanned =
      scan_starts-Scanned (words_for sample_size) f input (range 0 sample_size)
        (new_bitmap sample_size) 0
        (λ start m.
          let lt = range-lt 0 sample_size start m in
          let wide : start < words_for sample_size * 64 = omega arith in wide)
        (new_bitmap-IsBitmap sample_size)

  with_sample-Copied :
      Copied
        (words_for (length input))
        sampled.0
        (copy_prefix (new_bitmap (length input)) sampled.0)
  with_sample-Copied =
      copy_prefix-Copied (words_for sample_size) (length input) sampled.0 (omega arith)
        sampled-Scanned.bitmap

  abbrev pub found : CandidateBitmap × ℕ
  found =
      scan_starts f input (range sample_size (length input - sample_size))
        (copy_prefix (new_bitmap (length input)) sampled.0, sampled.1)

  pub found-Scanned :
      Scanned
        (words_for (length input))
        f
        input
        (range sample_size (length input - sample_size))
        (copy_prefix (new_bitmap (length input)) sampled.0)
        found.0
  found-Scanned =
      scan_starts-Scanned (words_for (length input)) f input
        (range sample_size (length input - sample_size))
        (copy_prefix (new_bitmap (length input)) sampled.0) sampled.1
        (λ start m.
          let lt = range-lt sample_size (length input - sample_size) start m in
          let wide : start < words_for (length input) * 64 = omega arith in wide)
        with_sample-Copied.bitmap

  found-mem :
      (start : ℕ)
      → start + 3 ≤ length input
      → prefix_allows f input start ≡ true
      → Memᴰ start (iter found.0)
  found-mem start fits t = mem-iter found.0 start (elim (Bool-cases (ltb start sample_size)) [
    | inl early ↦
        let lt : start < sample_size = ground arith in
        found-Scanned.kept start (
          with_sample-Copied.kept start (
            sampled-Scanned.here start (mem-range 0 sample_size start (omega arith) (omega arith))
              fits t))
    | inr late ↦
        let ge : sample_size ≤ start = ground arith in
        found-Scanned.here start
          (mem-range sample_size (length input - sample_size) start ge (omega arith)) fits t
  ])

  -- The plan that scans the candidates, or the other one.
  pub plan_literal-cases :
      (p : Prefilter)
      → (plan_literal p f input ≡ start_or_all p dense_sample)
        ⊎ (plan_literal p f input ≡ candidates found.0 found.1)
  unfolding plan_literal plan_candidates
  plan_literal-cases p = elim (Bool-cases (leb sample_size (sampled.0.start_count * 2))) [
    | inl dense ↦ inl (rw dense refl)
    | inr sparse ↦ inr (rw sparse refl)
  ]

-- What a start passes that is wanted.
pub record Passes (p : Prefilter) (input : Units) (start : ℕ) : Type 0 where
  pub inside : start < length input
  pub by_table : (t : StartTable) → p.start_table ≡ some t → allows t input start ≡ true
  pub by_literal :
      (f : LiteralPrefilter)
      → p.literal ≡ some f
      → (start + 3 ≤ length input) × (prefix_allows f input start ≡ true)

module _ (p : Prefilter) (input : Units) (start : ℕ) (passes : Passes p input start) where
  abbrev IsPlanned : ScanPlan → Type 0
  IsPlanned x = Memᴰ start (plan_starts x input)

  all-IsPlanned : (why : PrefilterBypass) → IsPlanned (ScanPlan.all why)
  unfolding plan_starts
  all-IsPlanned why =
      let inside = passes.inside in mem-range 0 (length input) start (omega arith) (omega arith)

  start_or_all-IsPlanned : (why : PrefilterBypass) → IsPlanned (start_or_all p why)
  unfolding start_or_all plan_starts
  start_or_all-IsPlanned why = elim (Option-cases p.start_table) [
    | inl missing ↦ subst (λ o. IsPlanned (table_or_all o why)) (sym missing) (all-IsPlanned why)
    | inr (t, there) ↦
        subst (λ o. IsPlanned (table_or_all o why)) (sym there)
          (mem-allowed t input start (range 0 (length input)) (all-IsPlanned why)
            (passes.by_table t there))
  ]

  plan_literal-IsPlanned :
      (f : LiteralPrefilter) → p.literal ≡ some f → IsPlanned (plan_literal p f input)
  unfolding plan_starts
  plan_literal-IsPlanned f there = elim (plan_literal-cases f input p) [
    | inl dense ↦ subst IsPlanned (sym dense) (start_or_all-IsPlanned dense_sample)
    | inr sparse ↦
        let (fits, t) = passes.by_literal f there in
        subst IsPlanned (sym sparse) (found-mem f input start fits t)
  ]

  plan_filter-IsPlanned :
      (o : Option LiteralPrefilter) → p.literal ≡ o → IsPlanned (plan_filter p o input)
  unfolding plan_filter
  plan_filter-IsPlanned none there = start_or_all-IsPlanned p.literal_unavailable
  plan_filter-IsPlanned (some f) there =
      elim (Bool-cases (ltb (length input) min_literal_input_units)) [
        | inl short ↦ rw short (start_or_all-IsPlanned input_size)
        | inr long ↦ rw long (plan_literal-IsPlanned f there)
      ]

  -- For every setting: a start in the input that the start table allows, if there is one, and whose
  -- prefix the literal filter allows with three units left, if there is one, is among the starts
  -- that the plan scans.
  pub plan-IsPlanned :
      (enabled literal_enabled : Bool)
      → Memᴰ start (plan_starts (plan p input enabled literal_enabled) input)
  unfolding plan
  plan-IsPlanned false literal_enabled = all-IsPlanned disabled
  plan-IsPlanned true false = start_or_all-IsPlanned literal_disabled
  plan-IsPlanned true true = plan_filter-IsPlanned p.literal refl
