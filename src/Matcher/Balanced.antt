-- ===== src/Matcher/Balanced.antt =====
-- rustmatch/src/api.rs: how `compile_partitions` divides the patterns and the budget.
use rustmatch.Prelude.{
  ℕ, zero, suc, ◌+◌, ◌-◌, ◌*◌, ◌/◌, ◌%◌, ◌<◌, ◌≤◌, ◌≡◌, refl, sym, subst, ap, ◌∙◌, min, List, [],
  ◌∷◌, ◌++◌, length, take, drop, arith, Bool-cases, ==_iff, inl, inr, ◌==◌,
}
use rustmatch.Error.{ok, >>=-eq-ok}
use rustmatch.Hir.{HirPattern}
use rustmatch.Nfa.Database.{compile, slice}
use rustmatch.Prefilter.Plan.{compile_prefilter}
use rustmatch.Matcher.Partitions.{MatcherPartition, share, partitions_from, compile_partitions}

-- The partitions are compiled from these slices, in this order.
abbrev pub AreCompiled : List (List HirPattern) → List MatcherPartition → Type 0
AreCompiled [] [] = Unit
AreCompiled [] (p ∷ ps) = ⊥
AreCompiled (slice ∷ slices) [] = ⊥
AreCompiled (slice ∷ slices) (p ∷ ps) =
    ((compile slice ≡ ok p.database) × (p.prefilter ≡ compile_prefilter slice p.database))
    × AreCompiled slices ps

abbrev pub joined : List (List HirPattern) → List HirPattern
joined [] = []
joined (slice ∷ slices) = slice ++ joined slices

abbrev pub total_budget : List MatcherPartition → ℕ
total_budget [] = 0
total_budget (p ∷ ps) = p.state_cache_budget + total_budget ps

-- Every slice has at least `low` patterns and at most one more.
abbrev pub Near : ℕ → List (List HirPattern) → Type 0
Near low [] = Unit
Near low (slice ∷ slices) = (low ≤ length slice) × (length slice ≤ low + 1) × Near low slices

-- The first shares, up to an index.
abbrev shares_before : ℕ → ℕ → ℕ → ℕ
shares_before whole parts index = index * (whole / parts) + min index (whole % parts)

shares_before-suc :
    (whole parts index : ℕ)
    → shares_before whole parts (suc index)
      ≡ shares_before whole parts index + share whole parts index
shares_before-suc whole parts index = ground arith

shares_before-all : (whole parts : ℕ) → 0 < parts → shares_before whole parts parts ≡ whole
shares_before-all whole parts h = omega arith

shares_before-add :
    (whole parts index d : ℕ)
    → shares_before whole parts index ≤ shares_before whole parts (index + d)
shares_before-add whole parts index zero =
    let e : index + 0 ≡ index = omega arith in
    subst (λ i. shares_before whole parts index ≤ shares_before whole parts i) (sym e) (omega arith)
shares_before-add whole parts index (suc d) =
    let e : index + suc d ≡ suc (index + d) = omega arith in
    subst (λ i. shares_before whole parts index ≤ shares_before whole parts i) (sym e)
      (omega
        (arith, shares_before-add whole parts index d, shares_before-suc whole parts (index + d)))

shares_before-le :
    (whole parts index : ℕ) → 0 < parts → index ≤ parts → shares_before whole parts index ≤ whole
shares_before-le whole parts index pos le =
    let e : index + (parts - index) ≡ parts = omega arith in
    let grows = shares_before-add whole parts index (parts - index) in
    let all = ap (shares_before whole parts) e ∙ shares_before-all whole parts pos in
    omega (arith, grows, all)

share_bounds :
    (whole parts index : ℕ)
    → (whole / parts ≤ share whole parts index) × (share whole parts index ≤ whole / parts + 1)
share_bounds whole parts index = (ground arith, ground arith)

length-drop {ℓ} : {A : Type ℓ} (n : ℕ) (xs : List A) → length (drop n xs) ≡ length xs - n
length-drop zero xs = omega arith
length-drop (suc n) [] = omega arith
length-drop (suc n) (x ∷ xs) = omega (arith, length-drop n xs)

drop-nil {ℓ} : {A : Type ℓ} (n : ℕ) → ◌≡◌ {A = List A} (drop n []) []
drop-nil zero = refl
drop-nil (suc n) = refl

drop-drop {ℓ} : {A : Type ℓ} (m n : ℕ) (xs : List A) → drop n (drop m xs) ≡ drop (m + n) xs
drop-drop zero n xs = ap (λ k. drop k xs) (omega arith)
drop-drop {A = A} (suc m) n [] = drop-nil n ∙ sym (drop-nil (suc m + n))
drop-drop (suc m) n (x ∷ xs) = drop-drop m n xs ∙ ap (λ k. drop k (x ∷ xs)) later
  where
    later : suc (m + n) ≡ suc m + n
    later = omega arith

take-drop {ℓ} : {A : Type ℓ} (n : ℕ) (xs : List A) → take n xs ++ drop n xs ≡ xs
take-drop zero xs = refl
take-drop (suc n) [] = refl
take-drop (suc n) (x ∷ xs) = ap (λ ys. x ∷ ys) (take-drop n xs)

drop-all {ℓ} : {A : Type ℓ} (xs : List A) → drop (length xs) xs ≡ []
drop-all [] = refl
drop-all (x ∷ xs) = drop-all xs

length-take {ℓ} : {A : Type ℓ} (n : ℕ) (xs : List A) → n ≤ length xs → length (take n xs) ≡ n
length-take zero xs h = refl
length-take (suc n) [] h = absurd (omega arith)
length-take (suc n) (x ∷ xs) h = ap suc (length-take n xs (omega arith))

module _ (patterns : List HirPattern) (parts total : ℕ) where
  -- What the loop gives from an index on.
  record Divided (left index start : ℕ) (ps : List MatcherPartition) : Type 0 where
    slices : List (List HirPattern)
    compiled : AreCompiled slices ps
    whole : joined slices ≡ drop start patterns
    budgets : total_budget ps + shares_before total parts index ≡ total
    near : Near (length patterns / parts) slices
    count : length ps ≡ left

  partitions_from-Divided :
      (left index start : ℕ) (ps : List MatcherPartition)
      → left + index ≡ parts
      → 0 < parts
      → start ≡ shares_before (length patterns) parts index
      → partitions_from patterns parts total left index start ≡ ok ps
      → Divided left index start ps
  unfolding partitions_from
  partitions_from-Divided zero index start ps at pos here h =
      let done : [] ≡ ps = cc h in
      let end : index ≡ parts = omega arith in
      let all : start ≡ length patterns =
        here
        ∙ ap (shares_before (length patterns) parts) end
        ∙ shares_before-all (length patterns) parts pos in
      let spent : shares_before total parts index ≡ total =
        ap (shares_before total parts) end ∙ shares_before-all total parts pos in
      subst (Divided zero index start) done (record {
        slices = [];
        compiled = tt;
        whole = sym (ap (λ k. drop k patterns) all ∙ drop-all patterns);
        budgets = omega arith;
        near = tt;
        count = refl;
      })
  partitions_from-Divided (suc left) index start ps at pos here h =
      let size = share (length patterns) parts index in
      let (db, compiled, h₁) = >>=-eq-ok (compile (slice start size patterns)) _ h in
      let (rest, tail, h₂) =
        >>=-eq-ok (partitions_from patterns parts total left (suc index) (start + size)) _ h₁ in
      let next : start + size ≡ shares_before (length patterns) parts (suc index) =
        omega (arith, here, shares_before-suc (length patterns) parts index) in
      let d =
        partitions_from-Divided left (suc index) (start + size) rest (omega arith) pos next tail in
      let fits : start + size ≤ length patterns =
        subst (λ k. k ≤ length patterns) (sym next)
          (shares_before-le (length patterns) parts (suc index) pos (omega arith)) in
      let taken : length (slice start size patterns) ≡ size =
        length-take size (drop start patterns) (omega (arith, length-drop start patterns, fits)) in
      let (low, high) = share_bounds (length patterns) parts index in
      let first : MatcherPartition = record {
        database = db;
        prefilter = compile_prefilter (slice start size patterns) db;
        state_cache_budget = share total parts index;
      } in
      let same : first ∷ rest ≡ ps = cc h₂ in
      subst (Divided (suc left) index start) same (record {
        slices = slice start size patterns ∷ d.slices;
        compiled = ((compiled, refl), d.compiled);
        whole =
            ap (λ x. slice start size patterns ++ x) (d.whole ∙ sym (drop-drop start size patterns))
            ∙ take-drop size (drop start patterns);
        budgets = omega (arith, d.budgets, shares_before-suc total parts index);
        near = (omega (arith, taken, low), omega (arith, taken, high), d.near);
        count = omega (arith, d.count);
      })

quotient_positive : (n d : ℕ) → 0 < d → d ≤ n → 0 < n / d
quotient_positive n d pos le = elim (Bool-cases (n / d == 0)) [
  | inl none_left ↦
      let q : n / d ≡ 0 = (==_iff (n / d) 0).0 none_left in
      absurd (omega (arith, ap (λ k. d * k) q))
  | inr some_left ↦ ground arith
]

-- For at least one worker and one pattern: partitions that are compiled without an error are as many
-- as the smaller of these counts, each from a slice of the patterns; the slices are together the
-- patterns in their order, they differ by at most one in size and none is empty, and the budgets
-- add up to the whole budget.
pub compile_partitions_lem :
    (patterns : List HirPattern) (workers total : ℕ) (ps : List MatcherPartition)
    → 0 < workers
    → 0 < length patterns
    → compile_partitions patterns workers total ≡ ok ps
    → (slices : List (List HirPattern)) × AreCompiled slices ps
      × (joined slices ≡ patterns)
      × (length ps ≡ min workers (length patterns))
      × Near (length patterns / min workers (length patterns)) slices
      × (0 < length patterns / min workers (length patterns))
      × (total_budget ps ≡ total)
unfolding compile_partitions
compile_partitions_lem patterns workers total ps some_worker some_pattern h =
    let parts = min workers (length patterns) in
    let pos : 0 < parts = omega arith in
    let none_before : shares_before total parts 0 ≡ 0 = omega arith in
    let d =
      partitions_from-Divided patterns parts total parts 0 0 ps (omega arith) pos (omega arith) h in
    (
      d.slices,
      d.compiled,
      d.whole,
      d.count,
      d.near,
      quotient_positive (length patterns) parts pos (omega arith),
      omega (arith, d.budgets, none_before),
    )
