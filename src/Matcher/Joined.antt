-- ===== src/Matcher/Joined.antt =====
-- rustmatch/src/api.rs: the outputs of the partitions together give the events of all patterns.
use rustmatch.Prelude.{
  ℕ, suc, ◌+◌, ◌-◌, ◌≡◌, refl, sym, ap, ◌∙◌, ◌↔◌, ◌⊎◌, inl, inr, ⊎_elim, List, [], ◌∷◌, ◌++◌,
  length, get_elem?, Memᴰ, Memᴰ-nil, Memᴰ-cons, Memᴰ-append, Bool-cases, ltb, arith,
  get_elem?-append_lt, get_elem?-append_left,
}
use rustmatch.Error.{ok}
use rustmatch.Hir.{HirPattern}
use rustmatch.Context.{Units}
use rustmatch.Nfa.Database.{compile}
use rustmatch.Nfa.Accepts.{SafePatterns}
use rustmatch.Engine.Scan.{Match}
use rustmatch.Engine.Report.{Reports}
use rustmatch.Prefilter.Plan.{compile_prefilter}
use rustmatch.Matcher.Partitions.{MatcherPartition}
use rustmatch.Matcher.Workers.{outputs}
use rustmatch.Matcher.Balanced.{AreCompiled, joined}

get_elem?-append_right {ℓ} :
    {A : Type ℓ} (xs ys : List A) (i : ℕ) → get_elem? (xs ++ ys) (length xs + i) ≡ get_elem? ys i
get_elem?-append_right [] ys i = ap (λ k. get_elem? ys k) (omega arith)
get_elem?-append_right (x ∷ xs) ys i =
    let e : suc (length xs) + i ≡ suc (length xs + i) = omega arith in
    ap (λ k. get_elem? (x ∷ xs ++ ys) k) e ∙ get_elem?-append_right xs ys i

SafePatterns-append :
    (xs ys : List HirPattern) → SafePatterns (xs ++ ys) → SafePatterns xs × SafePatterns ys
SafePatterns-append [] ys s = (tt, s)
SafePatterns-append (x ∷ xs) ys (here, s) =
    let (a, b) = SafePatterns-append xs ys s in ((here, a), b)

-- An event of one of two pattern lists is an event of both together.
Reports-append :
    (input : Units) (xs ys : List HirPattern) (start : ℕ) (x : Match)
    → Reports input (xs ++ ys) start x ↔ (Reports input xs start x ⊎ Reports input ys start x)
Reports-append input xs ys start x = (
  λ r. elim (Bool-cases (ltb r.ordinal (length xs))) [
    | inl small ↦ inl (record {
      ordinal = r.ordinal;
      pattern = r.pattern;
      at = sym (get_elem?-append_lt xs ys r.ordinal (ground arith)) ∙ r.at;
      named = r.named;
      begins = r.begins;
      longest = r.longest;
    })
    | inr large ↦
        let e : length xs + (r.ordinal - length xs) ≡ r.ordinal = ground arith in
        inr (record {
          ordinal = r.ordinal - length xs;
          pattern = r.pattern;
          at =
              sym (get_elem?-append_right xs ys (r.ordinal - length xs))
              ∙ ap (λ k. get_elem? (xs ++ ys) k) e
              ∙ r.at;
          named = r.named;
          begins = r.begins;
          longest = r.longest;
        })
  ],
  ⊎_elim
      (λ r. record {
        ordinal = r.ordinal;
        pattern = r.pattern;
        at = get_elem?-append_left xs ys r.ordinal r.pattern r.at;
        named = r.named;
        begins = r.begins;
        longest = r.longest;
      })
      (λ r. record {
        ordinal = length xs + r.ordinal;
        pattern = r.pattern;
        at = get_elem?-append_right xs ys r.ordinal ∙ r.at;
        named = r.named;
        begins = r.begins;
        longest = r.longest;
      }),
)

-- The outputs of partitions, each of which gives the events of its slice.
pub outputs-Reports :
    (input : Units) (one : MatcherPartition → List Match) (slices : List (List HirPattern))
    (ps : List MatcherPartition)
    → AreCompiled slices ps
    → SafePatterns (joined slices)
    → ((slice : List HirPattern) (p : MatcherPartition)
        → Memᴰ p ps
        → SafePatterns slice
        → compile slice ≡ ok p.database
        → p.prefilter ≡ compile_prefilter slice p.database
        → (x : Match) → Memᴰ x (one p) ↔ Reports input slice x.span.start x)
    → (x : Match) → Memᴰ x (outputs one ps) ↔ Reports input (joined slices) x.span.start x
unfolding outputs
outputs-Reports input one [] [] made safe each x =
    (λ m. absurd (Memᴰ-nil m), λ r. let at = r.at in cc at)
outputs-Reports input one [] (p ∷ ps) made safe each x = elim made [ ]
outputs-Reports input one (slice ∷ slices) [] made safe each x = elim made [ ]
outputs-Reports input one (slice ∷ slices) (p ∷ ps) ((compiled, filtered), made) safe each x =
    let (safe_here, safe_rest) = SafePatterns-append slice (joined slices) safe in
    let here = each slice p ((Memᴰ-cons p p ps).1 (inl refl)) safe_here compiled filtered x in
    let rest =
      outputs-Reports input one slices ps made safe_rest
        (λ s q m. each s q ((Memᴰ-cons q p ps).1 (inr m))) x in
    let split = Memᴰ-append x (one p) (outputs one ps) in
    let both = Reports-append input slice (joined slices) x.span.start x in
    (
      λ m. both.1 (⊎_elim (λ k. inl (here.0 k)) (λ k. inr (rest.0 k)) (split.0 m)),
      λ r. split.1 (⊎_elim (λ k. inl (here.1 k)) (λ k. inr (rest.1 k)) (both.0 r)),
    )
