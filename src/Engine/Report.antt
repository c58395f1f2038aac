-- ===== src/Engine/Report.antt =====
-- rustmatch/src/engine.rs: what a scan reports, over all starts and all patterns.
use rustmatch.Prelude.{
  ℕ, zero, suc, ◌+◌, ◌<◌, ◌≤◌, ◌≡◌, refl, sym, subst, ap, ap₂, ◌∙◌, ◌⊎◌, inl, inr, ◌↔◌, ⊎_elim,
  Option, none, some, List, [], ◌∷◌, map, arith, Memᴰ, Memᴰ-nil, Memᴰ-cons, Memᴰ-append, Memᴰ-map,
  get_elem?, get_elem?-length, get_or, get_or_beyond, length, Bool-cases, ltb,
}
use rustmatch.Error.{ok}
use rustmatch.Hir.{HirPattern}
use rustmatch.Context.{Units}
use rustmatch.Semantics.{Matches}
use rustmatch.Nfa.Builder.{Builder}
use rustmatch.Nfa.Database.{compile_patterns, initial, finish, PatternDatabase}
use rustmatch.Nfa.Layout.{finish_lem}
use rustmatch.Nfa.Accepts.{SafePatterns}
use rustmatch.Nfa.Ordinals.{terminal-lt}
use rustmatch.Engine.Closure.{follows_assertions}
use rustmatch.Engine.Scan.{
  Match, Ends, best, end_or_zero, scan_start, scan_starts, scan_with_assertions, deliver,
}
use rustmatch.Engine.Longest.{begins_at, ends_at}
use rustmatch.Engine.Events.{present_from, events_of, OrdinalsInRange, deliver-events_of}
use rustmatch.Engine.Dispatch.{scan_start-IsListed}
use rustmatch.Engine.Correct.{length-pattern_ids, sizes, scan_start-longest}

-- The ordinals present are those that have an end.
mem-present :
    (k o : ℕ) (bs : List (Option ℕ))
    → Memᴰ o (present_from k bs) ↔ ((i : ℕ) × (e : ℕ) × (o ≡ i + k) × (get_or bs i none ≡ some e))
unfolding present_from
mem-present k o [] = (λ m. absurd (Memᴰ-nil m), λ (i, e, p, h). cc)
mem-present k o (none ∷ bs) =
    let rest = mem-present (suc k) o bs in
    (
      λ m. let (i, e, p, h) = rest.0 m in (suc i, e, omega arith, h),
      λ (i, e, p, h). rest.1 (earlier i e p h),
    )
  where
    earlier :
        (i e : ℕ)
        → o ≡ i + k
        → get_or (none ∷ bs) i none ≡ some e
        → (j : ℕ) × (e' : ℕ) × (o ≡ j + suc k) × (get_or bs j none ≡ some e')
    earlier zero e p h = cc h
    earlier (suc i) e p h = (i, e, omega arith, h)
mem-present k o (some b ∷ bs) =
    let rest = mem-present (suc k) o bs in
    let split = Memᴰ-cons o k (present_from (suc k) bs) in
    (
      λ m.
          ⊎_elim (λ e. (zero, b, omega arith, refl))
            (λ j. let (i, e, p, h) = rest.0 j in (suc i, e, omega arith, h)) (split.0 m),
      λ (i, e, p, h). split.1 (⊎_elim inl (λ x. inr (rest.1 x)) (earlier i e p h)),
    )
  where
    earlier :
        (i e : ℕ)
        → o ≡ i + k
        → get_or (some b ∷ bs) i none ≡ some e
        → (o ≡ k) ⊎ ((j : ℕ) × (e' : ℕ) × (o ≡ j + suc k) × (get_or bs j none ≡ some e'))
    earlier zero e p h = inl (omega arith)
    earlier (suc i) e p h = inr (i, e, omega arith, h)

abbrev event : PatternDatabase → ℕ → ℕ → ℕ → Match
event db start o e = record {
  pattern_id = get_or db.pattern_ids o 0;
  span = record { start = start; end = e };
}

mem-events_of :
    (db : PatternDatabase) (start : ℕ) (bs : List (Option ℕ)) (x : Match)
    → Memᴰ x (events_of db start bs)
      ↔ ((o : ℕ) × (e : ℕ) × (get_or bs o none ≡ some e) × (x ≡ event db start o e))
unfolding events_of
mem-events_of db start bs x =
    let named = λ (o : ℕ). event db start o (end_or_zero (get_or bs o none)) in
    let through = Memᴰ-map named x (present_from 0 bs) in
    (
      λ m.
          let (o, k, same) = through.0 m in
          let (i, e, p, h) = (mem-present 0 o bs).0 k in
          let at : i ≡ o = omega arith in
          let h' = subst (λ j. get_or bs j none ≡ some e) at h in
          (o, e, h', same ∙ ap (λ y. event db start o (end_or_zero y)) h'),
      λ (o, e, h, same). through.1 (
        o,
        (mem-present 0 o bs).1 (o, e, omega arith, h),
        same ∙ ap (λ y. event db start o (end_or_zero y)) (sym h),
      ),
    )

pattern_id-map :
    (patterns : List HirPattern) (i : ℕ) (p : HirPattern)
    → get_elem? patterns i ≡ some p
    → get_or (map (λ (x : HirPattern). x.pattern_id) patterns) i 0 ≡ p.pattern_id
pattern_id-map [] i p h = cc
pattern_id-map (x ∷ xs) zero p h = let e : x ≡ p = cc h in ap (λ (y : HirPattern). y.pattern_id) e
pattern_id-map (x ∷ xs) (suc i) p h = pattern_id-map xs i p h

-- The longest non-empty match of the pattern from the start ends there.
pub record IsLongest (input : Units) (p : HirPattern) (start e : ℕ) : Type 0 where
  pub after : start < e
  pub matches : Matches input p.expression (begins_at start) (ends_at e)
  pub most :
      (e' : ℕ) → start < e' → Matches input p.expression (begins_at start) (ends_at e') → e' ≤ e

-- An event of the start: the longest match of one of the patterns.
pub record Reports (input : Units) (patterns : List HirPattern) (start : ℕ) (x : Match)
    : Type 0 where
  pub ordinal : ℕ
  pub pattern : HirPattern
  pub at : get_elem? patterns ordinal ≡ some pattern
  pub named : x.pattern_id ≡ pattern.pattern_id
  pub begins : x.span.start ≡ start
  pub longest : IsLongest input pattern start x.span.end

module _ (input : Units) (patterns : List HirPattern) (b : Builder) (safe : SafePatterns patterns)
    (compiled : compile_patterns patterns 0 initial ≡ ok b) where
  pub finish-OrdinalsInRange : OrdinalsInRange (finish patterns b)
  finish-OrdinalsInRange q o m =
      let (count, edges, ends) = finish_lem patterns b (sizes input patterns b safe compiled) in
      let lt = terminal-lt patterns b safe compiled q o (subst (Memᴰ o) (ends q) m) in
      omega (arith, length-pattern_ids patterns b)

  pattern_id_at :
      (i : ℕ) (p : HirPattern)
      → get_elem? patterns i ≡ some p
      → get_or (finish patterns b).pattern_ids i 0 ≡ p.pattern_id
  unfolding finish
  pattern_id_at i p h = pattern_id-map patterns i p h

  abbrev ends_of : ℕ → Ends
  ends_of start = scan_start (finish patterns b) (follows_assertions input) input 0 start

  reported :
      (start i e : ℕ) (p : HirPattern)
      → get_elem? patterns i ≡ some p
      → best (ends_of start) i ≡ some e
      → IsLongest input p start e
  reported start i e p at h =
      elim (scan_start-longest input patterns b safe compiled i p start at) [
        | inl (e', found, lt, m, most) ↦
            let same : some e' ≡ some e = sym found ∙ h in
            let eq : e' ≡ e = cc same in
            subst (IsLongest input p start) eq (record { after = lt; matches = m; most = most })
        | inr (empty, nothing) ↦ absurd (let no : none ≡ some e = sym empty ∙ h in cc no)
      ]

  present :
      (start i e : ℕ) (p : HirPattern)
      → get_elem? patterns i ≡ some p
      → IsLongest input p start e
      → best (ends_of start) i ≡ some e
  present start i e p at h = elim (scan_start-longest input patterns b safe compiled i p start at) [
    | inl (e', found, lt, m, most) ↦
        let up = most e h.after h.matches in
        let down = h.most e' lt m in let eq : e' ≡ e = omega arith in found ∙ ap some eq
    | inr (empty, nothing) ↦ absurd (nothing e h.after h.matches)
  ]

  deliver-Reports :
      (start : ℕ) (x : Match)
      → Memᴰ x (deliver (finish patterns b) start (ends_of start)) ↔ Reports input patterns start x
  deliver-Reports start x =
      let db = finish patterns b in
      let bs = (ends_of start).best_end in
      let listed =
        scan_start-IsListed db finish-OrdinalsInRange (follows_assertions input) input 0 start in
      let all = deliver-events_of db start (ends_of start) listed in
      let size = length-pattern_ids patterns b in
      (
        λ m.
            let (o, e, h, same) = (mem-events_of db start bs x).0 (subst (Memᴰ x) all m) in
            let (p, at) = get_elem?-length patterns o (in_range bs o e h (listed.size ∙ size)) in
            record {
              ordinal = o;
              pattern = p;
              at = at;
              named = ap (λ (y : Match). y.pattern_id) same ∙ pattern_id_at o p at;
              begins = ap (λ (y : Match). y.span.start) same;
              longest =
                  subst (IsLongest input p start) (ap (λ (y : Match). y.span.end) (sym same))
                    (reported start o e p at h);
            },
        λ r.
            let h = present start r.ordinal x.span.end r.pattern r.at r.longest in
            let id = r.named ∙ sym (pattern_id_at r.ordinal r.pattern r.at) in
            subst (Memᴰ x) (sym all) (
              (mem-events_of db start bs x).1 (
                r.ordinal,
                x.span.end,
                h,
                ap₂
                    (λ i s. record {
                      pattern_id = i;
                      span = record { start = s; end = x.span.end };
                    })
                    id r.begins,
              )),
      )
    where
      in_range :
          (bs : List (Option ℕ)) (o e : ℕ)
          → get_or bs o none ≡ some e
          → length bs ≡ length patterns
          → o < length patterns
      in_range bs o e h size = elim (Bool-cases (ltb o (length bs))) [
        | inl lt ↦ ground arith
        | inr ge ↦
            let beyond = get_or_beyond bs o none (ground arith) in
            let gone : none ≡ some e = sym beyond ∙ h in absurd (cc gone)
      ]

  scan_starts-Reports :
      (starts : List ℕ) (x : Match)
      → Memᴰ x (scan_starts (finish patterns b) (follows_assertions input) input 0 starts)
        ↔ ((start : ℕ) × Memᴰ start starts × Reports input patterns start x)
  unfolding scan_starts
  scan_starts-Reports [] x = (λ m. absurd (Memᴰ-nil m), λ (start, m, r). absurd (Memᴰ-nil m))
  scan_starts-Reports (start ∷ starts) x =
      let db = finish patterns b in
      let split =
        Memᴰ-append x (deliver db start (ends_of start))
          (scan_starts db (follows_assertions input) input 0 starts) in
      let here = deliver-Reports start x in
      let rest = scan_starts-Reports starts x in
      (
        λ m.
            ⊎_elim (λ k. (start, (Memᴰ-cons start start starts).1 (inl refl), here.0 k))
              (λ k. let (s, j, r) = rest.0 k in (s, (Memᴰ-cons s start starts).1 (inr j), r))
              (split.0 m),
        λ (s, m, r). split.1 (
            ⊎_elim (λ e. inl (here.1 (subst (λ y. Reports input patterns y x) e r)))
              (λ j. inr (rest.1 (s, j, r))) ((Memᴰ-cons s start starts).0 m)),
      )

  -- For patterns whose expressions are safe and that compile without an error: the events of a scan
  -- over the starts given are exactly the longest non-empty matches, of each pattern from each of
  -- these starts that has one.
  pub scan_with_assertions-Reports :
      (starts : List ℕ) (x : Match)
      → Memᴰ x (scan_with_assertions (finish patterns b) input starts)
        ↔ ((start : ℕ) × Memᴰ start starts × Reports input patterns start x)
  unfolding scan_with_assertions finish
  scan_with_assertions-Reports starts x = scan_starts-Reports starts x
