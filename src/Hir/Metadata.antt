-- ===== src/Hir/Metadata.antt =====
-- rustmatch/src/hir.rs: the metadata of an expression (`minimum_consumed`, `nullable`) against what
-- the expression matches.
use rustmatch.Prelude.{
  ℕ, zero, suc, ◌+◌, ◌*◌, ◌≤◌, ◌≡◌, refl, subst, ap, ◌⊎◌, inl, inr, ⊎_elim, Option, none, some,
  arith, Bool, true, false, ◌||◌, ◌==◌, Bool-cases, Option-cases,
}
use rustmatch.Context.{Units, Cursor}
use rustmatch.Predicate.Vacant.{is_empty-matches}
use rustmatch.Predicate.{is_empty, matches}
use rustmatch.Hir.{
  Hir, Hirs, never, epsilon, assertion, symbol, predicate, sequence, alternation, repeat, nil, cons,
  minimum_consumed, minimum_sum, minimum_min, option_min, saturating_add, saturating_mul, nullable,
  nullable_all, nullable_any,
}
use rustmatch.Semantics.{Relation, Matches, MatchesAll, MatchesAny, Power}

-- The distance is at least the number given; no distance is at least `none`.
abbrev pub AtLeast : Option ℕ → ℕ → ℕ → Type 0
AtLeast none a b = ⊥
AtLeast (some n) a b = a + n ≤ b

AtLeast-le : (o : Option ℕ) (a b : ℕ) → AtLeast o a b → a ≤ b
AtLeast-le none a b h = absurd h
AtLeast-le (some n) a b h = omega arith

AtLeast-min :
    (o p : Option ℕ) (a b : ℕ) → AtLeast o a b ⊎ AtLeast p a b → AtLeast (option_min o p) a b
AtLeast-min none p a b (inl h) = absurd h
AtLeast-min none p a b (inr h) = h
AtLeast-min (some n) none a b (inl h) = h
AtLeast-min (some n) none a b (inr h) = absurd h
AtLeast-min (some n) (some m) a b (inl h) = omega arith
AtLeast-min (some n) (some m) a b (inr h) = omega arith

or-true : (a : Bool) {b : Bool} → b ≡ true → (a || b) ≡ true
or-true true h = refl
or-true false h = h

mul_suc : (k n : ℕ) → k * suc n ≡ k * n + k
mul_suc k n = omega arith

Power-AtLeast :
    (R : Relation) (k : ℕ)
    → ((s t : Cursor) → R s t → s.position + k ≤ t.position)
    → (low n : ℕ) (s t : Cursor) → low ≤ n
    → Power R n s t
    → s.position + k * low ≤ t.position
Power-AtLeast R k h zero zero s t l e = omega (arith, ap (λ (c : Cursor). c.position) e)
Power-AtLeast R k h (suc low) zero s t l e = absurd (omega arith)
Power-AtLeast R k h zero (suc n) s t l (m, r, p) =
    omega (arith, h s m r, Power-AtLeast R k h zero n m t (omega arith) p)
Power-AtLeast R k h (suc low) (suc n) s t l (m, r, p) =
    omega (arith, h s m r, Power-AtLeast R k h low n m t (omega arith) p, mul_suc k low)

repeat-AtLeast :
    (R : Relation) (o : Option ℕ)
    → ((s t : Cursor) → R s t → AtLeast o s.position t.position)
    → (low n : ℕ) (s t : Cursor) → suc low ≤ n
    → Power R n s t
    → AtLeast
        (elim o [ none ↦ none | some k ↦ some (saturating_mul k (suc low)) ])
        s.position
        t.position
repeat-AtLeast R o h low zero s t l p = absurd (omega arith)
repeat-AtLeast R none h low (suc n) s t l (m, r, p) = absurd (h s m r)
repeat-AtLeast R (some k) h low (suc n) s t l p =
    omega (arith, Power-AtLeast R k h (suc low) (suc n) s t l p)

module _ (input : Units) where
  mutual
    unfolding Matches minimum_consumed

    Matches-AtLeast :
        (e : Hir) (s t : Cursor)
        → Matches input e s t
        → AtLeast (minimum_consumed e) s.position t.position
    Matches-AtLeast never s t m = m
    Matches-AtLeast epsilon s t e = omega (arith, ap (λ (c : Cursor). c.position) e)
    Matches-AtLeast (assertion a) s t (e, h) = omega (arith, ap (λ (c : Cursor). c.position) e)
    Matches-AtLeast (symbol x) s t (u, at, h, e) = omega (arith, ap (λ (c : Cursor). c.position) e)
    Matches-AtLeast (predicate p) s t (u, at, h, e) = elim (Bool-cases (is_empty p)) [
      | inl none_in ↦
          absurd (let no : matches p u ≡ false = is_empty-matches p u none_in in cc (no, h))
      | inr some_in ↦ rw some_in (omega (arith, ap (λ (c : Cursor). c.position) e))
    ]
    Matches-AtLeast (sequence es) s t m = MatchesAll-AtLeast es s.position 0 s t (omega arith) m
    Matches-AtLeast (alternation es) s t m = MatchesAny-AtLeast es s t m
    Matches-AtLeast (repeat e zero high) s t (n, l, w, p) = omega (
      arith,
      Power-AtLeast (Matches input e) 0
          (λ x y m. omega (
            arith,
            AtLeast-le (minimum_consumed e) x.position y.position (Matches-AtLeast e x y m),
          ))
          0 n s t l p,
    )
    Matches-AtLeast (repeat e (suc low) high) s t (n, l, w, p) =
        repeat-AtLeast (Matches input e) (minimum_consumed e) (Matches-AtLeast e) low n s t l p

    MatchesAll-AtLeast :
        (es : Hirs) (from total : ℕ) (s t : Cursor)
        → from + total ≤ s.position
        → MatchesAll input es s t
        → AtLeast (minimum_sum es total) from t.position
    MatchesAll-AtLeast nil from total s t h e = omega (arith, ap (λ (c : Cursor). c.position) e)
    MatchesAll-AtLeast (cons e es) from total s t h (m, x, rest) =
        elim (Option-cases (minimum_consumed e)) [
          | inl is_none ↦
              absurd
                (subst (λ o. AtLeast o s.position m.position) is_none (Matches-AtLeast e s m x))
          | inr (k, is_some) ↦
              let first : s.position + k ≤ m.position =
                subst (λ o. AtLeast o s.position m.position) is_some (Matches-AtLeast e s m x) in
              rw is_some
                (MatchesAll-AtLeast es from (saturating_add total k) m t (omega arith) rest)
        ]

    MatchesAny-AtLeast :
        (es : Hirs) (s t : Cursor)
        → MatchesAny input es s t
        → AtLeast (minimum_min es) s.position t.position
    MatchesAny-AtLeast nil s t m = m
    MatchesAny-AtLeast (cons e es) s t m =
        AtLeast-min (minimum_consumed e) (minimum_min es) s.position t.position
          (⊎_elim (λ x. inl (Matches-AtLeast e s t x)) (λ x. inr (MatchesAny-AtLeast es s t x)) m)

  -- A match of an expression ends at least `minimum_consumed` units after its start; where that is
  -- `None`, there is no match.
  pub minimum_consumed_lem :
      (e : Hir) (s t : Cursor)
      → Matches input e s t
      → AtLeast (minimum_consumed e) s.position t.position
  minimum_consumed_lem = Matches-AtLeast

  Matches-le : (e : Hir) (s t : Cursor) → Matches input e s t → s.position ≤ t.position
  Matches-le e s t m =
      AtLeast-le (minimum_consumed e) s.position t.position (minimum_consumed_lem e s t m)

  MatchesAll-le : (es : Hirs) (s t : Cursor) → MatchesAll input es s t → s.position ≤ t.position
  unfolding Matches
  MatchesAll-le es s t m = Matches-le (sequence es) s t m

  Power-le :
      (e : Hir) (n : ℕ) (s t : Cursor) → Power (Matches input e) n s t → s.position ≤ t.position
  Power-le e n s t p = omega (
    arith,
    Power-AtLeast (Matches input e) 0 (λ x y m. omega (arith, Matches-le e x y m)) 0 n s t
        (omega arith) p,
  )

  mutual
    unfolding Matches nullable

    empty-nullable :
        (e : Hir) (s t : Cursor) → Matches input e s t → s.position ≡ t.position → nullable e ≡ true
    empty-nullable never s t m same = absurd m
    empty-nullable epsilon s t m same = refl
    empty-nullable (assertion a) s t m same = refl
    empty-nullable (symbol x) s t (u, at, h, e) same =
        absurd (omega (arith, ap (λ (c : Cursor). c.position) e))
    empty-nullable (predicate p) s t (u, at, h, e) same =
        absurd (omega (arith, ap (λ (c : Cursor). c.position) e))
    empty-nullable (sequence es) s t m same = empty-nullable_all es s t m same
    empty-nullable (alternation es) s t m same = empty-nullable_any es s t m same
    empty-nullable (repeat e zero high) s t m same = refl
    empty-nullable (repeat e (suc low) high) s t (zero, l, w, p) same = absurd (omega arith)
    empty-nullable (repeat e (suc low) high) s t (suc n, l, w, (m, x, p)) same =
        or-true (suc low == 0)
          (empty-nullable e s m x (omega (arith, Matches-le e s m x, Power-le e n m t p)))

    empty-nullable_all :
        (es : Hirs) (s t : Cursor)
        → MatchesAll input es s t
        → s.position ≡ t.position
        → nullable_all es ≡ true
    empty-nullable_all nil s t m same = refl
    empty-nullable_all (cons e es) s t (m, x, rest) same =
        let a = Matches-le e s m x in
        let b = MatchesAll-le es m t rest in
        rw (empty-nullable e s m x (omega arith), empty-nullable_all es m t rest (omega arith))

    empty-nullable_any :
        (es : Hirs) (s t : Cursor)
        → MatchesAny input es s t
        → s.position ≡ t.position
        → nullable_any es ≡ true
    empty-nullable_any nil s t m same = absurd m
    empty-nullable_any (cons e es) s t (inl x) same = rw (empty-nullable e s t x same)
    empty-nullable_any (cons e es) s t (inr x) same =
        let h = empty-nullable_any es s t x same in
        elim (Bool-cases (nullable e)) [ inl y ↦ rw y | inr n ↦ rw (n, h) ]

  -- An expression with a match that ends where it starts is `nullable`.
  pub nullable_lem :
      (e : Hir) (s t : Cursor) → Matches input e s t → s.position ≡ t.position → nullable e ≡ true
  nullable_lem = empty-nullable
