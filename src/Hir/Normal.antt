-- ===== src/Hir/Normal.antt =====
-- rustmatch/src/hir.rs: the constructors that normalize (`Hir::sequence`, `Hir::alternation`,
-- `Hir::repeat`) keep what an expression means.
use rustmatch.Prelude.{
  ℕ, zero, suc, ◌≤◌, ◌≡◌, refl, sym, subst, ◌∙◌, ◌⊎◌, inl, inr, ◌↔◌, ⊎_elim, Option, none, some,
  arith,
}
use rustmatch.Context.{Units, Cursor}
use rustmatch.Hir.{
  Hir, Hirs, never, epsilon, assertion, symbol, predicate, sequence, alternation, repeat, nil, cons,
  append, flatten_sequence, unwrap_sequence, sequence_of, flatten_alternation, unwrap_alternation,
  alternation_of, repeat_of,
}
use rustmatch.Semantics.{Relation, Compose, Matches, MatchesAll, MatchesAny, Within, Power}

module _ (input : Units) where
  MatchesAll-append :
      (es fs : Hirs) (s t : Cursor)
      → MatchesAll input (append es fs) s t
        ↔ ((m : Cursor) × MatchesAll input es s m × MatchesAll input fs m t)
  unfolding Matches
  MatchesAll-append nil fs s t =
      (λ x. (s, refl, x), λ (m, e, x). subst (λ y. MatchesAll input fs y t) (sym e) x)
  MatchesAll-append (cons e es) fs s t = (
    λ (m, x, rest). let (k, y, z) = (MatchesAll-append es fs m t).0 rest in (k, (m, x, y), z),
    λ (k, (m, x, y), z). (m, x, (MatchesAll-append es fs m t).1 (k, y, z)),
  )

  MatchesAny-append :
      (es fs : Hirs) (s t : Cursor)
      → MatchesAny input (append es fs) s t ↔ (MatchesAny input es s t ⊎ MatchesAny input fs s t)
  unfolding Matches
  MatchesAny-append nil fs s t = (inr, ⊎_elim (λ k. absurd k) (λ x. x))
  MatchesAny-append (cons e es) fs s t = (
    ⊎_elim (λ x. inl (inl x))
        (λ r. ⊎_elim (λ y. inl (inr y)) inr ((MatchesAny-append es fs s t).0 r)),
    ⊎_elim (⊎_elim inl (λ y. inr ((MatchesAny-append es fs s t).1 (inl y))))
        (λ z. inr ((MatchesAny-append es fs s t).1 (inr z))),
  )

  unwrap_sequence-Matches :
      (es : Hirs) (s t : Cursor) → Matches input (unwrap_sequence es) s t ↔ MatchesAll input es s t
  unfolding Matches unwrap_sequence
  unwrap_sequence-Matches nil s t = (λ x. x, λ x. x)
  unwrap_sequence-Matches (cons e nil) s t =
      (λ x. (t, x, refl), λ (m, x, e'). subst (λ y. Matches input e s y) e' x)
  unwrap_sequence-Matches (cons e (cons f es)) s t = (λ x. x, λ x. x)

  unwrap_alternation-Matches :
      (es : Hirs) (s t : Cursor)
      → Matches input (unwrap_alternation es) s t ↔ MatchesAny input es s t
  unfolding Matches unwrap_alternation
  unwrap_alternation-Matches nil s t = (λ x. x, λ x. x)
  unwrap_alternation-Matches (cons e nil) s t = (inl, ⊎_elim (λ x. x) (λ k. absurd k))
  unwrap_alternation-Matches (cons e (cons f es)) s t = (λ x. x, λ x. x)

  -- What the flattened items mean; `none` stands for an item that never matches.
  abbrev FlatMeans : Option Hirs → Cursor → Cursor → Type 0
  FlatMeans none s t = ⊥
  FlatMeans (some flat) s t = MatchesAll input flat s t

  abbrev Flattens : Hirs → Type 0
  Flattens es = (s t : Cursor) → FlatMeans (flatten_sequence es) s t ↔ MatchesAll input es s t

  -- An item in front of what is flattened.
  flatten_item :
      (o : Option Hirs) (es : Hirs) (R : Relation) (F : Hirs → Hirs)
      → ((s t : Cursor) → FlatMeans o s t ↔ MatchesAll input es s t)
      → ((rest : Hirs) (s t : Cursor)
          → MatchesAll input (F rest) s t ↔ Compose R (λ m u. MatchesAll input rest m u) s t)
      → (s t : Cursor)
      → FlatMeans (elim o [ none ↦ none | some rest ↦ some (F rest) ]) s t
        ↔ Compose R (λ m u. MatchesAll input es m u) s t
  flatten_item none es R F h front s t = (λ x. absurd x, λ (m, x, y). (h m t).1 y)
  flatten_item (some flat) es R F h front s t = (
    λ x. let (m, r, y) = (front flat s t).0 x in (m, r, (h m t).0 y),
    λ (m, r, y). (front flat s t).1 (m, r, (h m t).1 y),
  )

  flatten_cons :
      (e : Hir) (es : Hirs)
      → Flattens es
      → (s t : Cursor)
      → FlatMeans (elim (flatten_sequence es) [ none ↦ none | some rest ↦ some (cons e rest) ]) s t
        ↔ Compose (Matches input e) (λ m u. MatchesAll input es m u) s t
  unfolding Matches
  flatten_cons e es h =
      flatten_item (flatten_sequence es) es (Matches input e) (cons e) h
        (λ rest s t. (λ x. x, λ x. x))

  flatten_sequence-Matches : (es : Hirs) → Flattens es
  unfolding Matches flatten_sequence
  flatten_sequence-Matches nil s t = (λ x. x, λ x. x)
  flatten_sequence-Matches (cons never es) s t = (λ x. absurd x, λ (m, x, y). x)
  flatten_sequence-Matches (cons epsilon es) s t = (
    λ x. (s, refl, (flatten_sequence-Matches es s t).0 x),
    λ (m, e, x).
        (flatten_sequence-Matches es s t).1 (subst (λ y. MatchesAll input es y t) (sym e) x),
  )
  flatten_sequence-Matches (cons (sequence nested) es) s t =
      flatten_item (flatten_sequence es) es (λ x y. MatchesAll input nested x y) (append nested)
        (flatten_sequence-Matches es) (MatchesAll-append nested) s t
  flatten_sequence-Matches (cons (assertion a) es) s t =
      flatten_cons (assertion a) es (flatten_sequence-Matches es) s t
  flatten_sequence-Matches (cons (symbol x) es) s t =
      flatten_cons (symbol x) es (flatten_sequence-Matches es) s t
  flatten_sequence-Matches (cons (predicate p) es) s t =
      flatten_cons (predicate p) es (flatten_sequence-Matches es) s t
  flatten_sequence-Matches (cons (alternation fs) es) s t =
      flatten_cons (alternation fs) es (flatten_sequence-Matches es) s t
  flatten_sequence-Matches (cons (repeat e low high) es) s t =
      flatten_cons (repeat e low high) es (flatten_sequence-Matches es) s t

  -- The normalized sequence of a list of items matches what the plain sequence of them matches.
  pub sequence_of-Matches :
      (es : Hirs) (s t : Cursor)
      → Matches input (sequence_of es) s t ↔ Matches input (sequence es) s t
  unfolding Matches sequence_of
  sequence_of-Matches es s t = finish (flatten_sequence es) (flatten_sequence-Matches es s t)
    where
      finish :
          (o : Option Hirs)
          → (FlatMeans o s t ↔ MatchesAll input es s t)
          → Matches input (elim o [ none ↦ never | some flat ↦ unwrap_sequence flat ]) s t
            ↔ MatchesAll input es s t
      finish none h = h
      finish (some flat) h = (
        λ x. h.0 ((unwrap_sequence-Matches flat s t).0 x),
        λ y. (unwrap_sequence-Matches flat s t).1 (h.1 y),
      )

  branch : {A B C : Type 0} → B ↔ C → (A ⊎ B) ↔ (A ⊎ C)
  branch h = (⊎_elim inl (λ y. inr (h.0 y)), ⊎_elim inl (λ y. inr (h.1 y)))

  flatten_alternation-Matches :
      (es : Hirs) (s t : Cursor)
      → MatchesAny input (flatten_alternation es) s t ↔ MatchesAny input es s t
  unfolding Matches flatten_alternation
  flatten_alternation-Matches nil s t = (λ x. x, λ x. x)
  flatten_alternation-Matches (cons never es) s t =
      let h = flatten_alternation-Matches es s t in (λ x. inr (h.0 x), ⊎_elim (λ k. absurd k) h.1)
  flatten_alternation-Matches (cons (alternation fs) es) s t =
      let h = flatten_alternation-Matches es s t in
      let a = MatchesAny-append fs (flatten_alternation es) s t in
      (
        λ x. ⊎_elim inl (λ y. inr (h.0 y)) (a.0 x),
        ⊎_elim (λ x. a.1 (inl x)) (λ y. a.1 (inr (h.1 y))),
      )
  flatten_alternation-Matches (cons epsilon es) s t = branch (flatten_alternation-Matches es s t)
  flatten_alternation-Matches (cons (assertion a) es) s t =
      branch (flatten_alternation-Matches es s t)
  flatten_alternation-Matches (cons (symbol x) es) s t = branch (flatten_alternation-Matches es s t)
  flatten_alternation-Matches (cons (predicate p) es) s t =
      branch (flatten_alternation-Matches es s t)
  flatten_alternation-Matches (cons (sequence fs) es) s t =
      branch (flatten_alternation-Matches es s t)
  flatten_alternation-Matches (cons (repeat e low high) es) s t =
      branch (flatten_alternation-Matches es s t)

  -- The normalized alternation of a list of branches matches what the plain one matches.
  pub alternation_of-Matches :
      (es : Hirs) (s t : Cursor)
      → Matches input (alternation_of es) s t ↔ Matches input (alternation es) s t
  unfolding Matches alternation_of
  alternation_of-Matches es s t =
      let u = unwrap_alternation-Matches (flatten_alternation es) s t in
      let h = flatten_alternation-Matches es s t in (λ x. h.0 (u.0 x), λ y. u.1 (h.1 y))

  power_same : (n : ℕ) (s t : Cursor) → Power (λ x y. x ≡ y) n s t ↔ (s ≡ t)
  power_same zero s t = (λ e. e, λ e. e)
  power_same (suc n) s t =
      (λ (m, e, p). e ∙ (power_same n m t).0 p, λ e. (s, refl, (power_same n s t).1 e))

  repeat-zero :
      (e : Hir) (low : ℕ) (high : Option ℕ) (s t : Cursor)
      → low ≤ 0
      → Within 0 high
      → ((n : ℕ) → Within n high → Power (Matches input e) n s t → n ≡ 0)
      → (s ≡ t) ↔ Matches input (repeat e low high) s t
  unfolding Matches
  repeat-zero e low high s t none_required allowed only =
      (λ x. (0, none_required, allowed, x), back)
    where
      back : Matches input (repeat e low high) s t → s ≡ t
      back (zero, l, w, p) = p
      back (suc n, l, w, p) = absurd (omega (arith, only (suc n) w p))

  -- A repetition whose lower bound is not above its upper one is normalized to an expression that
  -- matches the same.
  pub repeat_of-Matches :
      (e : Hir) (low : ℕ) (high : Option ℕ) (s t : Cursor)
      → Within low high
      → Matches input (repeat_of e low high) s t ↔ Matches input (repeat e low high) s t
  unfolding Matches repeat_of
  repeat_of-Matches e low (some zero) s t w =
      repeat-zero e low (some zero) s t w (omega arith) (λ n le p. omega arith)
  repeat_of-Matches epsilon low high s t w =
      (λ x. (low, omega arith, w, (power_same low s t).1 x), λ (n, l, a, p). (power_same n s t).0 p)
  repeat_of-Matches never zero high s t w = repeat-zero never zero high s t (omega arith) w nothing
    where
      nothing : (n : ℕ) → Within n high → Power (Matches input never) n s t → n ≡ 0
      nothing zero a p = refl
      nothing (suc n) a (m, k, p) = absurd k
  repeat_of-Matches never (suc low) high s t w = (λ x. absurd x, back)
    where
      back : Matches input (repeat never (suc low) high) s t → ⊥
      back (zero, l, a, p) = omega arith
      back (suc n, l, a, (m, k, p)) = k
  repeat_of-Matches e (suc zero) (some (suc zero)) s t w =
      (λ x. (1, omega arith, omega arith, (t, x, refl)), back)
    where
      back : Matches input (repeat e 1 (some 1)) s t → Matches input e s t
      back (zero, l, a, p) = absurd (omega arith)
      back (suc zero, l, a, (m, x, p)) = subst (λ y. Matches input e s y) p x
      back (suc (suc n), l, a, p) = absurd (omega arith)
  repeat_of-Matches e low high s t w = (λ x. x, λ x. x)
