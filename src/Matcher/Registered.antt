-- ===== src/Matcher/Registered.antt =====
-- rustmatch/src/api.rs: what `MatcherBuilder::add_with_flags` leaves in the builder.
use rustmatch.Prelude.{
  ℕ, zero, suc, ◌==◌, ==_iff, ◌||◌, ◌≡◌, refl, sym, subst, ap, ◌∙◌, ◌↔◌, ◌⊎◌, inl, inr, ⊎_elim,
  Bool, true, some, List, [], ◌∷◌, ◌++◌, length, get_elem?, Memᴰ, Memᴰ-nil, Memᴰ-cons, Bool-cases,
  arith, get_elem?-concat, get_elem?-append_left,
}
use rustmatch.Error.{Error, duplicate_pattern_id, Result, out_of_fuel, err, ok}
use rustmatch.Hir.{Hir, HirPattern, hir_pattern}
use rustmatch.Parser.{parse_with_flags}
use rustmatch.Parser.Outcome.{Outcome, returns, fails, IsDiagnosed}
use rustmatch.Parser.Totals.{parse_with_flags-Outcome}
use rustmatch.Matcher.Builder.{MatcherBuilder, contains, register, add_with_flags, new_builder}

pub contains_iff : (xs : List ℕ) (x : ℕ) → (contains xs x ≡ true) ↔ Memᴰ x xs
unfolding contains
contains_iff [] x = (λ h. cc h, λ m. absurd (Memᴰ-nil m))
contains_iff (y ∷ ys) x =
    let rest = contains_iff ys x in
    let split = Memᴰ-cons x y ys in
    (
      λ h. elim (Bool-cases (y == x)) [
        | inl same ↦ split.1 (inl (sym ((==_iff y x).0 same)))
        | inr other ↦ split.1 (inr (rest.0 (ground arith)))
      ],
      λ m.
          ⊎_elim
            (λ e.
              let same : (y == x) ≡ true = (==_iff y x).1 (sym e) in
              let r : ((y == x) || contains ys x) ≡ true = rw same refl in r)
            (λ k.
              let later = rest.1 k in
              let r : ((y == x) || contains ys x) ≡ true = ground arith in r)
            (split.0 m),
    )

-- The identifiers reserved are those of the patterns, and no two patterns have the same one.
pub record IsRegistered (builder : MatcherBuilder) : Type 0 where
  pub reserved :
      (i : ℕ) (p : HirPattern)
      → get_elem? builder.patterns i ≡ some p
      → Memᴰ p.pattern_id builder.pattern_ids
  pub registered :
      (id : ℕ)
      → Memᴰ id builder.pattern_ids
      → (i : ℕ) × (p : HirPattern) × (get_elem? builder.patterns i ≡ some p) × (p.pattern_id ≡ id)
  pub distinct :
      (i j : ℕ) (p q : HirPattern)
      → get_elem? builder.patterns i ≡ some p
      → get_elem? builder.patterns j ≡ some q
      → p.pattern_id ≡ q.pattern_id
      → i ≡ j

concat-cases {ℓ} :
    {A : Type ℓ} (xs : List A) (x y : A) (i : ℕ)
    → get_elem? (xs ++ x ∷ []) i ≡ some y
    → (get_elem? xs i ≡ some y) ⊎ ((i ≡ length xs) × (x ≡ y))
concat-cases [] x y zero h = let e : x ≡ y = cc h in inr (refl, e)
concat-cases [] x y (suc i) h = cc h
concat-cases (z ∷ xs) x y zero h = inl h
concat-cases (z ∷ xs) x y (suc i) h =
    ⊎_elim (λ k. inl k) (λ (e, same). inr (ap suc e, same)) (concat-cases xs x y i h)

abbrev pub registered_with : MatcherBuilder → ℕ → HirPattern → MatcherBuilder
registered_with builder pattern_id parsed = record builder {
  pattern_ids = pattern_id ∷ builder.pattern_ids;
  patterns = builder.patterns ++ parsed ∷ [];
}

registered_with-IsRegistered :
    (builder : MatcherBuilder) (id : ℕ) (parsed : HirPattern)
    → IsRegistered builder
    → parsed.pattern_id ≡ id
    → ¬ Memᴰ id builder.pattern_ids
    → IsRegistered (registered_with builder id parsed)
registered_with-IsRegistered builder id parsed h same fresh = record {
  reserved = λ i p at.
      ⊎_elim (λ k. (Memᴰ-cons p.pattern_id id builder.pattern_ids).1 (inr (h.reserved i p k)))
        (λ (e, is).
          (Memᴰ-cons p.pattern_id id builder.pattern_ids).1
            (inl (sym (ap (λ (x : HirPattern). x.pattern_id) is) ∙ same)))
        (concat-cases builder.patterns parsed p i at);
  registered = λ x m.
      ⊎_elim
        (λ e.
          (length builder.patterns, parsed, get_elem?-concat builder.patterns parsed, same ∙ sym e))
        (λ k.
          let (i, p, at, named) = h.registered x k in
          (i, p, get_elem?-append_left builder.patterns (parsed ∷ []) i p at, named))
        ((Memᴰ-cons x id builder.pattern_ids).0 m);
  distinct = λ i j p q at at' e.
      let old =
        λ (k : ℕ) (r : HirPattern) (a : get_elem? builder.patterns k ≡ some r)
            (s : r.pattern_id ≡ id).
          fresh (subst (λ x. Memᴰ x builder.pattern_ids) s (h.reserved k r a)) in
      elim (concat-cases builder.patterns parsed p i at) [
        | inl a ↦ elim (concat-cases builder.patterns parsed q j at') [
          | inl b ↦ h.distinct i j p q a b e
          | inr (k, is) ↦
              absurd (old i p a (e ∙ sym (ap (λ (x : HirPattern). x.pattern_id) is) ∙ same))
        ]
        | inr (k, is) ↦ elim (concat-cases builder.patterns parsed q j at') [
          | inl b ↦
              absurd (old j q b (sym e ∙ sym (ap (λ (x : HirPattern). x.pattern_id) is) ∙ same))
          | inr (k', is') ↦ k ∙ sym k'
        ]
      ];
}

-- What a registration may do.
pub data Registration (builder : MatcherBuilder) (id n : ℕ) (r : Result {0} Unit × MatcherBuilder)
    : Type 0 where
  duplicate :
      Memᴰ id builder.pattern_ids
      → r ≡ (err (duplicate_pattern_id id), builder)
      → Registration builder id n r
  rejected :
      (e : Error)
      → ¬ Memᴰ id builder.pattern_ids
      → IsDiagnosed id n e
      → r ≡ (err e, builder)
      → Registration builder id n r
  accepted :
      (e : Hir)
      → ¬ Memᴰ id builder.pattern_ids
      → r ≡ (ok tt, registered_with builder id (hir_pattern id e))
      → Registration builder id n r

register-Registration :
    (builder : MatcherBuilder) (id n : ℕ) (r : Result HirPattern)
    → ¬ Memᴰ id builder.pattern_ids
    → Outcome id n (λ pattern. (e : Hir) × (pattern ≡ hir_pattern id e)) r
    → Registration builder id n (register builder id r)
unfolding register
register-Registration builder id n out_of_fuel fresh o = elim o [ ]
register-Registration builder id n (ok p) fresh (returns (e, same)) =
    accepted e fresh (ap (λ x. (ok tt, registered_with builder id x)) same)
register-Registration builder id n (err f) fresh (fails d) = rejected f fresh d refl

-- A registration does one of three things: it rejects an identifier that is reserved, it returns an
-- error that names the identifier and lies in the pattern, both with the builder as it was, or it
-- reserves the identifier and adds one pattern at the end.
pub add_with_flags_lem :
    (lower_upper : ℕ → ℕ × ℕ) (builder : MatcherBuilder) (id : ℕ) (pattern : List ℕ)
    (case_insensitive : Bool)
    → Registration builder id
        (length pattern)
        (add_with_flags lower_upper builder id pattern case_insensitive)
unfolding add_with_flags
add_with_flags_lem lower_upper builder id pattern case_insensitive =
    elim (Bool-cases (contains builder.pattern_ids id)) [
      | inl here ↦ rw here (duplicate ((contains_iff builder.pattern_ids id).0 here) refl)
      | inr missing ↦
          let fresh : ¬ Memᴰ id builder.pattern_ids =
            λ m. let yes = (contains_iff builder.pattern_ids id).1 m in cc (yes, missing) in
          rw missing (
            register-Registration builder id (length pattern)
              (parse_with_flags id pattern lower_upper case_insensitive) fresh
              (parse_with_flags-Outcome id pattern lower_upper case_insensitive))
    ]

hir_pattern-id : (id : ℕ) (e : Hir) → (hir_pattern id e).pattern_id ≡ id
unfolding hir_pattern
hir_pattern-id id e = refl

-- Every registration keeps: the identifiers reserved are those of the patterns, and no two patterns
-- have the same one.
pub add_with_flags-IsRegistered :
    (lower_upper : ℕ → ℕ × ℕ) (builder : MatcherBuilder) (id : ℕ) (pattern : List ℕ)
    (case_insensitive : Bool)
    → IsRegistered builder
    → IsRegistered (add_with_flags lower_upper builder id pattern case_insensitive).1
add_with_flags-IsRegistered lower_upper builder id pattern case_insensitive h =
    kept (add_with_flags lower_upper builder id pattern case_insensitive)
      (add_with_flags_lem lower_upper builder id pattern case_insensitive)
  where
    kept :
        (r : Result {0} Unit × MatcherBuilder)
        → Registration builder id (length pattern) r
        → IsRegistered r.1
    kept r (duplicate m e) = subst (λ x. IsRegistered x.1) (sym e) h
    kept r (rejected f fresh d e) = subst (λ x. IsRegistered x.1) (sym e) h
    kept r (accepted x fresh e) =
        subst (λ y. IsRegistered y.1) (sym e)
          (registered_with-IsRegistered builder id (hir_pattern id x) h (hir_pattern-id id x) fresh)

-- The invariant holds of a new builder.
pub new_builder-IsRegistered : IsRegistered new_builder
unfolding new_builder
new_builder-IsRegistered = record {
  reserved = λ i p at. cc at;
  registered = λ x m. absurd (Memᴰ-nil m);
  distinct = λ i j p q at at' e. cc at;
}
