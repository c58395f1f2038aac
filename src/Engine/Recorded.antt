-- ===== src/Engine/Recorded.antt =====
-- rustmatch/src/engine.rs: what `record_terminal` and the loops around it leave in `best_end`.

use rustmatch.Prelude.{
  ℕ, ◌<◌, ◌≡◌, refl, sym, subst, ◌∙◌, ◌⊎◌, inl, inr, ◌↔◌, ⊎_elim, List, [], ◌∷◌, Memᴰ, Memᴰ-nil,
  Memᴰ-cons, arith, none, some, get_or, set, length, length-set, get_or-set_self, get_or-set_ne,
  lt-trichotomy,
}
use rustmatch.Nfa.Database.{PatternDatabase, terminals_at}
use rustmatch.Engine.Scan.{Ends, best, record_terminal, record_all, record_states}

-- Recording an end for the ordinals that P holds of.
pub record Recorded (o end : ℕ) (P : Type 0) (r r' : Ends) : Type 0 where
  pub size : length r'.best_end ≡ length r.best_end
  pub result : (P × (best r' o ≡ some end)) ⊎ ((¬ P) × (best r' o ≡ best r o))

record_terminal-Recorded :
    (r : Ends) (x o end : ℕ)
    → o < length r.best_end
    → Recorded o end (o ≡ x) r (record_terminal r x end)
unfolding record_terminal
record_terminal-Recorded r x o end lt = record {
  size = length-set r.best_end x (some end);
  result = elim (lt-trichotomy o x) [
    | inl less ↦
        inr (λ e. omega arith, get_or-set_ne r.best_end x o (some end) none (λ e. omega arith))
    | inr (inl e) ↦ inl (
      e,
      subst (λ y. get_or (set r.best_end x (some end)) y none ≡ some end) (sym e)
          (get_or-set_self r.best_end x (some end) none (omega arith)),
    )
    | inr (inr more) ↦
        inr (λ e. omega arith, get_or-set_ne r.best_end x o (some end) none (λ e. omega arith))
  ];
}

Recorded-then :
    (o end : ℕ) (P Q S : Type 0) (r r₁ r₂ : Ends)
    → (S ↔ (P ⊎ Q))
    → Recorded o end P r r₁
    → Recorded o end Q r₁ r₂
    → Recorded o end S r r₂
Recorded-then o end P Q S r r₁ r₂ split a b = record {
  size = b.size ∙ a.size;
  result = elim b.result [
    | inl (q, e) ↦ inl (split.1 (inr q), e)
    | inr (no_q, e) ↦ elim a.result [
      | inl (p, e') ↦ inl (split.1 (inl p), e ∙ e')
      | inr (no_p, e') ↦ inr (λ x. ⊎_elim no_p no_q (split.0 x), e ∙ e')
    ]
  ];
}

pub Recorded-ext :
    (o end : ℕ) (P Q : Type 0) (r r' : Ends) → P ↔ Q → Recorded o end P r r' → Recorded o end Q r r'
Recorded-ext o end P Q r r' same a = record {
  size = a.size;
  result = elim a.result [
    | inl (p, e) ↦ inl (same.0 p, e)
    | inr (no_p, e) ↦ inr (λ q. no_p (same.1 q), e)
  ];
}

record_all-Recorded :
    (os : List ℕ) (end o : ℕ) (r : Ends)
    → o < length r.best_end
    → Recorded o end (Memᴰ o os) r (record_all os end r)
unfolding record_all
record_all-Recorded [] end o r lt = record { size = refl; result = inr (λ m. Memᴰ-nil m, refl) }
record_all-Recorded (x ∷ xs) end o r lt =
    let first = record_terminal-Recorded r x o end lt in
    let same = first.size in
    Recorded-then o end (o ≡ x) (Memᴰ o xs) (Memᴰ o (x ∷ xs)) r (record_terminal r x end)
      (record_all xs end (record_terminal r x end)) (Memᴰ-cons o x xs) first
      (record_all-Recorded xs end o (record_terminal r x end) (omega arith))

length-record_all :
    (os : List ℕ) (end : ℕ) (r : Ends) → length (record_all os end r).best_end ≡ length r.best_end
unfolding record_all record_terminal
length-record_all [] end r = refl
length-record_all (o ∷ os) end r =
    length-record_all os end (record_terminal r o end) ∙ length-set r.best_end o (some end)

module _ (db : PatternDatabase) where
  pub length-record_states :
      (qs : List ℕ) (end : ℕ) (r : Ends)
      → length (record_states db qs end r).best_end ≡ length r.best_end
  unfolding record_states
  length-record_states [] end r = refl
  length-record_states (q ∷ qs) end r =
      length-record_states qs end (record_all (terminals_at db q) end r)
      ∙ length-record_all (terminals_at db q) end r

  abbrev pub EndsIn : ℕ → List ℕ → Type 0
  EndsIn o qs = (q : ℕ) × Memᴰ q qs × Memᴰ o (terminals_at db q)

  pub record_states-Recorded :
      (qs : List ℕ) (end o : ℕ) (r : Ends)
      → o < length r.best_end
      → Recorded o end (EndsIn o qs) r (record_states db qs end r)
  unfolding record_states
  record_states-Recorded [] end o r lt = record {
    size = refl;
    result = inr (λ (q, m, k). Memᴰ-nil m, refl);
  }
  record_states-Recorded (q ∷ qs) end o r lt =
      let first = record_all-Recorded (terminals_at db q) end o r lt in
      let same = first.size in
      Recorded-then o end (Memᴰ o (terminals_at db q)) (EndsIn o qs) (EndsIn o (q ∷ qs)) r
        (record_all (terminals_at db q) end r)
        (record_states db qs end (record_all (terminals_at db q) end r))
        (
          λ (p, m, k).
              ⊎_elim (λ e. inl (subst (λ y. Memᴰ o (terminals_at db y)) e k)) (λ m'. inr (p, m', k))
                ((Memᴰ-cons p q qs).0 m),
          ⊎_elim (λ k. (q, (Memᴰ-cons q q qs).1 (inl refl), k))
              (λ (p, m, k). (p, (Memᴰ-cons p q qs).1 (inr m), k)),
        )
        first (record_states-Recorded qs end o (record_all (terminals_at db q) end r) (omega arith))
