-- ===== src/Engine/Flags.antt =====
-- Lists of flags, as the closures of rustmatch/src/engine.rs use them.
use rustmatch.Prelude.{
  ℕ, zero, suc, ◌+◌, ◌≤◌, ◌<◌, ◌≡◌, refl, ap, ◌⊎◌, inl, inr, ◌↔◌, ⊎_elim, Bool, true, false, List,
  [], ◌∷◌, arith, ◌∙◌, get_or, set, length, Memᴰ, Memᴰ-nil, Memᴰ-cons, length-set, replicate,
  Bool-cases,
}

-- The flags that are not set.
abbrev pub clear : List Bool → ℕ
clear [] = 0
clear (false ∷ bs) = suc (clear bs)
clear (true ∷ bs) = clear bs

pub flag-set :
    (bs : List Bool) (i q : ℕ)
    → i < length bs
    → (get_or (set bs i true) q false ≡ true) ↔ ((get_or bs q false ≡ true) ⊎ (q ≡ i))
flag-set [] i q h = absurd (omega arith)
flag-set (b ∷ bs) zero zero h = (λ _. inr refl, λ _. refl)
flag-set (b ∷ bs) (suc i) (suc q) h = ground (arith, flag-set bs i q)
flag-set (b ∷ bs) i q h = (inl, ⊎_elim (λ p. p) (λ e. absurd (omega arith)))

pub clear-set :
    (bs : List Bool) (i : ℕ)
    → i < length bs
    → get_or bs i false ≡ false
    → suc (clear (set bs i true)) ≡ clear bs
clear-set [] i h e = absurd (omega arith)
clear-set (b ∷ bs) zero h e = rw e
clear-set (false ∷ bs) (suc i) h e = ap suc (clear-set bs i (omega arith) e)
clear-set (true ∷ bs) (suc i) h e = clear-set bs i (omega arith) e

pub clear-le-length : (bs : List Bool) → clear bs ≤ length bs
clear-le-length [] = omega arith
clear-le-length (true ∷ bs) = omega (arith, clear-le-length bs)
clear-le-length (false ∷ bs) = omega (arith, clear-le-length bs)

pub flag-replicate : (n q : ℕ) → get_or (replicate n false) q false ≡ false
flag-replicate zero q = refl
flag-replicate (suc n) zero = refl
flag-replicate (suc n) (suc q) = flag-replicate n q

-- Marking and stacking each state of a list that is not marked yet.
unfoldable pub push_all : List ℕ → List Bool → List ℕ → List Bool × List ℕ
push_all [] visited stack = (visited, stack)
push_all (t ∷ ts) visited stack = elim (get_or visited t false) [
  | true ↦ push_all ts visited stack
  | false ↦ push_all ts (set visited t true) (t ∷ stack)
]

abbrev pub InRange : ℕ → List ℕ → Type 0
InRange n [] = Unit
InRange n (t ∷ ts) = (t < n) × InRange n ts

pub record Pushed (ts : List ℕ) (visited : List Bool) (stack : List ℕ) (r : List Bool × List ℕ)
    : Type 0 where
  pub size : length r.0 ≡ length visited
  pub work : clear r.0 + length r.1 ≡ clear visited + length stack
  pub marks : (q : ℕ) → (get_or r.0 q false ≡ true) ↔ ((get_or visited q false ≡ true) ⊎ Memᴰ q ts)
  pub stacked :
      (q : ℕ)
      → Memᴰ q r.1
        ↔ (Memᴰ q stack ⊎ ((get_or r.0 q false ≡ true) × (get_or visited q false ≡ false)))

pub push_all-Pushed :
    (n : ℕ) (ts : List ℕ) (visited : List Bool) (stack : List ℕ)
    → length visited ≡ n
    → InRange n ts
    → Pushed ts visited stack (push_all ts visited stack)
unfolding push_all
push_all-Pushed n [] visited stack e h = record {
  size = refl;
  work = refl;
  marks = λ q. (inl, ⊎_elim (λ m. m) (λ m. absurd (Memᴰ-nil m)));
  stacked = λ q. (inl, ⊎_elim (λ m. m) (λ (now, before). cc));
}
push_all-Pushed n (t ∷ ts) visited stack e h = elim (Bool-cases (get_or visited t false)) [
  | inl old ↦
      let x = push_all-Pushed n ts visited stack e h.1 in
      rw (old, push_all)
        (record {
          size = x.size;
          work = x.work;
          marks = λ q. ground (arith, x.marks q, Memᴰ-cons q t ts);
          stacked = x.stacked;
        })
  | inr new ↦
      let x =
        push_all-Pushed n ts (set visited t true) (t ∷ stack) (length-set visited t true ∙ e) h.1 in
      rw (new, push_all)
        (record {
          size = x.size ∙ length-set visited t true;
          work = omega (arith, x.work, clear-set visited t (omega arith) new);
          marks = λ q. ground (arith, x.marks q, Memᴰ-cons q t ts, flag-set visited t q);
          stacked = λ q. ground (
            arith,
            x.stacked q,
            x.marks q,
            Memᴰ-cons q t stack,
            flag-set visited t q,
            Memᴰ-cons q t ts,
          );
        })
]
