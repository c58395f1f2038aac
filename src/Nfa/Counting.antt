-- ===== src/Nfa/Counting.antt =====
-- Repetition as a relation: n moves for some n that is allowed, taken apart at the first move.
use rustmatch.Prelude.{ℕ, zero, suc, ◌≤◌, ◌≡◌, refl, subst, ◌⊎◌, inl, inr, ◌↔◌, ⊎_elim, arith}
use rustmatch.Context.{Cursor}
use rustmatch.Semantics.{Relation, Compose, Power, Never}

-- n moves, where Q allows n.
abbrev pub Count : Relation → (ℕ → Type 0) → Relation
Count R Q s t = (n : ℕ) × Q n × Power R n s t

abbrev pub Same : Relation
Same s t = s ≡ t

pub Count-suc :
    (R : Relation) (Q Q' : ℕ → Type 0)
    → ((n : ℕ) → Q' (suc n) ↔ Q n)
    → ¬ Q' 0
    → (s t : Cursor) → Count R Q' s t ↔ Compose R (Count R Q) s t
Count-suc R Q Q' shift pos s t = (to, λ (m, r, (n, q, p)). (suc n, (shift n).1 q, (m, r, p)))
  where
    to : Count R Q' s t → Compose R (Count R Q) s t
    to (zero, q, p) = absurd (pos q)
    to (suc n, q, (m, r, p)) = (m, r, (n, (shift n).0 q, p))

pub Count-zero :
    (R : Relation) (Q : ℕ → Type 0)
    → ((n : ℕ) → Q n → n ≡ 0)
    → Q 0
    → (s t : Cursor) → Count R Q s t ↔ Same s t
Count-zero R Q only q₀ s t = (to, λ e. (0, q₀, e))
  where
    to : Count R Q s t → Same s t
    to (zero, q, p) = p
    to (suc n, q, p) = absurd (omega (arith, only (suc n) q))

pub Count-option :
    (R : Relation) (Q Q' : ℕ → Type 0)
    → ((n : ℕ) → Q' (suc n) ↔ Q n)
    → Q' 0
    → (s t : Cursor) → Count R Q' s t ↔ (Same s t ⊎ Compose R (Count R Q) s t)
Count-option R Q Q' shift q₀ s t =
    (to, ⊎_elim (λ e. (0, q₀, e)) (λ (m, r, (n, q, p)). (suc n, (shift n).1 q, (m, r, p))))
  where
    to : Count R Q' s t → Same s t ⊎ Compose R (Count R Q) s t
    to (zero, q, p) = inl p
    to (suc n, q, (m, r, p)) = inr (m, r, (n, (shift n).0 q, p))

pub Count-ext :
    (R : Relation) (Q Q' : ℕ → Type 0)
    → ((n : ℕ) → Q' n ↔ Q n)
    → (s t : Cursor) → Count R Q' s t ↔ Count R Q s t
Count-ext R Q Q' e s t = (λ (n, q, p). (n, (e n).0 q, p), λ (n, q, p). (n, (e n).1 q, p))

pub Count-never :
    (R : Relation) (Q : ℕ → Type 0) → ((n : ℕ) → ¬ Q n) → (s t : Cursor) → Count R Q s t ↔ Never s t
Count-never R Q none s t = (λ (n, q, p). none n q, λ x. absurd x)

pub Count-one :
    (R : Relation) (Q : ℕ → Type 0)
    → ((n : ℕ) → Q n → n ≡ 1)
    → Q 1
    → (s t : Cursor) → Count R Q s t ↔ R s t
Count-one R Q only q₁ s t = (to, λ r. (1, q₁, (t, r, refl)))
  where
    to : Count R Q s t → R s t
    to (zero, q, p) = absurd (omega (arith, only zero q))
    to (suc zero, q, (m, r, e)) = subst (R s) e r
    to (suc (suc n), q, p) = absurd (omega (arith, only (suc (suc n)) q))

pub Count-option_one : (R : Relation) (s t : Cursor) → Count R (λ n. n ≤ 1) s t ↔ (Same s t ⊎ R s t)
Count-option_one R s t =
    (to, ⊎_elim (λ e. (0, omega arith, e)) (λ r. (1, omega arith, (t, r, refl))))
  where
    to : Count R (λ n. n ≤ 1) s t → Same s t ⊎ R s t
    to (zero, q, p) = inl p
    to (suc zero, q, (m, r, e)) = inr (subst (R s) e r)
    to (suc (suc n), q, p) = absurd (omega arith)
