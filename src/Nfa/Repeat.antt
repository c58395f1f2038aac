-- ===== src/Nfa/Repeat.antt =====
-- The loops of `compile_repetition` (rustmatch/src/nfa.rs): each meets the contract of the
-- repetitions that it stands for.
use rustmatch.Prelude.{ℕ, zero, suc, ◌≤◌, ◌≡◌, refl, ◌↔◌, arith, Bool, true, false, ◌==◌, ◌&&◌}
use rustmatch.Error.{Result, ok, err, out_of_fuel, ◌>>=◌}
use rustmatch.Context.{Units, Cursor}
use rustmatch.Semantics.{Relation, Never}
use rustmatch.Nfa.Builder.{Builder, add_epsilon, epsilon}
use rustmatch.Nfa.Compile.{Compiler, add_edge, next_state, required_loop, optional_loop}
use rustmatch.Nfa.Fragment.{Fragment, Fragment-ext, Fragment-edge}
use rustmatch.Nfa.Combine.{both, after, Fragment-both, Fragment-after}
use rustmatch.Nfa.Counting.{Count, Same, Count-suc, Count-option, Count-one, Count-option_one}

-- The monad laws that the loops are rewritten by.
pub >>=-ok {ℓ} : {A : Type ℓ} (m : Result A) → (m >>= ok) ≡ m
>>=-ok (ok a) = refl
>>=-ok (err e) = refl
>>=-ok out_of_fuel = refl

>>=_assoc {ℓ κ μ} :
    {A : Type ℓ} {B : Type κ} {C : Type μ} (m : Result A) (f : A → Result B) (g : B → Result C)
    → ((m >>= f) >>= g) ≡ (m >>= λ a. f a >>= g)
>>=_assoc (ok a) f g = refl
>>=_assoc (err e) f g = refl
>>=_assoc out_of_fuel f g = refl

&&-false : (x : Bool) → (x && false) ≡ false
&&-false true = refl
&&-false false = refl

pub suc-eq-zero : (k : ℕ) → (suc k == 0) ≡ false
suc-eq-zero k = ground arith

-- A compiler of what follows the required rounds.
abbrev pub with_tail : Compiler → Bool → Compiler → ℕ → Compiler
with_tail c exact tail k start end b = do
  (current, b') ← required_loop c exact k start end b
  tail current end b'

with_tail-zero :
    (c : Compiler) (exact : Bool) (tail : Compiler) (start end : ℕ) (b : Builder)
    → with_tail c exact tail 0 start end b ≡ tail start end b
unfolding required_loop
with_tail-zero c exact tail start end b = refl

with_tail-suc :
    (c : Compiler) (tail : Compiler) (k start end : ℕ) (b : Builder)
    → with_tail c false tail (suc k) start end b ≡ after c (with_tail c false tail k) start end b
unfolding required_loop
with_tail-suc c tail k start end b = rw (&&-false (k == 0)) (simp >>=_assoc)

-- In the exact case the last round leads to `end` itself.
abbrev pub exactly : Compiler → ℕ → Compiler
exactly c = with_tail c true (λ current end b. ok b)

exactly-one : (c : Compiler) (start end : ℕ) (b : Builder) → exactly c 1 start end b ≡ c start end b
unfolding required_loop
exactly-one c start end b = simp (>>=_assoc, >>=-ok)

exactly-suc :
    (c : Compiler) (k start end : ℕ) (b : Builder)
    → exactly c (suc (suc k)) start end b ≡ after c (exactly c (suc k)) start end b
unfolding required_loop
exactly-suc c k start end b = rw (suc-eq-zero k) (simp >>=_assoc)

optional-one :
    (c : Compiler) (start end : ℕ) (b : Builder)
    → optional_loop c 1 start end b ≡ both (add_edge epsilon) c start end b
unfolding optional_loop add_epsilon
optional-one c start end b = rw >>=-ok

optional-suc :
    (c : Compiler) (k start end : ℕ) (b : Builder)
    → optional_loop c (suc (suc k)) start end b
      ≡ both (add_edge epsilon) (after c (optional_loop c (suc k))) start end b
unfolding optional_loop add_epsilon
optional-suc c k start end b = rw (suc-eq-zero k, next_state)

-- With a required round the loop comes back to its start where the first round does.
abbrev pub back_of : Relation → Relation → ℕ → Relation
back_of B B' zero = B'
back_of B B' (suc k) = B

module _ (input : Units) where
  pub Fragment-epsilon : Fragment input (add_edge epsilon) Same Never
  Fragment-epsilon = Fragment-edge input epsilon Same (λ table s t. (λ h. h, λ h. h))

  module _ {c : Compiler} {R B : Relation} (F : Fragment input c R B) where
    pub Fragment-exactly : (k : ℕ) → Fragment input (exactly c (suc k)) (Count R (λ n. n ≡ suc k)) B
    Fragment-exactly zero =
        Fragment-ext input (exactly-one c) (Count-one R (λ n. n ≡ 1) (λ n e. e) refl)
          (λ s t. (λ h. h, λ h. h)) F
    Fragment-exactly (suc k) =
        Fragment-ext input (exactly-suc c k)
          (Count-suc R (λ n. n ≡ suc k) (λ n. n ≡ suc (suc k))
            (λ n. (λ e. omega arith, λ e. omega arith)) (λ e. omega arith))
          (λ s t. (λ h. h, λ h. h)) (Fragment-after input F (Fragment-exactly k))

    -- Rounds that may be left out; none of them may come back to its start.
    pub Fragment-optional :
        ((s t : Cursor) → ¬ B s t)
        → (d : ℕ) → Fragment input (optional_loop c (suc d)) (Count R (λ n. n ≤ suc d)) Never
    Fragment-optional plain zero =
        Fragment-ext input (optional-one c) (Count-option_one R) (λ s t. (λ h. h, λ h. h))
          (Fragment-both input (Fragment-epsilon) F (λ s t x. x) plain)
    Fragment-optional plain (suc d) =
        Fragment-ext input (optional-suc c d)
          (Count-option R (λ n. n ≤ suc d) (λ n. n ≤ suc (suc d))
            (λ n. (λ e. omega arith, λ e. omega arith)) (omega arith))
          (λ s t. (λ h. h, λ h. h))
          (Fragment-both input Fragment-epsilon (Fragment-after input F (Fragment-optional plain d))
            (λ s t x. x) plain)

    -- Required rounds before a tail; with none, the tail itself. `Q j` allows the counts that j
    -- required rounds leave.
    pub Fragment-required :
        {tail : Compiler} {T B' : Relation} (Q : ℕ → ℕ → Type 0)
        → Fragment input tail T B'
        → ((s t : Cursor) → Count R (Q 0) s t ↔ T s t)
        → ((j n : ℕ) → Q (suc j) (suc n) ↔ Q j n)
        → ((j : ℕ) → ¬ Q (suc j) 0)
        → (k : ℕ) → Fragment input (with_tail c false tail k) (Count R (Q k)) (back_of B B' k)
    Fragment-required {tail} Q G base shift pos zero =
        Fragment-ext input (with_tail-zero c false tail) base (λ s t. (λ h. h, λ h. h)) G
    Fragment-required {tail} Q G base shift pos (suc k) =
        Fragment-ext input (with_tail-suc c tail k)
          (Count-suc R (Q k) (Q (suc k)) (shift k) (pos k)) (λ s t. (λ h. h, λ h. h))
          (Fragment-after input F (Fragment-required Q G base shift pos k))
