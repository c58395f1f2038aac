-- ===== src/Nfa/Ordinals.antt =====
-- The terminals that rustmatch/src/nfa.rs puts on the states are ordinals of the patterns.
use rustmatch.Prelude.{
  ℕ, zero, suc, ◌+◌, ◌<◌, ◌≡◌, sym, subst, ◌∙◌, ⊎_elim, arith, List, [], ◌∷◌, Memᴰ, Memᴰ-nil,
  length,
}
use rustmatch.Error.{ok}
use rustmatch.Hir.{HirPattern}
use rustmatch.Context.{Units}
use rustmatch.Nfa.Builder.{Builder, push_terminal}
use rustmatch.Nfa.Growth.{count, terminals_at, IsFormed}
use rustmatch.Nfa.Database.{compile_patterns, initial}
use rustmatch.Nfa.Accepts.{SafePatterns, opened-Grows, terminal, mem-push_terminal, take-Step}
use rustmatch.Nfa.Sound.{initial-IsFormed}

terminals-patterns :
    (input : Units) (ps : List HirPattern) (ordinal : ℕ) (b b' : Builder)
    → SafePatterns ps
    → IsFormed b
    → 0 < count b
    → compile_patterns ps ordinal b ≡ ok b'
    → ((q o : ℕ) → Memᴰ o (terminals_at b q) → o < ordinal)
    → (q o : ℕ) → Memᴰ o (terminals_at b' q)
    → o < ordinal + length ps
unfolding compile_patterns
terminals-patterns input [] ordinal b b' safe f pos h below q o m =
    let e : b ≡ b' = cc h in
    let lt = below q o (subst (λ y. Memᴰ o (terminals_at y q)) (sym e) m) in omega arith
terminals-patterns input (p ∷ ps) ordinal b b' safe f pos h below q o m =
    let x = take-Step input p ps ordinal b b' safe.0 f pos h in
    let next = push_terminal x.now.body (terminal b) ordinal in
    let below' : (r y : ℕ) → Memᴰ y (terminals_at next r) → y < suc ordinal = λ r y k.
      ⊎_elim
        (λ old.
          let lt =
            below r y (subst (Memᴰ y) (x.body.quiet r ∙ (opened-Grows b f pos).quiet r) old) in
          let wider : y < suc ordinal = omega arith in wider)
        (λ (at, is). let here : y < suc ordinal = omega arith in here)
        ((mem-push_terminal x.now.body (terminal b) ordinal x.body.formed x.in_range r y).0 k) in
    let lt =
      terminals-patterns input ps (suc ordinal) next b' safe.1 x.next_formed x.next_pos x.now.rest
        below' q o m in
    omega arith

-- Every terminal is the ordinal of a pattern.
pub terminal-lt :
    (patterns : List HirPattern) (b : Builder)
    → SafePatterns patterns
    → compile_patterns patterns 0 initial ≡ ok b
    → (q o : ℕ) → Memᴰ o (terminals_at b q)
    → o < length patterns
terminal-lt patterns b safe h q o m =
    let lt =
      terminals-patterns [] patterns 0 initial b safe initial-IsFormed (omega arith) h none_yet q o
        m in
    omega arith
  where
    none_yet : (r y : ℕ) → Memᴰ y (terminals_at initial r) → y < 0
    none_yet zero y k = absurd (Memᴰ-nil k)
    none_yet (suc r) y k = absurd (Memᴰ-nil k)
