-- ===== src/Nfa/Unbounded.antt =====
-- The unbounded loop of `compile_repetition` (rustmatch/src/nfa.rs) meets the contract of any
-- number of repetitions. It comes back to its start state after each round.
use rustmatch.Prelude.{ℕ, zero, suc, ◌<◌, ◌≡◌, refl, sym, subst, inr, arith, Memᴰ}
use rustmatch.Error.{ok, >>=-eq-ok}
use rustmatch.Context.{Units, Cursor}
use rustmatch.Semantics.{Relation, Power}
use rustmatch.Nfa.Builder.{Edge, Builder, edges_from, push_edge, add_state, add_epsilon, epsilon}
use rustmatch.Nfa.Compile.{Compiler, unbounded_loop}
use rustmatch.Nfa.Paths.{here, step, Trail-trans}
use rustmatch.Nfa.Growth.{
  count, IsFormed, Below, Below-trans, Grows, Grows-trans, mem-push_edge, count-push_edge,
  push_edge-Grows, with_state, add_state-eq-ok, count-with_state, with_state-Grows,
}
use rustmatch.Nfa.Labels.{
  Respects, Extension, Extension-trans, push_edge-Respects, with_state-Extension,
}
use rustmatch.Nfa.Fragment.{Run, Walk, Fragment}
use rustmatch.Nfa.Counting.{Count}

module _ (input : Units) where
  module _ {c : Compiler} {R B : Relation} (F : Fragment input c R B) where
    -- The loop state of an unbounded repetition, for moves that do not come back to their start.
    record Loop (current end : ℕ) (b b' : Builder) : Type 0 where
      opened : Builder
      body : Builder
      opens : Grows b opened
      first : opened ≡ push_edge b current (record { kind = epsilon; target = end })
      run : Run c current (count opened) (with_state opened) body
      closes : push_edge body (count opened) (record { kind = epsilon; target = current }) ≡ b'
      grows : Grows opened body
      closed : Grows body b'
      body_formed : IsFormed body
      fresh_lt : count opened < count body

    loop :
        (current end : ℕ) (b b' : Builder)
        → Run (unbounded_loop c) current end b b'
        → Loop current end b b'
    unfolding unbounded_loop add_epsilon
    loop current end b b' w =
        let exit : Edge = record { kind = epsilon; target = end } in
        let b₀ = push_edge b current exit in
        let g₀ = push_edge-Grows b current exit w.formed w.start_lt w.end_lt in
        let size₀ = count-push_edge b current exit w.formed w.start_lt in
        let ((n, b₁), added, rest) = >>=-eq-ok (add_state b₀) _ w.runs in
        let (e, e') = add_state-eq-ok b₀ added in
        let again : Edge = record { kind = epsilon; target = current } in
        let (b₂, ran, last) =
          >>=-eq-ok (c current (count b₀) (with_state b₀))
            (λ b₂. ok (push_edge b₂ (count b₀) again)) (rw (e, e') at rest) in
        let size = count-with_state b₀ in
        let run : Run c current (count b₀) (with_state b₀) b₂ = record {
          formed = (with_state-Grows b₀ g₀.formed).formed;
          start_lt = omega (arith, w.start_lt);
          end_lt = omega arith;
          runs = ran;
        } in
        let g = F.grows current (count b₀) (with_state b₀) b₂ run in
        let closes : push_edge b₂ (count b₀) again ≡ b' = cc last in
        record {
          opened = b₀;
          body = b₂;
          opens = g₀;
          first = refl;
          run = run;
          closes = closes;
          grows = Grows-trans (with_state-Grows b₀ g₀.formed) g;
          body_formed = g.formed;
          fresh_lt = omega (arith, g.below.states);
          closed = subst (Grows b₂) closes (
              push_edge-Grows b₂ (count b₀) again g.formed (omega (arith, g.below.states))
                (omega (arith, g.below.states, w.start_lt)));
        }

    module _ (current end : ℕ) (b b' d : Builder) (w : Run (unbounded_loop c) current end b b')
        (below : Below b' d) where
      exits : Memᴰ (record { kind = epsilon; target = end }) (edges_from d current)
      exits =
          let x = loop current end b b' w in
          let exit : Edge = record { kind = epsilon; target = end } in
          let m =
            (mem-push_edge b current exit w.formed w.start_lt current exit).1 (inr (refl, refl)) in
          below.edges current exit (
            (Grows-trans x.grows x.closed).below.edges current exit
              (subst (λ y. Memᴰ exit (edges_from y current)) (sym x.first) m))

      comes_back :
          let x = loop current end b b' w in
          Memᴰ (record { kind = epsilon; target = current }) (edges_from d (count x.opened))
      comes_back =
          let x = loop current end b b' w in
          let again : Edge = record { kind = epsilon; target = current } in
          let n = count x.opened in
          let m =
            (mem-push_edge x.body n again x.body_formed x.fresh_lt n again).1 (inr (refl, refl)) in
          below.edges n again (subst (λ y. Memᴰ again (edges_from y n)) x.closes m)

      loop-Walk : (n : ℕ) (s t : Cursor) → Power R n s t → Walk input d end t current s
      loop-Walk zero s t e = step (record { kind = epsilon; target = end }) t exits e here
      loop-Walk (suc n) s t (m, r, p) =
          let x = loop current end b b' w in
          Trail-trans input (edges_from d) d.predicates
            (F.complete current (count x.opened) (with_state x.opened) x.body d s m x.run
              (Below-trans x.closed.below below) r)
            (step (record { kind = epsilon; target = current }) m comes_back refl
              (loop-Walk n m t p))

    -- An unbounded repetition comes back to its start after each round.
    pub Fragment-unbounded :
        ((s t : Cursor) → ¬ B s t) → Fragment input (unbounded_loop c) (Count R (λ n. Unit {0})) R
    Fragment-unbounded plain = record {
      grows = λ current end b b' w.
          let x = loop current end b b' w in Grows-trans x.opens (Grows-trans x.grows x.closed);
      complete =
          λ current end b b' d s t w below (n, q, p). loop-Walk current end b b' d w below n s t p;
      sound = λ current end b b' table P w inc v tr back.
          let x = loop current end b b' w in
          let exit : Edge = record { kind = epsilon; target = end } in
          let again : Edge = record { kind = epsilon; target = current } in
          let v₀ =
            subst (λ y. Respects input table P (edges_from y)) (sym x.first)
              (push_edge-Respects input table P b current exit w.formed w.start_lt v
                (λ s t p e. tr s t p (0, tt, e))) in
          let le = x.opens.below.states in
          let (X₀, new) =
            with_state-Extension input table P x.opened (P current) x.opens.formed v₀ in
          let size = count-with_state x.opened in
          let X₁ =
            F.sound current (count x.opened) (with_state x.opened) x.body table X₀.label x.run
              (λ id p h. inc id p (x.closed.below.predicates id p h)) X₀.valid
              (λ s t p r.
                (new t).1 (back s t ((X₀.agrees current (omega (arith, w.start_lt)) s).0 p) r))
              (λ s t p k. absurd (plain s t k)) in
          let old : (s : Cursor) → X₁.label (count x.opened) s → X₁.label current s = λ s p.
            (X₁.agrees current (omega (arith, w.start_lt)) s).1 (
              (X₀.agrees current (omega (arith, w.start_lt)) s).1
                ((new s).0 ((X₁.agrees (count x.opened) (omega arith) s).0 p))) in
          let v₂ =
            subst (λ y. Respects input table X₁.label (edges_from y)) x.closes
              (push_edge-Respects input table X₁.label x.body (count x.opened) again x.body_formed
                x.fresh_lt X₁.valid (λ s t p e. subst (X₁.label current) e (old s p))) in
          let Y : Extension input table X₀.label (with_state x.opened) b' = record {
            label = X₁.label;
            agrees = X₁.agrees;
            valid = v₂;
          } in
          let Z : Extension input table P b x.opened = record {
            label = P;
            agrees = λ q lt s. (λ h. h, λ h. h);
            valid = v₀;
          } in
          Extension-trans input table Z le (Extension-trans input table X₀ (omega arith) Y);
      absorb = λ s m t r (n, q, p). (suc n, tt, (m, r, p));
    }
