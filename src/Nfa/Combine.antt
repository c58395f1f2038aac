-- ===== src/Nfa/Combine.antt =====
-- The contracts of compilers that run others one after the other: a predicate after it is
-- interned, two branches between the same states, two parts with a new state between them.
use rustmatch.Prelude.{ℕ, ◌<◌, ◌≡◌, refl, sym, subst, ◌⊎◌, inl, inr, ⊎_elim, arith}
use rustmatch.Error.{ok, ◌>>=◌, >>=-eq-ok}
use rustmatch.Predicate.{SymbolPredicate, matches}
use rustmatch.Context.{Units, Cursor}
use rustmatch.Semantics.{Relation, Compose, Never, Reads}
use rustmatch.Nfa.Builder.{
  Edge, Builder, edges_from, push_edge, add_state, intern_predicate, predicate,
}
use rustmatch.Nfa.Compile.{Compiler, compile_predicate}
use rustmatch.Nfa.Paths.{here, step, Trail-trans}
use rustmatch.Nfa.Growth.{
  count, IsFormed, Below, Below-trans, Grows, Grows-trans, mem-push_edge, push_edge-Grows,
  with_state, add_state-eq-ok, count-with_state, with_state-Grows, Includes, Interned, intern_lem,
}
use rustmatch.Nfa.Labels.{
  Transfers, Extension, Extension-refl, Extension-trans, push_edge-Respects, with_state-Extension,
  Extension-Transfers,
}
use rustmatch.Nfa.Fragment.{Run, Fragment}

-- Two branches between the same states.
abbrev pub both : Compiler → Compiler → Compiler
both c₁ c₂ start end b = c₁ start end b >>= c₂ start end

abbrev pub Either : Relation → Relation → Relation
Either R₁ R₂ s t = R₁ s t ⊎ R₂ s t

-- Two parts with a new state between them.
abbrev pub after : Compiler → Compiler → Compiler
after c₁ c₂ start end b = do (next, b₁) ← add_state b; b₂ ← c₁ start next b₁; c₂ next end b₂

module _ (input : Units) where
  -- The parts of a run that one compiler begins and another ends.
  record Parts (c₁ c₂ : Compiler) (start mid end : ℕ) (b₀ b' : Builder) : Type 0 where
    middle : Builder
    first : Run c₁ start mid b₀ middle
    second : Run c₂ mid end middle b'

  module _ {c₁ c₂ : Compiler} {R₁ R₂ B₁ B₂ : Relation} (F₁ : Fragment input c₁ R₁ B₁)
      (F₂ : Fragment input c₂ R₂ B₂) where
    parts :
        (start mid end : ℕ) (b₀ b' : Builder)
        → IsFormed b₀
        → start < count b₀
        → mid < count b₀
        → end < count b₀
        → (c₁ start mid b₀ >>= c₂ mid end) ≡ ok b'
        → Parts c₁ c₂ start mid end b₀ b'
    parts start mid end b₀ b' f hs hm he runs =
        let (b₁, e₁, e₂) = >>=-eq-ok (c₁ start mid b₀) (c₂ mid end) runs in
        let w : Run c₁ start mid b₀ b₁ = record {
          formed = f;
          start_lt = hs;
          end_lt = hm;
          runs = e₁;
        } in
        let g = F₁.grows start mid b₀ b₁ w in
        record {
          middle = b₁;
          first = w;
          second = record {
            formed = g.formed;
            start_lt = omega (arith, g.below.states);
            end_lt = omega (arith, g.below.states);
            runs = e₂;
          };
        }

    -- `c₁` compiles towards `end`, then `c₂` from `start` again.
    record Branches (start end : ℕ) (b b' : Builder) : Type 0 where
      middle : Builder
      first : Run c₁ start end b middle
      second : Run c₂ start end middle b'
      grows₁ : Grows b middle
      grows₂ : Grows middle b'

    branches :
        (start end : ℕ) (b b' : Builder) → Run (both c₁ c₂) start end b b' → Branches start end b b'
    branches start end b b' w =
        let (b₁, e₁, e₂) = >>=-eq-ok (c₁ start end b) (c₂ start end) w.runs in
        let w₁ : Run c₁ start end b b₁ = record {
          formed = w.formed;
          start_lt = w.start_lt;
          end_lt = w.end_lt;
          runs = e₁;
        } in
        let g = F₁.grows start end b b₁ w₁ in
        let w₂ : Run c₂ start end b₁ b' = record {
          formed = g.formed;
          start_lt = omega (arith, g.below.states, w.start_lt);
          end_lt = omega (arith, g.below.states, w.end_lt);
          runs = e₂;
        } in
        record {
          middle = b₁;
          first = w₁;
          second = w₂;
          grows₁ = g;
          grows₂ = F₂.grows start end b₁ b' w₂;
        }

    -- Neither branch may come back to the shared start.
    pub Fragment-both :
        ((s t : Cursor) → ¬ B₁ s t)
        → ((s t : Cursor) → ¬ B₂ s t)
        → Fragment input (both c₁ c₂) (Either R₁ R₂) Never
    Fragment-both none₁ none₂ = record {
      grows =
          λ start end b b' w. let x = branches start end b b' w in Grows-trans x.grows₁ x.grows₂;
      complete = λ start end b b' d s t w below m.
          let x = branches start end b b' w in
          ⊎_elim (F₁.complete start end b x.middle d s t x.first (Below-trans x.grows₂.below below))
            (F₂.complete start end x.middle b' d s t x.second below) m;
      sound = λ start end b b' table P w inc v tr back.
          let x = branches start end b b' w in
          let X =
            F₁.sound start end b x.middle table P x.first
              (λ id p h. inc id p (x.grows₂.below.predicates id p h)) v
              (λ s t p m. tr s t p (inl m)) (λ s t p m. absurd (none₁ s t m)) in
          Extension-trans input table X x.grows₁.below.states (
            F₂.sound start end x.middle b' table X.label x.second inc X.valid
              (Extension-Transfers X start end R₂ w.start_lt w.end_lt (λ s t p m. tr s t p (inr m)))
              (λ s t p m. absurd (none₂ s t m)));
      absorb = λ s m t x y. absurd x;
    }

    halves :
        (start end : ℕ) (b b' : Builder)
        → Run (after c₁ c₂) start end b b'
        → Parts c₁ c₂ start (count b) end (with_state b) b'
    halves start end b b' w =
        let ((n, b₁), added, rest) = >>=-eq-ok (add_state b) _ w.runs in
        let (e, e') = add_state-eq-ok b added in
        let size = count-with_state b in
        parts start (count b) end (with_state b) b' (with_state-Grows b w.formed).formed
          (omega (arith, w.start_lt)) (omega arith) (omega (arith, w.end_lt)) (rw (e, e') at rest)

    pub Fragment-after : Fragment input (after c₁ c₂) (Compose R₁ R₂) B₁
    Fragment-after = record {
      grows = λ start end b b' w.
          let x = halves start end b b' w in
          Grows-trans (with_state-Grows b w.formed)
            (Grows-trans (F₁.grows _ _ _ _ x.first) (F₂.grows _ _ _ _ x.second));
      complete = λ start end b b' d s t w below (m, r₁, r₂).
          let x = halves start end b b' w in
          let below₂ = Below-trans (F₂.grows _ _ _ _ x.second).below below in
          Trail-trans input (edges_from d) d.predicates
            (F₁.complete start (count b) (with_state b) x.middle d s m x.first below₂ r₁)
            (F₂.complete (count b) end x.middle b' d m t x.second below r₂);
      sound = λ start end b b' table P w inc v tr back.
          let x = halves start end b b' w in
          let g₂ = (F₂.grows _ _ _ _ x.second).below in
          let (X₀, new) =
            with_state-Extension input table P b (λ m. (t : Cursor) → R₂ m t → P end t) w.formed
              v in
          let size = count-with_state b in
          let X₁ =
            F₁.sound start (count b) (with_state b) x.middle table X₀.label x.first
              (λ id p h. inc id p (g₂.predicates id p h)) X₀.valid
              (λ s m p r.
                (new m).1 (λ t r₂. tr s t ((X₀.agrees start w.start_lt s).0 p) (m, r, r₂)))
              (Extension-Transfers X₀ start start B₁ w.start_lt w.start_lt back) in
          let to_end : Transfers (X₀.label (count b)) R₂ (X₀.label end) =
            λ m t p r. (X₀.agrees end w.end_lt t).1 ((new m).0 p t r) in
          let loops : Transfers (X₀.label (count b)) B₂ (X₀.label (count b)) =
            λ m m' p k. (new m').1 (λ t r. (new m).0 p t (F₂.absorb m m' t k r)) in
          Extension-trans input table X₀ (omega arith) (
            Extension-trans input table X₁ (F₁.grows _ _ _ _ x.first).below.states (
              F₂.sound (count b) end x.middle b' table X₁.label x.second inc X₁.valid
                (Extension-Transfers X₁ (count b) end R₂ (omega arith) (omega (arith, w.end_lt))
                  to_end)
                (Extension-Transfers X₁ (count b) (count b) B₂ (omega arith) (omega arith) loops)));
      absorb = λ s m t k (u, r₁, r₂). (u, F₁.absorb s m u k r₁, r₂);
    }

  abbrev edge_of : ℕ → ℕ → Edge
  edge_of id end = record { kind = predicate id; target = end }

  record Interns (p : SymbolPredicate) (start end : ℕ) (b b' : Builder) : Type 0 where
    id : ℕ
    middle : Builder
    entry : Interned p b id middle
    start_lt : start < count middle
    same : push_edge middle start (edge_of id end) ≡ b'
    pushes : Grows middle (push_edge middle start (edge_of id end))

  interns :
      (p : SymbolPredicate) (start end : ℕ) (b b' : Builder)
      → Run (compile_predicate p) start end b b'
      → Interns p start end b b'
  interns p start end b b' w =
      let ((id, b₁), e₁, e₂) = >>=-eq-ok (intern_predicate p b) _ w.runs in
      let entry = intern_lem p b w.formed e₁ in
      let hs : start < count b₁ = omega (arith, entry.grows.below.states, w.start_lt) in
      let he : end < count b₁ = omega (arith, entry.grows.below.states, w.end_lt) in
      record {
        id = id;
        middle = b₁;
        entry = entry;
        start_lt = hs;
        same = cc e₂;
        pushes = push_edge-Grows b₁ start (edge_of id end) entry.grows.formed hs he;
      }

  -- The edge of a predicate, after it is interned.
  pub Fragment-predicate :
      (p : SymbolPredicate) → Fragment input (compile_predicate p) (Reads input (matches p)) Never
  Fragment-predicate p = record {
    grows = λ start end b b' w.
        let x = interns p start end b b' w in
        subst (Grows b) x.same (Grows-trans x.entry.grows x.pushes);
    complete = λ start end b b' d s t w below m.
        let x = interns p start end b b' w in
        let below' = subst (λ y. Below y d) (sym x.same) below in
        let new =
          (mem-push_edge x.middle start (edge_of x.id end) x.entry.grows.formed x.start_lt start
              (edge_of x.id end)).1
            (inr (refl, refl)) in
        step (edge_of x.id end) t (below'.edges start (edge_of x.id end) new)
          (p, below'.predicates x.id p (x.pushes.below.predicates x.id p x.entry.found), m) here;
    sound = λ start end b b' table P w inc v tr back.
        let x = interns p start end b b' w in
        let inc' = subst (λ y. Includes table y.predicates) (sym x.same) inc in
        let known = inc' x.id p (x.pushes.below.predicates x.id p x.entry.found) in
        subst (Extension input table P b) x.same (
          Extension-refl input table (
            push_edge-Respects input table P x.middle start (edge_of x.id end) x.entry.grows.formed
              x.start_lt (λ q e m. v q e (rw x.entry.same_edges at m))
              (λ s t h (q, found, r).
                tr s t h (subst (λ y. Reads input (matches y) s t) (cc (found, known)) r))));
    absorb = λ s m t x y. absurd x;
  }
