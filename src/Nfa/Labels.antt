-- ===== src/Nfa/Labels.antt =====
-- Labels of states by cursors: a label that every edge respects holds of all that a walk reaches.
-- The compiler extends such labels to the states that it adds.
use rustmatch.Prelude.{
  ℕ, ◌≤◌, ◌<◌, ◌≡◌, refl, subst, ◌↔◌, ⊎_elim, ◌≢◌, List, arith, Memᴰ, Memᴰ-nil, ℕ_discrete, ite,
}
use mathlib.Core.Logic.{if_pos, if_neg}
use rustmatch.Context.{Units, Cursor}
use rustmatch.Semantics.{Relation}
use rustmatch.Nfa.Builder.{Edge, Builder, edges_from, push_edge}
use rustmatch.Nfa.Paths.{Table, Fires, Trail, here, step}
use rustmatch.Nfa.Growth.{
  count, IsFormed, mem-push_edge, with_state, edges_from-with_state, edges_from_beyond,
}

abbrev pub Label : Type 1
Label = ℕ → Cursor → Type 0

-- The relation takes what the first predicate holds of to what the second holds of.
abbrev pub Transfers : (Cursor → Type 0) → Relation → (Cursor → Type 0) → Type 0
Transfers A R B = (s t : Cursor) → A s → R s t → B t

module _ (input : Units) (table : Table) where
  abbrev pub Respects : Label → (ℕ → List Edge) → Type 0
  Respects P edges =
      (q : ℕ) (e : Edge)
      → Memᴰ e (edges q)
      → Transfers (P q) (Fires input table e.kind) (P e.target)

  -- A label of more states that respects more edges.
  pub record Extension (P : Label) (b b' : Builder) : Type 1 where
    pub label : Label
    pub agrees : (q : ℕ) → q < count b → (s : Cursor) → label q s ↔ P q s
    pub valid : Respects label (edges_from b')

  pub Extension-refl : {P : Label} {b b' : Builder} → Respects P (edges_from b') → Extension P b b'
  Extension-refl {P} v = record { label = P; agrees = λ q lt s. (λ h. h, λ h. h); valid = v }

  pub Extension-trans :
      {P : Label} {b c d : Builder} (X : Extension P b c)
      → count b ≤ count c
      → Extension X.label c d
      → Extension P b d
  Extension-trans X le Y = record {
    label = Y.label;
    agrees = λ q lt s. (
      λ h. (X.agrees q lt s).0 ((Y.agrees q (omega arith) s).0 h),
      λ h. (Y.agrees q (omega arith) s).1 ((X.agrees q lt s).1 h),
    );
    valid = Y.valid;
  }

  -- A new edge whose firing the label allows.
  pub push_edge-Respects :
      (P : Label) (b : Builder) (q : ℕ) (e : Edge)
      → IsFormed b
      → q < count b
      → Respects P (edges_from b)
      → Transfers (P q) (Fires input table e.kind) (P e.target)
      → Respects P (edges_from (push_edge b q e))
  push_edge-Respects P b q e f lt v new r k m s t =
      ⊎_elim (λ old. v r k old s t) (λ w. rw (w.0, w.1) (new s t))
        ((mem-push_edge b q e f lt r k).0 m)

  -- A new state is given any label.
  assign : Label → ℕ → (Cursor → Type 0) → Label
  assign P n A q = ite (ℕ_discrete q n) A (P q)

  assign_self : (P : Label) (n : ℕ) (A : Cursor → Type 0) → assign P n A n ≡ A
  unfolding assign
  assign_self P n A = if_pos _ refl A (P n)

  assign_ne : (P : Label) (n : ℕ) (A : Cursor → Type 0) (q : ℕ) → q ≢ n → assign P n A q ≡ P q
  unfolding assign
  assign_ne P n A q h = if_neg _ h A (P q)

  with_state-Respects :
      (P : Label) (b : Builder) (A : Cursor → Type 0)
      → IsFormed b
      → Respects P (edges_from b)
      → Respects (assign P (count b) A) (edges_from (with_state b))
  with_state-Respects P b A f v q e m s t =
      let old = subst (Memᴰ e) (edges_from-with_state b q) m in
      elim (ℕ_discrete q (count b)) [
        | yes h ↦ absurd (Memᴰ-nil (subst (Memᴰ e) (edges_from_beyond b q (omega arith)) old))
        | no h ↦
            rw
              (
                assign_ne P (count b) A q h,
                assign_ne P (count b) A e.target (omega (arith, f.targets q e old)),
              )
              (v q e old s t)
      ]

  pub with_state-Extension :
      (P : Label) (b : Builder) (A : Cursor → Type 0)
      → IsFormed b
      → Respects P (edges_from b)
      → (X : Extension P b (with_state b)) × ((s : Cursor) → X.label (count b) s ↔ A s)
  with_state-Extension P b A f v = (
    record {
      label = assign P (count b) A;
      agrees = λ q lt s. rw (assign_ne P (count b) A q (omega arith)) (λ h. h, λ h. h);
      valid = with_state-Respects P b A f v;
    },
    λ s. rw (assign_self P (count b) A) (λ h. h, λ h. h),
  )

-- What a walk reaches has its label.
pub Trail-Respects :
    {input : Units} {edges : ℕ → List Edge} {table : Table} {P : Label} {r : ℕ} {u : Cursor} {q : ℕ}
    {s : Cursor}
    → Respects input table P edges
    → Trail input edges table r u q s
    → P q s
    → P r u
Trail-Respects v here h = h
Trail-Respects {q} {s} v (step e t m f rest) h = Trail-Respects v rest (v q e m s t h f)

-- Where the old states stand, a label and its extension say the same.
pub Extension-Transfers :
    {input : Units} {table : Table} {P : Label} {b b' : Builder} (X : Extension input table P b b')
    (q r : ℕ) (R : Relation)
    → q < count b
    → r < count b
    → Transfers (P q) R (P r)
    → Transfers (X.label q) R (X.label r)
Extension-Transfers X q r R hq hr tr s t p m =
    (X.agrees r hr t).1 (tr s t ((X.agrees q hq s).0 p) m)
