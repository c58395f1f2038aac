-- ===== src/Nfa/Fragment.antt =====
-- The contract of a compiler of rustmatch/src/nfa.rs for one expression, and the contracts of the
-- ways to combine compilers. `R` is what the expression means; `B` holds of the moves after which
-- the compiled automaton stands at its start state again.
use rustmatch.Prelude.{ℕ, ◌<◌, ◌≡◌, refl, subst, inr, ◌↔◌, Memᴰ}
use rustmatch.Error.{ok}
use rustmatch.Context.{Units, Cursor}
use rustmatch.Semantics.{Relation, Never}
use rustmatch.Nfa.Builder.{EdgeKind, Edge, Builder, edges_from, push_edge}
use rustmatch.Nfa.Compile.{Compiler, add_edge}
use rustmatch.Nfa.Paths.{Table, Fires, Trail, here, step}
use rustmatch.Nfa.Growth.{
  count, IsFormed, Below, Grows, Grows-refl, mem-push_edge, push_edge-Grows, Includes,
}
use rustmatch.Nfa.Labels.{Label, Transfers, Respects, Extension, Extension-refl, push_edge-Respects}

-- A call that returns, on a well-formed builder that has both states.
pub record Run (c : Compiler) (start end : ℕ) (b b' : Builder) : Type 0 where
  pub formed : IsFormed b
  pub start_lt : start < count b
  pub end_lt : end < count b
  pub runs : c start end b ≡ ok b'

abbrev pub Walk : Units → Builder → ℕ → Cursor → ℕ → Cursor → Type 0
Walk input d r u q s = Trail input (edges_from d) d.predicates r u q s

pub record Fragment (input : Units) (c : Compiler) (R B : Relation) : Type 1 where
  pub grows : (start end : ℕ) (b b' : Builder) → Run c start end b b' → Grows b b'
  pub complete :
      (start end : ℕ) (b b' d : Builder) (s t : Cursor)
      → Run c start end b b'
      → Below b' d
      → R s t
      → Walk input d end t start s
  pub sound :
      (start end : ℕ) (b b' : Builder) (table : Table) (P : Label)
      → Run c start end b b'
      → Includes table b'.predicates
      → Respects input table P (edges_from b)
      → Transfers (P start) R (P end)
      → Transfers (P start) B (P start)
      → Extension input table P b b'
  pub absorb : (s m t : Cursor) → B s m → R m t → R s t

module _ (input : Units) where
  -- Another text of the same compiler, for an equivalent meaning.
  pub Fragment-ext :
      {c c' : Compiler} {R R' B B' : Relation}
      → ((start end : ℕ) (b : Builder) → c' start end b ≡ c start end b)
      → ((s t : Cursor) → R' s t ↔ R s t)
      → ((s t : Cursor) → B' s t ↔ B s t)
      → Fragment input c R B
      → Fragment input c' R' B'
  Fragment-ext {c} {c'} same r k F = record {
    grows = λ start end b b' w. F.grows start end b b' (run w);
    complete = λ start end b b' d s t w below m.
        F.complete start end b b' d s t (run w) below ((r s t).0 m);
    sound = λ start end b b' table P w inc v tr back.
        F.sound start end b b' table P (run w) inc v (λ s t p m. tr s t p ((r s t).1 m))
          (λ s t p m. back s t p ((k s t).1 m));
    absorb = λ s m t x y. (r s t).1 (F.absorb s m t ((k s m).0 x) ((r m t).0 y));
  }
    where
      run : {start end : ℕ} {b b' : Builder} → Run c' start end b b' → Run c start end b b'
      run {start} {end} {b} w = record {
        formed = w.formed;
        start_lt = w.start_lt;
        end_lt = w.end_lt;
        runs = rw (same start end b) at w.runs;
      }

  -- A compiler that adds nothing.
  pub Fragment-never : Fragment input (λ start end b. ok b) Never Never
  Fragment-never = record {
    grows =
        λ start end b b' w. let e : b ≡ b' = cc w.runs in subst (Grows b) e (Grows-refl w.formed);
    complete = λ start end b b' d s t w below m. absurd m;
    sound = λ start end b b' table P w inc v tr back.
        let e : b ≡ b' = cc w.runs in
        subst (Extension input table P b) e (Extension-refl input table v);
    absorb = λ s m t x y. y;
  }

  -- One edge, which fires as the expression says.
  module _ (kind : EdgeKind) (R : Relation)
      (fires : (table : Table) (s t : Cursor) → Fires input table kind s t ↔ R s t) where
    pub Fragment-edge : Fragment input (add_edge kind) R Never
    Fragment-edge = record {
      grows = λ start end b b' w.
          let e : push_edge b start (edge end) ≡ b' = cc w.runs in
          subst (Grows b) e (push_edge-Grows b start (edge end) w.formed w.start_lt w.end_lt);
      complete = λ start end b b' d s t w below m.
          let e : push_edge b start (edge end) ≡ b' = cc w.runs in
          let m' =
            (mem-push_edge b start (edge end) w.formed w.start_lt start (edge end)).1
              (inr (refl, refl)) in
          step (edge end) t
            (below.edges start (edge end) (subst (λ x. Memᴰ (edge end) (edges_from x start)) e m'))
            ((fires d.predicates s t).1 m) here;
      sound = λ start end b b' table P w inc v tr back.
          let e : push_edge b start (edge end) ≡ b' = cc w.runs in
          subst (Extension input table P b) e (
            Extension-refl input table (
              push_edge-Respects input table P b start (edge end) w.formed w.start_lt v
                (λ s t p f. tr s t p ((fires table s t).0 f))));
      absorb = λ s m t x y. absurd x;
    }
      where
        edge : ℕ → Edge
        edge end = record { kind = kind; target = end }
