-- ===== src/Nfa/Growth.antt =====
-- What the functions of rustmatch/src/nfa.rs that change the builder keep and add.
use rustmatch.Prelude.{
  ℕ, ◌+◌, ◌≤◌, ◌<◌, ◌≡◌, refl, sym, subst, ap₂, ◌∙◌, ◌⊎◌, inl, inr, ◌↔◌, ⊎_elim, some, List, [],
  ◌∷◌, ◌++◌, arith, get_elem?, get_or, set, length, Memᴰ, Memᴰ-concat, length-set, length-append,
  get_or-set_self, get_or-set_ne, get_or-concat_default, get_or_beyond, get_elem?-append_left,
  get_elem?-concat, ℕ_discrete, Option-cases,
}
use mathlib.Core.Logic.{if_pos, if_neg}
use rustmatch.Error.{Result, ok, ◌>>=◌, >>=-eq-ok}
use rustmatch.Predicate.{SymbolPredicate, SymbolPredicate-discrete}
use rustmatch.Nfa.Builder.{
  Edge, Builder, edges_from, push_edge, add_state, lookup, intern_predicate,
}

abbrev pub count : Builder → ℕ
count b = length b.edges

abbrev pub terminals_at : Builder → ℕ → List ℕ
terminals_at b q = get_or b.terminals q []

pub record IsFormed (b : Builder) : Type 0 where
  pub same : length b.terminals ≡ count b
  pub targets : (q : ℕ) (e : Edge) → Memᴰ e (edges_from b q) → e.target < count b
  pub interned :
      (p : SymbolPredicate) (id : ℕ)
      → lookup p b.predicate_ids ≡ some id
      → get_elem? b.predicates id ≡ some p

abbrev pub Includes : List SymbolPredicate → List SymbolPredicate → Type 0
Includes table preds =
    (id : ℕ) (p : SymbolPredicate) → get_elem? preds id ≡ some p → get_elem? table id ≡ some p

-- All that `b` has is in `d` too.
pub record Below (b d : Builder) : Type 0 where
  pub states : count b ≤ count d
  pub edges : (q : ℕ) (e : Edge) → Memᴰ e (edges_from b q) → Memᴰ e (edges_from d q)
  pub predicates : Includes d.predicates b.predicates
  pub terminals : (q o : ℕ) → Memᴰ o (terminals_at b q) → Memᴰ o (terminals_at d q)

pub Below-refl : (b : Builder) → Below b b
Below-refl b = record {
  states = omega arith;
  edges = λ q e m. m;
  predicates = λ id p h. h;
  terminals = λ q o m. m;
}

pub Below-trans : {b c d : Builder} → Below b c → Below c d → Below b d
Below-trans g h = record {
  states = omega (arith, g.states, h.states);
  edges = λ q e m. h.edges q e (g.edges q e m);
  predicates = λ id p k. h.predicates id p (g.predicates id p k);
  terminals = λ q o m. h.terminals q o (g.terminals q o m);
}

-- A step of the compiler that adds no terminal.
pub record Grows (b b' : Builder) : Type 0 where
  pub formed : IsFormed b'
  pub below : Below b b'
  pub quiet : (q : ℕ) → terminals_at b' q ≡ terminals_at b q

pub Grows-refl : {b : Builder} → IsFormed b → Grows b b
Grows-refl {b} f = record { formed = f; below = Below-refl b; quiet = λ q. refl }

pub Grows-trans : {b c d : Builder} → Grows b c → Grows c d → Grows b d
Grows-trans g h = record {
  formed = h.formed;
  below = Below-trans g.below h.below;
  quiet = λ q. h.quiet q ∙ g.quiet q;
}

-- Pushing at one index of a list of lists.
module _ {ℓ} {A : Type ℓ} where
  pub mem-push :
      (xss : List (List A)) (i : ℕ) (v : A) (j : ℕ) (x : A)
      → i < length xss
      → Memᴰ x (get_or (set xss i (get_or xss i [] ++ v ∷ [])) j [])
        ↔ (Memᴰ x (get_or xss j []) ⊎ ((j ≡ i) × (x ≡ v)))
  mem-push xss i v j x h = elim (ℕ_discrete i j) [
    | yes e ↦
        let here : get_or (set xss i (get_or xss i [] ++ v ∷ [])) j [] ≡ get_or xss j [] ++ v ∷ [] =
          subst
            (λ k. get_or (set xss i (get_or xss i [] ++ v ∷ [])) k [] ≡ get_or xss k [] ++ v ∷ []) e
            (get_or-set_self xss i _ [] h) in
        rw here (
          λ m. ⊎_elim inl (λ k. inr (sym e, k)) ((Memᴰ-concat x v (get_or xss j [])).0 m),
          λ m. (Memᴰ-concat x v (get_or xss j [])).1 (⊎_elim inl (λ k. inr k.1) m),
        )
    | no n ↦
        rw (get_or-set_ne xss i j (get_or xss i [] ++ v ∷ []) [] n)
          (inl, ⊎_elim (λ m. m) (λ k. absurd (n (sym k.0))))
  ]

module _ (b : Builder) (q : ℕ) (e : Edge) (f : IsFormed b) (lt : q < count b) where
  pub mem-push_edge :
      (r : ℕ) (k : Edge)
      → Memᴰ k (edges_from (push_edge b q e) r) ↔ (Memᴰ k (edges_from b r) ⊎ ((r ≡ q) × (k ≡ e)))
  unfolding push_edge
  mem-push_edge r k = mem-push b.edges q e r k lt

  pub count-push_edge : count (push_edge b q e) ≡ count b
  unfolding push_edge
  count-push_edge = length-set b.edges q _

  pub push_edge-Grows : e.target < count b → Grows b (push_edge b q e)
  unfolding push_edge
  push_edge-Grows t = record {
    formed = record {
      same = f.same ∙ sym count-push_edge;
      targets = λ r k m.
          rw count-push_edge (⊎_elim (f.targets r k) (λ w. rw (w.1) t) ((mem-push_edge r k).0 m));
      interned = f.interned;
    };
    below = record {
      states = omega (arith, count-push_edge);
      edges = λ r k m. (mem-push_edge r k).1 (inl m);
      predicates = λ id p h. h;
      terminals = λ r o m. m;
    };
    quiet = λ r. refl;
  }

-- What `add_state` returns where it returns.
abbrev pub with_state : Builder → Builder
with_state b = record b { edges = b.edges ++ [] ∷ []; terminals = b.terminals ++ [] ∷ [] }

pub add_state-eq-ok :
    (b : Builder) {n : ℕ} {b' : Builder}
    → add_state b ≡ ok (n, b')
    → (n ≡ count b) × (b' ≡ with_state b)
unfolding add_state
add_state-eq-ok b h = ground arith

pub count-with_state : (b : Builder) → count (with_state b) ≡ count b + 1
count-with_state b = omega (arith, length-append b.edges ([] ∷ []))

pub edges_from-with_state : (b : Builder) (q : ℕ) → edges_from (with_state b) q ≡ edges_from b q
edges_from-with_state b q = get_or-concat_default b.edges q []

pub with_state-Grows : (b : Builder) → IsFormed b → Grows b (with_state b)
with_state-Grows b f = record {
  formed = record {
    same =
        omega (arith, f.same, length-append b.edges ([] ∷ []), length-append b.terminals ([] ∷ []));
    targets = λ q e m.
        omega
          (arith, f.targets q e (subst (Memᴰ e) (edges_from-with_state b q) m), count-with_state b);
    interned = f.interned;
  };
  below = record {
    states = omega (arith, count-with_state b);
    edges = λ q e m. subst (Memᴰ e) (sym (edges_from-with_state b q)) m;
    predicates = λ id p h. h;
    terminals = λ q o m. subst (Memᴰ o) (sym (get_or-concat_default b.terminals q [])) m;
  };
  quiet = λ q. get_or-concat_default b.terminals q [];
}

-- A state that does not exist yet has no edges.
pub edges_from_beyond : (b : Builder) (q : ℕ) → count b ≤ q → edges_from b q ≡ []
edges_from_beyond b q h = get_or_beyond b.edges q [] h

abbrev pub with_predicate : SymbolPredicate → Builder → Builder
with_predicate p b = record b {
  predicates = b.predicates ++ p ∷ [];
  predicate_ids = (p, length b.predicates) ∷ b.predicate_ids;
}

intern-eq-ok :
    (p : SymbolPredicate) (b : Builder) {id : ℕ} {b' : Builder}
    → intern_predicate p b ≡ ok (id, b')
    → ((lookup p b.predicate_ids ≡ some id) × (b' ≡ b))
      ⊎ ((id ≡ length b.predicates) × (b' ≡ with_predicate p b))
unfolding intern_predicate
intern-eq-ok p b h = elim (Option-cases (lookup p b.predicate_ids)) [
  | inl new ↦ inr (ground arith)
  | inr (id, found) ↦ inl (ground arith)
]

with_predicate-interned :
    (p : SymbolPredicate) (b : Builder)
    → IsFormed b
    → (q : SymbolPredicate) (id : ℕ) → lookup q (with_predicate p b).predicate_ids ≡ some id
    → get_elem? (with_predicate p b).predicates id ≡ some q
unfolding lookup
with_predicate-interned p b f q id h = elim (SymbolPredicate-discrete p q) [
  | yes e ↦ cc (get_elem?-concat b.predicates p, rw (if_pos _ e) at h)
  | no n ↦ get_elem?-append_left b.predicates (p ∷ []) id q (f.interned q id (rw (if_neg _ n) at h))
]

with_predicate-Grows :
    (p : SymbolPredicate) (b : Builder) → IsFormed b → Grows b (with_predicate p b)
with_predicate-Grows p b f = record {
  formed = record { same = f.same; targets = f.targets; interned = with_predicate-interned p b f };
  below = record {
    states = omega arith;
    edges = λ q e m. m;
    predicates = λ id q h. get_elem?-append_left b.predicates (p ∷ []) id q h;
    terminals = λ q o m. m;
  };
  quiet = λ q. refl;
}

-- The identifier that `intern_predicate` returns names the predicate, and no state is touched.
pub record Interned (p : SymbolPredicate) (b : Builder) (id : ℕ) (b' : Builder) : Type 0 where
  pub grows : Grows b b'
  pub found : get_elem? b'.predicates id ≡ some p
  pub same_edges : b'.edges ≡ b.edges

pub intern_lem :
    (p : SymbolPredicate) (b : Builder) {id : ℕ} {b' : Builder}
    → IsFormed b
    → intern_predicate p b ≡ ok (id, b')
    → Interned p b id b'
intern_lem p b {id} {b'} f h = elim (intern-eq-ok p b h) [
  | inl (found, e) ↦
      rw e (record { grows = Grows-refl f; found = f.interned p id found; same_edges = refl })
  | inr (e, e') ↦
      rw (e, e')
        (record {
          grows = with_predicate-Grows p b f;
          found = get_elem?-concat b.predicates p;
          same_edges = refl;
        })
]

abbrev pair : ℕ → Builder → ℕ × Builder
pair n b = (n, b)

-- Past a call of `add_state` that returns.
pub add_state-bind {ℓ} :
    {A : Type ℓ} (b : Builder) (f : ℕ × Builder → Result A) {a : A}
    → (add_state b >>= f) ≡ ok a
    → f (count b, with_state b) ≡ ok a
add_state-bind b f {a} h =
    let ((n, b'), added, rest) = >>=-eq-ok (add_state b) f h in
    let (e, e') = add_state-eq-ok b added in subst (λ x. f x ≡ ok a) (ap₂ pair e e') rest
