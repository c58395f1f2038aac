-- ===== src/Prefilter/Closing.antt =====
-- rustmatch/src/prefilter.rs: the closures of the start table hold what they begin with, and the
-- targets of all their epsilon edges.
use rustmatch.Prelude.{
  ℕ, zero, suc, ◌+◌, ◌≤◌, ◌<◌, ◌≡◌, refl, sym, subst, ap, ◌∙◌, ◌⊎◌, inl, inr, ⊎_elim, Bool, true,
  false, List, [], ◌∷◌, ◌++◌, set, length, length-set, length-replicate, arith, Memᴰ, Memᴰ-nil,
  Memᴰ-cons, Memᴰ-concat, Bool-cases,
}
use rustmatch.Nfa.Builder.{EdgeKind, Edge}
use rustmatch.Nfa.Database.{PatternDatabase, edges_from, edge_matches, state_count}
use rustmatch.Engine.Closure.{Closure, is_visited, follows_epsilon}
use rustmatch.Engine.Flags.{flag-set, flag-replicate}
use rustmatch.Engine.Sorted.{sort-SameMembers}
use rustmatch.Prefilter.StartTable.{
  push_all_targets, drain, edges_left, fresh, close, push_matching, epsilon_closure, transition,
}

-- What the pushes add to the stack.
record Stacked (passes : EdgeKind → Bool) (es : List Edge) (stack stack' : List ℕ) : Type 0 where
  old : (q : ℕ) → Memᴰ q stack → Memᴰ q stack'
  pushed : (e : Edge) → Memᴰ e es → passes e.kind ≡ true → Memᴰ e.target stack'
  size : length stack' ≤ length stack + length es
  from : (q : ℕ) → Memᴰ q stack' → Memᴰ q stack ⊎ ((e : Edge) × Memᴰ e es × (q ≡ e.target))

push_all_targets-Stacked :
    (passes : EdgeKind → Bool) (es : List Edge) (stack : List ℕ)
    → Stacked passes es stack (push_all_targets passes es stack)
unfolding push_all_targets
push_all_targets-Stacked passes [] stack = record {
  old = λ q m. m;
  pushed = λ e m p. absurd (Memᴰ-nil m);
  size = omega arith;
  from = λ q m. inl m;
}
push_all_targets-Stacked passes (x ∷ es) stack = elim (Bool-cases (passes x.kind)) [
  | inl passed ↦
      let s = push_all_targets-Stacked passes es (x.target ∷ stack) in
      let size = s.size in
      rw passed (record {
        old = λ q m. s.old q ((Memᴰ-cons q x.target stack).1 (inr m));
        pushed = λ e m p.
            ⊎_elim
              (λ same.
                s.old e.target
                  ((Memᴰ-cons e.target x.target stack).1 (inl (ap (λ (y : Edge). y.target) same))))
              (λ k. s.pushed e k p) ((Memᴰ-cons e x es).0 m);
        size = omega arith;
        from = λ q m.
            ⊎_elim
              (λ k.
                ⊎_elim (λ e. inr (x, (Memᴰ-cons x x es).1 (inl refl), e)) (λ j. inl j)
                  ((Memᴰ-cons q x.target stack).0 k))
              (λ (e, k, same). inr (e, (Memᴰ-cons e x es).1 (inr k), same)) (s.from q m);
      })
  | inr refused ↦
      let s = push_all_targets-Stacked passes es stack in
      let size = s.size in
      rw refused (record {
        old = s.old;
        pushed = λ e m p.
            ⊎_elim
              (λ same. absurd (
                let no : passes x.kind ≡ true = subst (λ (y : Edge). passes y.kind ≡ true) same p in
                cc (no, refused)))
              (λ k. s.pushed e k p) ((Memᴰ-cons e x es).0 m);
        size = omega arith;
        from = λ q m.
            ⊎_elim (λ k. inl k) (λ (e, k, same). inr (e, (Memᴰ-cons e x es).1 (inr k), same))
              (s.from q m);
      })
]

edges_left-set :
    (edges : ℕ → List Edge) (i : ℕ) (visited : List Bool) (q : ℕ)
    → q < length visited
    → is_visited visited q ≡ false
    → length (edges (i + q)) + edges_left edges i (set visited q true) ≡ edges_left edges i visited
unfolding edges_left
edges_left-set edges i [] q lt h = absurd (omega arith)
edges_left-set edges i (true ∷ visited) zero lt h = cc
edges_left-set edges i (false ∷ visited) zero lt h =
    let same : i + 0 ≡ i = omega arith in
    ap (λ k. length (edges k) + edges_left edges (suc i) visited) same
edges_left-set edges i (true ∷ visited) (suc q) lt h =
    let ih = edges_left-set edges (suc i) visited q (omega arith) h in
    let same : i + suc q ≡ suc i + q = omega arith in
    ap (λ k. length (edges k) + edges_left edges (suc i) (set visited q true)) same ∙ ih
edges_left-set edges i (false ∷ visited) (suc q) lt h =
    let ih = edges_left-set edges (suc i) visited q (omega arith) h in
    let same : i + suc q ≡ suc i + q = omega arith in
    let size : length (edges (i + suc q)) ≡ length (edges (suc i + q)) =
      ap (λ k. length (edges k)) same in
    omega arith

module _ (edges : ℕ → List Edge) (n : ℕ)
    (targets : (q : ℕ) (e : Edge) → Memᴰ e (edges q) → e.target < n) where
  -- The loop's invariant: what is marked is listed, and its epsilon targets are marked or stacked.
  record IsOpen (stack : List ℕ) (c : Closure) : Type 0 where
    size : length c.visited ≡ n
    stack_lt : (q : ℕ) → Memᴰ q stack → q < n
    listed : (q : ℕ) → is_visited c.visited q ≡ true → Memᴰ q c.output
    marked : (q : ℕ) → Memᴰ q c.output → is_visited c.visited q ≡ true
    followed :
        (q : ℕ) (e : Edge)
        → is_visited c.visited q ≡ true
        → Memᴰ e (edges q)
        → follows_epsilon e.kind ≡ true
        → (is_visited c.visited e.target ≡ true) ⊎ Memᴰ e.target stack

  record IsDrained (stack : List ℕ) (c c' : Closure) : Type 0 where
    open_end : IsOpen [] c'
    kept : (q : ℕ) → is_visited c.visited q ≡ true → is_visited c'.visited q ≡ true
    taken : (q : ℕ) → Memᴰ q stack → is_visited c'.visited q ≡ true

  abbrev visit : ℕ → Closure → Closure
  visit q c = record { output = c.output ++ q ∷ []; visited = set c.visited q true }

  visit-IsOpen :
      (q : ℕ) (stack : List ℕ) (c : Closure)
      → IsOpen (q ∷ stack) c
      → IsOpen (push_all_targets follows_epsilon (edges q) stack) (visit q c)
  visit-IsOpen q stack c h =
      let s = push_all_targets-Stacked follows_epsilon (edges q) stack in
      let size = h.size in
      let lt = h.stack_lt q ((Memᴰ-cons q q stack).1 (inl refl)) in
      let mark = λ (p : ℕ). flag-set c.visited q p (omega arith) in
      record {
        size = length-set c.visited q true ∙ h.size;
        stack_lt = λ p m.
            ⊎_elim (λ k. h.stack_lt p ((Memᴰ-cons p q stack).1 (inr k)))
              (λ (e, k, same). subst (λ x. x < n) (sym same) (targets q e k)) (s.from p m);
        listed = λ p v.
            (Memᴰ-concat p q c.output).1
              (⊎_elim (λ old. inl (h.listed p old)) (λ e. inr e) ((mark p).0 v));
        marked = λ p m.
            (mark p).1
              (⊎_elim (λ k. inl (h.marked p k)) (λ e. inr e) ((Memᴰ-concat p q c.output).0 m));
        followed = λ p e v m f.
            ⊎_elim
              (λ old.
                ⊎_elim (λ k. inl ((mark e.target).1 (inl k)))
                  (λ k.
                    ⊎_elim (λ same. inl ((mark e.target).1 (inr same)))
                      (λ j. inr (s.old e.target j)) ((Memᴰ-cons e.target q stack).0 k))
                  (h.followed p e old m f))
              (λ same. inr (s.pushed e (subst (λ x. Memᴰ e (edges x)) same m) f)) ((mark p).0 v);
      }

  drain-IsDrained :
      (fuel : ℕ) (stack : List ℕ) (c : Closure)
      → IsOpen stack c
      → length stack + edges_left edges 0 c.visited < fuel
      → IsDrained stack c (drain edges fuel stack c)
  unfolding drain
  drain-IsDrained zero stack c h enough = absurd (omega arith)
  drain-IsDrained (suc fuel) [] c h enough = record {
    open_end = h;
    kept = λ q v. v;
    taken = λ q m. absurd (Memᴰ-nil m);
  }
  drain-IsDrained (suc fuel) (q ∷ stack) c h enough = elim (Bool-cases (is_visited c.visited q)) [
    | inl old ↦
        let skipped : IsOpen stack c = record {
          size = h.size;
          stack_lt = λ p m. h.stack_lt p ((Memᴰ-cons p q stack).1 (inr m));
          listed = h.listed;
          marked = h.marked;
          followed = λ p e v m f.
              ⊎_elim (λ k. inl k)
                (λ k.
                  ⊎_elim (λ same. inl (subst (λ x. is_visited c.visited x ≡ true) (sym same) old))
                    (λ j. inr j) ((Memᴰ-cons e.target q stack).0 k))
                (h.followed p e v m f);
        } in
        let rest = drain-IsDrained fuel stack c skipped (omega arith) in
        rw (old, drain)
          (record {
            open_end = rest.open_end;
            kept = rest.kept;
            taken = λ p m.
                ⊎_elim
                  (λ same. rest.kept p (subst (λ x. is_visited c.visited x ≡ true) (sym same) old))
                  (λ k. rest.taken p k) ((Memᴰ-cons p q stack).0 m);
          })
    | inr new ↦
        let size = h.size in
        let lt = h.stack_lt q ((Memᴰ-cons q q stack).1 (inl refl)) in
        let s = push_all_targets-Stacked follows_epsilon (edges q) stack in
        let grown = s.size in
        let left = edges_left-set edges 0 c.visited q (omega arith) new in
        let same : length (edges (0 + q)) ≡ length (edges q) =
          let e : 0 + q ≡ q = omega arith in ap (λ k. length (edges k)) e in
        let rest =
          drain-IsDrained fuel (push_all_targets follows_epsilon (edges q) stack) (visit q c)
            (visit-IsOpen q stack c h) (omega arith) in
        let mark = λ (p : ℕ). flag-set c.visited q p (omega arith) in
        rw (new, drain)
          (record {
            open_end = rest.open_end;
            kept = λ p v. rest.kept p ((mark p).1 (inl v));
            taken = λ p m.
                ⊎_elim (λ e. rest.kept p ((mark p).1 (inr e))) (λ k. rest.taken p (s.old p k))
                  ((Memᴰ-cons p q stack).0 m);
          })
  ]

module _ (db : PatternDatabase)
    (targets : (q : ℕ) (e : Edge) → Memᴰ e (edges_from db q) → e.target < state_count db) where
  -- The set has the states of the stack, and the targets of its epsilon edges.
  pub record IsClosedOver (stack states : List ℕ) : Type 0 where
    pub begun : (q : ℕ) → Memᴰ q stack → Memᴰ q states
    pub closed :
        (q : ℕ) (e : Edge)
        → Memᴰ q states
        → Memᴰ e (edges_from db q)
        → follows_epsilon e.kind ≡ true
        → Memᴰ e.target states

  pub close-IsClosedOver :
      (stack : List ℕ)
      → ((q : ℕ) → Memᴰ q stack → q < state_count db)
      → IsClosedOver stack (close db stack)
  unfolding close
  close-IsClosedOver stack lt =
      let edges = edges_from db in
      let blank : IsOpen edges (state_count db) targets stack (fresh db) = record {
        size = length-replicate (state_count db) false;
        stack_lt = lt;
        listed = λ q v.
            absurd (let no : false ≡ true = sym (flag-replicate (state_count db) q) ∙ v in cc no);
        marked = λ q m. absurd (Memᴰ-nil m);
        followed = λ q e v m f.
            absurd (let no : false ≡ true = sym (flag-replicate (state_count db) q) ∙ v in cc no);
      } in
      let fuel = suc (length stack + edges_left edges 0 (fresh db).visited) in
      let d =
        drain-IsDrained edges (state_count db) targets fuel stack (fresh db) blank (omega arith) in
      let out = (drain edges fuel stack (fresh db)).output in
      record {
        begun = λ q m. (sort-SameMembers out q).0 (d.open_end.listed q (d.taken q m));
        closed = λ q e m k f. (sort-SameMembers out e.target).0 (
            d.open_end.listed e.target (
              ⊎_elim (λ v. v) (λ none_left. absurd (Memᴰ-nil none_left))
                (d.open_end.followed q e (d.open_end.marked q ((sort-SameMembers out q).1 m)) k
                  f)));
      }

  -- What is pushed for a unit.
  push_matching-lt :
      (source : List ℕ) (symbol : ℕ) (stack : List ℕ)
      → ((q : ℕ) → Memᴰ q stack → q < state_count db)
      → (q : ℕ) → Memᴰ q (push_matching db source symbol stack)
      → q < state_count db
  unfolding push_matching
  push_matching-lt [] symbol stack lt q m = lt q m
  push_matching-lt (p ∷ source) symbol stack lt q m =
      let passes = λ (kind : EdgeKind). edge_matches db kind symbol in
      let s = push_all_targets-Stacked passes (edges_from db p) stack in
      push_matching-lt source symbol (push_all_targets passes (edges_from db p) stack)
        (λ x k.
          ⊎_elim (λ j. lt x j)
            (λ (e, j, same). subst (λ y. y < state_count db) (sym same) (targets p e j))
            (s.from x k))
        q m

  push_matching-old :
      (source : List ℕ) (symbol : ℕ) (stack : List ℕ) (q : ℕ)
      → Memᴰ q stack
      → Memᴰ q (push_matching db source symbol stack)
  unfolding push_matching
  push_matching-old [] symbol stack q m = m
  push_matching-old (p ∷ source) symbol stack q m =
      let passes = λ (kind : EdgeKind). edge_matches db kind symbol in
      let s = push_all_targets-Stacked passes (edges_from db p) stack in
      push_matching-old source symbol (push_all_targets passes (edges_from db p) stack) q
        (s.old q m)

  push_matching-fired :
      (source : List ℕ) (symbol : ℕ) (stack : List ℕ) (q : ℕ) (e : Edge)
      → Memᴰ q source
      → Memᴰ e (edges_from db q)
      → edge_matches db e.kind symbol ≡ true
      → Memᴰ e.target (push_matching db source symbol stack)
  unfolding push_matching
  push_matching-fired [] symbol stack q e m k f = absurd (Memᴰ-nil m)
  push_matching-fired (p ∷ source) symbol stack q e m k f =
      let passes = λ (kind : EdgeKind). edge_matches db kind symbol in
      let s = push_all_targets-Stacked passes (edges_from db p) stack in
      let stack' = push_all_targets passes (edges_from db p) stack in
      ⊎_elim
        (λ same.
          push_matching-old source symbol stack' e.target
            (s.pushed e (subst (λ x. Memᴰ e (edges_from db x)) same k) f))
        (λ j. push_matching-fired source symbol stack' q e j k f) ((Memᴰ-cons q p source).0 m)

  -- A transition holds what the unit fires, and is closed.
  pub transition-IsClosedOver :
      (source : List ℕ) (symbol : ℕ)
      → IsClosedOver (push_matching db source symbol []) (transition db source symbol)
  unfolding transition
  transition-IsClosedOver source symbol =
      close-IsClosedOver (push_matching db source symbol [])
        (push_matching-lt source symbol [] (λ q m. absurd (Memᴰ-nil m)))

  pub transition-fired :
      (source : List ℕ) (symbol q : ℕ) (e : Edge)
      → Memᴰ q source
      → Memᴰ e (edges_from db q)
      → edge_matches db e.kind symbol ≡ true
      → Memᴰ e.target (transition db source symbol)
  transition-fired source symbol q e m k f =
      (transition-IsClosedOver source symbol).begun e.target
        (push_matching-fired source symbol [] q e m k f)

  pub epsilon_closure-IsClosedOver :
      (seed : ℕ) → seed < state_count db → IsClosedOver (seed ∷ []) (epsilon_closure db (seed ∷ []))
  unfolding epsilon_closure
  epsilon_closure-IsClosedOver seed lt = close-IsClosedOver (seed ∷ []) (λ q m.
      ⊎_elim (λ e. subst (λ x. x < state_count db) (sym e) lt) (λ no. absurd (Memᴰ-nil no))
        ((Memᴰ-cons q seed []).0 m))
