-- ===== src/Nfa/Layout.antt =====
-- The dense arrays of rustmatch/src/nfa.rs hold what the nested lists held: a state's slice is its
-- list of edges, and its list of terminals.
use rustmatch.Prelude.{
  ℕ, zero, suc, ◌+◌, ◌≤◌, ◌<◌, ◌≡◌, refl, sym, ◌∙◌, ap, arith, List, [], ◌∷◌, ◌++◌, take, drop,
  length, get_elem?, get_or, Option, none, some, inl, inr, length-append, append_assoc, append-nil,
  get_elem?-concat, get_or-append_left, get_or_beyond, get_elem?-length, get_elem?-append_lt,
  get_elem?_beyond, get_or-concat, lt-trichotomy,
}
use rustmatch.Hir.{HirPattern}
use rustmatch.Nfa.Builder.{Edge, Builder}
use rustmatch.Nfa.Database.{
  State, Arrays, no_arrays, lay_out_state, lay_out, finish, slice, state_edges, state_terminals,
  edges_from, terminals_at, state_count, any_uses_assertions,
}

module _ {ℓ} {A : Type ℓ} where
  take-append : (n : ℕ) (xs ys : List A) → n ≤ length xs → take n (xs ++ ys) ≡ take n xs
  take-append zero xs ys h = refl
  take-append (suc n) [] ys h = absurd (omega arith)
  take-append (suc n) (x ∷ xs) ys h = ap (λ r. x ∷ r) (take-append n xs ys (omega arith))

  take-length : (xs : List A) → take (length xs) xs ≡ xs
  take-length [] = refl
  take-length (x ∷ xs) = ap (λ r. x ∷ r) (take-length xs)

  drop-length : (xs ys : List A) → drop (length xs) (xs ++ ys) ≡ ys
  drop-length [] ys = refl
  drop-length (x ∷ xs) ys = drop-length xs ys

  slice-append :
      (start len : ℕ) (xs ys : List A)
      → start + len ≤ length xs
      → slice start len (xs ++ ys) ≡ slice start len xs
  slice-append zero len xs ys h = take-append len xs ys (omega arith)
  slice-append (suc start) len [] ys h = absurd (omega arith)
  slice-append (suc start) len (x ∷ xs) ys h = slice-append start len xs ys (omega arith)

  slice_last : (xs ys : List A) → slice (length xs) (length ys) (xs ++ ys) ≡ ys
  slice_last xs ys = rw (drop-length xs ys) (take-length ys)

-- The states laid out so far, and the lists that they stand for.
record Holds (a : Arrays) (ess : List (List Edge)) (tss : List (List ℕ)) : Type 0 where
  edge_states : length a.states ≡ length ess
  terminal_states : length a.states ≡ length tss
  in_range :
      (q : ℕ) (s : State)
      → get_elem? a.states q ≡ some s
      → (s.edge_start + s.edge_len ≤ length a.edges)
        × (s.terminal_start + s.terminal_len ≤ length a.terminal_ordinals)
  edges : (q : ℕ) → state_edges a (get_elem? a.states q) ≡ get_or ess q []
  terminals : (q : ℕ) → state_terminals a (get_elem? a.states q) ≡ get_or tss q []

-- One value read from a list with one more element, at an index in range, at the end, beyond it.
module _ {ℓ} {A : Type ℓ} (P : ℕ → Option A → Type 0) (xs : List A) (v : A) where
  at_concat :
      ((q : ℕ) → q < length xs → P q (get_elem? xs q))
      → P (length xs) (some v)
      → ((q : ℕ) → length xs < q → P q none)
      → (q : ℕ) → P q (get_elem? (xs ++ v ∷ []) q)
  at_concat old new beyond q = elim (lt-trichotomy q (length xs)) [
    | inl lt ↦ rw (get_elem?-append_lt xs (v ∷ []) q lt) (old q lt)
    | inr (inl e) ↦ rw (e, get_elem?-concat xs v) new
    | inr (inr gt) ↦
        rw (get_elem?_beyond (xs ++ v ∷ []) q (omega (arith, length-append xs (v ∷ []))))
          (beyond q gt)
  ]

module _ (es : List Edge) (ts : List ℕ) (a : Arrays) (ess : List (List Edge)) (tss : List (List ℕ))
    (h : Holds a ess tss) where
  new_state : State
  new_state = record {
    edge_start = length a.edges;
    edge_len = length es;
    terminal_start = length a.terminal_ordinals;
    terminal_len = length ts;
  }

  edges-lay_out_state :
      (q : ℕ)
      → state_edges (lay_out_state es ts a) (get_elem? (a.states ++ new_state ∷ []) q)
        ≡ get_or (ess ++ es ∷ []) q []
  unfolding new_state
  edges-lay_out_state =
      at_concat (λ q s. state_edges (lay_out_state es ts a) s ≡ get_or (ess ++ es ∷ []) q [])
        a.states new_state
        (λ q lt.
          let (s, e) = get_elem?-length a.states q lt in
          rw e (
            slice-append s.edge_start s.edge_len a.edges es (h.in_range q s e).0
            ∙ rw e at (h.edges q)
            ∙ sym (get_or-append_left ess (es ∷ []) q [] (omega (arith, h.edge_states)))))
        (rw (h.edge_states, get_or-concat ess es []) (slice_last a.edges es))
        (λ q gt. sym (
          get_or_beyond (ess ++ es ∷ []) q []
            (omega (arith, length-append ess (es ∷ []), h.edge_states))))

  terminals-lay_out_state :
      (q : ℕ)
      → state_terminals (lay_out_state es ts a) (get_elem? (a.states ++ new_state ∷ []) q)
        ≡ get_or (tss ++ ts ∷ []) q []
  unfolding new_state
  terminals-lay_out_state =
      at_concat (λ q s. state_terminals (lay_out_state es ts a) s ≡ get_or (tss ++ ts ∷ []) q [])
        a.states new_state
        (λ q lt.
          let (s, e) = get_elem?-length a.states q lt in
          rw e (
            slice-append s.terminal_start s.terminal_len a.terminal_ordinals ts (h.in_range q s e).1
            ∙ rw e at (h.terminals q)
            ∙ sym (get_or-append_left tss (ts ∷ []) q [] (omega (arith, h.terminal_states)))))
        (rw (h.terminal_states, get_or-concat tss ts []) (slice_last a.terminal_ordinals ts))
        (λ q gt. sym (
          get_or_beyond (tss ++ ts ∷ []) q []
            (omega (arith, length-append tss (ts ∷ []), h.terminal_states))))

  -- One round keeps what the arrays hold, and adds a state's two lists.
  Holds-lay_out_state : Holds (lay_out_state es ts a) (ess ++ es ∷ []) (tss ++ ts ∷ [])
  unfolding new_state
  Holds-lay_out_state = record {
    edge_states = omega (
      arith,
      h.edge_states,
      length-append a.states (new_state ∷ []),
      length-append ess (es ∷ []),
    );
    terminal_states = omega (
      arith,
      h.terminal_states,
      length-append a.states (new_state ∷ []),
      length-append tss (ts ∷ []),
    );
    in_range =
        at_concat
          (λ q o.
            (s : State)
            → o ≡ some s
            → (s.edge_start + s.edge_len ≤ length (a.edges ++ es))
              × (s.terminal_start + s.terminal_len ≤ length (a.terminal_ordinals ++ ts)))
          a.states new_state
          (λ q lt s e. omega (
            arith,
            h.in_range q s e,
            length-append a.edges es,
            length-append a.terminal_ordinals ts,
          ))
          (λ s e. ground (arith, length-append a.edges es, length-append a.terminal_ordinals ts))
          (λ q gt s e. cc);
    edges = edges-lay_out_state;
    terminals = terminals-lay_out_state;
  }

Holds-lay_out :
    (ess : List (List Edge)) (tss : List (List ℕ)) (a : Arrays) (done : List (List Edge))
    (ends : List (List ℕ))
    → length ess ≡ length tss
    → Holds a done ends
    → Holds (lay_out ess tss a) (done ++ ess) (ends ++ tss)
unfolding lay_out
Holds-lay_out [] [] a done ends e h = rw (append-nil done, append-nil ends) h
Holds-lay_out [] (ts ∷ tss) a done ends e h = absurd (omega arith)
Holds-lay_out (es ∷ ess) [] a done ends e h = absurd (omega arith)
Holds-lay_out (es ∷ ess) (ts ∷ tss) a done ends e h =
    rw (← append_assoc done (es ∷ []) ess, ← append_assoc ends (ts ∷ []) tss)
      (Holds-lay_out ess tss (lay_out_state es ts a) (done ++ es ∷ []) (ends ++ ts ∷ [])
        (omega arith) (Holds-lay_out_state es ts a done ends h))

-- For a builder with as many lists of terminals as lists of edges, the finished database has one
-- state for each list, and each state's edges and terminals are the builder's.
pub finish_lem :
    (patterns : List HirPattern) (b : Builder)
    → length b.terminals ≡ length b.edges
    → (state_count (finish patterns b) ≡ length b.edges)
      × ((q : ℕ) → edges_from (finish patterns b) q ≡ get_or b.edges q [])
      × ((q : ℕ) → terminals_at (finish patterns b) q ≡ get_or b.terminals q [])
unfolding finish edges_from terminals_at lay_out any_uses_assertions
finish_lem patterns b e =
    let h = Holds-lay_out b.edges b.terminals no_arrays [] [] (sym e) (record {
      edge_states = refl;
      terminal_states = refl;
      in_range = λ q s e. cc;
      edges = λ q. refl;
      terminals = λ q. refl;
    }) in
    (h.edge_states, h.edges, h.terminals)
