-- ===== src/Engine/Sorted.antt =====
-- rustmatch/src/engine.rs: the order of the active states does not matter to what is recorded.
use rustmatch.Prelude.{
  ℕ, suc, ◌<◌, ◌≡◌, refl, sym, subst, ap, ap₂, ◌∙◌, ◌⊎◌, inl, inr, ◌↔◌, ⊎_elim, Bool, false, Option,
  none, List, [], ◌∷◌, arith, Memᴰ, Memᴰ-nil, Memᴰ-cons, get_or, length, drop, leb, if◌then◌else◌,
  Bool-cases,
}
use rustmatch.Context.{Units, Cursor, advance}
use rustmatch.Nfa.Builder.{EdgeKind, Edge}
use rustmatch.Nfa.Database.{PatternDatabase, edges_from, edge_matches, state_count}
use rustmatch.Engine.Closure.{Closure, follows_epsilon}
use rustmatch.Engine.Scan.{
  Ends, record_states, insert_ordinal, sort_ordinals, blank, no_ends, extend, fire_edges,
  fire_states, scan_units, scan_start,
}
use rustmatch.Engine.Step.{fire_states_lem}
use rustmatch.Engine.Recorded.{length-record_states, EndsIn, record_states-Recorded}
use rustmatch.Engine.Cache.{anywhere, compute_transition, root_states}
use rustmatch.Engine.CachedRun.{sorted_after, sorted_units, sorted_start}

-- Two lists with the same members.
abbrev pub SameMembers : List ℕ → List ℕ → Type 0
SameMembers xs ys = (q : ℕ) → Memᴰ q xs ↔ Memᴰ q ys

mem-insert : (q o : ℕ) (xs : List ℕ) → Memᴰ q (insert_ordinal o xs) ↔ ((q ≡ o) ⊎ Memᴰ q xs)
unfolding insert_ordinal
mem-insert q o [] = Memᴰ-cons q o []
mem-insert q o (x ∷ xs) = elim (Bool-cases (leb o x)) [
  | inl le ↦ rw le (Memᴰ-cons q o (x ∷ xs))
  | inr gt ↦
      let ih = mem-insert q o xs in
      let split = Memᴰ-cons q x (insert_ordinal o xs) in
      let whole = Memᴰ-cons q x xs in
      rw gt (
        λ m.
            ⊎_elim (λ e. inr (whole.1 (inl e)))
              (λ k. ⊎_elim inl (λ j. inr (whole.1 (inr j))) (ih.0 k)) (split.0 m),
        ⊎_elim (λ e. split.1 (inr (ih.1 (inl e))))
            (λ m. ⊎_elim (λ e. split.1 (inl e)) (λ j. split.1 (inr (ih.1 (inr j)))) (whole.0 m)),
      )
]

pub sort-SameMembers : (xs : List ℕ) → SameMembers xs (sort_ordinals xs)
unfolding sort_ordinals
sort-SameMembers [] q = (λ m. m, λ m. m)
sort-SameMembers (x ∷ xs) q =
    let ih = sort-SameMembers xs q in
    let ins = mem-insert q x (sort_ordinals xs) in
    let whole = Memᴰ-cons q x xs in
    (
      λ m. ins.1 (⊎_elim inl (λ k. inr (ih.0 k)) (whole.0 m)),
      λ m. whole.1 (⊎_elim inl (λ k. inr (ih.1 k)) (ins.0 m)),
    )

ends-ext :
    (bs cs : List (Option ℕ))
    → length bs ≡ length cs
    → ((o : ℕ) → o < length bs → get_or bs o none ≡ get_or cs o none)
    → bs ≡ cs
ends-ext [] [] size h = refl
ends-ext [] (c ∷ cs) size h = absurd (omega (arith, size))
ends-ext (b ∷ bs) [] size h = absurd (omega (arith, size))
ends-ext (b ∷ bs) (c ∷ cs) size h =
    ap₂ ◌∷◌ (h 0 (omega arith))
      (ends-ext bs cs (omega (arith, size)) (λ o lt. h (suc o) (omega arith)))

module _ (db : PatternDatabase) (f : EdgeKind → Bool) where
  fire_edges-anywhere :
      (s s' : Cursor) (unit : ℕ) (es : List Edge) (c : Closure)
      → fire_edges db (λ x. f) s unit es c ≡ fire_edges db (λ x. f) s' unit es c
  unfolding fire_edges
  fire_edges-anywhere s s' unit [] c = refl
  fire_edges-anywhere s s' unit (e ∷ es) c =
      fire_edges-anywhere s s' unit es
        (if edge_matches db e.kind unit then extend db (λ x. f) s e.target c else c)

  -- Where the closure does not read the cursor, a unit has the same effect at every cursor.
  fire_states-anywhere :
      (s s' : Cursor) (unit : ℕ) (qs : List ℕ) (c : Closure)
      → fire_states db (λ x. f) s unit qs c ≡ fire_states db (λ x. f) s' unit qs c
  unfolding fire_states
  fire_states-anywhere s s' unit [] c = refl
  fire_states-anywhere s s' unit (q ∷ qs) c =
      fire_states-anywhere s s' unit qs (fire_edges db (λ x. f) s unit (edges_from db q) c)
      ∙ ap (λ d. fire_states db (λ x. f) s' unit qs d)
          (fire_edges-anywhere s s' unit (edges_from db q) c)

module _ (db : PatternDatabase)
    (targets : (q : ℕ) (e : Edge) → Memᴰ e (edges_from db q) → e.target < state_count db) where
  -- The states after a unit, in any order, are those after it from the same states in another.
  next-SameMembers :
      (s : Cursor) (unit : ℕ) (xs ys : List ℕ)
      → SameMembers xs ys
      → SameMembers
          (fire_states db (λ x. follows_epsilon) s unit xs (blank db)).output
          (compute_transition db ys unit)
  unfolding compute_transition
  next-SameMembers s unit xs ys same q =
      let here =
        λ (zs : List ℕ). fire_states_lem db (λ x. follows_epsilon) targets anywhere unit zs q in
      let out = (fire_states db (λ x. follows_epsilon) anywhere unit ys (blank db)).output in
      let sorted = sort-SameMembers out q in
      let moved : (fire_states db (λ x. follows_epsilon) anywhere unit xs (blank db)).output
          ≡ (fire_states db (λ x. follows_epsilon) s unit xs (blank db)).output =
        ap (λ (c : Closure). c.output)
          (fire_states-anywhere db follows_epsilon anywhere s unit xs (blank db)) in
      (
        λ m.
            let (p, k, fired) = (here xs).0 (subst (Memᴰ q) (sym moved) m) in
            sorted.0 ((here ys).1 (p, (same p).0 k, fired)),
        λ m.
            let (p, k, fired) = (here ys).0 (sorted.1 m) in
            subst (Memᴰ q) moved ((here xs).1 (p, (same p).1 k, fired)),
      )

  EndsIn-SameMembers :
      (o : ℕ) (xs ys : List ℕ) → SameMembers xs ys → EndsIn db o xs ↔ EndsIn db o ys
  EndsIn-SameMembers o xs ys same =
      (λ (q, m, k). (q, (same q).0 m, k), λ (q, m, k). (q, (same q).1 m, k))

  -- The same ends are recorded from the states in any order.
  record-SameMembers :
      (xs ys : List ℕ) (end : ℕ) (r r' : Ends)
      → SameMembers xs ys
      → r.best_end ≡ r'.best_end
      → (record_states db xs end r).best_end ≡ (record_states db ys end r').best_end
  record-SameMembers xs ys end r r' same e =
      let size = length-record_states db xs end r in
      let size' = length-record_states db ys end r' in
      ends-ext (record_states db xs end r).best_end (record_states db ys end r').best_end
        (size ∙ ap length e ∙ sym size')
        (λ o lt.
          let here = record_states-Recorded db xs end o r (omega arith) in
          let there = record_states-Recorded db ys end o r' (omega (arith, ap length e)) in
          let ends = EndsIn-SameMembers o xs ys same in
          elim here.result [
            | inl (p, b) ↦ elim there.result [
              | inl (p', b') ↦ b ∙ sym b'
              | inr (out, b') ↦ absurd (out (ends.0 p))
            ]
            | inr (out, b) ↦ elim there.result [
              | inl (p', b') ↦ absurd (out (ends.1 p'))
              | inr (out', b') ↦ b ∙ ap (λ bs. get_or bs o none) e ∙ sym b'
            ]
          ])

  scan_after : List ℕ → List ℕ → Cursor → Ends → Ends
  unfolding scan_units
  scan_after units out s r = elim out as (λ x. Ends) [
    | [] ↦ r
    | q ∷ qs ↦ scan_units db (λ x. follows_epsilon) units s (q ∷ qs) r
  ]

  after-SameMembers :
      (units : List ℕ) (s : Cursor) (xs ys : List ℕ) (r r' : Ends)
      → SameMembers xs ys
      → (record_states db xs s.position r).best_end ≡ (record_states db ys s.position r').best_end
      → ((scan_units db
            (λ x. follows_epsilon)
            units
            s
            xs
            (record_states db xs s.position r)).best_end
          ≡ (sorted_units db units s.position ys (record_states db ys s.position r')).best_end)
      → (scan_after units xs s (record_states db xs s.position r)).best_end
        ≡ (sorted_after db units ys s.position r').best_end
  unfolding scan_after sorted_after record_states
  after-SameMembers units s [] [] r r' same e rest = e
  after-SameMembers units s [] (y ∷ ys) r r' same e rest =
      absurd (Memᴰ-nil ((same y).1 ((Memᴰ-cons y y ys).1 (inl refl))))
  after-SameMembers units s (x ∷ xs) [] r r' same e rest =
      absurd (Memᴰ-nil ((same x).0 ((Memᴰ-cons x x xs).1 (inl refl))))
  after-SameMembers units s (x ∷ xs) (y ∷ ys) r r' same e rest = rest

  loop-SameMembers :
      (units : List ℕ) (s : Cursor) (xs ys : List ℕ) (r r' : Ends)
      → SameMembers xs ys
      → r.best_end ≡ r'.best_end
      → (scan_units db (λ x. follows_epsilon) units s xs r).best_end
        ≡ (sorted_units db units s.position ys r').best_end
  unfolding scan_units sorted_units scan_after sorted_after
  loop-SameMembers [] s xs ys r r' same e = e
  loop-SameMembers (unit ∷ units) s xs ys r r' same e =
      let out = (fire_states db (λ x. follows_epsilon) (advance s) unit xs (blank db)).output in
      let next = compute_transition db ys unit in
      let same' = next-SameMembers (advance s) unit xs ys same in
      let e' = record-SameMembers out next (suc s.position) r r' same' e in
      after-SameMembers units (advance s) out next r r' same' e' (
        loop-SameMembers units (advance s) out next (record_states db out (suc s.position) r)
          (record_states db next (suc s.position) r') same' e')

  -- A start of the scan with the automaton leaves the ends that it leaves with sorted states.
  pub scan_start-sorted :
      (input : Units) (start : ℕ)
      → (scan_start db (λ x. follows_epsilon) input db.root start).best_end
        ≡ (sorted_start db input start).best_end
  unfolding scan_start sorted_start root_states
  scan_start-sorted input start =
      let out = (extend db (λ x. follows_epsilon) anywhere db.root (blank db)).output in
      loop-SameMembers (drop start input) (record { position = start; after_current = false }) out
        (sort_ordinals out) (no_ends db) (no_ends db) (sort-SameMembers out) refl
