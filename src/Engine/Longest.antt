-- ===== src/Engine/Longest.antt =====
-- What one start of a scanner of rustmatch/src/engine.rs leaves in `best_end`: the last position
-- where a pattern ends.
use rustmatch.Prelude.{
  ℕ, zero, suc, ◌+◌, ◌-◌, ◌<◌, ◌≤◌, ◌≡◌, refl, sym, subst, ap, ◌∙◌, ◌⊎◌, inl, inr, true, false,
  List, [], ◌∷◌, Memᴰ, Memᴰ-nil, arith, Option, none, some, get_elem?, get_or, length, drop,
  replicate, length-replicate, lt-trichotomy,
}
use rustmatch.Context.{Units, Cursor, advance}
use rustmatch.Nfa.Builder.{Edge}
use rustmatch.Nfa.Database.{PatternDatabase, edges_from, terminals_at, state_count}
use rustmatch.Engine.Closure.{follows_assertions}
use rustmatch.Engine.Scan.{
  Ends, best, record_states, blank, no_ends, extend, fire_states, scan_units, scan_start,
}
use rustmatch.Engine.Walks.{WalkTo, Walk-cases}
use rustmatch.Engine.Front.{
  Later, Later-eq, Later-advance, Walk-Later, IsFront, extend-IsFront, fire_states-IsFront,
}
use rustmatch.Engine.Recorded.{Recorded, Recorded-ext, EndsIn, record_states-Recorded}

abbrev pub begins_at : ℕ → Cursor
begins_at n = record { position = n; after_current = false }

abbrev pub ends_at : ℕ → Cursor
ends_at e = record { position = e; after_current = true }

module _ (db : PatternDatabase) (input : Units)
    (targets : (q : ℕ) (e : Edge) → Memᴰ e (edges_from db q) → e.target < state_count db) (root : ℕ)
    (origin : Cursor) where
  -- A walk from the root ends at the position in a state where the pattern ends.
  abbrev pub EndsAt : ℕ → ℕ → Type 0
  EndsAt o e =
      (q : ℕ) × Memᴰ o (terminals_at db q) × WalkTo db input targets q (ends_at e) root origin

  -- A walk that ends beyond a cursor's position passes it.
  Crossing : Cursor → Type 0
  Crossing s =
      ((unit : ℕ) × (get_elem? input s.position ≡ some unit))
      × ((p : ℕ) × WalkTo db input targets p (advance s) root origin)

  behind : (s u : Cursor) → s.position < u.position → origin ≡ u → ¬ Later origin s
  behind s u lt stay (inl a) =
      omega (arith, ap (λ (k : Cursor). k.position) stay, ap (λ (k : Cursor). k.position) a)
  behind s u lt stay (inr (lt', b)) = omega (arith, ap (λ (k : Cursor). k.position) stay)

  crosses :
      (d : ℕ) (s u : Cursor) (q : ℕ)
      → Later origin s
      → u.position ≡ suc (s.position + d)
      → WalkTo db input targets q u root origin
      → Crossing s
  unfolding Crossing
  crosses zero s u q later e walk = elim (Walk-cases db input targets walk) [
    | inl (stay, way) ↦ absurd (behind s u (omega arith) stay later)
    | inr last ↦
        let same : last.cursor ≡ s =
          Later-eq origin last.cursor s (Walk-Later db input targets last.before) later
            (omega (arith, ap (λ (k : Cursor). k.position) last.next)) in
        (
          (
            last.unit,
            subst (λ (k : Cursor). get_elem? input k.position ≡ some last.unit) same last.at,
          ),
          (
            q,
            subst (λ k. WalkTo db input targets q k root origin)
                (last.next ∙ ap (λ (k : Cursor). advance k) same) walk,
          ),
        )
  ]
  crosses (suc d) s u q later e walk = elim (Walk-cases db input targets walk) [
    | inl (stay, way) ↦ absurd (behind s u (omega arith) stay later)
    | inr last ↦
        crosses d s last.cursor last.state later
          (omega (arith, ap (λ (k : Cursor). k.position) last.next)) last.before
  ]

  crosses_beyond :
      (s : Cursor) (o e : ℕ) → Later origin s → s.position < e → EndsAt o e → Crossing s
  crosses_beyond s o e later lt (q, m, walk) =
      crosses (e - suc s.position) s (ends_at e) q later (omega arith) walk

  -- Beyond the cursor, `best_end` has the last end of the pattern, or is as before and there is none.
  abbrev pub LastEnd : ℕ → Ends → Ends → Cursor → Type 0
  LastEnd o r r' s =
      ((e : ℕ) × (best r' o ≡ some e)
        × (s.position < e)
        × EndsAt o e
        × ((e' : ℕ) → s.position < e' → EndsAt o e' → e' ≤ e))
      ⊎ ((best r' o ≡ best r o) × ((e' : ℕ) → s.position < e' → ¬ EndsAt o e'))

  -- One position is recorded, the later ones are scanned.
  LastEnd-step :
      (o : ℕ) (r r₁ r' : Ends) (s : Cursor)
      → Recorded o (suc s.position) (EndsAt o (suc s.position)) r r₁
      → LastEnd o r₁ r' (advance s)
      → LastEnd o r r' s
  LastEnd-step o r r₁ r' s now (inl (e, b, lt, ends, most)) = inl (
    e,
    b,
    omega arith,
    ends,
    λ e' lt' a. elim (lt-trichotomy (suc s.position) e') [
      | inl less ↦ most e' less a
      | inr (inl same) ↦ omega arith
      | inr (inr more) ↦ omega arith
    ],
  )
  LastEnd-step o r r₁ r' s now (inr (same, none_later)) = elim now.result [
    | inl (ends, b) ↦ inl (
      suc s.position,
      same ∙ b,
      omega arith,
      ends,
      λ e' lt' a. elim (lt-trichotomy (suc s.position) e') [
        | inl less ↦ absurd (none_later e' less a)
        | inr (inl eq) ↦ omega arith
        | inr (inr more) ↦ omega arith
      ],
    )
    | inr (no_end, b) ↦ inr (
      same ∙ b,
      λ e' lt' a. elim (lt-trichotomy (suc s.position) e') [
        | inl less ↦ none_later e' less a
        | inr (inl eq) ↦ no_end (subst (EndsAt o) (sym eq) a)
        | inr (inr more) ↦ omega arith
      ],
    )
  ]

  -- The loop ends early where no state is active.
  break-LastEnd :
      (units : List ℕ) (s : Cursor) (out : List ℕ) (o : ℕ) (r : Ends)
      → Later origin s
      → IsFront db input targets root origin out (advance s)
      → LastEnd o r (scan_units db (follows_assertions input) units (advance s) out r) (advance s)
      → LastEnd o r
          (elim out [
            | [] ↦ r
            | q ∷ qs ↦ scan_units db (follows_assertions input) units (advance s) (q ∷ qs) r
          ])
          (advance s)
  unfolding Crossing
  break-LastEnd units s [] o r later front h = inr (
    refl,
    λ e' lt' a.
        let (unit, (p, walk)) = crosses_beyond s o e' later (omega arith) a in
        Memᴰ-nil ((front p).1 walk),
  )
  break-LastEnd units s (q ∷ qs) o r later front h = h

  scan_units-LastEnd :
      (units : List ℕ) (s : Cursor) (active : List ℕ) (o : ℕ) (r : Ends)
      → ((i : ℕ) → get_elem? units i ≡ get_elem? input (s.position + i))
      → Later origin s
      → IsFront db input targets root origin active s
      → o < length r.best_end
      → LastEnd o r (scan_units db (follows_assertions input) units s active r) s
  unfolding scan_units Crossing
  scan_units-LastEnd [] s active o r at later front lt = inr (
    refl,
    λ e' lt' a.
        let ((unit, found), rest) = crosses_beyond s o e' later lt' a in
        let missing : none ≡ get_elem? input s.position =
          subst (λ n. none ≡ get_elem? input n) (omega arith) (at 0) in
        cc (missing, found),
  )
  scan_units-LastEnd (unit ∷ units) s active o r at later front lt =
      let at_s : get_elem? input s.position ≡ some unit =
        subst (λ n. get_elem? input n ≡ some unit) (omega arith) (sym (at 0)) in
      let next =
        (fire_states db (follows_assertions input) (advance s) unit active (blank db)).output in
      let front' =
        fire_states-IsFront db input targets root origin s unit active later at_s front in
      let now = record_states-Recorded db next (suc s.position) o r lt in
      let size = now.size in
      let r₁ = record_states db next (suc s.position) r in
      LastEnd-step o r r₁ (scan_units db (follows_assertions input) (unit ∷ units) s active r) s
        (Recorded-ext o (suc s.position) (EndsIn db o next) (EndsAt o (suc s.position)) r r₁
          (λ (q, m, k). (q, k, (front' q).0 m), λ (q, k, walk). (q, (front' q).1 walk, k)) now)
        (break-LastEnd units s next o r₁ later front' (
          scan_units-LastEnd units (advance s) next o r₁
            (λ i. subst (λ n. get_elem? units i ≡ get_elem? input n) (omega arith) (at (suc i)))
            (Later-advance origin s later) front' (omega arith)))

get_elem?-drop : (n i : ℕ) (xs : List ℕ) → get_elem? (drop n xs) i ≡ get_elem? xs (n + i)
get_elem?-drop zero i xs = ap (λ k. get_elem? xs k) (omega arith)
get_elem?-drop (suc n) i [] = refl
get_elem?-drop (suc n) i (x ∷ xs) =
    let e : suc (n + i) ≡ suc n + i = omega arith in
    get_elem?-drop n i xs ∙ ap (λ k. get_elem? (x ∷ xs) k) e

abbrev no_end : Option ℕ
no_end = none

none_yet : (n o : ℕ) → get_or (replicate n no_end) o none ≡ none
none_yet zero o = refl
none_yet (suc n) zero = refl
none_yet (suc n) (suc o) = none_yet n o

module _ (db : PatternDatabase) (input : Units)
    (targets : (q : ℕ) (e : Edge) → Memᴰ e (edges_from db q) → e.target < state_count db) where
  -- Where every edge and the root are in range: after the scan of one start, the entry of a pattern
  -- is the last position beyond the start where a walk from the root ends in a state of the pattern,
  -- and it is empty if and only if there is none.
  pub scan_start_lem :
      (root start o : ℕ)
      → root < state_count db
      → o < length db.pattern_ids
      → let r = scan_start db (follows_assertions input) input root start in
        ((e : ℕ) × (best r o ≡ some e)
          × (start < e)
          × EndsAt db input targets root (begins_at start) o e
          × ((e' : ℕ) → start < e' → EndsAt db input targets root (begins_at start) o e' → e' ≤ e))
        ⊎ ((best r o ≡ none)
            × ((e' : ℕ) → start < e' → ¬ EndsAt db input targets root (begins_at start) o e'))
  unfolding scan_start
  scan_start_lem root start o lt at_o =
      let size = length-replicate (length db.pattern_ids) no_end in
      elim (scan_units-LastEnd db input targets root (begins_at start) (drop start input)
        (begins_at start)
        (extend db (follows_assertions input) (begins_at start) root (blank db)).output o
        (no_ends db) (λ i. get_elem?-drop start i input) (inl refl)
        (extend-IsFront db input targets root (begins_at start) lt) (omega arith)) [
          | inl found ↦ inl found
          | inr (same, nothing) ↦ inr (same ∙ none_yet (length db.pattern_ids) o, nothing)
        ]
