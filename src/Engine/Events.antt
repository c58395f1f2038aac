-- ===== src/Engine/Events.antt =====
-- rustmatch/src/engine.rs: the events of one start, from `best_end` and `touched_ordinals`.
use rustmatch.Prelude.{
  ℕ, zero, suc, ◌+◌, ◌<◌, ◌≡◌, refl, sym, subst, ap, ◌∙◌, inl, inr, false, Option, none, some, List,
  [], ◌∷◌, ◌++◌, arith, Memᴰ, Memᴰ-cons, map, get_or, set, length, length-set, length-replicate,
  replicate, leb, Option-cases,
}
use rustmatch.Nfa.Database.{PatternDatabase, terminals_at}
use rustmatch.Engine.Scan.{
  Ends, Match, best, end_or_zero, record_terminal, record_all, record_states, insert_ordinal,
  sort_ordinals, no_ends, deliver,
}

-- The ordinals that have an end, in increasing order, from the first on.
unfoldable pub present_from : ℕ → List (Option ℕ) → List ℕ
present_from k [] = []
present_from k (none ∷ bs) = present_from (suc k) bs
present_from k (some e ∷ bs) = k ∷ present_from (suc k) bs

insert-insert :
    (x y : ℕ) (zs : List ℕ)
    → insert_ordinal x (insert_ordinal y zs) ≡ insert_ordinal y (insert_ordinal x zs)
unfolding insert_ordinal
insert-insert x y [] = ground arith
insert-insert x y (z ∷ zs) = ground (arith, insert-insert x y zs)

sort-concat :
    (xs : List ℕ) (o : ℕ) → sort_ordinals (xs ++ o ∷ []) ≡ insert_ordinal o (sort_ordinals xs)
unfolding sort_ordinals
sort-concat [] o = refl
sort-concat (x ∷ xs) o =
    ap (insert_ordinal x) (sort-concat xs o) ∙ insert-insert x o (sort_ordinals xs)

-- An ordinal that comes before all that are present is put first.
insert-first :
    (k o : ℕ) (bs : List (Option ℕ))
    → o < k
    → insert_ordinal o (present_from k bs) ≡ o ∷ present_from k bs
unfolding insert_ordinal present_from
insert-first k o [] lt = refl
insert-first k o (none ∷ bs) lt = insert-first (suc k) o bs (omega arith)
insert-first k o (some e ∷ bs) lt = ground arith

insert-present :
    (k o end : ℕ) (bs : List (Option ℕ))
    → o < length bs
    → get_or bs o none ≡ none
    → insert_ordinal (o + k) (present_from k bs) ≡ present_from k (set bs o (some end))
unfolding present_from insert_ordinal
insert-present k o end [] lt h = absurd (omega arith)
insert-present k zero end (none ∷ bs) lt h =
    let e : k ≡ zero + k = omega arith in
    subst (λ i. insert_ordinal i (present_from (suc k) bs) ≡ k ∷ present_from (suc k) bs) e
      (insert-first (suc k) k bs (omega arith))
insert-present k zero end (some e ∷ bs) lt h = cc h
insert-present k (suc o) end (none ∷ bs) lt h =
    let e : o + suc k ≡ suc o + k = omega arith in
    subst
      (λ i. insert_ordinal i (present_from (suc k) bs) ≡ present_from (suc k) (set bs o (some end)))
      e (insert-present (suc k) o end bs (omega arith) h)
insert-present k (suc o) end (some e ∷ bs) lt h =
    let e : o + suc k ≡ suc o + k = omega arith in
    let after : leb (suc o + k) k ≡ false = ground arith in
    rw after (
      ap (◌∷◌ k) (
        subst
          (λ i.
            insert_ordinal i (present_from (suc k) bs) ≡ present_from (suc k) (set bs o (some end)))
          e (insert-present (suc k) o end bs (omega arith) h)))

present-set :
    (k o end e : ℕ) (bs : List (Option ℕ))
    → get_or bs o none ≡ some e
    → present_from k bs ≡ present_from k (set bs o (some end))
unfolding present_from
present-set k o end e [] h = refl
present-set k zero end e (none ∷ bs) h = cc h
present-set k zero end e (some x ∷ bs) h = refl
present-set k (suc o) end e (none ∷ bs) h = present-set (suc k) o end e bs h
present-set k (suc o) end e (some x ∷ bs) h = ap (◌∷◌ k) (present-set (suc k) o end e bs h)

-- `touched_ordinals` are the ordinals that have an end.
pub record IsListed (n : ℕ) (r : Ends) : Type 0 where
  pub size : length r.best_end ≡ n
  pub listed : sort_ordinals r.touched_ordinals ≡ present_from 0 r.best_end

record_terminal-IsListed :
    (n : ℕ) (r : Ends) (o end : ℕ) → o < n → IsListed n r → IsListed n (record_terminal r o end)
unfolding record_terminal
record_terminal-IsListed n r o end lt h = record {
  size = length-set r.best_end o (some end) ∙ h.size;
  listed = elim (Option-cases (get_or r.best_end o none)) [
    | inl fresh ↦
        let e : o + 0 ≡ o = omega arith in
        rw fresh (
          sort-concat r.touched_ordinals o
          ∙ ap (insert_ordinal o) h.listed
          ∙ subst
              (λ i.
                insert_ordinal i (present_from 0 r.best_end)
                ≡ present_from 0 (set r.best_end o (some end)))
              e (insert-present 0 o end r.best_end (omega (arith, h.size)) fresh))
    | inr (x, old) ↦ rw old (h.listed ∙ present-set 0 o end x r.best_end old)
  ];
}

record_all-IsListed :
    (n : ℕ) (os : List ℕ) (end : ℕ) (r : Ends)
    → ((o : ℕ) → Memᴰ o os → o < n)
    → IsListed n r
    → IsListed n (record_all os end r)
unfolding record_all
record_all-IsListed n [] end r fits h = h
record_all-IsListed n (o ∷ os) end r fits h =
    record_all-IsListed n os end (record_terminal r o end)
      (λ x m. fits x ((Memᴰ-cons x o os).1 (inr m)))
      (record_terminal-IsListed n r o end (fits o ((Memᴰ-cons o o os).1 (inl refl))) h)

present-replicate : (k n : ℕ) → present_from k (replicate n none) ≡ []
unfolding present_from
present-replicate k zero = refl
present-replicate k (suc n) = present-replicate (suc k) n

module _ (db : PatternDatabase) where
  -- Every terminal of the database is the ordinal of one of its patterns.
  abbrev pub OrdinalsInRange : Type 0
  OrdinalsInRange = (q o : ℕ) → Memᴰ o (terminals_at db q) → o < length db.pattern_ids

  abbrev pub IsListedHere : Ends → Type 0
  IsListedHere r = IsListed (length db.pattern_ids) r

  pub no_ends-IsListed : IsListedHere (no_ends db)
  unfolding sort_ordinals
  no_ends-IsListed = record {
    size = length-replicate (length db.pattern_ids) none;
    listed = sym (present-replicate 0 (length db.pattern_ids));
  }

  pub record_states-IsListed :
      (qs : List ℕ) (end : ℕ) (r : Ends)
      → OrdinalsInRange
      → IsListedHere r
      → IsListedHere (record_states db qs end r)
  unfolding record_states
  record_states-IsListed [] end r fits h = h
  record_states-IsListed (q ∷ qs) end r fits h =
      record_states-IsListed qs end (record_all (terminals_at db q) end r) fits
        (record_all-IsListed (length db.pattern_ids) (terminals_at db q) end r (fits q) h)

  -- The events of a start that leaves the ends given.
  unfoldable pub events_of : ℕ → List (Option ℕ) → List Match
  unfolding present_from
  events_of start bs =
      map
        (λ o. record {
          pattern_id = get_or db.pattern_ids o 0;
          span = record { start = start; end = end_or_zero (get_or bs o none) };
        })
        (present_from 0 bs)

  pub deliver-events_of :
      (start : ℕ) (r : Ends) → IsListedHere r → deliver db start r ≡ events_of start r.best_end
  unfolding deliver events_of
  deliver-events_of start r h =
      ap
        (λ os.
          map
            (λ o. record {
              pattern_id = get_or db.pattern_ids o 0;
              span = record { start = start; end = end_or_zero (best r o) };
            })
            os)
        h.listed
