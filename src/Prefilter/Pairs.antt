-- ===== src/Prefilter/Pairs.antt =====
-- rustmatch/src/prefilter.rs: the bits that `StartTable::compile` sets.
use rustmatch.Prelude.{
  ℕ, zero, suc, ◌+◌, ◌*◌, ◌<◌, ◌≤◌, ◌≡◌, refl, sym, subst, inl, inr, ⊎_elim, Bool, true, false, not,
  ◌||◌, List, [], ◌∷◌, arith, Memᴰ, Memᴰ-nil, Memᴰ-cons, Bool-cases, if◌then◌else◌, some, none,
  ◌==◌, ==_iff,
}
use rustmatch.Nfa.Database.{PatternDatabase}
use rustmatch.Prefilter.Bits.{
  Bits, IsWords, new_words, new_words-IsWords, set_bit, contains_bit, set_bit-IsWords,
  contains_bit-set_bit_self, contains_bit-set_bit_kept,
}
use rustmatch.Prefilter.StartTable.{
  range, transition, StartTable, is_nil, any_terminal, add_pairs, add_first, add_firsts,
  compile_table, epsilon_closure,
}

pub mem-range : (start n q : ℕ) → start ≤ q → q < start + n → Memᴰ q (range start n)
unfolding range
mem-range start zero q low high = absurd (omega arith)
mem-range start (suc n) q low high = elim (Bool-cases (start == q)) [
  | inl same ↦ (Memᴰ-cons q start (range (suc start) n)).1 (inl (sym ((==_iff start q).0 same)))
  | inr other ↦
      (Memᴰ-cons q start (range (suc start) n)).1
        (inr (mem-range (suc start) n q (ground arith) (omega arith)))
]

pub range-lt : (start n q : ℕ) → Memᴰ q (range start n) → q < start + n
unfolding range
range-lt start zero q m = absurd (Memᴰ-nil m)
range-lt start (suc n) q m =
    ⊎_elim (λ e. let lt : q < start + suc n = omega arith in lt)
      (λ k.
        let lt = range-lt (suc start) n q k in let wider : q < start + suc n = omega arith in wider)
      ((Memᴰ-cons q start (range (suc start) n)).0 m)

abbrev Kept : Bits → Bits → Type 0
Kept words words' = (i : ℕ) → contains_bit words i ≡ true → contains_bit words' i ≡ true

module _ (db : PatternDatabase) where
  -- The test of the inner loop.
  abbrev pub follows_up : Bool → List ℕ → ℕ → Bool
  follows_up accepts states second = accepts || not (is_nil (transition db states second))

  record PairsAdded (accepts : Bool) (states : List ℕ) (first : ℕ) (seconds : List ℕ)
      (pairs pairs' : Bits) : Type 0 where
    formed : IsWords 256 pairs'
    kept : Kept pairs pairs'
    here :
        (second : ℕ)
        → Memᴰ second seconds
        → follows_up accepts states second ≡ true
        → contains_bit pairs' (first * 128 + second) ≡ true

  add_pairs-PairsAdded :
      (accepts : Bool) (states : List ℕ) (first : ℕ) (seconds : List ℕ) (pairs : Bits)
      → first < 128
      → ((second : ℕ) → Memᴰ second seconds → second < 128)
      → IsWords 256 pairs
      → PairsAdded accepts states first seconds pairs
          (add_pairs db accepts states first seconds pairs)
  unfolding add_pairs
  add_pairs-PairsAdded accepts states first [] pairs lt small h = record {
    formed = h;
    kept = λ i t. t;
    here = λ second m t. absurd (Memᴰ-nil m);
  }
  add_pairs-PairsAdded accepts states first (x ∷ seconds) pairs lt small h =
      let x_lt = small x ((Memᴰ-cons x x seconds).1 (inl refl)) in
      let bit = first * 128 + x in
      let small' : (second : ℕ) → Memᴰ second seconds → second < 128 =
        λ second m. small second ((Memᴰ-cons second x seconds).1 (inr m)) in
      elim (Bool-cases (follows_up accepts states x)) [
        | inl passes ↦
            let rest =
              add_pairs-PairsAdded accepts states first seconds (set_bit pairs bit) lt small'
                (set_bit-IsWords 256 pairs bit (omega arith) h) in
            rw passes (record {
              formed = rest.formed;
              kept =
                  λ i t. rest.kept i (contains_bit-set_bit_kept 256 pairs bit i (omega arith) h t);
              here = λ second m t.
                  ⊎_elim
                    (λ e.
                      subst
                        (λ y.
                          contains_bit
                            (add_pairs db accepts states first seconds (set_bit pairs bit))
                            (first * 128 + y)
                          ≡ true)
                        (sym e)
                        (rest.kept bit (contains_bit-set_bit_self 256 pairs bit (omega arith) h)))
                    (λ k. rest.here second k t) ((Memᴰ-cons second x seconds).0 m);
            })
        | inr stops ↦
            let rest = add_pairs-PairsAdded accepts states first seconds pairs lt small' h in
            rw stops (record {
              formed = rest.formed;
              kept = rest.kept;
              here = λ second m t.
                  ⊎_elim
                    (λ e. absurd (
                      let no : follows_up accepts states x ≡ true =
                        subst (λ y. follows_up accepts states y ≡ true) e t in
                      cc (no, stops)))
                    (λ k. rest.here second k t) ((Memᴰ-cons second x seconds).0 m);
            })
      ]

  -- The bits that the table has for the first unit, if the root has a transition with it.
  pub record Tells (root : List ℕ) (first : ℕ) (table : StartTable) : Type 0 where
    pub first_set :
        is_nil (transition db root first) ≡ false → contains_bit table.first_ascii first ≡ true
    pub pair_set :
        (second : ℕ)
        → second < 128
        → is_nil (transition db root first) ≡ false
        → follows_up (any_terminal db (transition db root first)) (transition db root first) second
          ≡ true
        → contains_bit table.pair_ascii (first * 128 + second) ≡ true

  record FirstsAdded (root firsts : List ℕ) (table table' : StartTable) : Type 0 where
    first_formed : IsWords 2 table'.first_ascii
    pair_formed : IsWords 256 table'.pair_ascii
    kept : (first : ℕ) → Tells root first table → Tells root first table'
    here : (first : ℕ) → Memᴰ first firsts → Tells root first table'

  record FirstAdded (root : List ℕ) (x : ℕ) (table table' : StartTable) : Type 0 where
    first_formed : IsWords 2 table'.first_ascii
    pair_formed : IsWords 256 table'.pair_ascii
    kept : (first : ℕ) → Tells root first table → Tells root first table'
    here : Tells root x table'

  add_first-FirstAdded :
      (root : List ℕ) (x : ℕ) (table : StartTable)
      → x < 128
      → IsWords 2 table.first_ascii
      → IsWords 256 table.pair_ascii
      → FirstAdded root x table (add_first db root x table)
  unfolding add_first
  add_first-FirstAdded root x table lt fs ps =
      let states = transition db root x in
      elim (Bool-cases (is_nil states)) [
        | inl dead_end ↦ rw dead_end (record {
          first_formed = fs;
          pair_formed = ps;
          kept = λ first t. t;
          here = record {
            first_set = λ some_state. cc (some_state, dead_end);
            pair_set = λ second lt' some_state t. cc (some_state, dead_end);
          };
        })
        | inr some_state ↦
            let p =
              add_pairs-PairsAdded (any_terminal db states) states x (range 0 128) table.pair_ascii
                lt (λ second m. range-lt 0 128 second m) ps in
            rw some_state (record {
              first_formed = set_bit-IsWords 2 table.first_ascii x (omega arith) fs;
              pair_formed = p.formed;
              kept = λ first t. record {
                first_set = λ h.
                    contains_bit-set_bit_kept 2 table.first_ascii x first (omega arith) fs
                      (t.first_set h);
                pair_set = λ second lt' h up. p.kept _ (t.pair_set second lt' h up);
              };
              here = record {
                first_set = λ h. contains_bit-set_bit_self 2 table.first_ascii x (omega arith) fs;
                pair_set = λ second lt' h up.
                    p.here second (mem-range 0 128 second (omega arith) (omega arith)) up;
              };
            })
      ]

  add_firsts-FirstsAdded :
      (root firsts : List ℕ) (table : StartTable)
      → ((first : ℕ) → Memᴰ first firsts → first < 128)
      → IsWords 2 table.first_ascii
      → IsWords 256 table.pair_ascii
      → FirstsAdded root firsts table (add_firsts db root firsts table)
  unfolding add_firsts
  add_firsts-FirstsAdded root [] table small fs ps = record {
    first_formed = fs;
    pair_formed = ps;
    kept = λ first t. t;
    here = λ first m. absurd (Memᴰ-nil m);
  }
  add_firsts-FirstsAdded root (x ∷ firsts) table small fs ps =
      let now =
        add_first-FirstAdded root x table (small x ((Memᴰ-cons x x firsts).1 (inl refl))) fs ps in
      let rest =
        add_firsts-FirstsAdded root firsts (add_first db root x table)
          (λ first m. small first ((Memᴰ-cons first x firsts).1 (inr m))) now.first_formed
          now.pair_formed in
      record {
        first_formed = rest.first_formed;
        pair_formed = rest.pair_formed;
        kept = λ first t. rest.kept first (now.kept first t);
        here = λ first m.
            ⊎_elim
              (λ e.
                subst (λ y. Tells root y (add_firsts db root firsts (add_first db root x table)))
                  (sym e) (rest.kept x now.here))
              (λ k. rest.here first k) ((Memᴰ-cons first x firsts).0 m);
      }

  -- The table that is compiled has the bits of every ASCII unit.
  pub compile_table-Tells :
      (table : StartTable) (first : ℕ)
      → compile_table db ≡ some table
      → first < 128
      → Tells (epsilon_closure db (db.root ∷ [])) first table
  unfolding compile_table
  compile_table-Tells table first h lt =
      let root = epsilon_closure db (db.root ∷ []) in
      let start : StartTable = record { first_ascii = new_words 2; pair_ascii = new_words 256 } in
      let all =
        add_firsts-FirstsAdded root (range 0 128) start (λ x m. range-lt 0 128 x m)
          (new_words-IsWords 2) (new_words-IsWords 256) in
      subst (Tells root first) (unless db.uses_assertions h)
        (all.here first (mem-range 0 128 first (omega arith) (omega arith)))
    where
      unless : {t t' : StartTable} (b : Bool) → (if b then none else some t) ≡ some t' → t ≡ t'
      unless true k = cc
      unless false k = cc k
