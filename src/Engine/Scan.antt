-- ===== src/Engine/Scan.antt =====
-- rustmatch/src/engine.rs: `scan_without_assertions_nfa`, `scan_with_assertions` and
-- `scan_assertion_view_starts`. The three are one loop, over the closure that they extend: what it
-- follows at a cursor is a parameter, and so is the root. An index below 2^64 always converts.
use rustmatch.Prelude.{
  ℕ, Bool, true, false, Option, none, some, List, [], ◌∷◌, ◌++◌, map, drop, replicate, get_or, set,
  leb, if◌then◌else◌, length,
}
use rustmatch.Error.{Utf16Span}
use rustmatch.Context.{Units, Cursor, advance}
use rustmatch.Nfa.Builder.{EdgeKind, Edge}
use rustmatch.Nfa.Database.{PatternDatabase, edges_from, terminals_at, edge_matches, state_count}
use rustmatch.Engine.Closure.{Closure, extend_closure, follows_epsilon, follows_assertions}

-- `best_end` and `touched_ordinals`.
pub record Ends : Type 0 where
  pub best_end : List (Option ℕ)
  pub touched_ordinals : List ℕ

abbrev pub best : Ends → ℕ → Option ℕ
best r ordinal = get_or r.best_end ordinal none

abbrev is_none : Option ℕ → Bool
is_none none = true
is_none (some e) = false

unfoldable pub record_terminal : Ends → ℕ → ℕ → Ends
record_terminal r ordinal end = record {
  best_end = set r.best_end ordinal (some end);
  touched_ordinals =
      if is_none (best r ordinal) then r.touched_ordinals ++ ordinal ∷ [] else r.touched_ordinals;
}

unfoldable pub record_all : List ℕ → ℕ → Ends → Ends
unfolding record_terminal
record_all [] end r = r
record_all (o ∷ os) end r = record_all os end (record_terminal r o end)

pub record Match : Type 0 where
  pub pattern_id : ℕ
  pub span : Utf16Span

-- `sort_unstable` of the touched ordinals.
unfoldable pub insert_ordinal : ℕ → List ℕ → List ℕ
insert_ordinal o [] = o ∷ []
insert_ordinal o (x ∷ xs) = if leb o x then o ∷ x ∷ xs else x ∷ insert_ordinal o xs

unfoldable pub sort_ordinals : List ℕ → List ℕ
unfolding insert_ordinal
sort_ordinals [] = []
sort_ordinals (o ∷ os) = insert_ordinal o (sort_ordinals os)

abbrev pub end_or_zero : Option ℕ → ℕ
end_or_zero none = 0
end_or_zero (some e) = e

module _ (db : PatternDatabase) where
  abbrev pub blank : Closure
  blank = record { output = []; visited = replicate (state_count db) false }

  abbrev pub no_ends : Ends
  no_ends = record { best_end = replicate (length db.pattern_ids) none; touched_ordinals = [] }

  -- The terminals of the states reached, at the end given.
  unfoldable pub record_states : List ℕ → ℕ → Ends → Ends
  unfolding record_all
  record_states [] end r = r
  record_states (q ∷ qs) end r = record_states qs end (record_all (terminals_at db q) end r)

  -- The events of one start: a touched ordinal has an end.
  unfoldable pub deliver : ℕ → Ends → List Match
  unfolding sort_ordinals
  deliver start r =
      map
        (λ o. record {
          pattern_id = get_or db.pattern_ids o 0;
          span = record { start = start; end = end_or_zero (best r o) };
        })
        (sort_ordinals r.touched_ordinals)

  module _ (follows : Cursor → EdgeKind → Bool) where
    abbrev pub extend : Cursor → ℕ → Closure → Closure
    extend s = extend_closure (follows s) (edges_from db)

    -- The edges of one state that the unit fires; the closure is taken at the cursor after it.
    unfoldable pub fire_edges : Cursor → ℕ → List Edge → Closure → Closure
    fire_edges s unit [] c = c
    fire_edges s unit (e ∷ es) c =
        fire_edges s unit es (if edge_matches db e.kind unit then extend s e.target c else c)

    unfoldable pub fire_states : Cursor → ℕ → List ℕ → Closure → Closure
    unfolding fire_edges
    fire_states s unit [] c = c
    fire_states s unit (q ∷ qs) c = fire_states s unit qs (fire_edges s unit (edges_from db q) c)

    -- The loop over the units from the cursor on, with the active states.
    unfoldable pub scan_units : List ℕ → Cursor → List ℕ → Ends → Ends
    unfolding fire_states record_states
    scan_units [] s active r = r
    scan_units (unit ∷ units) s active r =
        let next = fire_states (advance s) unit active blank in
        let r' = record_states next.output (advance s).position r in
        elim next.output [ [] ↦ r' | q ∷ qs ↦ scan_units units (advance s) (q ∷ qs) r' ]

    -- What one start leaves in `best_end`.
    unfoldable pub scan_start : Units → ℕ → ℕ → Ends
    unfolding scan_units
    scan_start input root start =
        let s : Cursor = record { position = start; after_current = false } in
        scan_units (drop start input) s (extend s root blank).output no_ends

    unfoldable pub scan_starts : Units → ℕ → List ℕ → List Match
    unfolding scan_start deliver
    scan_starts input root [] = []
    scan_starts input root (start ∷ starts) =
        deliver start (scan_start input root start) ++ scan_starts input root starts

  -- From every position, with the edges that hold at it.
  unfoldable pub scan_with_assertions : Units → List ℕ → List Match
  unfolding scan_starts
  scan_with_assertions input starts = scan_starts (follows_assertions input) input db.root starts

  unfoldable pub scan_without_assertions_nfa : Units → List ℕ → List Match
  unfolding scan_starts
  scan_without_assertions_nfa input starts = scan_starts (λ s. follows_epsilon) input db.root starts
