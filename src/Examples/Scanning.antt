-- ===== src/Examples/Scanning.antt =====
-- Small inputs for the theorems about `scan` and the deterministic cache of rustmatch/src/engine.rs.
use rustmatch.Prelude.{ℕ, ◌+◌, ◌≡◌, refl, ◌↔◌, true, false, [], ◌∷◌, Memᴰ, arith, length}
use rustmatch.Nfa.Database.{finish, any_uses_assertions}
use rustmatch.Nfa.Plain.{IsPlain, compile_patterns-IsPlain}
use rustmatch.Hir.{uses_assertions}
use rustmatch.Engine.Scan.{Match, scan_with_assertions, scan_without_assertions_nfa}
use rustmatch.Engine.Cache.{ScanCursor, compute_transition, root_states, new_cache, intern}
use rustmatch.Engine.CachedScan.{new_machine, cursor_step, scan_without_assertions_dispatch}
use rustmatch.Engine.Learn.{Interned, intern-Interned}
use rustmatch.Engine.Moves.{Moves}
use rustmatch.Engine.CachedRun.{new_cache-IsCoherent, cursor_step-Moves}
use rustmatch.Engine.Correct.{finish-target}
use rustmatch.Engine.Report.{Reports, finish-OrdinalsInRange, scan_with_assertions-Reports}
use rustmatch.Engine.Dispatch.{scan_without_assertions_dispatch-nfa}
use rustmatch.Engine.Plain.{scan_with_assertions-nfa}
use rustmatch.Engine.Exact.{finish-plain}
use rustmatch.Engine.Filtered.{scan, scan_with_stats}
use rustmatch.Engine.Answers.{scan-Reports}
use rustmatch.Engine.Skipped.{scan_with_stats-starts}
use rustmatch.Prefilter.Plan.{compile_prefilter, plan, plan_starts}
use rustmatch.Examples.{text, patterns, automaton, automaton_compiled, some_bs_safe}

-- `abb` from the first unit.
abbrev whole_match : Match
whole_match = record { pattern_id = 7; span = record { start = 0; end = 3 } }

no_assertions : any_uses_assertions patterns ≡ false
unfolding any_uses_assertions uses_assertions
no_assertions = refl

scan-Reports_example :
    Memᴰ whole_match (
      scan
        (finish patterns automaton)
        (compile_prefilter patterns (finish patterns automaton))
        text
        4
        true
        true)
    ↔ Reports text patterns 0 whole_match
scan-Reports_example =
    scan-Reports text patterns automaton (some_bs_safe, tt) automaton_compiled 4 true true
      whole_match

scan_with_assertions-Reports_example :
    Memᴰ whole_match (scan_with_assertions (finish patterns automaton) text (1 ∷ 0 ∷ []))
    ↔ ((start : ℕ) × Memᴰ start (1 ∷ 0 ∷ []) × Reports text patterns start whole_match)
scan_with_assertions-Reports_example =
    scan_with_assertions-Reports text patterns automaton (some_bs_safe, tt) automaton_compiled
      (1 ∷ 0 ∷ []) whole_match

scan_without_assertions_dispatch-nfa_example :
    scan_without_assertions_dispatch (finish patterns automaton) text 2 (0 ∷ 1 ∷ [])
    ≡ scan_without_assertions_nfa (finish patterns automaton) text (0 ∷ 1 ∷ [])
scan_without_assertions_dispatch-nfa_example =
    scan_without_assertions_dispatch-nfa (finish patterns automaton)
      (finish-OrdinalsInRange text patterns automaton (some_bs_safe, tt) automaton_compiled)
      (finish-target text patterns automaton (some_bs_safe, tt) automaton_compiled) text 2
      (0 ∷ 1 ∷ [])

scan_with_assertions-nfa_example :
    scan_with_assertions (finish patterns automaton) text (0 ∷ 1 ∷ [])
    ≡ scan_without_assertions_nfa (finish patterns automaton) text (0 ∷ 1 ∷ [])
scan_with_assertions-nfa_example =
    scan_with_assertions-nfa (finish patterns automaton) text
      (finish-plain text patterns automaton (some_bs_safe, tt) automaton_compiled no_assertions)
      (0 ∷ 1 ∷ [])

cursor_step-Moves_example :
    let db = finish patterns automaton in
    Moves db
      (new_machine db 2)
      (compute_transition db (root_states db) 97)
      (cursor_step db (ScanCursor.cached 0) 97 (new_machine db 2))
cursor_step-Moves_example =
    cursor_step-Moves (finish patterns automaton) (ScanCursor.cached 0) 97
      (new_machine (finish patterns automaton) 2) (root_states (finish patterns automaton))
      (new_cache-IsCoherent (finish patterns automaton) 2 (omega arith)).0
      (new_cache-IsCoherent (finish patterns automaton) 2 (omega arith)).1

intern-Interned_example :
    let db = finish patterns automaton in
    Interned db (new_cache db 2) (3 ∷ []) (intern db (new_cache db 2) (3 ∷ []))
intern-Interned_example =
    intern-Interned (finish patterns automaton) (new_cache (finish patterns automaton) 2) (3 ∷ [])
      (new_cache-IsCoherent (finish patterns automaton) 2 (omega arith)).0

scan_with_stats-starts_example :
    let db = finish patterns automaton in
    let p = compile_prefilter patterns db in
    let s = (scan_with_stats db p text 4 true true).1 in
    (s.prefilter_starts_scanned + s.prefilter_starts_skipped ≡ 3)
    × (db.uses_assertions ≡ false
        → s.prefilter_starts_scanned ≡ length (plan_starts (plan p text true true) text))
scan_with_stats-starts_example =
    scan_with_stats-starts (finish patterns automaton)
      (compile_prefilter patterns (finish patterns automaton)) text 4 true true

compile_patterns-IsPlain_example : IsPlain automaton
compile_patterns-IsPlain_example =
    compile_patterns-IsPlain patterns automaton no_assertions automaton_compiled
