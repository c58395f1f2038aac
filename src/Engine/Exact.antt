-- ===== src/Engine/Exact.antt =====
-- rustmatch/src/engine.rs: `scan_without_assertions_dispatch` over the database that
-- rustmatch/src/nfa.rs compiles from patterns without assertions.
use rustmatch.Prelude.{ℕ, ◌≡◌, subst, sym, ◌∙◌, ◌↔◌, false, List, Memᴰ}
use rustmatch.Error.{ok}
use rustmatch.Hir.{HirPattern}
use rustmatch.Context.{Units}
use rustmatch.Nfa.Builder.{Edge, Builder}
use rustmatch.Nfa.Database.{compile_patterns, initial, finish, edges_from, any_uses_assertions}
use rustmatch.Nfa.Layout.{finish_lem}
use rustmatch.Nfa.Accepts.{SafePatterns}
use rustmatch.Nfa.Plain.{is_assertion, compile_patterns-IsPlain}
use rustmatch.Engine.Scan.{Match}
use rustmatch.Engine.CachedScan.{scan_without_assertions_dispatch}
use rustmatch.Engine.Correct.{finish-target, sizes}
use rustmatch.Engine.Dispatch.{scan_without_assertions_dispatch-nfa}
use rustmatch.Engine.Plain.{scan_with_assertions-nfa}
use rustmatch.Engine.Report.{Reports, finish-OrdinalsInRange, scan_with_assertions-Reports}

module _ (input : Units) (patterns : List HirPattern) (b : Builder) (safe : SafePatterns patterns)
    (compiled : compile_patterns patterns 0 initial ≡ ok b)
    (plain : any_uses_assertions patterns ≡ false) where
  pub finish-plain :
      (q : ℕ) (e : Edge) → Memᴰ e (edges_from (finish patterns b) q) → is_assertion e.kind ≡ false
  finish-plain q e m =
      let (count, edges, ends) = finish_lem patterns b (sizes input patterns b safe compiled) in
      compile_patterns-IsPlain patterns b plain compiled q e (subst (Memᴰ e) (edges q) m)

  -- For patterns with safe expressions and no assertions, which compile without an error: the scan
  -- with any budget for the cache, from any starts, delivers exactly the longest non-empty matches
  -- of each pattern from these starts.
  pub scan_without_assertions_dispatch-Reports :
      (budget : ℕ) (starts : List ℕ) (x : Match)
      → Memᴰ x (scan_without_assertions_dispatch (finish patterns b) input budget starts)
        ↔ ((start : ℕ) × Memᴰ start starts × Reports input patterns start x)
  scan_without_assertions_dispatch-Reports budget starts x =
      let db = finish patterns b in
      let same =
        scan_without_assertions_dispatch-nfa db
          (finish-OrdinalsInRange input patterns b safe compiled)
          (finish-target input patterns b safe compiled) input budget starts
        ∙ sym (scan_with_assertions-nfa db input finish-plain starts) in
      let exact = scan_with_assertions-Reports input patterns b safe compiled starts x in
      (λ m. exact.0 (subst (Memᴰ x) same m), λ r. subst (Memᴰ x) (sym same) (exact.1 r))
