-- ===== src/Lib.antt =====
-- rustmatch: a matcher that scans UTF-16 text for many patterns at once. A pattern goes through three
-- parts: the parser makes a normalized expression of it, the compiler makes one shared automaton of
-- all expressions, and a scanner runs the automaton from every start position.
--
-- Error: rustmatch/src/error.rs and rustmatch/src/types.rs. A function that returns `Result` returns
--   `Result` here; `?` is the bind of its do block. The constructor `out_of_fuel` has no counterpart.
-- Predicate (Word, Ranges): rustmatch/src/predicate.rs. A `u128` is the list of its 128 bits, a range
--   list is a list of pairs. The binary search is the count of leading ranges that pass the test.
--   Ordered, Membership, Insertion, Inserted: its operations as operations on sets of units.
-- Hir: rustmatch/src/hir.rs, with the names of the enum; `sequence_of`, `alternation_of` and
--   `repeat_of` are the functions `sequence`, `alternation` and `repeat`. `usize` has 64 bits.
-- Parser (Class, Count): rustmatch/src/parser.rs. The parser's fields are a record that each function
--   takes and returns. `&str` is the list of its UTF-16 units. The table of
--   rustmatch/src/case_fold.rs is the parameter `lower_upper`. The recursive descent is on fuel, two
--   for each unit and two more: every round of a loop, and every group, takes at least one unit.
-- Context, Engine.Closure, Engine.Scan: rustmatch/src/engine.rs. The three closure functions are one,
--   over the edges that it follows; so are the three scanning loops. A position that does not fit
--   in 64 bits does not arise.
-- Engine.Cache, Engine.CachedScan: the deterministic cache of rustmatch/src/engine.rs. A state of the
--   cache is a sorted set of states of the automaton, under its index; an index into the states is a
--   number where the source has a u32. The scratch that a scan passes on is the record `Machine`. The
--   hash map is an association list from hashes to buckets.
-- Engine.Filtered: `scan` and `scan_with_stats`, which scan the starts of the prefilter's plan. The
--   counters are numbers without a bound.
-- Prefilter.Literal, Bits, Filter, StartTable, Candidates, Plan: rustmatch/src/prefilter.rs. A word is
--   the list of its 64 bits. The marks of `ClosureScratch` are fresh in each closure, where the source
--   has a generation number; the closure is on fuel, one unit for each seed and each edge.
-- Semantics: what an expression means, as a relation between positions of a cursor, with no
--   automaton in it. A cursor is a position and whether a unit was consumed since the start, which
--   the end-of-line assertion reads.
-- Nfa.Builder, Nfa.Compile, Nfa.Database: rustmatch/src/nfa.rs. The vectors that `compile` passes by
--   reference are the record `Builder`; a state is its index. The hash map is an association list.
-- Nfa.Paths, Nfa.Growth, Nfa.Labels, Nfa.Fragment, Nfa.Combine, Nfa.Counting, Nfa.Repeat,
--   Nfa.Unbounded, Nfa.Correct, Nfa.Accepts, Nfa.Sound: the proof that the compiler is right. The
--   contract of a compiler (`Fragment`) is about any expression's meaning, and each way to combine
--   expressions has one lemma. Nfa.Safety says which expressions are compiled to their meaning.
-- Nfa.Layout, Nfa.Shared, Hir.Normal, Hir.Metadata, Predicate.Vacant, Engine.Flags,
--   Engine.Reach: the other theorems about these.
-- Engine.Step, Engine.Walks, Engine.Front, Engine.Recorded, Engine.Longest, Engine.Correct: the proof
--   about one start of a scan. The active states are what walks of the automaton reach (`IsFront`), each unit keeps
--   that, and the ends are recorded in increasing order.
-- Engine.Events, Engine.Report, Nfa.Ordinals: what the starts deliver together. `Reports` is the
--   independent description of an event, on the meaning of the pattern's expression.
-- Engine.Coherent, Engine.Learn, Engine.Moves, Engine.CachedRun, Engine.Sorted, Engine.Dispatch: the
--   cache. `IsCoherent` says that a stored transition leads where the automaton leads.
-- Nfa.Plain, Engine.Plain, Engine.Exact: patterns without assertions, where the two scanners agree.
-- Prefilter.Spelling, Exact, Necessary, Begins, Hint: the literal of an expression. Prefilter.Covers, Admits:
--   the filter compiled from literals. Prefilter.Closing, Pairs, Passes: the start table.
--   Prefilter.Counted, Complete, Assembled: the bitmap and the plan.
-- Engine.Answers, Engine.Skipped: the scan of what the compiler and the prefilter make of patterns.
-- Parser.Outcome, Counts, Classes, Atoms, Totals: what each function of the parser may return.
-- Parser.Digits, Braces, Bounds: the documented syntax of counted repetitions, on the text alone, with
--   the values of decimal numerals by the places of their digits, and the parser against it.
-- Matcher.Builder, Partitions, Workers: rustmatch/src/api.rs, with rustmatch/src/shared_engine.rs. A
--   function that changes the builder returns it. Whether a worker thread starts is the parameter
--   `spawned`; a worker is a function of its partition and the input, and the outputs are delivered in
--   the order of the partitions. The plan of rustmatch/src/shared_candidate.rs is the parameter
--   `shared_plan`, of which the theorem about the scan asks that it drops no start (`IsConservative`).
--   The program asks for one from 16 partitions and 2^25 units on.
-- Matcher.Registered, Balanced, Merged, Joined, Delivered: the builder's invariant, the partitions, and the
--   events of all partitions together.
-- Examples (Scanning, Filtering, Parsing, Matching, Symbols): small inputs that the theorems are applied
--   to.
--
-- Not modelled: the shared cohorts of rustmatch/src/nfa.rs and rustmatch/src/cohort.rs, the plan of
-- rustmatch/src/shared_candidate.rs, panics of a worker and the diagnostics of rustmatch/src/api.rs, the
-- assertion prefixes behind a feature of rustmatch/src/prefilter.rs, the SIMD crate, the benchmarks
-- and the build tasks. Allocation and byte accounting are left out, and the field `prefix_mappings` of
-- the literal filter, which only tests read.
pub mod Prelude
pub mod Error
pub mod Predicate
pub mod Hir
pub mod Context
pub mod Semantics
pub mod Nfa
pub mod Engine
pub mod Parser
pub mod Prefilter
pub mod Matcher
pub mod Examples
