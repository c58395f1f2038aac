-- ===== src/Examples/Filtering.antt =====
-- Small inputs for the theorems about rustmatch/src/prefilter.rs.
use rustmatch.Prelude.{
  ℕ, ◌+◌, ◌*◌, ◌<◌, ◌≤◌, ◌≡◌, refl, subst, inl, true, false, none, some, [], ◌∷◌, Memᴰ, Memᴰ-cons,
  arith,
}
use rustmatch.Context.{Cursor}
use rustmatch.Hir.{Hir, symbol, sequence, nil, cons, uses_assertions}
use rustmatch.Nfa.Builder.{Edge}
use rustmatch.Prefilter.Bits.{new_words, set_bit, contains_bit}
use rustmatch.Semantics.{Matches}
use rustmatch.Nfa.Database.{finish, edges_from, state_count, any_uses_assertions}
use rustmatch.Nfa.Shared.{at_start, after_units}
use rustmatch.Nfa.Sound.{compile_patterns_iff}
use rustmatch.Engine.Correct.{finish-target, root_in_range, EndsAt-Accepts}
use rustmatch.Engine.Longest.{begins_at, ends_at, EndsAt}
use rustmatch.Engine.Exact.{finish-plain}
use rustmatch.Prefilter.Literal.{
  NecessaryLiteral, from_pattern, exact_literal, necessary_prefix, exact_items, prefix_items,
  append_bounded,
}
use rustmatch.Prefilter.Spelling.{IsPrefix}
use rustmatch.Prefilter.Exact.{Spelled}
use rustmatch.Prefilter.Necessary.{exact_literal_lem}
use rustmatch.Prefilter.Hint.{from_pattern-IsPrefix}
use rustmatch.Prefilter.Filter.{compile_literals, prefix_allows}
use rustmatch.Prefilter.Admits.{prefix_allows-IsPrefix}
use rustmatch.Prefilter.StartTable.{StartTable, compile_table, allows, pair_allowed, first_allowed}
use rustmatch.Prefilter.Passes.{allows-EndsAt}
use rustmatch.Prefilter.Plan.{Prefilter, plan, plan_starts, pattern_count}
use rustmatch.Prefilter.Complete.{Passes, plan-IsPlanned}
use rustmatch.Examples.{
  text, some_bs_pattern, patterns, automaton, automaton_compiled, some_bs_safe, some_bs-Matches,
}

-- The expression of `abb`.
abbrev whole_word : Hir
whole_word = sequence (cons (symbol 97) (cons (symbol 98) (cons (symbol 98) nil)))

abbrev word_literal : NecessaryLiteral
word_literal = record { ordinal = 0; offset = 0; units = text }

word-Matches : Matches text whole_word at_start (after_units 3)
unfolding Matches
word-Matches = (
  after_units 1,
  (97, refl, refl, refl),
  (after_units 2, (98, refl, refl, refl), (after_units 3, (98, refl, refl, refl), refl)),
)

word_exact : exact_literal whole_word ≡ some text
unfolding exact_literal exact_items append_bounded
word_exact = refl

word_literal_found : from_pattern 0 whole_word ≡ some word_literal
unfolding from_pattern necessary_prefix prefix_items exact_literal exact_items append_bounded
word_literal_found = refl

exact_literal_lem_example :
    (necessary_prefix whole_word ≡ text)
    × ((s t : Cursor) → Matches text whole_word s t → Spelled text text s t)
exact_literal_lem_example = exact_literal_lem text whole_word text word_exact

from_pattern-IsPrefix_example : (3 ≤ 3) × IsPrefix text text
from_pattern-IsPrefix_example =
    from_pattern-IsPrefix text 0 whole_word word_literal at_start (after_units 3) word_literal_found
      word-Matches

prefix_allows-IsPrefix_example :
    prefix_allows (compile_literals (word_literal ∷ [])) (120 ∷ text) 1 ≡ true
prefix_allows-IsPrefix_example =
    prefix_allows-IsPrefix (word_literal ∷ []) word_literal (120 ∷ text) 1 (omega arith, tt)
      ((Memᴰ-cons word_literal word_literal []).1 (inl refl)) (omega arith) ([], refl)

-- The start table that is compiled for `ab+`.
abbrev compiled_table : StartTable
compiled_table = elim (compile_table (finish patterns automaton)) [
  | none ↦ record { first_ascii = []; pair_ascii = [] }
  | some t ↦ t
]

table_compiled : compile_table (finish patterns automaton) ≡ some compiled_table
unfolding compile_table finish any_uses_assertions uses_assertions
table_compiled = refl

no_assertions : any_uses_assertions patterns ≡ false
unfolding any_uses_assertions uses_assertions
no_assertions = refl

abbrev targets_in_range :
    (q : ℕ) (e : Edge)
    → Memᴰ e (edges_from (finish patterns automaton) q)
    → e.target < state_count (finish patterns automaton)
targets_in_range = finish-target text patterns automaton (some_bs_safe, tt) automaton_compiled

ends_after_three : EndsAt (finish patterns automaton) text targets_in_range 0 (begins_at 0) 0 3
ends_after_three =
    (EndsAt-Accepts text patterns automaton (some_bs_safe, tt) automaton_compiled 0 0 3).1 (
      (compile_patterns_iff text patterns automaton (some_bs_safe, tt) automaton_compiled
          (begins_at 0) (ends_at 3) 0).1
        (some_bs_pattern, refl, some_bs-Matches))

allows-EndsAt_example : allows compiled_table text 0 ≡ true
unfolding finish
allows-EndsAt_example =
    allows-EndsAt (finish patterns automaton) text targets_in_range
      (finish-plain text patterns automaton (some_bs_safe, tt) automaton_compiled no_assertions)
      (root_in_range text patterns automaton (some_bs_safe, tt) automaton_compiled) compiled_table
      table_compiled 0 0 3 (omega arith) ends_after_three

abbrev two_units : StartTable
two_units = record {
  first_ascii = set_bit (new_words 2) 97;
  pair_ascii = set_bit (new_words 256) (97 * 128 + 98);
}

abbrev filter_of_table : Prefilter
filter_of_table = record {
  start_table = some two_units;
  literal = none;
  literal_unavailable = pattern_count;
}

filter_of_table-Passes : Passes filter_of_table text 0
unfolding allows pair_allowed first_allowed contains_bit set_bit new_words
filter_of_table-Passes = record {
  inside = omega arith;
  by_table =
      λ t e. let same : two_units ≡ t = cc e in subst (λ x. allows x text 0 ≡ true) same refl;
  by_literal = λ f e. cc e;
}

plan-IsPlanned_example : Memᴰ 0 (plan_starts (plan filter_of_table text true true) text)
plan-IsPlanned_example = plan-IsPlanned filter_of_table text 0 filter_of_table-Passes true true
