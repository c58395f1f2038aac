-- ===== src/Context.antt =====
-- rustmatch/src/engine.rs: where the scanner stands in its input, and the zero-width assertions
-- there. `after_current` is `AssertionPosition`'s flag: a unit was consumed since the start.
use rustmatch.Prelude.{
  ℕ, zero, suc, Bool, true, false, not, ◌&&◌, ◌||◌, Option, none, some, List, leb, ◌==◌, get_elem?,
  length, xor,
}
use rustmatch.Hir.{Assertion, line_start, line_end, word_boundary, non_word_boundary}

abbrev pub Units : Type 0
Units = List ℕ

pub record Cursor : Type 0 where
  pub position : ℕ
  pub after_current : Bool

abbrev pub holds : Option ℕ → (ℕ → Bool) → Bool
holds none p = false
holds (some u) p = p u

abbrev pub newline : ℕ
newline = 10

is_ascii_word : ℕ → Bool
is_ascii_word u =
    leb 0x30 u && leb u 0x39 || leb 0x41 u && leb u 0x5a || u == 0x5f || leb 0x61 u && leb u 0x7a

-- `input.get(position - 1)`, and nothing at the start.
unit_before : Units → ℕ → Option ℕ
unit_before input zero = none
unit_before input (suc n) = get_elem? input n

unfoldable pub is_word_boundary : Units → ℕ → Bool
unfolding unit_before is_ascii_word
is_word_boundary input position =
    xor (holds (unit_before input position) is_ascii_word)
      (holds (get_elem? input position) is_ascii_word)

unfoldable pub assertion_matches : Units → Assertion → Cursor → Bool
unfolding unit_before is_word_boundary
assertion_matches input line_start s =
    s.position == 0 || holds (unit_before input s.position) (λ u. u == newline)
assertion_matches input line_end s =
    s.after_current
    && (s.position == length input || holds (get_elem? input s.position) (λ u. u == newline))
assertion_matches input word_boundary s = is_word_boundary input s.position
assertion_matches input non_word_boundary s = not (is_word_boundary input s.position)

abbrev pub advance : Cursor → Cursor
advance s = record { position = suc s.position; after_current = true }
