-- ===== src/JsonTests.antt =====
-- framework/jsoncpp/test/runjsontests.py: the tests of the JSON reader, and the comparison of what it
-- writes with what is expected.
pub mod Lines
pub mod Compare
pub mod Outcome
pub mod Scripts
use domq.Prelude.{
  ℕ, zero, suc, ◌+◌, ◌-◌, ◌==◌, ltb, leb, if◌then◌else◌, Bool, true, false, not, ◌&&◌, ◌||◌, Option,
  none, some, List, [], ◌∷◌, ◌++◌, length, Result, ok, raise, ◌>>=◌, Text, same_text,
}
use domq.JsonTests.Lines.{strip, lines_of}

-- A difference that `compareOutputs` reports: the message, the number of the line, and the line in
-- both texts.
pub record Difference : Type 0 where
  pub message : Text
  pub diff_line : ℕ
  pub expected_line : Text
  pub actual_line : Text

-- The `for` loop: the number of the first line that differs, counted from `index + 1`, or 0. It ends
-- with the shorter list.
unfoldable pub diff_loop : ℕ → List Text → List Text → ℕ
diff_loop index (e ∷ expected) (a ∷ actual) =
    let later = diff_loop (suc index) expected actual in
    if not (same_text (strip e) (strip a)) then index + 1 else later
diff_loop index _ _ = 0

-- `min( len(expected), len(actual) )`
abbrev pub max_line_to_compare : List Text → List Text → ℕ
max_line_to_compare expected actual =
    if leb (length expected) (length actual) then length expected else length actual

unfoldable pub find_diff_line : List Text → List Text → ℕ
unfolding diff_loop
find_diff_line expected actual =
    let diff_line = diff_loop 0 expected actual in
    if diff_line == 0 && not (length expected == length actual)
    then max_line_to_compare expected actual + 1
    else diff_line

abbrev pub line_at : List Text → ℕ → Text
line_at [] index = []
line_at (l ∷ lines) zero = strip l
line_at (l ∷ lines) (suc index) = line_at lines index

-- `safeGetLine`
unfoldable pub safe_get_line : List Text → ℕ → Text
safe_get_line lines index = if leb (length lines) (index - 1) then [] else line_at lines (index - 1)

-- `compareOutputs`. Its result before it is formatted; `None` is `none`.
unfoldable pub compare_outputs : Text → Text → Text → Option Difference
unfolding find_diff_line safe_get_line
compare_outputs expected_text actual_text message =
    let expected = lines_of expected_text in
    let actual = lines_of actual_text in
    let diff_line = find_diff_line expected actual in
    if diff_line == 0
    then none
    else some (record {
      message = message;
      diff_line = diff_line;
      expected_line = safe_get_line expected diff_line;
      actual_line = safe_get_line actual diff_line;
    })
