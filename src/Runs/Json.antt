-- ===== src/Runs/Json.antt =====
-- The theorems at concrete inputs, and tests: the test runner of the JSON reader.
use domq.Prelude.{
  ◌≡◌, ◌⊎◌, ◌↔◌, inl, inr, refl, ℕ, ◌+◌, Bool, true, false, Option, none, some, List, [], ◌∷◌, ◌++◌,
  All, ok, Text,
}
use domq.JsonTests.{compare_outputs}
use domq.JsonTests.Compare.{
  stripped_lines, get_elem?, or_empty, IsFirstDifference, compare_outputs_lem,
}
use domq.JsonTests.Outcome.{Input, Summary, run_all_tests}
use domq.JsonTests.Outcome.Verdict.{Passes, IsVerdict, run_all_tests_iff}

-- Two lines, the second of which has a blank too many, and what is written in place of them.
abbrev expected : Text
expected = b'a' ∷ 10 ∷ b'b' ∷ 32 ∷ 10 ∷ []

abbrev actual : Text
actual = b'a' ∷ 13 ∷ 10 ∷ b'c' ∷ []

compare_outputs_lem_example :
    ((compare_outputs expected actual (b'm' ∷ []) ≡ none)
      × (stripped_lines expected ≡ stripped_lines actual))
    ⊎ ((n : ℕ) × IsFirstDifference n (stripped_lines expected) (stripped_lines actual)
        × (compare_outputs expected actual (b'm' ∷ [])
            ≡ some (record {
              message = b'm' ∷ [];
              diff_line = n + 1;
              expected_line = or_empty (get_elem? (stripped_lines expected) n);
              actual_line = or_empty (get_elem? (stripped_lines actual) n);
            })))
compare_outputs_lem_example = compare_outputs_lem expected actual (b'm' ∷ [])

second_line :
    compare_outputs expected actual (b'm' ∷ [])
    ≡ some (record {
      message = b'm' ∷ [];
      diff_line = 2;
      expected_line = b'b' ∷ [];
      actual_line = b'c' ∷ [];
    })
unfolding compare_outputs domq.JsonTests.Lines.lines_of domq.JsonTests.Lines.strip
    domq.Prelude.same_text
second_line = refl

-- A test whose output is not the expected one, and two files of the official suite, which the reader
-- accepts.
abbrev output_test : Input
output_test = record {
  path = b'd' ∷ b'/' ∷ b't' ∷ [];
  process_output = [];
  status = none;
  contents = [];
  actual_output = actual;
  actual_rewrite_output = actual;
  expected_output = some expected;
}

abbrev suite_test : Text → Input
suite_test path = record {
  path = path;
  process_output = [];
  status = none;
  contents = [];
  actual_output = [];
  actual_rewrite_output = [];
  expected_output = none;
}

abbrev suite : List Input
suite =
    suite_test (b's' ∷ b'/' ∷ b'p' ∷ [])
    ∷ suite_test (b's' ∷ b'/' ∷ b'f' ∷ b'a' ∷ b'i' ∷ b'l' ∷ [])
    ∷ []

run_all_tests_iff_example :
    (s : Summary) × (run_all_tests (output_test ∷ []) suite true ≡ ok s)
    × IsVerdict suite (output_test ∷ suite) s.failed_tests
    × ((s.exit_status ≡ 0) ↔ All (Passes suite) (output_test ∷ suite))
unfolding domq.JsonTests.Outcome.is_member domq.Prelude.same_text
run_all_tests_iff_example =
    run_all_tests_iff (output_test ∷ []) suite true
      (λ _. inr (expected, refl), (λ e. absurd (cc e), (λ e. absurd (cc e), tt)))
