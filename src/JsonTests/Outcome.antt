-- ===== src/JsonTests/Outcome.antt =====
-- `runAllTests`: which tests fail, and what the run ends with.
pub mod Verdict
use domq.Prelude.{
  ℕ, zero, suc, ◌-◌, ◌==◌, ltb, if◌then◌else◌, Bool, true, false, not, ◌||◌, Option, none, some,
  List, [], ◌∷◌, ◌++◌, length, map, Result, ok, raise, io_error, ◌>>=◌, Text, same_text,
}
use domq.JsonTests.{Difference, compare_outputs}

pub data ℤ : Type 0 where
  pos : ℕ → ℤ
  negsuc : ℕ → ℤ

-- The difference of two lengths, which may be negative.
abbrev pub minus : ℕ → ℕ → ℤ
minus a b = if ltb a b then negsuc (b - a - 1) else pos (a - b)

-- A test's file, and what running the reader on it shows: the output of the process, its status
-- (`None` when the process ended with 0), and the texts that `safeReadFile` returns for the file
-- itself and for the two that the reader writes. The expected text is missing when there is no such
-- file.
pub record Input : Type 0 where
  pub path : Text
  pub process_output : Text
  pub status : Option ℕ
  pub contents : Text
  pub actual_output : Text
  pub actual_rewrite_output : Text
  pub expected_output : Option Text

-- The second component of an element of `failed_tests`, before it is formatted.
pub data Detail : Type 0 where
  should_have_failed : Text → Detail
  parsing_failed : Text → Detail
  differs : Difference → Detail

-- `os.path.basename( path )`: what stands behind the last slash.
abbrev pub later_or : Option Text → Bool → Text → Option Text
later_or (some name) slash t = some name
later_or none slash t = if slash then some t else none

unfoldable pub behind_slash : Text → Option Text
behind_slash [] = none
behind_slash (c ∷ t) = later_or (behind_slash t) (c == b'/') t

abbrev pub or_whole : Option Text → Text → Text
or_whole none path = path
or_whole (some name) path = name

unfoldable pub basename : Text → Text
unfolding behind_slash
basename path = or_whole (behind_slash path) path

unfoldable pub starts_with : Text → Text → Bool
starts_with [] t = true
starts_with (a ∷ s) [] = false
starts_with (a ∷ s) (c ∷ t) = let rest = starts_with s t in if a == c then rest else false

-- `os.path.basename( input_path ).startswith( 'fail' )`
unfoldable pub expect_failure : Input → Bool
unfolding basename starts_with
expect_failure input = starts_with (b'f' ∷ b'a' ∷ b'i' ∷ b'l' ∷ []) (basename input.path)

-- `if status:`
abbrev pub is_set : Option ℕ → Bool
is_set none = false
is_set (some n) = not (n == 0)

abbrev pub is_none : Option ℕ → Bool
is_none none = true
is_none (some n) = false

-- `file( expected_output_path, 'rt' ).read()`
abbrev pub read_expected : Option Text → Result Text
read_expected none = raise io_error
read_expected (some t) = ok t

-- `a or b`, of two reports.
abbrev pub or_report : Option Difference → Option Difference → Option Detail
or_report (some d) other = some (differs d)
or_report none (some d) = some (differs d)
or_report none none = none

-- The messages `input` and `rewrite`.
abbrev pub input_message : Text
input_message = b'i' ∷ b'n' ∷ b'p' ∷ b'u' ∷ b't' ∷ []

abbrev pub rewrite_message : Text
rewrite_message = b'r' ∷ b'e' ∷ b'w' ∷ b'r' ∷ b'i' ∷ b't' ∷ b'e' ∷ []

-- A test of the official suite: it only counts whether the reader accepts the file.
unfoldable pub check_json : Input → Option Detail
unfolding expect_failure
check_json input =
    if expect_failure input
    then (if is_none input.status then some (should_have_failed input.contents) else none)
    else (if is_none input.status then none else some (parsing_failed input.process_output))

-- A test with expected output.
unfoldable pub check_output : Input → Result (Option Detail)
check_output input =
    if is_set input.status then ok (some (parsing_failed input.process_output)) else do
      expected ← read_expected input.expected_output
      ok (
          or_report (compare_outputs expected input.actual_output input_message)
            (compare_outputs expected input.actual_rewrite_output rewrite_message))

-- `input_path in test_jsonchecker`
unfoldable pub is_member : Text → List Input → Bool
is_member path [] = false
is_member path (input ∷ more) = same_text path input.path || is_member path more

-- The body of the loop over the tests.
unfoldable pub run_test : List Input → Input → Result (Option Detail)
unfolding check_json check_output is_member
run_test test_jsonchecker input =
    if is_member input.path test_jsonchecker then ok (check_json input) else check_output input

abbrev pub add_failed : Text → Option Detail → List (Text × Detail) → List (Text × Detail)
add_failed path none failed = failed
add_failed path (some detail) failed = (path, detail) ∷ failed

unfoldable pub run_tests : List Input → List Input → Result (List (Text × Detail))
unfolding run_test
run_tests test_jsonchecker [] = ok []
run_tests test_jsonchecker (input ∷ more) = do
  detail ← run_test test_jsonchecker input
  failed ← run_tests test_jsonchecker more
  ok (add_failed input.path detail failed)

-- What is returned, and printed at the end: the failed tests, and the counts of passed and failed.
pub record Summary : Type 0 where
  pub exit_status : ℕ
  pub failed_tests : List (Text × Detail)
  pub passed : ℤ

unfoldable pub summary : ℕ → List (Text × Detail) → Summary
summary test_count [] = record { exit_status = 0; failed_tests = []; passed = pos test_count }
summary test_count (f ∷ failed) = record {
  exit_status = 1;
  failed_tests = f ∷ failed;
  passed = minus test_count (length (f ∷ failed));
}

-- `runAllTests`, for the files that `glob` finds in the two directories.
unfoldable pub run_all_tests : List Input → List Input → Bool → Result Summary
unfolding run_tests summary
run_all_tests tests checker_tests with_json_checker = do
  let test_jsonchecker = if with_json_checker then checker_tests else []
  failed ← run_tests test_jsonchecker (tests ++ test_jsonchecker)
  ok (summary (length tests) failed)
