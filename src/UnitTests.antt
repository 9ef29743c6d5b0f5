-- ===== src/UnitTests.antt =====
-- framework/jsoncpp/test/rununittests.py: the unit tests of the JSON library, each in a process of
-- its own.
pub mod Report
use domq.Prelude.{ℕ, ◌-◌, if◌then◌else◌, Bool, true, false, List, [], ◌∷◌, ◌++◌, length, map, Text}
use domq.JsonTests.Lines.{strip, split_lines}

-- `--test-auto`, `--list-tests` and `--test`.
abbrev pub test_auto : Text
test_auto = b'-' ∷ b'-' ∷ b't' ∷ b'e' ∷ b's' ∷ b't' ∷ b'-' ∷ b'a' ∷ b'u' ∷ b't' ∷ b'o' ∷ []

abbrev pub list_tests : Text
list_tests = b'-' ∷ b'-' ∷ b'l' ∷ b'i' ∷ b's' ∷ b't' ∷ b'-' ∷ b't' ∷ b'e' ∷ b's' ∷ b't' ∷ b's' ∷ []

abbrev pub test_option : Text
test_option = b'-' ∷ b'-' ∷ b't' ∷ b'e' ∷ b's' ∷ b't' ∷ []

-- A test that failed, with the output of its process.
abbrev pub Failure : Type 0
Failure = Text × Text

-- What is returned, and printed at the end.
pub record Summary : Type 0 where
  pub exit_status : ℕ
  pub failures : List Failure
  pub pass_count : ℕ

-- `process` runs a command: whether its return code is 0, and what it writes. `valgrind` holds the
-- words of VALGRIND_CMD.
module _ (process : List Text → Bool × Text) (valgrind : List Text) (use_valgrind : Bool)
    (test_exe_path : Text) where
  -- `TestProxy.run`
  unfoldable pub run : List Text → Bool × Text
  run options =
      process ((if use_valgrind then valgrind else []) ++ test_exe_path ∷ test_auto ∷ options)

  abbrev pub add_failure : Text → Bool × Text → List Failure → List Failure
  add_failure name (true, result) failures = failures
  add_failure name (false, result) failures = (name, result) ∷ failures

  -- The loop over the tests.
  unfoldable pub run_tests : List Text → List Failure
  unfolding run
  run_tests [] = []
  run_tests (name ∷ test_names) =
      add_failure name (run (test_option ∷ name ∷ [])) (run_tests test_names)

  unfoldable pub summary : List Text → List Failure → Summary
  summary test_names [] = record { exit_status = 0; failures = []; pass_count = length test_names }
  summary test_names (f ∷ failures) = record {
    exit_status = 1;
    failures = f ∷ failures;
    pass_count = length test_names - length (f ∷ failures);
  }

  -- `[name.strip() for name in test_names.strip().split('\n')]`
  unfoldable pub test_names_of : Text → List Text
  test_names_of output = map strip (split_lines (strip output))

  abbrev pub with_names : Bool × Text → Summary
  with_names (true, output) = summary (test_names_of output) (run_tests (test_names_of output))
  with_names (false, output) = record { exit_status = 1; failures = []; pass_count = 0 }

  -- `runAllTests`
  unfoldable pub run_all_tests : Summary
  unfolding summary run_tests test_names_of
  run_all_tests = with_names (run (list_tests ∷ []))
