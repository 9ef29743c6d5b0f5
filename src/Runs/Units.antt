-- ===== src/Runs/Units.antt =====
-- The theorems at concrete inputs, and tests: the unit tests' runner.
use domq.Prelude.{◌≡◌, ◌⊎◌, refl, Bool, true, false, List, [], ◌∷◌, Text}
use domq.UnitTests.{list_tests, run, test_names_of, run_all_tests}
use domq.UnitTests.Report.{IsSummary, run_all_tests-IsSummary}

-- A program whose tests a and b are listed in two lines; b fails.
abbrev program : List Text → Bool × Text
program (exe ∷ auto ∷ option ∷ []) = (true, b'a' ∷ 10 ∷ b'b' ∷ 10 ∷ [])
program (exe ∷ auto ∷ option ∷ name ∷ []) = (domq.Prelude.same_text name (b'a' ∷ []), b'x' ∷ [])
program _ = (false, [])

run_all_tests-IsSummary_example :
    ((output : Text) × (run program [] false (b'e' ∷ []) (list_tests ∷ []) ≡ (true, output))
      × IsSummary program [] false
          (b'e' ∷ [])
          (test_names_of program [] false (b'e' ∷ []) output)
          (run_all_tests program [] false (b'e' ∷ [])))
    ⊎ (((run program [] false (b'e' ∷ []) (list_tests ∷ [])).0 ≡ false)
        × ((run_all_tests program [] false (b'e' ∷ [])).exit_status ≡ 1))
run_all_tests-IsSummary_example = run_all_tests-IsSummary program [] false (b'e' ∷ [])

one_failure :
    run_all_tests program [] false (b'e' ∷ [])
    ≡ record { exit_status = 1; failures = (b'b' ∷ [], b'x' ∷ []) ∷ []; pass_count = 1 }
unfolding run_all_tests run domq.JsonTests.Lines.strip domq.JsonTests.Lines.split_lines
    domq.Prelude.same_text
one_failure = refl
