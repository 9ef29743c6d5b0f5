-- ===== src/UnitTests/Report.antt =====
-- The report of the unit tests.
use domq.Prelude.{
  ◌+◌, ◌≤◌, Bool, true, false, List, [], ◌∷◌, length, All, ◌≡◌, ◌↔◌, ◌⊎◌, inl, inr, refl, arith,
  Text,
}
use domq.UnitTests.{
  list_tests, test_option, Failure, Summary, run, add_failure, run_tests, summary, test_names_of,
  with_names, run_all_tests,
}

module _ (process : List Text → Bool × Text) (valgrind : List Text) (use_valgrind : Bool)
    (exe : Text) where
  abbrev pub Passes : Text → Type 0
  Passes name = (run process valgrind use_valgrind exe (test_option ∷ name ∷ [])).0 ≡ true

  -- The failures are the tests that do not pass, in order, each with the output of its process.
  abbrev pub IsReport : List Text → List Failure → Type 0
  IsReport [] failures = failures ≡ []
  IsReport (name ∷ names) failures =
      (Passes name × IsReport names failures)
      ⊎ ((output : Text) × (rest : List Failure) × (run process valgrind use_valgrind exe
              (test_option ∷ name ∷ [])
            ≡ (false, output))
          × (failures ≡ (name, output) ∷ rest)
          × IsReport names rest)

  add_failure-IsReport :
      (name : Text) (names : List Text) (failures : List Failure) (r : Bool × Text)
      → run process valgrind use_valgrind exe (test_option ∷ name ∷ []) ≡ r
      → IsReport names failures
      → IsReport (name ∷ names) (add_failure process valgrind use_valgrind exe name r failures)
  add_failure-IsReport name names failures (true, output) e h = inl (rw e, h)
  add_failure-IsReport name names failures (false, output) e h = inr (output, failures, e, refl, h)

  run_tests-IsReport :
      (names : List Text) → IsReport names (run_tests process valgrind use_valgrind exe names)
  unfolding run_tests
  run_tests-IsReport [] = refl
  run_tests-IsReport (name ∷ names) =
      add_failure-IsReport name names _ _ refl (run_tests-IsReport names)

  IsReport-length :
      (names : List Text) (failures : List Failure)
      → IsReport names failures
      → length failures ≤ length names
  IsReport-length [] failures h = rw h (omega arith)
  IsReport-length (name ∷ names) failures (inl (p, h)) =
      omega (arith, IsReport-length names failures h)
  IsReport-length (name ∷ names) failures (inr (output, rest, e, same, h)) =
      rw same (omega (arith, IsReport-length names rest h))

  IsReport-iff :
      (names : List Text) (failures : List Failure)
      → IsReport names failures
      → (failures ≡ []) ↔ All Passes names
  IsReport-iff [] failures h = (λ _. tt, λ _. h)
  IsReport-iff (name ∷ names) failures (inl (p, h)) =
      let both : (failures ≡ []) ↔ All Passes names = IsReport-iff names failures h in
      (λ e. (p, both.0 e), λ ps. both.1 ps.1)
  IsReport-iff (name ∷ names) failures (inr (output, rest, e, same, h)) =
      (λ k. absurd (cc (same, k)), λ ps. absurd (let p : Passes name = ps.0 in cc (e, p)))

  -- What a summary says: the return value is 0 just when all tests pass, the failures are those that
  -- do not, and the counts of passed and failed tests add up to all tests.
  abbrev pub IsSummary : List Text → Summary → Type 0
  IsSummary names s =
      IsReport names s.failures
      × ((s.exit_status ≡ 0) ↔ All Passes names)
      × (s.pass_count + length s.failures ≡ length names)

  summary-IsSummary :
      (names : List Text) (failures : List Failure)
      → IsReport names failures
      → IsSummary names (summary process valgrind use_valgrind exe names failures)
  unfolding summary
  summary-IsSummary names [] h =
      let both : ([] ≡ []) ↔ All Passes names = IsReport-iff names [] h in
      (h, (λ _. both.0 refl, λ _. refl), omega arith)
  summary-IsSummary names (f ∷ failures) h =
      let both : (f ∷ failures ≡ []) ↔ All Passes names = IsReport-iff names (f ∷ failures) h in
      let small : length (f ∷ failures) ≤ length names = IsReport-length names (f ∷ failures) h in
      (
        h,
        (
          λ e. absurd (omega (arith, e)),
          λ ps. absurd (let e : f ∷ failures ≡ [] = both.1 ps in cc),
        ),
        omega (arith, small),
      )

  -- If the process lists its tests, `runAllTests` runs each of them and returns 0 just when all pass.
  -- Its report has those that do not pass, in order, with their output, and its counts of passed and
  -- failed tests add up to the tests in the list. If the process does not, it returns 1.
  pub run_all_tests-IsSummary :
      ((output : Text) × (run process valgrind use_valgrind exe (list_tests ∷ []) ≡ (true, output))
        × IsSummary
            (test_names_of process valgrind use_valgrind exe output)
            (run_all_tests process valgrind use_valgrind exe))
      ⊎ (((run process valgrind use_valgrind exe (list_tests ∷ [])).0 ≡ false)
          × ((run_all_tests process valgrind use_valgrind exe).exit_status ≡ 1))
  unfolding run_all_tests
  run_all_tests-IsSummary = go (run process valgrind use_valgrind exe (list_tests ∷ [])) refl
    where
      go :
          (r : Bool × Text)
          → run process valgrind use_valgrind exe (list_tests ∷ []) ≡ r
          → ((output : Text) × (run process valgrind use_valgrind exe (list_tests ∷ [])
                ≡ (true, output))
              × IsSummary
                  (test_names_of process valgrind use_valgrind exe output)
                  (with_names process valgrind use_valgrind exe r))
            ⊎ (((run process valgrind use_valgrind exe (list_tests ∷ [])).0 ≡ false)
                × ((with_names process valgrind use_valgrind exe r).exit_status ≡ 1))
      go (true, output) e = inl (output, e, summary-IsSummary _ _ (run_tests-IsReport _))
      go (false, output) e = inr (rw e, refl)
