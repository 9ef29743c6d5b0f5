-- ===== src/JsonTests/Outcome/Verdict.antt =====
-- A run of all tests fails just those that do not pass.
use domq.Prelude.{
  ℕ, if◌then◌else◌, Bool, true, false, Option, none, some, List, [], ◌∷◌, ◌++◌, length, All, ok,
  ◌≡◌, ◌≢◌, ◌⊎◌, ◌↔◌, inl, inr, refl, ap, arith, Bool-cases, Text,
}
use domq.JsonTests.{Difference, compare_outputs}
use domq.JsonTests.Compare.{get_elem?, stripped_lines, compare_outputs_lem}
use domq.JsonTests.Outcome.{
  Input, Detail, should_have_failed, parsing_failed, expect_failure, is_set, is_none, or_report,
  check_json, check_output, is_member, add_failed, run_test, run_tests, Summary, summary,
  run_all_tests, input_message, rewrite_message,
}

-- A file of the official suite passes if the reader accepts it, and if its name says that it is bad
-- if the reader refuses it.
PassesJson : Input → Type 0
PassesJson i =
    ((expect_failure i ≡ true) × (i.status ≢ none))
    ⊎ ((expect_failure i ≡ false) × (i.status ≡ none))

-- A test with expected output passes if the process does not fail and both texts that the reader
-- writes have the expected lines.
PassesOutput : Input → Type 0
PassesOutput i =
    (is_set i.status ≡ false)
    × (expected : Text) × (i.expected_output ≡ some expected)
    × (stripped_lines expected ≡ stripped_lines i.actual_output)
    × (stripped_lines expected ≡ stripped_lines i.actual_rewrite_output)

compare_outputs-none :
    (e a m : Text) → (compare_outputs e a m ≡ none) ↔ (stripped_lines e ≡ stripped_lines a)
compare_outputs-none e a m = elim (compare_outputs_lem e a m) [
  | inl (h, same) ↦ (λ _. same, λ _. h)
  | inr (n, first, h) ↦ (λ k. cc, λ same. absurd (first.1 (ap (λ l. get_elem? l n) same)))
]

-- What a test's result says of it.
Tells : Type 0 → Option Detail → Type 0
Tells P detail = (P × (detail ≡ none)) ⊎ ((P → ⊥) × (d : Detail) × (detail ≡ some d))

check_json_lem : (i : Input) → Tells (PassesJson i) (check_json i)
unfolding Tells PassesJson check_json
check_json_lem i = verdict (expect_failure i) i.status
  where
    verdict :
        (b : Bool) (s : Option ℕ)
        → Tells (((b ≡ true) × (s ≢ none)) ⊎ ((b ≡ false) × (s ≡ none))) (
            if b
            then (if is_none s then some (should_have_failed i.contents) else none)
            else (if is_none s then none else some (parsing_failed i.process_output)))
    verdict true none = inr (λ p. elim p [ inl (_, h) ↦ h refl | inr (e, _) ↦ cc ], _, refl)
    verdict true (some n) = inl (inl (refl, λ e. cc), refl)
    verdict false none = inl (inr (refl, refl), refl)
    verdict false (some n) = inr (λ p. elim p [ inl (e, _) ↦ cc | inr (_, e) ↦ cc ], _, refl)

or_report_lem : (a b : Option Difference) → Tells ((a ≡ none) × (b ≡ none)) (or_report a b)
unfolding Tells
or_report_lem none none = inl ((refl, refl), refl)
or_report_lem none (some d) = inr (λ (_, e). cc, _, refl)
or_report_lem (some d) b = inr (λ (e, _). cc, _, refl)

Tells-iff : {P Q : Type 0} (d : Option Detail) → (P ↔ Q) → Tells P d → Tells Q d
unfolding Tells
Tells-iff d (f, g) (inl (p, e)) = inl (f p, e)
Tells-iff d (f, g) (inr (h, x, e)) = inr (λ q. h (g q), x, e)

-- There is expected output to judge a test by, unless the process fails.
abbrev pub IsReady : Input → Type 0
IsReady i = (is_set i.status ≡ true) ⊎ ((expected : Text) × (i.expected_output ≡ some expected))

OutputResult : Input → Type 0
OutputResult i =
    (detail : Option Detail) × (check_output i ≡ ok detail) × Tells (PassesOutput i) detail

check_output-failed : (i : Input) → is_set i.status ≡ true → OutputResult i
unfolding OutputResult check_output PassesOutput Tells
check_output-failed i h =
    (some (parsing_failed i.process_output), rw h, inr (λ p. cc (h, p.0), _, refl))

check_output-compared :
    (i : Input) (expected : Text)
    → is_set i.status ≡ false
    → i.expected_output ≡ some expected
    → OutputResult i
unfolding OutputResult check_output PassesOutput
check_output-compared i expected ended h = (
  _,
  rw (ended, h),
  Tells-iff _ (passes, agree)
      (or_report_lem (compare_outputs expected i.actual_output input_message)
        (compare_outputs expected i.actual_rewrite_output rewrite_message)),
)
  where
    Agree : Type 0
    Agree =
        (compare_outputs expected i.actual_output input_message ≡ none)
        × (compare_outputs expected i.actual_rewrite_output rewrite_message ≡ none)

    passes : Agree → PassesOutput i
    passes (a, b) = (
      ended,
      expected,
      h,
      (compare_outputs-none expected i.actual_output input_message).0 a,
      (compare_outputs-none expected i.actual_rewrite_output rewrite_message).0 b,
    )

    agree : PassesOutput i → Agree
    agree (_, other, e, a, b) =
        let same : other ≡ expected = cc (e, h) in
        (
          (compare_outputs-none expected i.actual_output input_message).1 (rw (← same) a),
          (compare_outputs-none expected i.actual_rewrite_output rewrite_message).1 (rw (← same) b),
        )

check_output_lem : (i : Input) → IsReady i → OutputResult i
check_output_lem i (inl h) = check_output-failed i h
check_output_lem i (inr (expected, h)) = elim (Bool-cases (is_set i.status)) [
  | inl failed ↦ check_output-failed i failed
  | inr ended ↦ check_output-compared i expected ended h
]

-- A test passes: as one of the official suite, if its path is among those, and by its output if not.
pub Passes : List Input → Input → Type 0
Passes checker i =
    ((is_member i.path checker ≡ true) × PassesJson i)
    ⊎ ((is_member i.path checker ≡ false) × PassesOutput i)

run_test_lem :
    (checker : List Input) (i : Input)
    → (is_member i.path checker ≡ false → IsReady i)
    → (detail : Option Detail) × (run_test checker i ≡ ok detail) × Tells (Passes checker i) detail
unfolding run_test Passes
run_test_lem checker i h = elim (Bool-cases (is_member i.path checker)) [
  | inl member ↦ (
    check_json i,
    rw member,
    Tells-iff _ (λ p. inl (member, p), from_json member) (check_json_lem i),
  )
  | inr other ↦
      unfold OutputResult in
      let (detail, e, tells) = check_output_lem i (h other) in
      (detail, rw (other, e), Tells-iff _ (λ p. inr (other, p), from_output other) tells)
]
  where
    from_json : is_member i.path checker ≡ true → Passes checker i → PassesJson i
    from_json e (inl (_, p)) = p
    from_json e (inr (k, _)) = absurd (cc (e, k))

    from_output : is_member i.path checker ≡ false → Passes checker i → PassesOutput i
    from_output e (inl (k, _)) = absurd (cc (e, k))
    from_output e (inr (_, p)) = p

-- The failed tests are those that do not pass, in the order in which the tests ran.
abbrev pub IsVerdict : List Input → List Input → List (Text × Detail) → Type 0
IsVerdict checker [] failed = failed ≡ []
IsVerdict checker (i ∷ inputs) failed =
    (Passes checker i × IsVerdict checker inputs failed)
    ⊎ ((Passes checker i → ⊥)
        × (d : Detail) × (rest : List (Text × Detail)) × (failed ≡ (i.path, d) ∷ rest)
        × IsVerdict checker inputs rest)

run_tests_steps :
    (checker inputs : List Input) (i : Input) (detail : Option Detail) (rest : List (Text × Detail))
    → run_test checker i ≡ ok detail
    → run_tests checker inputs ≡ ok rest
    → run_tests checker (i ∷ inputs) ≡ ok (add_failed i.path detail rest)
unfolding run_tests
run_tests_steps checker inputs i detail rest h k = rw (h, k)

add_failed-IsVerdict :
    (checker inputs : List Input) (i : Input) (detail : Option Detail) (rest : List (Text × Detail))
    → IsVerdict checker inputs rest
    → Tells (Passes checker i) detail
    → IsVerdict checker (i ∷ inputs) (add_failed i.path detail rest)
unfolding Tells
add_failed-IsVerdict checker inputs i detail rest v (inl (p, e)) = rw e (inl (p, v))
add_failed-IsVerdict checker inputs i detail rest v (inr (h, d, e)) =
    rw e (inr (h, d, rest, refl, v))

run_tests_lem :
    (checker inputs : List Input)
    → All (λ (i : Input). is_member i.path checker ≡ false → IsReady i) inputs
    → (failed : List (Text × Detail)) × (run_tests checker inputs ≡ ok failed)
      × IsVerdict checker inputs failed
run_tests_lem checker [] h = ([], unfold run_tests in refl, refl)
run_tests_lem checker (i ∷ inputs) (ready, h) =
    let (rest, e, verdict) = run_tests_lem checker inputs h in
    let (detail, k, tells) = run_test_lem checker i ready in
    let steps : run_tests checker (i ∷ inputs) ≡ ok (add_failed i.path detail rest) =
      run_tests_steps checker inputs i detail rest k e in
    (
      add_failed i.path detail rest,
      steps,
      add_failed-IsVerdict checker inputs i detail rest verdict tells,
    )

IsVerdict-iff :
    (checker inputs : List Input) (failed : List (Text × Detail))
    → IsVerdict checker inputs failed
    → (failed ≡ []) ↔ All (Passes checker) inputs
IsVerdict-iff checker [] failed v = (λ _. tt, λ _. v)
IsVerdict-iff checker (i ∷ inputs) failed (inl (p, v)) =
    let both : (failed ≡ []) ↔ All (Passes checker) inputs =
      IsVerdict-iff checker inputs failed v in
    (λ e. (p, both.0 e), λ (_, ps). both.1 ps)
IsVerdict-iff checker (i ∷ inputs) failed (inr (h, d, rest, e, v)) =
    (λ k. absurd (cc (e, k)), λ (p, _). absurd (h p))

summary_iff :
    (n : ℕ) (failed : List (Text × Detail)) → ((summary n failed).exit_status ≡ 0) ↔ (failed ≡ [])
unfolding summary
summary_iff n [] = (λ _. refl, λ _. refl)
summary_iff n (f ∷ failed) = (λ e. absurd (omega (arith, e)), λ e. absurd (cc e))

summary-failed_tests :
    (n : ℕ) (failed : List (Text × Detail)) → (summary n failed).failed_tests ≡ failed
unfolding summary
summary-failed_tests n [] = refl
summary-failed_tests n (f ∷ failed) = refl

-- If every test outside the official suite has expected output or a process that fails, then
-- `runAllTests` comes to its end. It reports the tests that do not pass, in order, and returns 0 just
-- when all pass: a bad file of the suite by being refused, a good one by being accepted, and any
-- other test by both texts having the expected lines.
pub run_all_tests_iff :
    (tests checker_tests : List Input) (with_json_checker : Bool)
    → let checker : List Input = if with_json_checker then checker_tests else [] in
      All (λ (i : Input). is_member i.path checker ≡ false → IsReady i) (tests ++ checker)
      → (s : Summary) × (run_all_tests tests checker_tests with_json_checker ≡ ok s)
        × IsVerdict checker (tests ++ checker) s.failed_tests
        × ((s.exit_status ≡ 0) ↔ All (Passes checker) (tests ++ checker))
unfolding run_all_tests
run_all_tests_iff tests checker_tests with_json_checker h =
    let checker : List Input = if with_json_checker then checker_tests else [] in
    let (failed, e, v) = run_tests_lem checker (tests ++ checker) h in
    let (to, from) = summary_iff (length tests) failed in
    let (all, none_) = IsVerdict-iff checker (tests ++ checker) failed v in
    (
      summary (length tests) failed,
      rw e,
      rw (summary-failed_tests (length tests) failed) v,
      (λ k. all (to k), λ ps. from (none_ ps)),
    )
