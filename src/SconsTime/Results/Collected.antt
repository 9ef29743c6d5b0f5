-- ===== src/SconsTime/Results/Collected.antt =====
-- What is collected from the log files of runs.
use domq.Prelude.{
  ℕ, ◌==◌, ==_iff, if◌then◌else◌, true, List, [], ◌∷◌, ◌++◌, All, map, append-nil, append_assoc,
  Result, ok, ◌≡◌, ◌≢◌, refl, sym, ap, ◌∙◌, arith, Bool-cases, inl, inr, Text, ℕ_discrete,
}
use domq.Prelude.Dict.{get, get-put_self, get-put_ne}
use domq.SconsTime.Names.{prefix_run, logfile_name}
use domq.SconsTime.Names.RoundTrip.{run_and_index-logfile_name}
use domq.SconsTime.Results.{
  Measured, Collected, values_at, append_value, collect_from, collect_results,
}

-- The values of an invocation that are at hand.
abbrev at : ℕ → Collected → List (ℕ × Measured)
at i results = values_at (get ℕ_discrete i results)

-- The values of an invocation, of the runs in their order.
abbrev pub of_index : (ℕ → ℕ → Measured) → ℕ → List (ℕ × ℕ) → List (ℕ × Measured)
of_index value i [] = []
of_index value i ((run, index) ∷ runs) =
    if index == i then (run, value run index) ∷ of_index value i runs else of_index value i runs

at-append_same :
    (i : ℕ) (value : ℕ × Measured) (results : Collected)
    → at i (append_value i value results) ≡ at i results ++ value ∷ []
unfolding append_value
at-append_same i value results =
    ap values_at (get-put_self ℕ_discrete i (at i results ++ value ∷ []) results)

at-append_other :
    (i index : ℕ) (value : ℕ × Measured) (results : Collected)
    → i ≢ index
    → at i (append_value index value results) ≡ at i results
unfolding append_value
at-append_other i index value results h =
    ap values_at (get-put_ne ℕ_discrete index i (at index results ++ value ∷ []) results h)

at-append :
    (i run index : ℕ) (value : ℕ → ℕ → Measured) (runs : List (ℕ × ℕ)) (results : Collected)
    → at i (append_value index (run, value run index) results) ++ of_index value i runs
      ≡ at i results ++ of_index value i ((run, index) ∷ runs)
at-append i run index value runs results = elim (Bool-cases (index == i)) [
  | inl same ↦
      let e : index ≡ i = (==_iff index i).0 same in
      let itself : (i == i) ≡ true = ground arith in
      rw (e, itself, at-append_same i (run, value run i) results)
        (append_assoc (at i results) ((run, value run i) ∷ []) (of_index value i runs))
  | inr other ↦
      let ne : i ≢ index = ground arith in
      rw (other, at-append_other i index (run, value run index) results ne)
]

collect_from-logfile_name :
    (outdir prefix : Text) (function : Text → Result Measured) (value : ℕ → ℕ → Measured)
    (runs : List (ℕ × ℕ)) (results : Collected)
    → All
        (λ r. function (logfile_name outdir (prefix_run prefix r.0) r.1) ≡ ok (value r.0 r.1))
        runs
    → (all : Collected) × (collect_from function
          (map (λ r. logfile_name outdir (prefix_run prefix r.0) r.1) runs)
          results
        ≡ ok all)
      × ((i : ℕ) → at i all ≡ at i results ++ of_index value i runs)
unfolding collect_from
collect_from-logfile_name outdir prefix function value [] results h =
    (results, refl, λ i. sym (append-nil (at i results)))
collect_from-logfile_name outdir prefix function value ((run, index) ∷ runs) results (first, h) =
    let (all, e, found) =
      collect_from-logfile_name outdir prefix function value runs
        (append_value index (run, value run index) results) h in
    (
      all,
      rw ((run_and_index-logfile_name outdir prefix run index).0, first) e,
      λ i. found i ∙ at-append i run index value runs results,
    )

-- From the log files of runs, in whatever order they are given and whatever directory and prefix they
-- have, every value is collected under its own invocation with its own run, in the order of the
-- files, and nothing else is, where a value is read from each of these files.
pub collect_results-logfile_name :
    (outdir prefix : Text) (function : Text → Result Measured) (value : ℕ → ℕ → Measured)
    (runs : List (ℕ × ℕ))
    → All
        (λ r. function (logfile_name outdir (prefix_run prefix r.0) r.1) ≡ ok (value r.0 r.1))
        runs
    → (results : Collected) × (collect_results function
          (map (λ r. logfile_name outdir (prefix_run prefix r.0) r.1) runs)
        ≡ ok results)
      × ((i : ℕ) → values_at (get ℕ_discrete i results) ≡ of_index value i runs)
unfolding collect_results get
collect_results-logfile_name outdir prefix function value runs h =
    collect_from-logfile_name outdir prefix function value runs [] h
