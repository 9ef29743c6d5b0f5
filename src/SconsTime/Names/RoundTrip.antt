-- ===== src/SconsTime/Names/RoundTrip.antt =====
-- The run and the invocation are read back from the name of a log file or a profile.
use domq.Prelude.{ℕ, false, [], ◌∷◌, ◌++◌, ok, ◌≡◌, refl, ap, ◌∙◌, append_assoc, Text, codes}
use domq.Strings.{str, padded, has_char, splitext, join_path}
use domq.Strings.Decimal.{str-IsDigits, str-ne-nil, padded-IsDigits, int_of-padded, int_of-str}
use domq.Strings.Split.{last_two-split_on, digits_free, splitext-digits, join_path-end}
use domq.SconsTime.Names.{prefix_run, invocation_name, logfile_name, profile_name, run_and_index}

-- A path that ends in a run and an invocation.
run_and_index-numbers :
    (s ext : Text) (run index : ℕ)
    → has_char b'.' ext ≡ false
    → has_char b'/' ext ≡ false
    → run_and_index ((s ++ b'-' ∷ (padded 3 run ++ b'-' ∷ str index)) ++ b'.' ∷ ext)
      ≡ ok (run, index)
unfolding run_and_index
run_and_index-numbers s ext run index no_dot no_slash =
    let together : s ++ b'-' ∷ (padded 3 run ++ b'-' ∷ str index)
        ≡ (s ++ b'-' ∷ (padded 3 run ++ b'-' ∷ [])) ++ str index =
      simp append_assoc in
    let cut : splitext ((s ++ b'-' ∷ (padded 3 run ++ b'-' ∷ str index)) ++ b'.' ∷ ext)
        ≡ (s ++ b'-' ∷ (padded 3 run ++ b'-' ∷ str index), b'.' ∷ ext) =
      rw together (
        splitext-digits _ (str index) ext (str-IsDigits index) (str-ne-nil index) no_dot
          no_slash) in
    rw (
      cut,
      last_two-split_on b'-' s (padded 3 run) (str index)
          (digits_free b'-' _ (padded-IsDigits 3 run) refl)
          (digits_free b'-' _ (str-IsDigits index) refl),
      int_of-padded 3 run,
      int_of-str index,
    )

run_and_index-join_path :
    (outdir prefix ext : Text) (run index : ℕ)
    → has_char b'.' ext ≡ false
    → has_char b'/' ext ≡ false
    → run_and_index (join_path outdir (invocation_name ext (prefix_run prefix run) index))
      ≡ ok (run, index)
run_and_index-join_path outdir prefix ext run index no_dot no_slash =
    let (s, e) = join_path-end outdir (invocation_name ext (prefix_run prefix run) index) in
    let together : s ++ invocation_name ext (prefix_run prefix run) index
        ≡ ((s ++ prefix) ++ b'-' ∷ (padded 3 run ++ b'-' ∷ str index)) ++ b'.' ∷ ext =
      simp append_assoc in
    ap run_and_index (e ∙ together)
    ∙ run_and_index-numbers (s ++ prefix) ext run index no_dot no_slash

-- From the name that a run gives to the log file or the profile of an invocation, in every directory
-- and with every prefix, the run and the invocation are read back, whatever dots, dashes and
-- digits the directory and the prefix have.
pub run_and_index-logfile_name :
    (outdir prefix : Text) (run index : ℕ)
    → (run_and_index (logfile_name outdir (prefix_run prefix run) index) ≡ ok (run, index))
      × (run_and_index (profile_name outdir (prefix_run prefix run) index) ≡ ok (run, index))
unfolding logfile_name profile_name has_char
run_and_index-logfile_name outdir prefix run index = (
  run_and_index-join_path outdir prefix (codes "log") run index refl refl,
  run_and_index-join_path outdir prefix (codes "prof") run index refl refl,
)
