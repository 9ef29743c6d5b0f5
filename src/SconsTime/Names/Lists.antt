-- ===== src/SconsTime/Names/Lists.antt =====
-- The list of run numbers on the command line.
use domq.Prelude.{ℕ, false, List, [], ◌∷◌, ◌++◌, ok, ◌≡◌, refl, Text}
use domq.Strings.{str, is_digit, split_on, has_char}
use domq.Strings.Decimal.{str-IsDigits, int_of-str}
use domq.Strings.Split.{split_on-append, split_on-free, digits_free, has_char-append}
use domq.SconsTime.Names.{range_to, run_range, run_ranges, split_run_numbers}

-- A run, or all runs from a first to a last, and how they are written.
pub data RunRange : Type 0 where
  one : ℕ → RunRange
  span : (first last : ℕ) → RunRange

abbrev pub range_text : RunRange → Text
range_text (one n) = str n
range_text (span first last) = str first ++ b'-' ∷ str last

abbrev pub ranges_text : RunRange → List RunRange → Text
ranges_text range [] = range_text range
ranges_text range (next ∷ ranges) = range_text range ++ b',' ∷ ranges_text next ranges

abbrev pub runs : RunRange → List ℕ
runs (one n) = n ∷ []
runs (span first last) = range_to first last

abbrev pub all_runs : List RunRange → List ℕ
all_runs [] = []
all_runs (range ∷ ranges) = runs range ++ all_runs ranges

str_free : (c n : ℕ) → is_digit c ≡ false → has_char c (str n) ≡ false
str_free c n h = digits_free c (str n) (str-IsDigits n) h

range_text-free : (range : RunRange) → has_char b',' (range_text range) ≡ false
unfolding has_char
range_text-free (one n) = str_free b',' n refl
range_text-free (span first last) =
    has_char-append b',' (str first) (b'-' ∷ str last) (str_free b',' first refl)
      (str_free b',' last refl)

run_range-range_text :
    (range : RunRange)
    → run_range (range_text range) (split_on b'-' (range_text range)) ≡ ok (runs range)
run_range-range_text (one n) = rw (split_on-free b'-' (str n) (str_free b'-' n refl), int_of-str n)
run_range-range_text (span first last) = rw (
  split_on-append b'-' (str first) (str last),
  split_on-free b'-' (str first) (str_free b'-' first refl),
  split_on-free b'-' (str last) (str_free b'-' last refl),
  int_of-str first,
  int_of-str last,
)

-- A list of run numbers and ranges that is written with commas and dashes is read as the runs that it
-- stands for, in its order, where a range that ends before it starts is empty.
pub split_run_numbers-ranges_text :
    (range : RunRange) (ranges : List RunRange)
    → split_run_numbers (ranges_text range ranges) ≡ ok (all_runs (range ∷ ranges))
unfolding split_run_numbers run_ranges
split_run_numbers-ranges_text range [] =
    rw (split_on-free b',' (range_text range) (range_text-free range), run_range-range_text range)
split_run_numbers-ranges_text range (next ∷ ranges) = rw (
  split_on-append b',' (range_text range) (ranges_text next ranges),
  split_on-free b',' (range_text range) (range_text-free range),
  run_range-range_text range,
  split_run_numbers-ranges_text next ranges,
)
