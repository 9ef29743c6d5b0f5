-- ===== src/SconsTime/Names.antt =====
-- `SConsTimer`: the names of the files of a run, and the numbers of runs.
pub mod RoundTrip
pub mod Fresh
pub mod Lists
pub mod Help
use domq.Prelude.{
  ℕ, zero, suc, ◌+◌, ◌-◌, ◌==◌, ltb, leb, if◌then◌else◌, Bool, true, false, ◌&&◌, Option, none,
  some, List, [], ◌∷◌, ◌++◌, length, take, drop, Exception, value_error, index_error, Result, ok,
  raise, diverge, ◌>>=◌, Text, codes, same_text,
}
use domq.JsonTests.Lines.{split_lines}
use domq.JsonTests.Outcome.{starts_with}
use domq.Strings.{str, padded, is_digit, int_of, split_on, last_two, splitext, join_path}

-- `'.tar.gz'`
abbrev pub tar_gz : Text
tar_gz = codes ".tar.gz"

-- `path.endswith(suffix)`
abbrev pub ends_with : Text → Text → Bool
ends_with suffix path =
    leb (length suffix) (length path) && same_text (drop (length path - length suffix) path) suffix

unfoldable pub archive_splitext : Text → Text × Text
unfolding splitext same_text
archive_splitext path =
    if ends_with tar_gz path
    then (take (length path - 7) path, drop (length path - 7) path)
    else splitext path

-- `self.prefix + '-%03d' % run_number`
abbrev pub prefix_run : Text → ℕ → Text
prefix_run prefix run = prefix ++ b'-' ∷ padded 3 run

-- `self.prefix_run + '-%d' % invocation`, with an extension.
abbrev pub invocation_name : Text → Text → ℕ → Text
invocation_name ext prefix_run invocation = (prefix_run ++ b'-' ∷ str invocation) ++ b'.' ∷ ext

unfoldable pub logfile_name : Text → Text → ℕ → Text
unfolding join_path str
logfile_name outdir prefix_run invocation =
    join_path outdir (invocation_name (codes "log") prefix_run invocation)

unfoldable pub profile_name : Text → Text → ℕ → Text
unfolding join_path str
profile_name outdir prefix_run invocation =
    join_path outdir (invocation_name (codes "prof") prefix_run invocation)

-- What `collect_results` reads from the name of a file: its run, and the index of its invocation.
unfoldable pub run_and_index : Text → Result (ℕ × ℕ)
unfolding splitext split_on last_two int_of
run_and_index file = do
  (run, index) ← last_two (split_on b'-' (splitext file).0)
  r ← int_of run
  i ← int_of index
  ok (r, i)

-- What is left of a text behind a prefix.
unfoldable pub behind_prefix : Text → Text → Option Text
behind_prefix [] t = some t
behind_prefix (c ∷ p) [] = none
behind_prefix (c ∷ p) (d ∷ t) = let rest = behind_prefix p t in if c == d then rest else none

-- `[0-9]+`, as much as there is.
unfoldable pub leading_digits : Text → Text
leading_digits [] = []
leading_digits (c ∷ t) = let rest = leading_digits t in if is_digit c then c ∷ rest else []

abbrev pub some_digits : Text → Option Text
some_digits [] = none
some_digits (c ∷ t) = some (c ∷ t)

abbrev pub digits_behind : Option Text → Option Text
digits_behind none = none
digits_behind (some t) = some_digits (leading_digits t)

-- The group of a match of `re.escape(prefix) + '-([0-9]+).*'`.
unfoldable pub match_run : Text → Text → Option Text
unfolding behind_prefix leading_digits
match_run prefix name = digits_behind (behind_prefix (prefix ++ b'-' ∷ []) name)

abbrev pub add_number : Option Text → List ℕ → Result (List ℕ)
add_number none numbers = ok numbers
add_number (some group) numbers = do n ← int_of group; ok (n ∷ numbers)

unfoldable pub run_numbers : Text → List Text → Result (List ℕ)
unfolding match_run int_of
run_numbers prefix [] = ok []
run_numbers prefix (name ∷ names) = do
  numbers ← run_numbers prefix names
  add_number (match_run prefix name) numbers

abbrev pub greatest : ℕ → List ℕ → ℕ
greatest m [] = m
greatest m (n ∷ numbers) = greatest (if leb n m then m else n) numbers

abbrev pub next_number : List ℕ → ℕ
next_number [] = 0
next_number (n ∷ numbers) = greatest n numbers + 1

-- `find_next_run_number`, on what `os.listdir(dir)` returns.
unfoldable pub find_next_run_number : Text → List Text → Result ℕ
unfolding run_numbers
find_next_run_number prefix names = do numbers ← run_numbers prefix names; ok (next_number numbers)

-- `range(first, last + 1)`; the first argument counts the numbers.
abbrev pub count_up : ℕ → ℕ → List ℕ
count_up zero first = []
count_up (suc n) first = first ∷ count_up n (suc first)

unfoldable pub range_to : ℕ → ℕ → List ℕ
range_to first last = count_up (last + 1 - first) first

-- A piece of the list of run numbers, split at its dashes.
abbrev pub run_range : Text → List Text → Result (List ℕ)
run_range piece (x ∷ y ∷ []) = do first ← int_of x; last ← int_of y; ok (range_to first last)
run_range piece _ = do n ← int_of piece; ok (n ∷ [])

unfoldable pub run_ranges : List Text → Result (List ℕ)
unfolding split_on int_of range_to
run_ranges [] = ok []
run_ranges (piece ∷ pieces) = do
  numbers ← run_range piece (split_on b'-' piece)
  more ← run_ranges pieces
  ok (numbers ++ more)

unfoldable pub split_run_numbers : Text → Result (List ℕ)
unfolding run_ranges split_on
split_run_numbers s = run_ranges (split_on b',' s)

abbrev pub without_empty_first : List Text → List Text
without_empty_first ([] ∷ lines) = lines
without_empty_first lines = lines

-- `re.match(' *', line).group(0)`
unfoldable pub leading_spaces : Text → Text
leading_spaces [] = []
leading_spaces (c ∷ t) = let rest = leading_spaces t in if c == 32 then c ∷ rest else []

abbrev pub strip_initial_spaces : Text → Text → Text
strip_initial_spaces spaces line =
    if starts_with spaces line then drop (length spaces) line else line

-- `'\n'.join(lines)`, of at least one line.
unfoldable pub join_lines : Text → List Text → Text
join_lines line [] = line
join_lines line (next ∷ lines) = line ++ 10 ∷ join_lines next lines

abbrev pub stripped : Text → List Text → List Text
stripped spaces [] = []
stripped spaces (line ∷ lines) = strip_initial_spaces spaces line ∷ stripped spaces lines

abbrev pub outdent_lines : List Text → Result Text
outdent_lines [] = raise index_error
outdent_lines (line ∷ lines) = ok (
    join_lines (strip_initial_spaces (leading_spaces line) line)
      (stripped (leading_spaces line) lines)
    ++ 10 ∷ [])

unfoldable pub outdent : Text → Result Text
unfolding split_lines starts_with leading_spaces join_lines
outdent s = outdent_lines (without_empty_first (split_lines s))
