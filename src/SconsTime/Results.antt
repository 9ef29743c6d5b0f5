-- ===== src/SconsTime/Results.antt =====
-- `SconsTimer`: what is read from the files of the runs, and the tables and graphs of it. A measured
-- value is a whole number, which a time is cut to.
pub mod Getters
pub mod Collected
pub mod Graphs
pub mod Tables
use domq.Prelude.{
  ℕ, zero, suc, ◌+◌, ◌-◌, ◌==◌, ltb, leb, if◌then◌else◌, Bool, true, false, not, ◌&&◌, Option, none,
  some, List, [], ◌∷◌, ◌++◌, map, length, take, drop, replicate, sort_by, Exception, index_error,
  type_error, Result, ok, raise, diverge, ◌>>=◌, Text, codes, same_text, ℕ_discrete,
}
use domq.Prelude.Dict.{get, put}
use domq.Fixeol.{readlines}
use domq.JsonTests.Outcome.{ℤ, pos, negsuc, starts_with}
use domq.Strings.{str, int_of, words, text_leb}
use domq.SconsTime.Plot.{
  Point, Line, Gnuplotter, new_gnuplotter, line, Bar, vertical_bars, Command, draw,
}
use domq.SconsTime.Names.{ends_with, run_and_index}

-- What a getter returns: None, a value, or a list.
pub data Measured : Type 0 where
  nothing : Measured
  one : ℕ → Measured
  several : List ℕ → Measured

abbrev pub last_of {ℓ} : {A : Type ℓ} → ℕ → List A → List A
last_of n l = drop (length l - n) l

abbrev pub of_tail : ℤ → List Text → List Text
of_tail (pos zero) files = files
of_tail (pos (suc n)) files = last_of (suc n) files
of_tail (negsuc n) files = drop (suc n) files

abbrev pub with_tail : Option ℤ → List Text → List Text
with_tail none files = files
with_tail (some n) files = of_tail n files

unfoldable pub all_globbed : (Text → List Text) → List Text → List Text
unfolding sort_by text_leb
all_globbed glob [] = []
all_globbed glob (a ∷ args) = sort_by text_leb (glob a) ++ all_globbed glob args

-- The files of all patterns, or the last of them, where `glob` is `glob.glob`.
unfoldable pub args_to_files : (Text → List Text) → List Text → Option ℤ → List Text
unfolding all_globbed
args_to_files glob args tail = with_tail tail (all_globbed glob args)

-- A row of a table: its cells, the last of which are empty, and the name of the file.
abbrev pub Row : Type 0
Row = List (Option ℕ) × Text

abbrev pub row_of : List Text → Text → List ℕ → Result Row
row_of columns name t =
    if leb (length t) (length columns)
    then ok (map some t ++ replicate (length columns - length t) none, name)
    else raise type_error

-- `t.append(file_function(file))` and `line_fmt % tuple(t)`. A number has no length.
abbrev pub measured_row : List Text → Text → Measured → Result Row
measured_row columns name nothing = row_of columns name []
measured_row columns name (one n) = raise type_error
measured_row columns name (several t) = row_of columns name t

abbrev pub above : Result Row → List Row × Result (Unit {0}) → List Row × Result (Unit {0})
above (ok row) (rows, ending) = (row ∷ rows, ending)
above (raise e) rest = ([], raise e)
above diverge rest = ([], diverge)

-- The rows that `ascii_table` prints below its header, and what it ends with.
unfoldable pub ascii_table :
    List Text → (Text → Result Measured) → (Text → Text) → List Text → List Row × Result (Unit {0})
ascii_table columns line_function file_function [] = ([], ok tt)
ascii_table columns line_function file_function (file ∷ files) =
    above (line_function file >>= measured_row columns (file_function file))
      (ascii_table columns line_function file_function files)

-- The values of each invocation, with their runs.
abbrev pub Collected : Type 0
Collected = List (ℕ × List (ℕ × Measured))

abbrev pub values_at : Option (List (ℕ × Measured)) → List (ℕ × Measured)
values_at none = []
values_at (some r) = r

unfoldable pub append_value : ℕ → ℕ × Measured → Collected → Collected
unfolding get put
append_value index value results =
    put ℕ_discrete index (values_at (get ℕ_discrete index results) ++ value ∷ []) results

unfoldable pub collect_from : (Text → Result Measured) → List Text → Collected → Result Collected
unfolding run_and_index append_value
collect_from function [] results = ok results
collect_from function (file ∷ files) results = do
  (run, index) ← run_and_index file
  value ← function file
  collect_from function files (append_value index (run, value) results)

unfoldable pub collect_results : (Text → Result Measured) → List Text → Result Collected
unfolding collect_from
collect_results function files = collect_from function files []

abbrev pub item {ℓ} : {A : Type ℓ} → ℕ → List A → Result A
item n [] = raise index_error
item zero (a ∷ l) = ok a
item (suc n) (a ∷ l) = item n l

-- Pairs of a run and a value in the order of Python's tuples, in which None comes first.
abbrev pub value_leb : Option ℕ → Option ℕ → Bool
value_leb none w = true
value_leb (some v) none = false
value_leb (some v) (some w) = leb v w

abbrev pub point_leb : Point → Point → Bool
point_leb (x, v) (y, w) = if x == y then value_leb v w else ltb x y

-- The entry of a configuration for a vertical bar, whose comment may be missing.
pub data BarTuple : Type 0 where
  with_comment : (x type : ℕ) (label comment : Text) → BarTuple
  without_comment : (x type : ℕ) (label : Text) → BarTuple

abbrev pub bar_of : BarTuple → Bar
bar_of (with_comment x type label comment) = record {
  x = x;
  type = type;
  label = label;
  comment = comment;
}
bar_of (without_comment x type label) = record {
  x = x;
  type = type;
  label = label;
  comment = label;
}

abbrev pub run_titles : List Text
run_titles = codes "Startup" ∷ codes "Full build" ∷ codes "Up-to-date build" ∷ []

abbrev pub title_or : ℕ → Result Text → Text
title_or i (ok t) = t
title_or i _ = codes "??? " ++ str i ++ codes " ???"

unfoldable pub title_of : ℕ → Text
unfolding str
title_of i = title_or i (item i run_titles)

-- The results of an invocation become a line.
unfoldable pub result_line : ℕ → List Point → Gnuplotter → Gnuplotter
unfolding sort_by line title_of
result_line i points gp =
    line (sort_by point_leb points) (i + 1) (some (title_of i)) none (some (title_of i)) gp

-- The invocations in the order of their numbers.
abbrev pub index_leb : ℕ × List Point → ℕ × List Point → Bool
index_leb (i, r) (j, s) = leb i j

unfoldable pub result_lines : List (ℕ × List Point) → Gnuplotter → Gnuplotter
unfolding result_line
result_lines [] gp = gp
result_lines ((i, points) ∷ results) gp = result_lines results (result_line i points gp)

-- The graph that `gnuplot_results` draws. The entries of a dictionary have different keys.
unfoldable pub results_graph :
    Option Text → Text → List BarTuple → List (ℕ × List Point) → Gnuplotter
unfolding result_lines sort_by vertical_bars
results_graph title key_location bars results =
    vertical_bars (map bar_of bars)
      (result_lines (sort_by index_leb results) (new_gnuplotter title key_location))

unfoldable pub gnuplot_results :
    Option Text → Text → List BarTuple → List (ℕ × List Point) → List Command
unfolding results_graph draw
gnuplot_results title key_location bars results =
    draw (results_graph title key_location bars results)
