-- ===== src/SconsTime/World.antt =====
-- The world around the subcommands of `SConsTimer`: what Python's libraries give, and the files of the
-- runs, as the getters read them.
use domq.Prelude.{ℕ, Option, none, some, List, [], ◌∷◌, type_error, Result, ok, raise, ◌>>=◌, Text}
use domq.SconsTime.Plot.{Point}
use domq.SconsTime.Results.{Measured, nothing, one, several, Collected, collect_results}
use domq.SconsTime.Results.Getters.{
  Entry, get_debug_times, get_function_profile, get_function_time, get_memory, get_object_counts,
}
use domq.SconsTime.Commands.{Timer}
use domq.SconsTime.Commands.Run.{World}

-- Files are read below a directory, which is empty before `os.chdir`. `exec_config` is what the
-- configuration does to the attributes.
pub record Files : Type 0 where
  pub getopt : List Text → Text → List Text → Result (List (Text × Text) × List Text)
  pub exec_config : Text → Timer → Result Timer
  pub change_dir : Text → Result (Unit {0})
  pub glob : Text → Text → List Text
  pub getcwd : Text → Text
  pub read : Text → Text → Result Text
  pub stats : Text → Text → Result (List Entry)
  pub findall : Text → Text → List Text
  pub float : Text → Result ℕ
  pub runs : World

module _ (w : Files) (dir : Text) where
  unfoldable pub times_of : Option Text → Text → Result Measured
  unfolding get_debug_times
  times_of timer file = do
    contents ← w.read dir file
    get_debug_times w.findall w.float timer contents

  unfoldable pub memory_of : Option Text → Text → Result Measured
  unfolding get_memory
  memory_of stage file = do contents ← w.read dir file; get_memory stage contents

  unfoldable pub counts_of : Text → Option ℕ → Text → Result Measured
  unfolding get_object_counts
  counts_of object_name index file = do
    contents ← w.read dir file
    get_object_counts object_name index contents

  unfoldable pub profile_of : Text → Text → Result Entry
  unfolding get_function_profile
  profile_of function file = do
    statistics ← w.stats dir file
    get_function_profile function statistics

  unfoldable pub function_time_of : Text → Text → Result Measured
  unfolding get_function_time
  function_time_of function file = do
    statistics ← w.stats dir file
    get_function_time function statistics

-- A point of a graph: `'%.3f'` takes no list.
abbrev pub y_value : Measured → Result (Option ℕ)
y_value nothing = ok none
y_value (one v) = ok (some v)
y_value (several values) = raise type_error

unfoldable pub points_of : List (ℕ × Measured) → Result (List Point)
points_of [] = ok []
points_of ((run, value) ∷ values) = do
  y ← y_value value
  points ← points_of values
  ok ((run, y) ∷ points)

unfoldable pub all_points : Collected → Result (List (ℕ × List Point))
unfolding points_of
all_points [] = ok []
all_points ((index, values) ∷ results) = do
  points ← points_of values
  rest ← all_points results
  ok ((index, points) ∷ rest)

unfoldable pub collected_points :
    (Text → Result Measured) → List Text → Result (List (ℕ × List Point))
unfolding collect_results all_points
collected_points function files = do results ← collect_results function files; all_points results
