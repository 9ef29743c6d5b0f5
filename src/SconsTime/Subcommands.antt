-- ===== src/SconsTime/Subcommands.antt =====
-- `do_func`, `do_mem`, `do_obj` and `do_time`: from the command line to the table or the graph.
pub mod Dispatch
pub mod Quiet
pub mod NoExec
use domq.Prelude.{
  ℕ, zero, suc, ◌+◌, Bool, true, false, if◌then◌else◌, Option, none, some, List, [], ◌∷◌, ◌++◌,
  drop, length, Exception, value_error, Result, ok, raise, diverge, Text, codes, same_text,
}
use domq.JsonTests.Outcome.{starts_with}
use domq.Strings.{join_path}
use domq.SconsTime.Plot.{Command}
use domq.SconsTime.Results.{Row, Measured, ascii_table, gnuplot_results}
use domq.SconsTime.Results.Getters.{Entry}
use domq.SconsTime.Commands.{Timer}
use domq.SconsTime.World.{
  Files, times_of, memory_of, counts_of, profile_of, function_time_of, collected_points,
}
use domq.SconsTime.Options.{
  Complaint, unknown_format, no_object_name, Ends, go, complained, helped, failed, hangs, ◌>>=◌,
  ending, Asked, State, func_option, stages, stage_option, timers, time_option, option_loop,
  short_opts, long_opts, with_config, with_dir, files_of,
}

-- A line of the profiles: the function's entry, or the report of a ValueError for a file.
pub data ProfileLine : Type 0 where
  profile : Entry → ProfileLine
  unreadable : Text → ProfileLine

-- What is printed, and what the printing of a table ends with.
pub data Report : Type 0 where
  table : (columns : List Text) → List Row × Result (Unit {0}) → Report
  profiles : List ProfileLine × Result (Unit {0}) → Report
  graph : List Command → Report

abbrev pub asked_for : Text → Asked
asked_for which = record { format = codes "ascii"; which = which; tail = none }

-- `if format == 'ascii': ... elif format == 'gnuplot': ... else: ...`
abbrev pub in_format : Text → Report → Ends Report → Ends Report
in_format format ascii gnuplot =
    if same_text format (codes "ascii")
    then go ascii
    else (if same_text format (codes "gnuplot")
        then gnuplot
        else complained (unknown_format format))

-- `gnuplot_results` of what `collect_results` collects.
unfoldable pub plotted : Timer → (Text → Result Measured) → List Text → Ends Report
unfolding collected_points gnuplot_results
plotted st function files = do
  results ← ending (collected_points function files)
  go (graph (gnuplot_results st.title st.key_location st.vertical_bars results))

-- `logfile_path`
abbrev pub logfile_path : Text → Text → Text
logfile_path [] file = file
logfile_path (c ∷ dir) file = join_path (c ∷ dir) file

-- The name of a function's file, without the current directory.
abbrev pub without_cwd : Text → Entry → Entry
without_cwd cwd e = record e {
  file = if starts_with cwd e.file then drop (length cwd) e.file else e.file;
}

abbrev pub profile_line : Text → Text → Result Entry → Result ProfileLine
profile_line cwd file (ok e) = ok (profile (without_cwd cwd e))
profile_line cwd file (raise value_error) = ok (unreadable file)
profile_line cwd file (raise e) = raise e
profile_line cwd file diverge = diverge

abbrev pub above_lines :
    Result ProfileLine → List ProfileLine × Result (Unit {0}) → List ProfileLine × Result (Unit {0})
above_lines (ok line) (lines, end) = (line ∷ lines, end)
above_lines (raise e) rest = ([], raise e)
above_lines diverge rest = ([], diverge)

unfoldable pub profile_lines :
    (Text → Result Entry) → Text → List Text → List ProfileLine × Result (Unit {0})
unfolding starts_with
profile_lines function cwd [] = ([], ok tt)
profile_lines function cwd (file ∷ files) =
    above_lines (profile_line cwd file (function file)) (profile_lines function cwd files)

unfoldable pub do_func : Files → List Text → Timer → Ends Report
unfolding option_loop func_option files_of profile_lines profile_of function_time_of plotted
    same_text
do_func w argv st = do
  (opts, args) ←
      ending (w.getopt argv short_opts (long_opts (codes "func=" ∷ codes "function=" ∷ [])))
  (set, asked) ← option_loop func_option opts (st, asked_for (codes "_main"))
  now ← with_config w set.config_file set
  dir ← with_dir w now.chdir_to
  files ← files_of w (codes ".prof") dir now args asked.tail
  in_format asked.format
      (profiles (profile_lines (profile_of w dir asked.which) (w.getcwd dir ++ b'/' ∷ []) files))
      (plotted now (function_time_of w dir asked.which) files)

-- `self.stage_strings[stage]`
unfoldable pub stage_string : Text → Text
unfolding same_text
stage_string stage =
    if same_text stage (codes "pre-read")
    then codes "Memory before reading SConscript files:"
    else (if same_text stage (codes "post-read")
        then codes "Memory after reading SConscript files:"
        else (if same_text stage (codes "pre-build")
            then codes "Memory before building targets:"
            else codes "Memory after building targets:"))

abbrev pub default_stage : Text
default_stage = codes "post-build"

unfoldable pub do_mem : Files → List Text → Timer → Ends Report
unfolding option_loop stage_option files_of memory_of ascii_table stage_string plotted same_text
do_mem w argv st = do
  (opts, args) ← ending (w.getopt argv short_opts (long_opts (codes "stage=" ∷ [])))
  (set, asked) ← option_loop (stage_option (codes "mem")) opts (st, asked_for default_stage)
  now ← with_config w set.config_file set
  dir ← with_dir w now.chdir_to
  files ← files_of w (codes ".log") dir now args asked.tail
  in_format asked.format
      (table stages (ascii_table stages (memory_of w dir none) (logfile_path dir) files))
      (plotted now (memory_of w dir (some (stage_string asked.which))) files)

-- `object_name = args.pop(0)`
abbrev pub object_and_files : List Text → Ends (Text × List Text)
object_and_files [] = complained no_object_name
object_and_files (name ∷ args) = go (name, args)

-- The loop that counts the stages before the stage that is asked for.
unfoldable pub stage_index : Text → List Text → ℕ → ℕ
unfolding same_text
stage_index stage [] i = i
stage_index stage (s ∷ stages) i =
    let rest = stage_index stage stages (suc i) in if same_text stage s then i else rest

unfoldable pub do_obj : Files → List Text → Timer → Ends Report
unfolding option_loop stage_option files_of counts_of ascii_table stage_index plotted same_text
do_obj w argv st = do
  (opts, args) ← ending (w.getopt argv short_opts (long_opts (codes "stage=" ∷ [])))
  (set, asked) ← option_loop (stage_option (codes "obj")) opts (st, asked_for default_stage)
  (object_name, rest) ← object_and_files args
  now ← with_config w set.config_file set
  dir ← with_dir w now.chdir_to
  files ← files_of w (codes ".log") dir now rest asked.tail
  in_format asked.format
      (table stages
        (ascii_table stages (counts_of w dir object_name none) (logfile_path dir) files))
      (plotted now (counts_of w dir object_name (some (stage_index asked.which stages 0))) files)

-- `self.time_strings[which]`
unfoldable pub time_string : Text → Text
unfolding same_text
time_string which =
    if same_text which (codes "total")
    then codes "Total build time"
    else (if same_text which (codes "SConscripts")
        then codes "Total SConscript file execution time"
        else (if same_text which (codes "SCons")
            then codes "Total SCons execution time"
            else codes "Total command execution time"))

abbrev pub time_columns : List Text
time_columns = codes "Total" ∷ codes "SConscripts" ∷ codes "SCons" ∷ codes "commands" ∷ []

unfoldable pub do_time : Files → List Text → Timer → Ends Report
unfolding option_loop time_option files_of times_of ascii_table time_string plotted same_text
do_time w argv st = do
  (opts, args) ← ending (w.getopt argv short_opts (long_opts (codes "which=" ∷ [])))
  (set, asked) ← option_loop time_option opts (st, asked_for (codes "total"))
  now ← with_config w set.config_file set
  dir ← with_dir w now.chdir_to
  files ← files_of w (codes ".log") dir now args asked.tail
  in_format asked.format
      (table time_columns (ascii_table time_columns (times_of w dir none) (logfile_path dir) files))
      (plotted now (times_of w dir (some (time_string asked.which))) files)
