-- ===== src/Runs/Timing.antt =====
-- The theorems at concrete inputs, and tests: the timing of runs of the build tool.
use mathlib.Core.List.{Memᴰ}
use domq.Prelude.{
  if◌then◌else◌, take, drop, same_text, inl, sym, ap, raise, io_error, ℕ, ◌+◌, ◌*◌, ◌≤◌, ◌<◌, ◌≡◌,
  refl, arith, Bool, true, false, none, some, List, [], ◌∷◌, ◌++◌, map, sort_by, All, Result, ok,
  diverge, Text, codes, ℕ_discrete,
}
use domq.Prelude.Dict.{get}
use domq.Strings.{padded}
use domq.SconsTime.Commands.{shown}
use domq.SconsTime.World.{Files}
use domq.SconsTime.Options.{go}
use domq.SconsTime.Subcommands.{graph}
use domq.SconsTime.Subcommands.Dispatch.{do_run, reported, scons_time}
use domq.SconsTime.Plot.{set_key, plot, comment, point, end, Point, increment_size, max_graph_value}
use domq.SconsTime.Plot.Increment.{max_graph_value_bounds}
use domq.SconsTime.Names.{
  prefix_run, logfile_name, profile_name, run_and_index, find_next_run_number, split_run_numbers,
  archive_splitext,
}
use domq.SconsTime.Names.RoundTrip.{run_and_index-logfile_name}
use domq.SconsTime.Names.Fresh.{find_next_run_number_lem}
use domq.SconsTime.Names.Lists.{one, span, ranges_text, all_runs, split_run_numbers-ranges_text}
use domq.SconsTime.Results.{
  Measured, Collected, values_at, collect_results, BarTuple, with_comment, bar_of, index_leb,
  results_graph,
}
use domq.SconsTime.Results.Getters.{get_memory}
use domq.SconsTime.Results.Collected.{of_index, collect_results-logfile_name}
use domq.SconsTime.Results.Graphs.{lines_for, results_graph-lines}
use domq.SconsTime.Plot.Bars.{all_bar_lines}
use domq.SconsTime.Plot.Extent.{IsX, IsY, IsLeast, IsGreatest}
use domq.SconsTime.Commands.{rmtree, shell, Timer, Event, called}
use domq.SconsTime.Commands.Run.{World, prepared, with_defaults, with_run, restored, individual_run}
use domq.SconsTime.Commands.Order.{IsShown}
use domq.SconsTime.Commands.CleanUp.{individual_run-LeavesClean}
use domq.SconsTime.Subcommands.NoExec.{events_of, do_run-IsShown}

-- 38 is divided by increments of 7, of which 6 are needed.
max_graph_value_bounds_example :
    (lines : ℕ) × (max_graph_value 37 ≡ lines * increment_size (37 + 1))
    × (37 < max_graph_value 37)
    × (max_graph_value 37 ≤ 37 + increment_size (37 + 1))
    × (5 * increment_size (37 + 1) ≤ 37 + 1)
    × (37 + 1 < 10 * increment_size (37 + 1))
    × (5 ≤ lines)
    × (lines ≤ 10)
max_graph_value_bounds_example = max_graph_value_bounds 37 (omega arith)

test_size : max_graph_value 37 ≡ 42
unfolding max_graph_value
test_size = refl

-- A directory with a dot, a prefix with dashes and digits.
abbrev outdir : Text
outdir = codes "/tmp/v1.2"

abbrev prefix : Text
prefix = codes "scons-2-0"

run_and_index-logfile_name_example :
    (run_and_index (logfile_name outdir (prefix_run prefix 12) 2) ≡ ok (12, 2))
    × (run_and_index (profile_name outdir (prefix_run prefix 12) 2) ≡ ok (12, 2))
run_and_index-logfile_name_example = run_and_index-logfile_name outdir prefix 12 2

test_name : logfile_name outdir (prefix_run prefix 12) 2 ≡ codes "/tmp/v1.2/scons-2-0-012-2.log"
unfolding logfile_name padded
test_name = refl

-- The files of the runs 3 and 12, and another one.
abbrev names : List Text
names = codes "scons-2-0-003-0.log" ∷ codes "scons-2-0-012-1.prof" ∷ codes "scons-2-0.txt" ∷ []

find_next_run_number_lem_example :
    (next : ℕ) × (find_next_run_number prefix names ≡ ok next)
    × ((run : ℕ) (rest : Text) → Memᴰ (prefix_run prefix run ++ b'-' ∷ rest) names → run < next)
find_next_run_number_lem_example = find_next_run_number_lem prefix names

test_next : find_next_run_number prefix names ≡ ok 13
unfolding find_next_run_number
test_next = refl

split_run_numbers-ranges_text_example :
    split_run_numbers (ranges_text (one 7) (span 9 11 ∷ []))
    ≡ ok (all_runs (one 7 ∷ span 9 11 ∷ []))
split_run_numbers-ranges_text_example = split_run_numbers-ranges_text (one 7) (span 9 11 ∷ [])

test_runs : split_run_numbers (codes "7,9-11,5-4") ≡ ok (7 ∷ 9 ∷ 10 ∷ 11 ∷ [])
unfolding split_run_numbers
test_runs = refl

test_splitext : archive_splitext (codes "scons.1.tar.gz") ≡ (codes "scons.1", codes ".tar.gz")
unfolding archive_splitext
test_splitext = refl

-- What three log files hold; others cannot be read.
abbrev function : Text → Result Measured
function file =
    if same_text file (codes "/tmp/v1.2/scons-2-0-002-0.log")
    then ok (Measured.one 20)
    else (if same_text file (codes "/tmp/v1.2/scons-2-0-002-1.log")
        then ok (Measured.one 21)
        else (if same_text file (codes "/tmp/v1.2/scons-2-0-001-0.log")
            then ok (Measured.one 10)
            else raise io_error))

collect_results-logfile_name_example :
    (results : Collected) × (collect_results function (
        map
          (λ (r : ℕ × ℕ). logfile_name outdir (prefix_run prefix r.0) r.1)
          ((2, 0) ∷ (2, 1) ∷ (1, 0) ∷ []))
      ≡ ok results)
    × ((i : ℕ)
        → values_at (get ℕ_discrete i results)
          ≡ of_index
              (λ run index. Measured.one (10 * run + index))
              i
              ((2, 0) ∷ (2, 1) ∷ (1, 0) ∷ []))
unfolding same_text logfile_name padded
collect_results-logfile_name_example =
    collect_results-logfile_name outdir prefix function
      (λ run index. Measured.one (10 * run + index)) ((2, 0) ∷ (2, 1) ∷ (1, 0) ∷ [])
      (refl, (refl, (refl, tt)))

test_memory :
    get_memory none (codes "Memory before: 12\nother 3\nMemory after: 40\n")
    ≡ ok (Measured.several (12 ∷ 40 ∷ []))
unfolding get_memory
test_memory = refl

-- The results of two invocations, the second one given first.
abbrev points : List (ℕ × List Point)
points = (1, (3, some 8) ∷ (2, none) ∷ []) ∷ (0, (2, some 5) ∷ []) ∷ []

abbrev bars : List BarTuple
bars = with_comment 2 7 (codes "r2") (codes "a branch") ∷ with_comment 9 7 (codes "r9") [] ∷ []

results_graph-lines_example :
    (lo hi top : ℕ) × ((results_graph none (codes "bottom left") bars points).lines
      ≡ lines_for (sort_by index_leb points) ++ all_bar_lines lo hi top (map bar_of bars))
    × IsLeast (λ x. IsX x (lines_for (sort_by index_leb points))) lo
    × IsGreatest (λ x. IsX x (lines_for (sort_by index_leb points))) hi
    × IsGreatest (λ y. IsY y (lines_for (sort_by index_leb points))) top
results_graph-lines_example = results_graph-lines none (codes "bottom left") bars points

-- A timer that times one archive, and a world in which nothing fails.
abbrev timer : Bool → Timer
timer executes = record {
  aegis = codes "aegis";
  aegis_project = [];
  chdir_to = [];
  config_file = [];
  initial_commands = shell (codes "make") ∷ [];
  key_location = codes "bottom left";
  orig_cwd = codes "/w";
  outdir = none;
  prefix = codes "p";
  python = codes "python";
  scons = none;
  scons_flags = codes "-d";
  scons_lib_dir = none;
  scons_wrapper = none;
  startup_targets = codes "--help";
  subdir = codes "p";
  subversion_url = codes "u";
  svn = codes "svn";
  svn_co_flag = codes "-q";
  tar = codes "tar";
  targets = [];
  targets0 = none;
  targets1 = none;
  targets2 = none;
  title = none;
  unzip = codes "unzip";
  verbose = false;
  vertical_bars = [];
  archive_list = codes "p.tgz" ∷ [];
  tees = false;
  displays = true;
  executes = executes;
  run_number = none;
  prefix_run = none;
  tmpdir = none;
  aegis_tmpdir = none;
  aegis_parent_project = none;
  svn_tmpdir = none;
  profiles = [];
}

abbrev world : World
world = record {
  is_dir = λ path. false;
  listdir = λ dir. ok [];
  make_temp_file = λ name. codes "/tmp/" ++ name;
  preserve = false;
  fails = λ event. none;
}

-- The timer after a run.
abbrev after_run : Timer
after_run = restored (timer true) (with_run world 4 (with_defaults (timer true)))

run_ends : (individual_run world (some 4) (codes "p.tgz" ∷ []) none (timer true)).1 ≡ ok after_run
unfolding individual_run
run_ends = refl

individual_run-LeavesClean_example :
    (after_run.scons ≡ (prepared world none (timer true)).0.scons)
    × (after_run.scons_lib_dir ≡ (prepared world none (timer true)).0.scons_lib_dir)
    × (after_run.scons_wrapper ≡ (timer true).scons_wrapper)
    × ((earlier : List Event) × ((individual_run world
            (some 4)
            (codes "p.tgz" ∷ [])
            none
            (timer true)).0
          ≡ earlier ++ called rmtree (world.make_temp_file (codes "scons-time-") ∷ []) ∷ []))
individual_run-LeavesClean_example =
    individual_run-LeavesClean world (some 4) (codes "p.tgz" ∷ []) none (timer true) after_run refl
      refl run_ends

-- The program on two log files, which a pattern finds: the memory after building, as a graph.
abbrev files : Files
files = record {
  getopt = λ argv short long.
      if same_text short (codes "h?V")
      then ok ([], argv)
      else ok ((codes "--format", codes "gnuplot") ∷ [], []);
  exec_config = λ file st. ok st;
  change_dir = λ dir. ok tt;
  glob = λ dir pattern.
      if same_text pattern (codes "p*.log")
      then codes "p-002-0.log" ∷ codes "p-001-0.log" ∷ []
      else [];
  getcwd = λ dir. codes "/w";
  read = λ dir file. ok (codes "Memory after building targets: 41\n");
  stats = λ dir file. ok [];
  findall = λ pattern contents. [];
  float = λ t. ok 0;
  runs = world;
}

test_graph :
    scons_time files (codes "mem" ∷ []) (timer true)
    ≡ go (
        reported (
          graph (
            set_key (codes "bottom left")
            ∷ plot ((some (codes "Startup"), 1) ∷ [])
            ∷ comment (codes "Startup")
            ∷ point 1 41
            ∷ point 2 41
            ∷ end
            ∷ [])))
unfolding scons_time ℕ_discrete
test_graph = refl

-- The commands of a run that are shown.
test_run :
    take 3 (individual_run world (some 4) (codes "p.tgz" ∷ []) none (timer false)).0
    ≡ shown (codes "mkdir /tmp/scons-time-")
      ∷ shown (codes "cd /tmp/scons-time-")
      ∷ shown (codes "tar xzf /w/p.tgz")
      ∷ []
unfolding individual_run
test_run = refl

-- Its three invocations, and what comes behind them.
test_logged :
    drop 8 (individual_run world (some 4) (codes "p.tgz" ∷ []) none (timer false)).0
    ≡ shown (
        codes
          "python /w/src/script/scons.py -d --profile=/w/p-004-0.prof --help > /w/p-004-0.log 2>&1")
      ∷ shown (
          codes "python /w/src/script/scons.py -d --profile=/w/p-004-1.prof  > /w/p-004-1.log 2>&1")
      ∷ shown (
          codes "python /w/src/script/scons.py -d --profile=/w/p-004-2.prof  > /w/p-004-2.log 2>&1")
      ∷ shown (codes "cd /w")
      ∷ shown (codes "rm -rf /tmp/scons-time-")
      ∷ []
unfolding individual_run
test_logged = refl

-- `getopt` finds `-q`, `-n` and `--number 4` before one archive; nothing else is changed.
abbrev shown_files : Files
shown_files = record files {
  getopt = λ argv short long. ok (
    (codes "-q", []) ∷ (codes "-n", []) ∷ (codes "--number", codes "4") ∷ [],
    codes "p.tgz" ∷ [],
  );
}

abbrev executes_of : Result Timer → Bool
executes_of (ok st) = st.executes
executes_of (raise e) = false
executes_of diverge = false

do_run-IsShown_example :
    All IsShown (events_of (do_run shown_files (codes "-qn" ∷ codes "p.tgz" ∷ []) (timer true)))
do_run-IsShown_example =
    do_run-IsShown shown_files (codes "-qn" ∷ codes "p.tgz" ∷ []) (timer true)
      ((codes "-q", []) ∷ []) (codes "-n") [] ((codes "--number", codes "4") ∷ [])
      (codes "p.tgz" ∷ []) refl (inl refl) (λ config now after e. ap executes_of (sym e))
