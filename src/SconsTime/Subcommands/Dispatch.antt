-- ===== src/SconsTime/Subcommands/Dispatch.antt =====
-- `do_run`, and the program: which function a subcommand is.
use domq.Prelude.{
  ℕ, true, false, if◌then◌else◌, Option, none, some, List, [], ◌∷◌, ◌++◌, map, attribute_error,
  type_error, Result, ok, raise, diverge, Text, codes, same_text,
}
use domq.JsonTests.Outcome.{basename}
use domq.SconsTime.Names.{archive_splitext, split_run_numbers}
use domq.SconsTime.Commands.{Timer, Event}
use domq.SconsTime.Commands.Run.{
  World, Prepare, prep_aegis_run, prep_subversion_run, individual_run,
}
use domq.SconsTime.World.{Files}
use domq.SconsTime.Options.{
  unknown_subcommand, no_archive, no_subcommand, Ends, go, complained, helped, failed, hangs, ◌>>=◌,
  ending, is_one, RunState, option_loop, with_config,
}
use domq.SconsTime.Subcommands.{Report, do_func, do_mem, do_obj, do_time}

abbrev pub run_short_opts : Text
run_short_opts = codes "?f:hnp:qs:v"

abbrev pub run_long_opts : List Text
run_long_opts =
    codes "aegis="
    ∷ codes "file="
    ∷ codes "help"
    ∷ codes "no-exec"
    ∷ codes "number="
    ∷ codes "outdir="
    ∷ codes "prefix="
    ∷ codes "python="
    ∷ codes "quiet"
    ∷ codes "scons="
    ∷ codes "svn="
    ∷ codes "subdir="
    ∷ codes "subversion="
    ∷ codes "verbose"
    ∷ []

abbrev pub numbered : List ℕ → List (Option ℕ)
numbered [] = []
numbered (n ∷ numbers) = some n ∷ numbered numbers

-- `elif o in (...)`
unfoldable pub run_option : Text → Text → RunState → Ends RunState
unfolding split_run_numbers same_text
run_option o a (st, numbers) =
    if is_one o (codes "--aegis" ∷ [])
    then go (record st { aegis_project = a }, numbers)
    else (if is_one o (codes "-f" ∷ codes "--file" ∷ [])
        then go (record st { config_file = a }, numbers)
        else (if is_one o (codes "-?" ∷ codes "-h" ∷ codes "--help" ∷ [])
            then helped (codes "run")
            else (if is_one o (codes "-n" ∷ codes "--no-exec" ∷ [])
                then go (record st { executes = false }, numbers)
                else (if is_one o (codes "--number" ∷ [])
                    then ending (split_run_numbers a) >>= (λ ns. go (st, numbered ns))
                    else (if is_one o (codes "--outdir" ∷ [])
                        then go (record st { outdir = some a }, numbers)
                        else (if is_one o (codes "-p" ∷ codes "--prefix" ∷ [])
                            then go (record st { prefix = a }, numbers)
                            else (if is_one o (codes "--python" ∷ [])
                                then go (record st { python = a }, numbers)
                                else (if is_one o (codes "-q" ∷ codes "--quiet" ∷ [])
                                    then go (record st { displays = false }, numbers)
                                    else (if is_one o (codes "-s" ∷ codes "--subdir" ∷ [])
                                        then go (record st { subdir = a }, numbers)
                                        else (if is_one o (codes "--scons" ∷ [])
                                            then go (record st { scons = some a }, numbers)
                                            else (if is_one o
                                                  (codes "--svn" ∷ codes "--subversion" ∷ [])
                                                then go (record st { subversion_url = a }, numbers)
                                                else (if is_one o
                                                      (codes "-v" ∷ codes "--verbose" ∷ [])
                                                    then go (
                                                      record st {
                                                        tees = true;
                                                        verbose = true;
                                                        svn_co_flag = [];
                                                      },
                                                      numbers,
                                                    )
                                                    else go (st, numbers)))))))))))))

-- `if not args and not self.config_file:`
abbrev pub args_or_config : List Text → Text → Ends (Unit {0})
args_or_config [] [] = complained no_archive
args_or_config args file = go tt

-- `if args: self.archive_list = args`
abbrev pub with_archives : List Text → Timer → Timer
with_archives [] st = st
with_archives (a ∷ args) st = record st { archive_list = a ∷ args }

-- `self.archive_list[0]`; a list that no configuration has set is missing.
abbrev pub first_archive : List Text → Ends Text
first_archive [] = failed attribute_error
first_archive (a ∷ archives) = go a

abbrev pub text_or : Text → Text → Text
text_or [] default = default
text_or (c ∷ t) default = c ∷ t

unfoldable pub with_names : Text → Timer → Timer
unfolding archive_splitext basename
with_names archive st = record st {
  subdir = text_or st.subdir (archive_splitext (basename archive)).0;
  prefix = text_or st.prefix (archive_splitext (basename archive)).0;
}

abbrev pub prepare_of : Text → Text → Option Prepare
prepare_of (c ∷ url) project = some prep_subversion_run
prepare_of [] (c ∷ project) = some prep_aegis_run
prepare_of [] [] = none

abbrev pub before : List Event → List Event × Result Timer → List Event × Result Timer
before events (more, end) = (events ++ more, end)

abbrev pub then_runs :
    List Event × Result Timer → (Timer → List Event × Result Timer) → List Event × Result Timer
then_runs (events, ok after) next = before events (next after)
then_runs (events, raise e) next = (events, raise e)
then_runs (events, diverge) next = (events, diverge)

-- The runs one after the other, each with the attributes that the one before has left.
unfoldable pub run_loop :
    World → Option Prepare → List (Option ℕ) → Timer → List Event × Result Timer
unfolding individual_run
run_loop w prepare [] st = ([], ok st)
run_loop w prepare (n ∷ numbers) st =
    then_runs (individual_run w n st.archive_list prepare st) (run_loop w prepare numbers)

unfoldable pub do_run : Files → List Text → Timer → Ends (List Event × Result Timer)
unfolding option_loop run_option with_names run_loop
do_run w argv st = do
  (opts, args) ← ending (w.getopt argv run_short_opts run_long_opts)
  (set, numbers) ← option_loop run_option opts (st, none ∷ [])
  given ← args_or_config args set.config_file
  configured ← with_config w set.config_file set
  archive ← first_archive (with_archives args configured).archive_list
  let now = with_names archive (with_archives args configured)
  go (run_loop w.runs (prepare_of now.subversion_url now.aegis_project) numbers now)

-- What `do_help` prints for an argument, where `help_for` is one of the `help_` methods.
pub data Help : Type 0 where
  of_program of_docstring : Help
  help_for no_help : Text → Help

abbrev pub with_help : List Text
with_help = codes "func" ∷ codes "mem" ∷ codes "obj" ∷ codes "run" ∷ codes "time" ∷ []

abbrev pub help_on : Text → Help
help_on arg =
    if is_one arg with_help
    then help_for arg
    else (if is_one arg (codes "help" ∷ []) then of_docstring else no_help arg)

unfoldable pub do_help : List Text → List Help
unfolding same_text
do_help [] = of_program ∷ []
do_help (arg ∷ args) = map help_on (arg ∷ args)

-- What a subcommand does. An exception that ends a table or a run is a part of its report.
pub data Output : Type 0 where
  nothing_to_do : Output
  help : List Help → Output
  reported : Report → Output
  ran : List Event × Result Timer → Output
  -- A TypeError, which is reported.
  wrong_type : (subcommand : Text) → Output

abbrev pub as_output {ℓ} : {A : Type ℓ} → (A → Output) → Text → Ends A → Ends Output
as_output f name (go a) = go (f a)
as_output f name (helped subcommand) = helped subcommand
as_output f name (complained c) = complained c
as_output f name (failed type_error) = go (wrong_type name)
as_output f name (failed e) = failed e
as_output f name hangs = hangs

-- `execute_subcommand`: `command_alias` is empty.
unfoldable pub execute_subcommand : Files → List Text → Timer → Ends Output
unfolding do_help do_func do_mem do_obj do_time do_run same_text
execute_subcommand w [] st = go nothing_to_do
execute_subcommand w (name ∷ argv) st =
    if same_text name (codes "func")
    then as_output reported name (do_func w argv st)
    else (if same_text name (codes "mem")
        then as_output reported name (do_mem w argv st)
        else (if same_text name (codes "obj")
            then as_output reported name (do_obj w argv st)
            else (if same_text name (codes "time")
                then as_output reported name (do_time w argv st)
                else (if same_text name (codes "run")
                    then as_output ran name (do_run w argv st)
                    else (if same_text name (codes "help")
                        then go (help (do_help argv))
                        else complained (unknown_subcommand name))))))

-- The options of the program itself.
unfoldable pub program_option : Text → Text → Unit {0} → Ends (Unit {0})
unfolding same_text
program_option o a u =
    if is_one o (codes "-?" ∷ codes "-h" ∷ codes "--help" ∷ [])
    then helped []
    else (if is_one o (codes "-V" ∷ codes "--version" ∷ [])
        then helped (codes "version")
        else go tt)

abbrev pub subcommand_or : Files → List Text → Timer → Ends Output
subcommand_or w [] st = complained no_subcommand
subcommand_or w (name ∷ argv) st = execute_subcommand w (name ∷ argv) st

-- The program, from `sys.argv[1:]`.
unfoldable pub scons_time : Files → List Text → Timer → Ends Output
unfolding option_loop program_option execute_subcommand
scons_time w argv st = do
  (opts, args) ← ending (w.getopt argv (codes "h?V") (codes "help" ∷ codes "version" ∷ []))
  program ← option_loop program_option opts tt
  subcommand_or w args st
