-- ===== src/SconsTime/Subcommands/NoExec.antt =====
-- Runs that are only shown: `do_run` with the option `--no-exec`.
use domq.Prelude.{
  All-append, none, ℕ, false, Option, List, [], ◌∷◌, ◌++◌, All, Result, ok, raise, diverge, ◌≡◌,
  refl, ◌∙◌, Text,
}
use domq.SconsTime.Commands.{Timer, Event}
use domq.SconsTime.Commands.Run.{World, Prepare, individual_run}
use domq.SconsTime.Commands.Order.{IsShown, individual_run-IsShown}
use domq.SconsTime.World.{Files}
use domq.SconsTime.Options.{
  Ends, go, complained, helped, failed, hangs, ◌>>=◌, RunState, option_loop, with_config,
}
use domq.SconsTime.Subcommands.Dispatch.{
  before, then_runs, run_loop, run_short_opts, run_long_opts, run_option, args_or_config,
  with_archives, first_archive, with_names, prepare_of, do_run,
}
use domq.SconsTime.Subcommands.Quiet.{
  OnGo, OnGo-bind, OnGo-any, OnGo-ending, IsQuiet, IsNoExec, option_loop-no_exec,
}

before-IsShown :
    (events : List Event) (more : List Event × Result Timer)
    → All IsShown events
    → All IsShown more.0
    → All IsShown (before events more).0
before-IsShown events (more, end) h k = All-append IsShown events more h k

then_runs-IsShown :
    (first : List Event × Result Timer) (next : Timer → List Event × Result Timer)
    → All IsShown first.0
    → ((after : Timer) → first.1 ≡ ok after → All IsShown (next after).0)
    → All IsShown (then_runs first next).0
then_runs-IsShown (events, ok after) next h k = before-IsShown events (next after) h (k after refl)
then_runs-IsShown (events, raise e) next h k = h
then_runs-IsShown (events, diverge) next h k = h

-- Runs that start without `execute` keep to showing.
run_loop-IsShown :
    (w : World) (prepare : Option Prepare) (numbers : List (Option ℕ)) (st : Timer)
    → st.executes ≡ false
    → All IsShown (run_loop w prepare numbers st).0
unfolding run_loop
run_loop-IsShown w prepare [] st h = tt
run_loop-IsShown w prepare (n ∷ numbers) st h =
    let (shows, stays) = individual_run-IsShown w n st.archive_list prepare st h in
    then_runs-IsShown (individual_run w n st.archive_list prepare st) (run_loop w prepare numbers)
      shows (λ after e. run_loop-IsShown w prepare numbers after (stays after e))

-- The events of a subcommand; without runs there are none.
abbrev pub events_of : Ends (List Event × Result Timer) → List Event
events_of (go (events, end)) = events
events_of (helped subcommand) = []
events_of (complained c) = []
events_of (failed e) = []
events_of hangs = []

events_of-IsShown :
    (e : Ends (List Event × Result Timer))
    → OnGo (λ ran. All IsShown ran.0) e
    → All IsShown (events_of e)
events_of-IsShown (go (events, end)) h = h
events_of-IsShown (helped subcommand) h = tt
events_of-IsShown (complained c) h = tt
events_of-IsShown (failed e) h = tt
events_of-IsShown hangs h = tt

with_config-IsQuiet :
    (w : Files) (file : Text) (st : Timer)
    → ((config : Text) (now after : Timer)
        → w.exec_config config now ≡ ok after
        → after.executes ≡ now.executes)
    → st.executes ≡ false
    → OnGo (λ after. after.executes ≡ false) (with_config w file st)
with_config-IsQuiet w [] st keeps h = h
with_config-IsQuiet w (c ∷ file) st keeps h =
    OnGo-ending (λ after. after.executes ≡ false) (w.exec_config (c ∷ file) st)
      (λ after e. keeps (c ∷ file) st after e ∙ h)

with_archives-executes :
    (args : List Text) (st : Timer) → (with_archives args st).executes ≡ st.executes
with_archives-executes [] st = refl
with_archives-executes (a ∷ args) st = refl

-- The runs of `do_run`, once the options are read.
configured-IsShown :
    (w : Files) (args : List Text) (numbers : List (Option ℕ)) (configured : Timer)
    → configured.executes ≡ false
    → OnGo
        (λ ran. All IsShown ran.0)
        (do
          archive ← first_archive (with_archives args configured).archive_list
          let now = with_names archive (with_archives args configured)
          go (run_loop w.runs (prepare_of now.subversion_url now.aegis_project) numbers now))
unfolding with_names
configured-IsShown w args numbers configured h =
    let first = first_archive (with_archives args configured).archive_list in
    OnGo-bind (λ archive. Unit {0}) (λ ran. All IsShown ran.0) first
      (λ archive.
        let now = with_names archive (with_archives args configured) in
        go (run_loop w.runs (prepare_of now.subversion_url now.aegis_project) numbers now))
      (OnGo-any first)
      (λ archive u.
        let now = with_names archive (with_archives args configured) in
        run_loop-IsShown w.runs (prepare_of now.subversion_url now.aegis_project) numbers now
          (with_archives-executes args configured ∙ h))

-- The rest of `do_run`, once the options are read.
after_options-IsShown :
    (w : Files) (args : List Text) (s : RunState)
    → IsQuiet s
    → ((config : Text) (now after : Timer)
        → w.exec_config config now ≡ ok after
        → after.executes ≡ now.executes)
    → OnGo
        (λ ran. All IsShown ran.0)
        (do
          given ← args_or_config args s.0.config_file
          configured ← with_config w s.0.config_file s.0
          archive ← first_archive (with_archives args configured).archive_list
          let now = with_names archive (with_archives args configured)
          go (run_loop w.runs (prepare_of now.subversion_url now.aegis_project) s.1 now))
after_options-IsShown w args s quiet keeps =
    OnGo-bind (λ given. Unit {0}) (λ ran. All IsShown ran.0) (args_or_config args s.0.config_file)
      (λ given. do
        configured ← with_config w s.0.config_file s.0
        archive ← first_archive (with_archives args configured).archive_list
        let now = with_names archive (with_archives args configured)
        go (run_loop w.runs (prepare_of now.subversion_url now.aegis_project) s.1 now))
      (OnGo-any (args_or_config args s.0.config_file))
      (λ given u.
        OnGo-bind (λ configured. configured.executes ≡ false) (λ ran. All IsShown ran.0)
          (with_config w s.0.config_file s.0)
          (λ configured. do
            archive ← first_archive (with_archives args configured).archive_list
            let now = with_names archive (with_archives args configured)
            go (run_loop w.runs (prepare_of now.subversion_url now.aegis_project) s.1 now))
          (with_config-IsQuiet w s.0.config_file s.0 keeps quiet) (configured-IsShown w args s.1))

-- With `-n` or `--no-exec` among the options of `do_run`, whatever stands before and after it,
-- whatever the archives are, whatever commands the configuration adds and however many runs there
-- are, nothing is executed: all that happens is that commands are shown. A configuration file, which
-- is Python code, is assumed to leave `self.execute` as it is.
pub do_run-IsShown :
    (w : Files) (argv : List Text) (st : Timer) (first : List (Text × Text)) (o a : Text)
    (rest : List (Text × Text)) (args : List Text)
    → w.getopt argv run_short_opts run_long_opts ≡ ok (first ++ (o, a) ∷ rest, args)
    → IsNoExec o
    → ((config : Text) (now after : Timer)
        → w.exec_config config now ≡ ok after
        → after.executes ≡ now.executes)
    → All IsShown (events_of (do_run w argv st))
unfolding do_run
do_run-IsShown w argv st first o a rest args got no_exec keeps =
    events_of-IsShown (do_run w argv st) (
      rw (got) (
        OnGo-bind IsQuiet (λ ran. All IsShown ran.0)
          (option_loop run_option (first ++ (o, a) ∷ rest) (st, none ∷ []))
          (λ s. do
            given ← args_or_config args s.0.config_file
            configured ← with_config w s.0.config_file s.0
            archive ← first_archive (with_archives args configured).archive_list
            let now = with_names archive (with_archives args configured)
            go (run_loop w.runs (prepare_of now.subversion_url now.aegis_project) s.1 now))
          (option_loop-no_exec first o a rest (st, none ∷ []) no_exec)
          (λ s quiet. after_options-IsShown w args s quiet keeps)))
