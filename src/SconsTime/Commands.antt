-- ===== src/SconsTime/Commands.antt =====
-- `SconsTimer`: how commands are written with the timer's attributes, shown and executed. A run is the
-- list of what is shown and done, and what it ends with.
pub mod Run
pub mod Order
pub mod CleanUp
use domq.Prelude.{
  ℕ, zero, suc, ◌+◌, ◌==◌, if◌then◌else◌, Bool, true, false, Option, none, some, List, [], ◌∷◌,
  ◌++◌, Exception, key_error, value_error, type_error, Result, ok, raise, diverge, ◌>>=◌, Text,
  codes, same_text,
}
use domq.Strings.Percent.{subst, format}
use domq.SconsTime.Results.{BarTuple}

-- The functions that commands call. `chdir_tmpdir` is the `lambda` that changes into
-- `self.aegis_tmpdir`.
pub data Action : Type 0 where
  rmtree chdir copytree copyfile untar unzip_archive read_tree set_env chdir_tmpdir : Action

-- A command: a text for the shell, a call with the text that shows it and its arguments, or a call of
-- `log_execute` that `log_display` shows.
pub data Command : Type 0 where
  shell : Text → Command
  call : Action → Text → List Text → Command
  logged : (run_command log : Text) → Command

-- The attributes. An attribute that is None or missing is `none`; where the code only asks whether a
-- text is empty, None is the empty text.
pub record Timer : Type 0 where
  pub aegis : Text
  pub aegis_project : Text
  pub chdir_to : Text
  pub config_file : Text
  pub initial_commands : List Command
  pub key_location : Text
  pub orig_cwd : Text
  pub outdir : Option Text
  pub prefix : Text
  pub python : Text
  pub scons : Option Text
  pub scons_flags : Text
  pub scons_lib_dir : Option Text
  pub scons_wrapper : Option Text
  pub startup_targets : Text
  pub subdir : Text
  pub subversion_url : Text
  pub svn : Text
  pub svn_co_flag : Text
  pub tar : Text
  pub targets : Text
  pub targets0 : Option Text
  pub targets1 : Option Text
  pub targets2 : Option Text
  pub title : Option Text
  pub unzip : Text
  pub verbose : Bool
  pub vertical_bars : List BarTuple
  pub archive_list : List Text
  pub tees : Bool
  pub displays : Bool
  pub executes : Bool
  pub run_number : Option Text
  pub prefix_run : Option Text
  pub tmpdir : Option Text
  pub aegis_tmpdir : Option Text
  pub aegis_parent_project : Option Text
  pub svn_tmpdir : Option Text
  pub profiles : List (Text × Text)

-- `self.__dict__`: the texts that commands may name. An attribute that is None is there with the text
-- of None; one that a run sets is missing before.
abbrev pub entry : Text → Option Text → List (Text × Text)
entry name none = []
entry name (some t) = (name, t) ∷ []

abbrev pub or_none : Option Text → Text
or_none none = codes "None"
or_none (some t) = t

abbrev pub settings_texts : Timer → List (Text × Text)
settings_texts st =
    (codes "python", st.python)
    ∷ (codes "scons_flags", st.scons_flags)
    ∷ (codes "tar", st.tar)
    ∷ (codes "unzip", st.unzip)
    ∷ (codes "svn", st.svn)
    ∷ (codes "svn_co_flag", st.svn_co_flag)
    ∷ (codes "subversion_url", st.subversion_url)
    ∷ (codes "aegis", st.aegis)
    ∷ (codes "aegis_project", st.aegis_project)
    ∷ (codes "prefix", st.prefix)
    ∷ (codes "subdir", st.subdir)
    ∷ (codes "chdir", st.chdir_to)
    ∷ (codes "config_file", st.config_file)
    ∷ (codes "key_location", st.key_location)
    ∷ (codes "orig_cwd", st.orig_cwd)
    ∷ (codes "startup_targets", st.startup_targets)
    ∷ (codes "targets", st.targets)
    ∷ (codes "scons_wrapper", or_none st.scons_wrapper)
    ∷ (codes "scons", or_none st.scons)
    ∷ (codes "scons_lib_dir", or_none st.scons_lib_dir)
    ∷ (codes "targets0", or_none st.targets0)
    ∷ (codes "targets1", or_none st.targets1)
    ∷ (codes "targets2", or_none st.targets2)
    ∷ (codes "title", or_none st.title)
    ∷ (codes "outdir", or_none st.outdir)
    ∷ []

abbrev pub attributes : Timer → List (Text × Text)
attributes st =
    st.profiles
    ++ (settings_texts st
        ++ (entry (codes "run_number") st.run_number
            ++ (entry (codes "prefix_run") st.prefix_run
                ++ (entry (codes "tmpdir") st.tmpdir
                    ++ (entry (codes "aegis_tmpdir") st.aegis_tmpdir
                        ++ (entry (codes "aegis_parent_project") st.aegis_parent_project
                            ++ entry (codes "svn_tmpdir") st.svn_tmpdir))))))

-- `subst_variables`. A call's arguments stay as they are.
unfoldable pub subst_variables : List (Text × Text) → Command → Result Command
unfolding subst
subst_variables dictionary (shell command) = do text ← subst command dictionary; ok (shell text)
subst_variables dictionary (call action string args) = do
  text ← subst string dictionary
  ok (call action text args)
subst_variables dictionary (logged run_command log) = ok (logged run_command log)

unfoldable pub subst_all : List (Text × Text) → List Command → Result (List Command)
unfolding subst_variables
subst_all dictionary [] = ok []
subst_all dictionary (c ∷ commands) = do
  first ← subst_variables dictionary c
  rest ← subst_all dictionary commands
  ok (first ∷ rest)

-- What is shown and done. The output of a command of `popen` is written to the log.
pub data Event : Type 0 where
  shown system : Text → Event
  called : Action → List Text → Event
  popen : (command log : Text) → Event

-- A step of the program: its events, and what it ends with.
abbrev pub Steps : Type 0
Steps = List Event × Result (Unit {0})

-- `self.redirect( command, log )`
abbrev pub redirect_to_file : Text → Text → Text
redirect_to_file command log = command ++ codes " > " ++ log ++ codes " 2>&1"

abbrev pub tee_to_file : Text → Text → Text
tee_to_file command log = command ++ codes " 2>&1 | tee " ++ log

abbrev pub redirect : Timer → Text → Text → Text
redirect st command log = if st.tees then tee_to_file command log else redirect_to_file command log

-- `if log:`
abbrev pub redirected : Timer → Text → Text → Text
redirected st command [] = command
redirected st command (c ∷ log) = redirect st command (c ∷ log)

unfoldable pub log_display : Timer → Text → Text → Result Text
unfolding subst
log_display st command log = do text ← subst command (attributes st); ok (redirected st text log)

-- `display`, without the name and the time before the message.
abbrev pub message : Timer → Command → Result Text
message st (shell command) = format false [] command
message st (call action string args) = format false args string
message st (logged run_command log) = log_display st run_command log

-- An event that may fail, as the world has it.
abbrev pub attempt : (Event → Option Exception) → Event → Option Exception → Steps
attempt fails event none = (event ∷ [], ok tt)
attempt fails event (some e) = (event ∷ [], raise e)

abbrev pub done_as : (Event → Option Exception) → Result Event → Steps
done_as fails (ok event) = attempt fails event (fails event)
done_as fails (raise e) = ([], raise e)
done_as fails diverge = ([], diverge)

abbrev pub effect : Timer → Command → Result Event
effect st (shell command) = do text ← format false [] command; ok (system text)
effect st (call action string args) = ok (called action args)
effect st (logged run_command log) = do
  text ← subst run_command (attributes st)
  ok (popen text log)

abbrev pub shown_event : Result Text → Result Event
shown_event text = do t ← text; ok (shown t)

unfoldable pub display : Timer → Command → Steps
unfolding log_display format
display st command =
    if st.displays then done_as (λ e. none) (shown_event (message st command)) else ([], ok tt)

-- `execute`, of which the result is None, whatever status the shell ends with. The world tells which
-- events fail with an exception.
unfoldable pub execute : (Event → Option Exception) → Timer → Command → Steps
unfolding subst format
execute fails st command = if st.executes then done_as fails (effect st command) else ([], ok tt)

-- One after the other, until one fails.
abbrev pub then_steps : Steps → Steps → Steps
then_steps (events, ok t) (more, ending) = (events ++ more, ending)
then_steps (events, raise e) rest = (events, raise e)
then_steps (events, diverge) rest = (events, diverge)

unfoldable pub run_commands : (Event → Option Exception) → Timer → List Command → Steps
unfolding display execute
run_commands fails st [] = ([], ok tt)
run_commands fails st (c ∷ commands) =
    then_steps (display st c) (then_steps (execute fails st c) (run_commands fails st commands))

abbrev pub run_substituted : (Event → Option Exception) → Timer → Result (List Command) → Steps
run_substituted fails st (ok commands) = run_commands fails st commands
run_substituted fails st (raise e) = ([], raise e)
run_substituted fails st diverge = ([], diverge)

-- `run_command_list( commands, self.__dict__ )`
unfoldable pub run_command_list : (Event → Option Exception) → Timer → List Command → Steps
unfolding run_commands subst_all
run_command_list fails st commands = run_substituted fails st (subst_all (attributes st) commands)
