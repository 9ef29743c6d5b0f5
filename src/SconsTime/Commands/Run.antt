-- ===== src/SconsTime/Commands/Run.antt =====
-- `individual_run` and what it calls: the commands that build and time one version of the tool.
use domq.Prelude.{
  ℕ, suc, ◌==◌, if◌then◌else◌, Bool, true, false, Option, none, some, List, [], ◌∷◌, ◌++◌,
  Exception, Result, ok, raise, diverge, ◌>>=◌, Text, codes, same_text,
}
use domq.JsonTests.Outcome.{basename}
use domq.Strings.{str, padded, splitext, join_path}
use domq.SconsTime.Names.{
  prefix_run, archive_splitext, logfile_name, profile_name, find_next_run_number,
}
use domq.SconsTime.Commands.{
  Action, rmtree, chdir, copytree, copyfile, untar, unzip_archive, read_tree, set_env, chdir_tmpdir,
  Command, shell, call, logged, Timer, Event, Steps, run_command_list,
}

-- The world around a run: the directories, what `os.listdir` returns, the names of temporary files
-- for a prefix, whether PRESERVE is set, and which events fail.
pub record World : Type 0 where
  pub is_dir : Text → Bool
  pub listdir : Text → Result (List Text)
  pub make_temp_file : Text → Text
  pub preserve : Bool
  pub fails : Event → Option Exception

abbrev pub is_abs : Text → Bool
is_abs [] = false
is_abs (c ∷ path) = c == b'/'

unfoldable pub scons_path : Text → Text
unfolding join_path
scons_path dir =
    join_path (join_path (join_path dir (codes "src")) (codes "script")) (codes "scons.py")

unfoldable pub scons_lib_dir_path : Text → Text
unfolding join_path
scons_lib_dir_path dir = join_path (join_path dir (codes "src")) (codes "engine")

-- The two functions that fetch the tool before a run.
pub data Prepare : Type 0 where
  prep_aegis_run prep_subversion_run : Prepare

-- The timer, the commands and the removals.
abbrev pub Prepared : Type 0
Prepared = Timer × List Command × List Command

abbrev pub remove_tree : Text → Command
remove_tree dir = call rmtree (codes "rm -rf %%s") (dir ∷ [])

unfoldable pub prepare_aegis : World → Timer → Prepared
unfolding scons_path scons_lib_dir_path splitext
prepare_aegis w st =
    let dir = w.make_temp_file (codes "scons-time-aegis-") in
    (
      record st {
        aegis_tmpdir = some dir;
        aegis_parent_project = some (splitext st.aegis_project).0;
        scons = some (scons_path dir);
        scons_lib_dir = some (scons_lib_dir_path dir);
      },
      shell (codes "mkdir %(aegis_tmpdir)s")
          ∷ call chdir_tmpdir (codes "cd %(aegis_tmpdir)s") []
          ∷ shell (codes "%(aegis)s -cp -ind -p %(aegis_parent_project)s .")
          ∷ shell (codes "%(aegis)s -cp -ind -p %(aegis_project)s -delta %(run_number)s .")
          ∷ [],
      remove_tree dir ∷ [],
    )

unfoldable pub prepare_subversion : World → Timer → Prepared
unfolding scons_path scons_lib_dir_path
prepare_subversion w st =
    let dir = w.make_temp_file (codes "scons-time-svn-") in
    (
      record st {
        svn_tmpdir = some dir;
        scons = some (scons_path dir);
        scons_lib_dir = some (scons_lib_dir_path dir);
      },
      shell (codes "mkdir %(svn_tmpdir)s")
          ∷ shell (
              codes
                "%(svn)s co %(svn_co_flag)s -r %(run_number)s %(subversion_url)s %(svn_tmpdir)s")
          ∷ [],
      remove_tree dir ∷ [],
    )

unfoldable pub prepared : World → Option Prepare → Timer → Prepared
unfolding prepare_aegis prepare_subversion
prepared w none st = (st, [], [])
prepared w (some prep_aegis_run) st = prepare_aegis w st
prepared w (some prep_subversion_run) st = prepare_subversion w st

abbrev pub or_else : Option Text → Text → Text
or_else none t = t
or_else (some s) t = s

-- `self.outdir`, made absolute.
abbrev pub absolute : Text → Option Text → Text
absolute cwd none = cwd
absolute cwd (some dir) = if is_abs dir then dir else join_path cwd dir

-- The attributes that are computed where they are None.
unfoldable pub with_defaults : Timer → Timer
unfolding scons_path scons_lib_dir_path join_path
with_defaults st =
    let scons = or_else st.scons (scons_path st.orig_cwd) in
    record st {
      outdir = some (absolute st.orig_cwd st.outdir);
      scons = some scons;
      scons_lib_dir = some (or_else st.scons_lib_dir (scons_lib_dir_path st.orig_cwd));
      scons_wrapper = some (or_else st.scons_wrapper scons);
    }

-- `if not run_number:`
abbrev pub run_number_or_next : World → Text → Text → Option ℕ → Result ℕ
run_number_or_next w dir prefix (some (suc n)) = ok (suc n)
run_number_or_next w dir prefix _ = do names ← w.listdir dir; find_next_run_number prefix names

-- `os.path.split(archive)[1]`, and the commands that fetch an archive.
abbrev pub unpack_map : Text → Option (Action × Text)
unpack_map suffix =
    if same_text suffix (codes ".tar.gz")
    then some (untar, codes "%(tar)s xzf %%s")
    else (if same_text suffix (codes ".tgz")
        then some (untar, codes "%(tar)s xzf %%s")
        else (if same_text suffix (codes ".tar")
            then some (untar, codes "%(tar)s xf %%s")
            else (if same_text suffix (codes ".zip")
                then some (unzip_archive, codes "%(unzip)s %%s")
                else none)))

abbrev pub unpack_or_copy : Text → Option (Action × Text) → Command
unpack_or_copy archive none = call copyfile (codes "cp %%s %%s") (archive ∷ basename archive ∷ [])
unpack_or_copy archive (some (action, string)) = call action string (archive ∷ [])

unfoldable pub archive_command : World → Text → Text → Command
unfolding basename archive_splitext join_path same_text
archive_command w cwd archive =
    let path = if is_abs archive then archive else join_path cwd archive in
    if w.is_dir path
    then call copytree (codes "cp -r %%s %%s") (path ∷ basename path ∷ [])
    else unpack_or_copy path (unpack_map (archive_splitext path).1)

abbrev pub archive_commands : World → Text → List Text → List Command
archive_commands w cwd [] = []
archive_commands w cwd (a ∷ archives) = archive_command w cwd a ∷ archive_commands w cwd archives

-- `run_commands`, of which each times one invocation.
abbrev pub timed : Text → Text → Text
timed prof targets =
    codes "%(python)s %(scons_wrapper)s %(scons_flags)s --profile=%("
    ++ prof
    ++ codes ")s %("
    ++ targets
    ++ codes ")s"

abbrev pub run_command_texts : List Text
run_command_texts =
    timed (codes "prof0") (codes "targets0")
    ∷ timed (codes "prof1") (codes "targets1")
    ∷ timed (codes "prof2") (codes "targets2")
    ∷ []

abbrev pub log_commands : Text → Text → ℕ → List Text → List Command
log_commands dir name index [] = []
log_commands dir name index (c ∷ texts) =
    logged c (logfile_name dir name index) ∷ log_commands dir name (suc index) texts

abbrev pub profile_names : Text → Text → ℕ → List Text → List (Text × Text)
profile_names dir name index [] = []
profile_names dir name index (c ∷ texts) =
    (codes "prof" ++ str index, profile_name dir name index)
    ∷ profile_names dir name (suc index) texts

-- The attributes of a run.
unfoldable pub with_run : World → ℕ → Timer → Timer
unfolding profile_name str padded
with_run w run st =
    let name = prefix_run st.prefix run in
    record st {
      run_number = some (str run);
      prefix_run = some name;
      targets0 = some (or_else st.targets0 st.startup_targets);
      targets1 = some (or_else st.targets1 st.targets);
      targets2 = some (or_else st.targets2 st.targets);
      tmpdir = some (w.make_temp_file (codes "scons-time-"));
      profiles = profile_names (or_else st.outdir []) name 0 run_command_texts;
    }

abbrev pub removals_unless : Bool → List Command → List Command
removals_unless true removals = []
removals_unless false removals = removals

-- All commands of a run.
unfoldable pub commands_of : World → List Text → List Command → List Command → Timer → List Command
unfolding logfile_name archive_command
commands_of w archives first removals st =
    first
    ++ (shell (codes "mkdir %(tmpdir)s")
          ∷ call chdir (codes "cd %%s") (or_else st.tmpdir [] ∷ [])
          ∷ archive_commands w st.orig_cwd archives
        ++ (call chdir (codes "cd %%s") (st.subdir ∷ []) ∷ st.initial_commands
            ++ (call read_tree (codes "find * -type f | xargs cat > /dev/null") []
                  ∷ call set_env (codes "export %%s=%%s")
                      (codes "SCONS_LIB_DIR" ∷ or_else st.scons_lib_dir [] ∷ [])
                  ∷ shell (codes "%(python)s %(scons_wrapper)s --version")
                  ∷ log_commands (or_else st.outdir []) (or_else st.prefix_run []) 0
                      run_command_texts
                ++ (call chdir (codes "cd %%s") (st.orig_cwd ∷ [])
                    ∷ removals_unless w.preserve
                        (removals ++ remove_tree (or_else st.tmpdir []) ∷ [])))))

-- The three attributes that are set back at the end.
abbrev pub restored : Timer → Timer → Timer
restored before st = record st {
  scons = before.scons;
  scons_lib_dir = before.scons_lib_dir;
  scons_wrapper = before.scons_wrapper;
}

abbrev pub ended : Timer → Steps → List Event × Result Timer
ended st (events, ok t) = (events, ok st)
ended st (events, raise e) = (events, raise e)
ended st (events, diverge) = (events, diverge)

abbrev pub run_numbered : World → List Text → Prepared → Result ℕ → List Event × Result Timer
run_numbered w archives (st, first, removals) (ok run) =
    let now = with_run w run (with_defaults st) in
    ended (restored st now)
      (run_command_list w.fails now (commands_of w archives first removals now))
run_numbered w archives p (raise e) = ([], raise e)
run_numbered w archives p diverge = ([], diverge)

unfoldable pub individual_run :
    World → Option ℕ → List Text → Option Prepare → Timer → List Event × Result Timer
unfolding prepared with_defaults with_run commands_of run_command_list find_next_run_number
individual_run w run_number archives prepare st =
    let p = prepared w prepare st in
    let now = with_defaults p.0 in
    run_numbered w archives p (run_number_or_next w (or_else now.outdir []) now.prefix run_number)
