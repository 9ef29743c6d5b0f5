-- ===== src/Doxygen.antt =====
-- framework/jsoncpp/doxybuild.py: the search for programs, the configuration of doxygen and its run,
-- and the steps that build the documentation.
pub mod Programs
use domq.Prelude.{
  ℕ, ◌==◌, if◌then◌else◌, Bool, true, false, not, Option, none, some, List, [], ◌∷◌, ◌++◌, map,
  Exception, io_error, Result, ok, raise, diverge, ◌>>=◌, Text, codes,
}
use domq.JsonTests.Lines.{strip}
use domq.Strings.{split_on, words, join_path}

-- What the scripts use of the machine: whether `sys.platform` names win32, PATH, `os.path` and files.
pub record Machine : Type 0 where
  pub is_windows : Bool
  pub path : Text
  pub pathsep : ℕ
  pub join : Text → Text → Text
  pub is_file : Text → Bool

-- The innermost loop of `find_program`.
unfoldable pub in_directories : Machine → Text → List Text → Option Text
in_directories m name [] = none
in_directories m name (directory ∷ paths) =
    let rest = in_directories m name paths in
    if m.is_file (m.join directory name) then some (m.join directory name) else rest

abbrev pub or_later : Option Text → Option Text → Option Text
or_later none later = later
or_later (some t) later = some t

unfoldable pub with_suffixes : Machine → Text → List Text → List Text → Option Text
unfolding in_directories
with_suffixes m filename paths [] = none
with_suffixes m filename paths (ext ∷ suffixes) =
    or_later (in_directories m (filename ++ ext) paths) (with_suffixes m filename paths suffixes)

unfoldable pub of_filenames : Machine → List Text → List Text → List Text → Option Text
unfolding with_suffixes
of_filenames m suffixes paths [] = none
of_filenames m suffixes paths (filename ∷ filenames) =
    or_later (with_suffixes m filename paths suffixes) (of_filenames m suffixes paths filenames)

abbrev pub windows_endings : Text
windows_endings = codes ".exe .com .bat .cmd"

abbrev pub suffixes : Machine → Text
suffixes m = if m.is_windows then windows_endings else []

abbrev pub text_or_empty : Option Text → Text
text_or_empty none = []
text_or_empty (some t) = t

unfoldable pub find_program : Machine → List Text → Text
unfolding of_filenames split_on words
find_program m filenames =
    text_or_empty (of_filenames m (words (suffixes m)) (split_on m.pathsep m.path) filenames)

-- `v.replace('\\','\\\\')`
abbrev pub double_backslashes : Text → Text
double_backslashes [] = []
double_backslashes (c ∷ t) =
    let rest = double_backslashes t in if c == 92 then c ∷ c ∷ rest else c ∷ rest

-- The loop over `dict.items()`, where `sub` is `re.sub`.
unfoldable pub substituted :
    (Text → Text → Text → Result Text) → List (Text × Text) → Text → Result Text
substituted sub [] contents = ok contents
substituted sub ((k, v) ∷ dict) contents = do
  replaced ← sub k (double_backslashes v) contents
  substituted sub dict replaced

-- `do_subst_in_file`, on a store of files.
unfoldable pub do_subst_in_file :
    (Text → Text → Text → Result Text)
    → (Text → Result Text)
    → (Text → Text → Result (Unit {0}))
    → Text
    → Text
    → List (Text × Text)
    → Result (Unit {0})
unfolding substituted
do_subst_in_file sub read write targetfile sourcefile dict = do
  contents ← read sourcefile
  replaced ← substituted sub dict contents
  write targetfile replaced

-- The processes: `os.chdir`, and what a command ends with, which is its return code.
pub record Processes : Type 0 where
  pub chdir : Text → Option Exception
  pub popen : List Text → Text → Result ℕ

abbrev pub succeeded : Result ℕ → Result Bool
succeeded (ok returncode) = ok (returncode == 0)
succeeded (raise e) = raise e
succeeded diverge = diverge

-- The `finally` block: an exception of its own takes the place of the result.
abbrev pub finally : Option Exception → Text → Text → Result Bool → Result Bool × Text
finally none old_cwd cwd result = (result, old_cwd)
finally (some e) old_cwd cwd result = (raise e, cwd)

abbrev pub in_directory :
    Processes → List Text → Text → Text → Option Exception → Result Bool × Text
in_directory ps cmd old_cwd working_dir none =
    finally (ps.chdir old_cwd) old_cwd working_dir (succeeded (ps.popen cmd working_dir))
in_directory ps cmd old_cwd working_dir (some e) =
    finally (ps.chdir old_cwd) old_cwd old_cwd (raise e)

-- `run_doxygen`: its result, and the current directory behind it. `config_file` is made absolute.
unfoldable pub run_doxygen : Processes → Text → Text → Text → Text → Result Bool × Text
run_doxygen ps doxygen_path config_file working_dir old_cwd =
    in_directory ps (doxygen_path ∷ config_file ∷ []) old_cwd working_dir (ps.chdir working_dir)

pub record Options : Type 0 where
  pub with_dot : Bool
  pub dot_path : Text
  pub doxygen_path : Text
  pub with_html_help : Bool
  pub with_uml_look : Bool
  pub browse : Bool
  pub make_tarball : Bool
  pub silent : Bool

abbrev pub release_options : Bool → Options → Options
release_options false options = options
release_options true options = record options {
  make_tarball = true;
  with_dot = true;
  with_html_help = true;
  with_uml_look = true;
  browse = false;
  silent = true;
}

-- What `build_doc` does, in order.
pub data DocStep : Type 0 where
  make_dirs remove_dir show_log browse_file : Text → DocStep
  subst_in_file : (target source : Text) → List (Text × Text) → DocStep
  doxygen : (program config working_dir : Text) → Bool → DocStep
  tarball : (target : Text) → (sources : List Text) → (base prefix : Text) → DocStep

abbrev pub output_dir : Text
output_dir = codes "dist/doxygen"

abbrev pub html_dirname : Text → Text
html_dirname version = codes "jsoncpp-api-html-" ++ version

abbrev pub tarball_path : Text → Text
tarball_path version = join_path (codes "dist") (html_dirname version ++ codes ".tar.gz")

abbrev pub warning_log_path : Text
warning_log_path = join_path output_dir (codes "../jsoncpp-doxygen-warning.log")

abbrev pub html_output : Text → Text
html_output version = join_path (join_path (codes "..") output_dir) (html_dirname version)

abbrev pub yesno : Bool → Text
yesno b = if b then codes "YES" else codes "NO"

-- `subst_keys`, where `dirname` is the head of `os.path.split`.
abbrev pub subst_keys : (Text → Text) → Text → Text → Options → List (Text × Text)
subst_keys dirname top_dir version options =
    (codes "%JSONCPP_VERSION%", version)
    ∷ (codes "%DOC_TOPDIR%", [])
    ∷ (codes "%TOPDIR%", top_dir)
    ∷ (codes "%HTML_OUTPUT%", html_output version)
    ∷ (codes "%HAVE_DOT%", yesno options.with_dot)
    ∷ (codes "%DOT_PATH%", dirname options.dot_path)
    ∷ (codes "%HTML_HELP%", yesno options.with_html_help)
    ∷ (codes "%UML_LOOK%", yesno options.with_uml_look)
    ∷ (codes "%WARNING_LOG_PATH%", join_path (codes "..") warning_log_path)
    ∷ []

abbrev pub step_if : Bool → DocStep → List DocStep → List DocStep
step_if true step steps = step ∷ steps
step_if false step steps = steps

-- The steps of `build_doc`, for the text of the file `version`, and what it returns. The directory is
-- removed and made again; what `run_doxygen` returns is not used.
unfoldable pub build_doc :
    (Text → Text) → (Text → Text) → Bool → Text → Options → Bool → List DocStep × Text × Text
unfolding strip join_path
build_doc dirname abspath is_dir version_text given make_release =
    let options = release_options make_release given in
    let version = strip version_text in
    (
      step_if (not is_dir) (make_dirs output_dir) (
          remove_dir output_dir
          ∷ make_dirs output_dir
          ∷ subst_in_file (codes "doc/doxyfile") (codes "doc/doxyfile.in")
              (subst_keys dirname (abspath (codes ".")) version options)
          ∷ doxygen options.doxygen_path (codes "doc/doxyfile") (codes "doc") options.silent
          ∷ step_if (not options.silent) (show_log warning_log_path) (
              step_if options.browse
                (browse_file (abspath (join_path (html_output version) (codes "index.html"))))
                (step_if options.make_tarball
                  (tarball (tarball_path version)
                    (output_dir ∷ codes "README.txt" ∷ codes "version" ∷ [])
                    (join_path output_dir (html_dirname version)) (html_dirname version))
                  []))),
      tarball_path version,
      html_dirname version,
    )
