-- ===== src/Release/Commands.antt =====
-- The commands behind the steps of `main`: svn and the compiler are processes, of which a run says
-- what they come to. The world in which `main` takes its steps is the one that these commands make.
use domq.Prelude.{
  ℕ, ◌==◌, if◌then◌else◌, Bool, Option, none, some, List, [], ◌∷◌, ◌++◌, Exception, svn_error,
  Result, ok, raise, diverge, ◌>>=◌, Text, codes,
}
use domq.Strings.{join_path}
use domq.JsonTests.Lines.{strip}
use domq.Release.{
  Note, release, released, overwriting, failed_testing, Step, svn_commit, svn_remove_tag,
  svn_tag_sandbox, svn_export, Listing, listed, refused, Environment,
}

-- What `set_version` writes to the file `version`.
unfoldable pub version_text : Text → Text
unfolding strip
version_text version = strip version

-- A process that has ended: its return code and what it has written.
pub record Ended : Type 0 where
  pub returncode : ℕ
  pub stdout : Text

-- `[ 'svn', '--non-interactive', command ] + list(args)`
unfoldable pub svn_line : Text → List Text → List Text
svn_line command args = codes "svn" ∷ codes "--non-interactive" ∷ command ∷ args

-- The text of a message of `main`.
abbrev pub note_text : Note → Text
note_text (release version) = codes "Release " ++ version
note_text (released version) = codes "Released " ++ version
note_text overwriting = codes "Overwriting previous tag"
note_text failed_testing = codes "Removing tag due to failed testing"

-- `check_compile`: its command, and its log.
unfoldable pub check_compile_line : (executable platform : Text) → List Text
check_compile_line executable platform =
    executable ∷ codes "scons.py" ∷ (codes "platform=" ++ platform) ∷ codes "check" ∷ []

unfoldable pub build_log : (distcheck_top_dir platform : Text) → Text
unfolding join_path
build_log distcheck_top_dir platform =
    join_path distcheck_top_dir (codes "build-" ++ (platform ++ codes ".log"))

module _ (run : List Text → Ended) where
  -- `svn_command`
  unfoldable pub svn_command : Text → List Text → Result Text
  unfolding svn_line
  svn_command command args =
      let process = run (svn_line command args) in
      if process.returncode == 0 then ok process.stdout else raise svn_error

  abbrev pub failure : Result Text → Option Exception
  failure (ok stdout) = none
  failure (raise e) = some e
  failure diverge = some svn_error

  -- `svn_commit`, `svn_tag_sandbox`, `svn_remove_tag` and `svn_export`, whose directory is removed
  -- before if it exists. The other steps are no commands of svn; `other` says which of them fail.
  unfoldable pub step_fails : (Step → Option Exception) → Step → Option Exception
  unfolding svn_command
  step_fails other (svn_commit message) =
      failure (svn_command (codes "ci") (codes "-m" ∷ note_text message ∷ []))
  step_fails other (svn_tag_sandbox tag_url message) =
      failure
        (svn_command (codes "copy") (codes "-m" ∷ note_text message ∷ codes "." ∷ tag_url ∷ []))
  step_fails other (svn_remove_tag tag_url message) =
      failure (svn_command (codes "delete") (codes "-m" ∷ note_text message ∷ tag_url ∷ []))
  step_fails other (svn_export tag_url) =
      failure (svn_command (codes "export") (tag_url ∷ codes "dist/export" ∷ []))
  step_fails other s = other s

  -- `svn_command( 'list', tag_url )` as `svn_check_if_tag_exist` sees it.
  unfoldable pub list_tag : Text → Listing
  unfolding svn_line
  list_tag tag_url =
      let process = run (svn_line (codes "list") (tag_url ∷ [])) in
      if process.returncode == 0 then listed else refused process.returncode process.stdout

  -- The entries in the output of `svn status`, as the XML library reads them.
  unfoldable pub status_entries : (Text → Result (List (Text × Text))) → Result (List (Text × Text))
  unfolding svn_command
  status_entries from_string = do
    stdout ← svn_command (codes "status") (codes "--xml" ∷ [])
    from_string stdout

  -- `status = (process.returncode == 0)`
  unfoldable pub compile_status : (executable platform : Text) → Bool
  unfolding check_compile_line
  compile_status executable platform =
      let process = run (check_compile_line executable platform) in process.returncode == 0

  -- The world of these commands, for one tag.
  unfoldable pub environment_of :
      (Text → Result (List (Text × Text)))
      → (Step → Option Exception)
      → (executable tag_url : Text) → Environment
  unfolding step_fails list_tag status_entries compile_status
  environment_of from_string other executable tag_url = record {
    pending = status_entries from_string;
    tag_listing = list_tag tag_url;
    fails = step_fails other;
    compiles = compile_status executable;
  }
