-- ===== src/Release.antt =====
-- framework/jsoncpp/makerelease.py: a release of the JSON library. `main` runs commands of svn, the
-- documentation builder, the compiler and sftp one after the other; a run is the list of these steps
-- and what it ends with.
pub mod Commands
pub mod Sftp
pub mod Sources
pub mod Tag
pub mod Platforms
use domq.Prelude.{
  ℕ, ◌==◌, if◌then◌else◌, Bool, true, false, not, ◌&&◌, ◌||◌, Option, none, some, List, [], ◌∷◌,
  ◌++◌, Exception, svn_error, Result, ok, raise, diverge, Text, same_text,
}
use domq.JsonTests.Outcome.{starts_with}

-- The messages of the commits and of what is done to tags.
pub data Note : Type 0 where
  release released : Text → Note
  overwriting failed_testing : Note

-- What `main` makes other programs do, and what it does to files, in the code's words.
pub data Step : Type 0 where
  set_version : Text → Step
  svn_commit : Note → Step
  svn_remove_tag : Text → Note → Step
  svn_tag_sandbox : Text → Note → Step
  build_doc decompress_doc : Step
  svn_export : Text → Step
  fix_export_eol make_source_tarball rmdir_distcheck decompress_source download_scons
        decompress_scons :
      Step
  check_compile : Text → Step
  sourceforge_web_synchro sourceforge_release_tarball : Step

pub data Exit : Type 0 where
  usage_error pending_changes tag_exists tests_failed done : Exit
  failed : Exception → Exit

abbrev pub Run : Type 0
Run = List Step × Exit

pub record Options : Type 0 where
  pub platforms : Text
  pub ignore_pending_commit : Bool
  pub retag_release : Bool
  pub no_test : Bool
  pub no_web : Bool
  pub user : Option Text

-- What `svn list` comes to: a listing, or a return code and what was written.
pub data Listing : Type 0 where
  listed : Listing
  refused : ℕ → Text → Listing

-- The world around `main`: the entries of `svn status` with their status, the listing of the tag,
-- the exception that a step ends with, if it does, and whether the build for a platform succeeds.
pub record Environment : Type 0 where
  pub pending : Result (List (Text × Text))
  pub tag_listing : Listing
  pub fails : Step → Option Exception
  pub compiles : Text → Bool

-- `unversioned` and `version`
abbrev pub version_file : Text
version_file = b'v' ∷ b'e' ∷ b'r' ∷ b's' ∷ b'i' ∷ b'o' ∷ b'n' ∷ []

abbrev pub unversioned : Text
unversioned = b'u' ∷ b'n' ∷ version_file ++ b'e' ∷ b'd' ∷ []

-- The entries that `check_no_pending_commit` has a message for.
unfoldable pub pending_entries : List (Text × Text) → List (Text × Text)
pending_entries [] = []
pending_entries ((path, status) ∷ entries) =
    let rest = pending_entries entries in
    if not (same_text status unversioned) && not (same_text path version_file)
    then (path, status) ∷ rest
    else rest

abbrev pub ends_in_slash : Text → Bool
ends_in_slash [] = false
ends_in_slash (c ∷ []) = c == b'/'
ends_in_slash (c ∷ d ∷ t) = ends_in_slash (d ∷ t)

abbrev pub without_slash : Text → Text
without_slash [] = []
without_slash (c ∷ t) = if c == b'/' then t else c ∷ t

unfoldable pub svn_join_url : Text → Text → Text
svn_join_url base_url suffix =
    (if ends_in_slash base_url then base_url else base_url ++ b'/' ∷ []) ++ without_slash suffix

-- `str(e)`: the text of `SVNError`.
abbrev pub svn_failed : Text → Text
svn_failed stdout =
    b'S' ∷ b'V' ∷ b'N' ∷ 32 ∷ b'c' ∷ b'o' ∷ b'm' ∷ b'm' ∷ b'a' ∷ b'n' ∷ b'd' ∷ 32 ∷ b'f' ∷ b'a'
    ∷ b'i' ∷ b'l' ∷ b'e' ∷ b'd' ∷ b':' ∷ 10 ∷ stdout

abbrev pub tag_url_word : Text
tag_url_word = b't' ∷ b'a' ∷ b'g' ∷ b'_' ∷ b'u' ∷ b'r' ∷ b'l' ∷ []

-- `svn_check_if_tag_exist`. `not str(e).find('tag_url')` holds where the text begins with this word.
unfoldable pub svn_check_if_tag_exist : Listing → Result Bool
unfolding starts_with
svn_check_if_tag_exist listed = ok true
svn_check_if_tag_exist (refused returncode stdout) =
    if not (returncode == 1) || starts_with tag_url_word (svn_failed stdout)
    then raise svn_error
    else ok false

abbrev pub add_to_word : ℕ → List Text → List Text
add_to_word c [] = (c ∷ []) ∷ []
add_to_word c (word ∷ words) = (c ∷ word) ∷ words

-- `options.platforms.split(',')`
unfoldable pub split_commas : Text → List Text
split_commas [] = [] ∷ []
split_commas (c ∷ t) =
    let words = split_commas t in if c == b',' then [] ∷ words else add_to_word c words

abbrev pub is_empty {ℓ} : {A : Type ℓ} → List A → Bool
is_empty [] = true
is_empty (x ∷ l) = false

-- A step, and what comes after it if it raises nothing.
abbrev pub step_or : Option Exception → Step → Run → Run
step_or none s (steps, exit) = (s ∷ steps, exit)
step_or (some e) s rest = (s ∷ [], failed e)

abbrev pub unless_pending : Result (List (Text × Text)) → Run → Run
unless_pending (ok []) rest = rest
unless_pending (ok (e ∷ entries)) rest = ([], pending_changes)
unless_pending (raise e) rest = ([], failed e)
unless_pending diverge rest = ([], failed svn_error)

-- `check_no_pending_commit`
unfoldable pub check_no_pending_commit : Result (List (Text × Text)) → Result (List (Text × Text))
unfolding pending_entries
check_no_pending_commit (ok entries) = ok (pending_entries entries)
check_no_pending_commit (raise e) = raise e
check_no_pending_commit diverge = diverge

module _ (env : Environment) where
  -- A step of a run in the world.
  unfoldable pub step : Step → Run → Run
  step s rest = step_or (env.fails s) s rest

  -- The `for` loop over the platforms, with the two flags that it sets, and what comes after it.
  unfoldable pub platform_loop : List Text → Bool → Bool → (Bool → Bool → Run) → Run
  unfolding step
  platform_loop [] build_status all_build_status rest = rest build_status all_build_status
  platform_loop (platform ∷ platforms) build_status all_build_status rest =
      step (check_compile platform) (
        platform_loop platforms (env.compiles platform) (all_build_status && env.compiles platform)
          rest)

  module _ (options : Options) (release_version next_version tag_url : Text) where
    -- The last part: the uploads, and the next version.
    unfoldable pub set_next : Run
    unfolding step
    set_next =
        step (set_version next_version) (step (svn_commit (released release_version)) ([], done))

    abbrev pub synchro_unless : Bool → Run → Run
    synchro_unless true rest = rest
    synchro_unless false rest = step sourceforge_web_synchro rest

    abbrev pub upload_for : Option Text → Run
    upload_for none = set_next
    upload_for (some []) = set_next
    upload_for (some (c ∷ user)) =
        synchro_unless options.no_web (step sourceforge_release_tarball set_next)

    -- What follows the loop: the flag of the last platform is the one that counts.
    unfoldable pub after_tests : Bool → Bool → Run
    unfolding set_next step
    after_tests build_status all_build_status =
        if not build_status
        then step (svn_remove_tag tag_url failed_testing) ([], tests_failed)
        else upload_for options.user

    unfoldable pub build_release : Run
    unfolding step platform_loop after_tests
    build_release = step (svn_tag_sandbox tag_url (release release_version)) (
        step build_doc (
          step decompress_doc (
            step (svn_export tag_url) (
              step fix_export_eol (
                step make_source_tarball (
                  step rmdir_distcheck (
                    step decompress_source (
                      step download_scons (
                        step decompress_scons (
                          platform_loop (split_commas options.platforms) false true
                            after_tests))))))))))

    abbrev pub with_tag : Result Bool → Run
    with_tag (ok true) =
        if options.retag_release
        then step (svn_remove_tag tag_url overwriting) build_release
        else ([], tag_exists)
    with_tag (ok false) = build_release
    with_tag (raise e) = ([], failed e)
    with_tag diverge = ([], failed svn_error)

    unfoldable pub start_release : Run
    unfolding build_release step
    start_release = step (set_version release_version) (
        step (svn_commit (release release_version))
          (with_tag (svn_check_if_tag_exist env.tag_listing)))

  -- `main`, behind the reading of the command line.
  unfoldable pub main : Options → Text → Text → Text → Run
  unfolding start_release check_no_pending_commit
  main options svn_tag_root release_version next_version =
      if is_empty options.platforms && not options.no_test
      then ([], usage_error)
      else unless_pending
          (if options.ignore_pending_commit then ok [] else check_no_pending_commit env.pending)
          (start_release options release_version next_version
            (svn_join_url svn_tag_root release_version))
