-- ===== src/Runs/Releases.antt =====
-- The theorems at concrete inputs, and tests: the release tool.
use domq.Prelude.{
  ◌≡◌, ◌⊎◌, inl, inr, refl, ℕ, ◌==◌, if◌then◌else◌, Bool, true, false, Option, none, some, List, [],
  ◌∷◌, ◌++◌, map, Result, ok, raise, sftp_error, Text, svn_error, same_text, codes,
}
use domq.JsonTests.Outcome.{basename}
use domq.Release.{Environment, Options, Exit, refused, done, main, svn_commit, release}
use domq.Release.Commands.{Ended, environment_of, build_log}
use domq.Release.Platforms.{with_builds, main-last_platform}
use domq.Release.Sftp.{Attempt, tries, run_sftp_batch, Batch, dir, rm, mput, web_synchro}
use domq.Release.Sftp.Retry.{IsLastTry, run_sftp_batch_lem}

-- A process that fails the first time, and succeeds from then on.
abbrev second_try : ℕ → Attempt
second_try n = record { succeeded = if n == 0 then false else true; stdout = b'o' ∷ b'k' ∷ [] }

run_sftp_batch_lem_example :
    (((second_try 0).succeeded ≡ true)
      × (run_sftp_batch second_try 3 ≡ (ok (second_try 0).stdout, 1)))
    ⊎ (((second_try 0).succeeded ≡ false)
        × (runs : ℕ) × (run_sftp_batch second_try 3 ≡ (raise sftp_error, runs))
        × IsLastTry second_try 0 (tries 3) runs)
run_sftp_batch_lem_example = run_sftp_batch_lem second_try 3

second_try_run : run_sftp_batch second_try 3 ≡ (raise sftp_error, 2)
unfolding run_sftp_batch
second_try_run = refl

-- A listing with the files a and b.
abbrev listing : Text
listing =
    b'>' ∷ 32 ∷ b'd' ∷ b'i' ∷ b'r' ∷ 10 ∷ b'L' ∷ 10 ∷ b'-' ∷ 32 ∷ b'a' ∷ 10 ∷ b'-' ∷ 32 ∷ b'b' ∷ 10
    ∷ b'>' ∷ 32 ∷ b'e' ∷ b'x' ∷ b'i' ∷ b't' ∷ []

abbrev answers : Batch → Text
answers dir = listing
answers (rm paths) = []
answers (mput paths) = []

-- The local files d/b and d/c.
abbrev docs : List Text
docs = (b'd' ∷ b'/' ∷ b'b' ∷ []) ∷ (b'd' ∷ b'/' ∷ b'c' ∷ []) ∷ []

docs_batches :
    web_synchro (λ b. ok (answers b)) docs ≡ ok (dir ∷ rm (codes "a") ∷ mput (codes "b c") ∷ [])
unfolding web_synchro domq.JsonTests.Lines.split_lines domq.JsonTests.Lines.strip
    domq.Prelude.same_text basename
docs_batches = refl

-- A world without failures and without the tag, in which only the builds for m succeed.
abbrev world : Environment
world = record {
  pending = ok [];
  tag_listing = refused 1 [];
  fails = λ s. none;
  compiles = λ p. domq.Prelude.same_text p (b'm' ∷ []);
}

-- The platforms g and m.
abbrev options : Options
options = record {
  platforms = b'g' ∷ b',' ∷ b'm' ∷ [];
  ignore_pending_commit = false;
  retag_release = false;
  no_test = false;
  no_web = false;
  user = some (b'u' ∷ []);
}

abbrev no_tags : Text → Bool
no_tags url = false

main-last_platform_example :
    main world options (b't' ∷ []) (b'1' ∷ []) (b'2' ∷ [])
    ≡ main (with_builds world (λ p. true)) options (b't' ∷ []) (b'1' ∷ []) (b'2' ∷ [])
unfolding domq.Release.split_commas domq.Prelude.same_text
main-last_platform_example =
    main-last_platform world (λ p. true) options (b't' ∷ []) (b'1' ∷ []) (b'2' ∷ []) refl

-- The release is done although the tests have failed on g.
main-done : (main world options (b't' ∷ []) (b'1' ∷ []) (b'2' ∷ [])).1 ≡ done
unfolding main domq.Release.split_commas domq.Prelude.same_text domq.Release.svn_check_if_tag_exist
main-done = refl

-- svn lists no tag, and refuses a commit.
abbrev no_commits : List Text → Ended
no_commits (svn ∷ option ∷ command ∷ args) =
    if same_text command (codes "list")
    then record { returncode = 1; stdout = [] }
    else (if same_text command (codes "ci")
        then record { returncode = 2; stdout = [] }
        else record { returncode = 0; stdout = [] })
no_commits _ = record { returncode = 0; stdout = [] }

abbrev offline : Environment
offline = environment_of no_commits (λ text. ok []) (λ s. none) (codes "python") (codes "t/1")

first_commit : offline.fails (svn_commit (release (codes "1"))) ≡ some svn_error
unfolding environment_of domq.Release.Commands.step_fails domq.Release.Commands.svn_command
    domq.Release.Commands.svn_line same_text
first_commit = refl

not_listed : offline.tag_listing ≡ refused 1 []
unfolding environment_of domq.Release.Commands.list_tag domq.Release.Commands.svn_line same_text
not_listed = refl

log_beside : build_log (codes "dist/x") (codes "gcc") ≡ codes "dist/x/build-gcc.log"
unfolding build_log domq.Strings.join_path
log_beside = refl
