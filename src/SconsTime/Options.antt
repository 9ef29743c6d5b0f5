-- ===== src/SconsTime/Options.antt =====
-- The options of the subcommands of `SConsTimer`, and the files that they are about.
use domq.Prelude.{
  ℕ, Bool, false, ◌||◌, if◌then◌else◌, Option, some, List, [], ◌∷◌, ◌++◌, Exception, Result, ok,
  raise, diverge, Text, codes, same_text,
}
use domq.JsonTests.Outcome.{ℤ}
use domq.Strings.{int}
use domq.SconsTime.Results.{args_to_files}
use domq.SconsTime.Commands.{Timer}
use domq.SconsTime.World.{Files}

-- What is written to `sys.stderr` before `sys.exit( 1 )`.
pub data Complaint : Type 0 where
  unrecognized_stage unrecognized_timer unknown_format unknown_subcommand : Text → Complaint
  no_object_name no_archive no_subcommand : Complaint
  no_files : (prefix directory : Text) → Complaint

-- What a subcommand goes on with, or how it ends.
pub data Ends {ℓ} (A : Type ℓ) : Type ℓ where
  go : A → Ends A
  helped : Text → Ends A
  complained : Complaint → Ends A
  failed : Exception → Ends A
  hangs : Ends A

infixl 5 ◌>>=◌
abbrev pub ◌>>=◌ {ℓ κ} : {B : Type κ} {A : Type ℓ} → Ends A → (A → Ends B) → Ends B
go value >>= next = next value
helped subcommand >>= next = helped subcommand
complained c >>= next = complained c
failed e >>= next = failed e
hangs >>= next = hangs

abbrev pub ending {ℓ} : {A : Type ℓ} → Result A → Ends A
ending (ok a) = go a
ending (raise e) = failed e
ending diverge = hangs

-- The local variables that options set. `which` is the stage, the timer or the name of the function.
pub record Asked : Type 0 where
  pub format : Text
  pub which : Text
  pub tail : Option ℤ

-- `o in (s, t)`
abbrev pub is_one : Text → List Text → Bool
is_one o [] = false
is_one o (s ∷ names) = same_text o s || is_one o names

abbrev pub State : Type 0
State = Timer × Asked

abbrev pub with_tail : State → ℤ → Ends State
with_tail (st, asked) n = go (st, record asked { tail = some n })

-- The options that the four subcommands which report have in common; `otherwise` is for the rest.
unfoldable pub common_option : Text → Text → Text → State → Ends State → Ends State
unfolding int same_text
common_option name o a (st, asked) otherwise =
    if is_one o (codes "-C" ∷ codes "--chdir" ∷ [])
    then go (record st { chdir_to = a }, asked)
    else (if is_one o (codes "-f" ∷ codes "--file" ∷ [])
        then go (record st { config_file = a }, asked)
        else (if is_one o (codes "--fmt" ∷ codes "--format" ∷ [])
            then go (st, record asked { format = a })
            else (if is_one o (codes "-?" ∷ codes "-h" ∷ codes "--help" ∷ [])
                then helped name
                else (if is_one o (codes "-p" ∷ codes "--prefix" ∷ [])
                    then go (record st { prefix = a }, asked)
                    else (if is_one o (codes "-t" ∷ codes "--tail" ∷ [])
                        then ending (int a) >>= with_tail (st, asked)
                        else (if is_one o (codes "--title" ∷ [])
                            then go (record st { title = some a }, asked)
                            else otherwise))))))

-- `do_func`'s own options. The value of `--max` is read and not used.
unfoldable pub func_option : Text → Text → State → Ends State
unfolding common_option same_text
func_option o a (st, asked) =
    common_option (codes "func") o a (st, asked)
      (if is_one o (codes "--func" ∷ codes "--function" ∷ [])
        then go (st, record asked { which = a })
        else (if is_one o (codes "--max" ∷ [])
            then ending (int a) >>= (λ max_time. go (st, asked))
            else go (st, asked)))

abbrev pub stages : List Text
stages = codes "pre-read" ∷ codes "post-read" ∷ codes "pre-build" ∷ codes "post-build" ∷ []

-- The options of `do_mem` and of `do_obj`.
unfoldable pub stage_option : Text → Text → Text → State → Ends State
unfolding common_option same_text
stage_option name o a (st, asked) =
    common_option name o a (st, asked)
      (if is_one o (codes "--stage" ∷ [])
        then (if is_one a stages
            then go (st, record asked { which = a })
            else complained (unrecognized_stage a))
        else go (st, asked))

abbrev pub timers : List Text
timers = codes "total" ∷ codes "SConscripts" ∷ codes "SCons" ∷ codes "commands" ∷ []

unfoldable pub time_option : Text → Text → State → Ends State
unfolding common_option same_text
time_option o a (st, asked) =
    common_option (codes "time") o a (st, asked)
      (if is_one o (codes "--which" ∷ [])
        then (if is_one a timers
            then go (st, record asked { which = a })
            else complained (unrecognized_timer a))
        else go (st, asked))

-- `for o, a in opts`
unfoldable pub option_loop {ℓ} :
    {S : Type ℓ} → (Text → Text → S → Ends S) → List (Text × Text) → S → Ends S
option_loop step [] s = go s
option_loop step ((o, a) ∷ opts) s = do next ← step o a s; option_loop step opts next

abbrev pub short_opts : Text
short_opts = codes "?C:f:hp:t:"

abbrev pub long_opts : List Text → List Text
long_opts own =
    codes "chdir="
    ∷ codes "file="
    ∷ codes "fmt="
    ∷ codes "format="
    ∷ codes "help"
    ∷ codes "prefix="
    ∷ codes "tail="
    ∷ codes "title="
    ∷ own

-- `if self.config_file:` and `if self.chdir:`; the directory in which files are then looked for.
abbrev pub with_config : Files → Text → Timer → Ends Timer
with_config w [] st = go st
with_config w (c ∷ file) st = ending (w.exec_config (c ∷ file) st)

abbrev pub with_dir : Files → Text → Ends Text
with_dir w [] = go []
with_dir w (c ∷ dir) = ending (w.change_dir (c ∷ dir)) >>= (λ changed. go (c ∷ dir))

abbrev pub directory : Files → Text → Text
directory w [] = w.getcwd []
directory w (c ∷ dir) = c ∷ dir

abbrev pub found_or : Files → Text → Timer → List Text → Ends (List Text)
found_or w dir st [] = complained (no_files st.prefix (directory w st.chdir_to))
found_or w dir st (f ∷ files) = go (f ∷ files)

-- The files of the arguments, or those with the prefix and an extension. Only these must be some.
unfoldable pub files_of : Files → Text → Text → Timer → List Text → Option ℤ → Ends (List Text)
unfolding args_to_files
files_of w extension dir st [] tail =
    found_or w dir st (args_to_files (w.glob dir) ((st.prefix ++ b'*' ∷ extension) ∷ []) tail)
files_of w extension dir st (a ∷ args) tail = go (args_to_files (w.glob dir) (a ∷ args) tail)

-- The options of `do_run`: what they set of the timer, and the numbers of the runs, of which None
-- asks for the next one.
abbrev pub RunState : Type 0
RunState = Timer × List (Option ℕ)
