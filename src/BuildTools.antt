-- ===== src/BuildTools.antt =====
-- framework/jsoncpp/scons-tools: what the tools for the build system compute: the substitution of
-- substinfile.py, the file lists of globtool.py and the archives of targz.py.
use domq.Prelude.{
  ◌==◌, if◌then◌else◌, Bool, true, false, not, Option, none, some, List, [], ◌∷◌, ◌++◌, length,
  drop, Exception, Result, ok, raise, diverge, ◌>>=◌, Text, codes,
}
use domq.JsonTests.Outcome.{basename}
use domq.Strings.{join_path}
use domq.Tarball.{commonprefix}

-- The entries of SUBST_DICT, and the errors that the build system reports.
pub data SubstValue : Type 0 where
  text callable : Text → SubstValue
  other : SubstValue

pub data UserError : Type 0 where
  no_subst_dict : UserError
  unreadable unwritable bad_value : Text → UserError

-- What an action ends with: its result, where `nothing` is None, an error, or an exception of `re`.
pub data Ended {ℓ} (A : Type ℓ) : Type ℓ where
  returned : A → Ended A
  user_error : UserError → Ended A
  failed : Exception → Ended A
  hangs : Ended A

infixl 5 ◌then_do◌
abbrev pub ◌then_do◌ {ℓ κ} : {A : Type ℓ} {B : Type κ} → Ended A → (A → Ended B) → Ended B
returned a then_do next = next a
user_error e then_do next = user_error e
failed e then_do next = failed e
hangs then_do next = hangs

-- Files, `re.sub` and `env.subst`.
pub record Tools : Type 0 where
  pub read : Text → Option Text
  pub can_write : Text → Bool
  pub sub : Text → Text → Text → Result Text
  pub expand : Text → Text

abbrev pub double_backslashes : Text → Text
double_backslashes [] = []
double_backslashes (c ∷ t) =
    let rest = double_backslashes t in if c == 92 then c ∷ c ∷ rest else c ∷ rest

-- The loop that expands the values. The value of a callable is what the call returns.
abbrev pub expanded_value : Tools → Text → SubstValue → Ended Text
expanded_value w k (text v) = returned (double_backslashes (w.expand v))
expanded_value w k (callable v) = returned (double_backslashes (w.expand v))
expanded_value w k other = user_error (bad_value k)

unfoldable pub expanded : Tools → List (Text × SubstValue) → Ended (List (Text × Text))
expanded w [] = returned []
expanded w ((k, v) ∷ d) =
    expanded_value w k v then_do λ value. expanded w d then_do λ rest. returned ((k, value) ∷ rest)

unfoldable pub replaced : Tools → List (Text × Text) → Text → Result Text
replaced w [] contents = ok contents
replaced w ((k, v) ∷ d) contents = do next ← w.sub k v contents; replaced w d next

-- What is written: the file and its contents.
abbrev pub Written : Type 0
Written = Text × Text

abbrev pub write_file : Tools → Text → Result Text → Ended Written
write_file w target (ok contents) =
    if w.can_write target then returned (target, contents) else user_error (unwritable target)
write_file w target (raise e) = failed e
write_file w target diverge = hangs

abbrev pub from_source : Tools → List (Text × Text) → Text → Text → Option Text → Ended Written
from_source w d target source none = user_error (unreadable source)
from_source w d target source (some contents) = write_file w target (replaced w d contents)

unfoldable pub subst_one : Tools → List (Text × Text) → Text → Text → Ended Written
unfolding replaced
subst_one w d target source = from_source w d target source (w.read source)

-- The loop over the targets and sources, which returns in its first round.
abbrev pub first_target :
    Tools → List (Text × Text) → List Text → List Text → Ended (Option Written)
first_target w d (t ∷ targets) (s ∷ sources) =
    subst_one w d t s then_do λ written. returned (some written)
first_target w d _ _ = returned none

abbrev pub with_dict :
    Tools → List Text → List Text → Option (List (Text × SubstValue)) → Ended (Option Written)
with_dict w targets sources none = user_error no_subst_dict
with_dict w targets sources (some d) =
    expanded w d then_do λ values. first_target w values targets sources

-- `subst_in_file`, where the dictionary is that of SUBST_DICT if the environment has it.
unfoldable pub subst_in_file :
    Tools → List Text → List Text → Option (List (Text × SubstValue)) → Ended (Option Written)
unfolding expanded subst_one
subst_in_file w targets sources dict = with_dict w targets sources dict

-- globtool.py: patterns are None, one text or a list.
pub data Patterns : Type 0 where
  missing : Patterns
  pattern : Text → Patterns
  patterns : List Text → Patterns

abbrev pub includes_of : Patterns → List Text
includes_of missing = codes "*" ∷ []
includes_of (pattern p) = p ∷ []
includes_of (patterns ps) = ps

abbrev pub excludes_of : Patterns → Option (List Text)
excludes_of missing = none
excludes_of (pattern p) = some (p ∷ [])
excludes_of (patterns ps) = some ps

-- The directory: `fnmatch.fnmatchcase`, `os.path.isfile` and `os.listdir`.
pub record Directory : Type 0 where
  pub fnmatch : Text → Text → Bool
  pub is_file : Text → Bool
  pub listdir : List Text
  pub abspath : Text

-- The loops of `filterFilename`, which stop at the first match.
unfoldable pub matches_any : (Text → Text → Bool) → Text → List Text → Bool
matches_any fnmatch fn [] = false
matches_any fnmatch fn (p ∷ ps) =
    let rest = matches_any fnmatch fn ps in if fnmatch fn p then true else rest

abbrev pub excluded : (Text → Text → Bool) → Text → Option (List Text) → Bool
excluded fnmatch fn none = false
excluded fnmatch fn (some ps) = matches_any fnmatch fn ps

unfoldable pub filter_filename : Directory → List Text → Option (List Text) → Text → Bool
unfolding matches_any join_path basename
filter_filename d includes excludes path =
    if not (d.is_file (join_path d.abspath path))
    then false
    else (if matches_any d.fnmatch (basename path) includes
        then not (excluded d.fnmatch (basename path) excludes)
        else false)

unfoldable pub file_nodes : Directory → List Text → Option (List Text) → List Text → List Text
unfolding filter_filename
file_nodes d includes excludes [] = []
file_nodes d includes excludes (path ∷ paths) =
    let rest = file_nodes d includes excludes paths in
    if filter_filename d includes excludes path then join_path d.abspath path ∷ rest else rest

-- `Glob( includes, excludes, dir )`
unfoldable pub glob_files : Directory → Patterns → Patterns → List Text
unfolding file_nodes
glob_files d includes excludes =
    file_nodes d (includes_of includes) (excludes_of excludes) d.listdir

-- targz.py: `walk` are the calls of `visit` that `os.path.walk` makes, and `norm` the absolute and
-- normalised path. A name keeps the slash behind the base directory.
pub record Disk : Type 0 where
  pub norm : Text → Text
  pub file_at : Text → Bool
  pub dir_at : Text → Bool
  pub walk : Text → List (Text × List Text)

abbrev pub Added : Type 0
Added = Text × Text

unfoldable pub targz_name : Disk → Text → Text → Text
unfolding commonprefix
targz_name d base_dir path = drop (length (commonprefix base_dir (d.norm path))) (d.norm path)

unfoldable pub visit_names : Disk → Text → Text → List Text → List Added
unfolding targz_name join_path
visit_names d base_dir dirname [] = []
visit_names d base_dir dirname (name ∷ names) =
    let rest = visit_names d base_dir dirname names in
    if d.file_at (join_path dirname name)
    then (join_path dirname name, targz_name d base_dir (join_path dirname name)) ∷ rest
    else rest

abbrev pub visit_all : Disk → Text → List (Text × List Text) → List Added
visit_all d base_dir [] = []
visit_all d base_dir ((dirname, names) ∷ calls) =
    visit_names d base_dir dirname names ++ visit_all d base_dir calls

-- `targz`: the files that it adds, with their names.
unfoldable pub targz : Disk → Text → List Text → List Added
unfolding visit_names targz_name
targz d base_dir [] = []
targz d base_dir (source ∷ sources) =
    (if d.dir_at source
      then visit_all d base_dir (d.walk source)
      else (source, targz_name d base_dir source) ∷ [])
    ++ targz d base_dir sources
