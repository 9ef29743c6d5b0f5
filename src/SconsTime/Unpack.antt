-- ===== src/SconsTime/Unpack.antt =====
-- The functions at the start of scons-time.py: the name of a new temporary directory, and what unpacks
-- an archive or reads a tree, for the calls that they make of tarfile, zipfile, tempfile and os.
use domq.Prelude.{
  if◌then◌else◌, Bool, Option, none, some, List, [], ◌∷◌, ◌++◌, Exception, type_error, Result, ok,
  raise, diverge, ◌>>=◌, Text,
}
use domq.Strings.{join_path}
use domq.SearchPath.{split}

-- What the module `tempfile` offers: `mktemp` with a prefix, which old versions do not take, and
-- without, where the name begins with `tempfile.template`; and `os.path.realpath`, if there is one.
pub record Tempfile : Type 0 where
  pub mktemp_with : Text → Result Text
  pub mktemp : Text → Result Text
  pub realpath : Option (Text → Text)

abbrev pub real : Option (Text → Text) → Text → Text
real none path = path
real (some realpath) path = realpath path

abbrev pub without_keyword : Tempfile → Text → Exception → Result Text
without_keyword t prefix type_error = t.mktemp prefix
without_keyword t prefix e = raise e

abbrev pub temp_file_of : Tempfile → Text → Result Text → Result Text
temp_file_of t prefix (ok path) = ok (real t.realpath path)
temp_file_of t prefix (raise e) = without_keyword t prefix e
temp_file_of t prefix diverge = diverge

-- `make_temp_file(prefix=...)`; `tempfile.template` is as before when it returns.
unfoldable pub make_temp_file : Tempfile → Text → Result Text
make_temp_file t prefix = temp_file_of t prefix (t.mktemp_with prefix)

module _ {Disk : Type 0} where
  -- `untar`, for what `tar.extract` does with each member.
  unfoldable pub untar :
      {Member : Type 0} → (Member → Disk → Result Disk) → List Member → Disk → Result Disk
  untar extract [] disk = ok disk
  untar extract (member ∷ members) disk = do
    after ← extract member disk
    untar extract members after

  -- `unzip`: the entries with what they hold, what a call of `os.makedirs` leaves, whether it raises
  -- or not, and `open(name, 'w').write(...)`.
  unfoldable pub unzip :
      (makedirs : Text → Disk → Disk)
      → (write : Text → Text → Disk → Result Disk) → List (Text × Text)
      → Disk
      → Result Disk
  unfolding split
  unzip makedirs write [] disk = ok disk
  unzip makedirs write ((name, contents) ∷ entries) disk = do
    after ← write name contents (makedirs (split name).0 disk)
    unzip makedirs write entries after

-- `read_files` on one directory: the paths of its files.
unfoldable pub files_read : (is_file : Text → Bool) → Text → List Text → List Text
unfolding join_path
files_read is_file dirname [] = []
files_read is_file dirname (fn ∷ fnames) =
    let rest = files_read is_file dirname fnames in
    if is_file (join_path dirname fn) then join_path dirname fn ∷ rest else rest

abbrev pub all_read : (is_file : Text → Bool) → List (Text × List Text) → List Text
all_read is_file [] = []
all_read is_file ((dirname, fnames) ∷ visits) =
    files_read is_file dirname fnames ++ all_read is_file visits

-- `read_tree`, for the visits of `os.path.walk`: the paths of the files that it reads. It walks the
-- working directory, whatever directory it is given.
unfoldable pub read_tree :
    (is_file : Text → Bool) → (Text → List (Text × List Text)) → Text → List Text
unfolding files_read
read_tree is_file walk dir = all_read is_file (walk (b'.' ∷ []))
