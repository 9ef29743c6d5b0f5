-- ===== src/Sconsign/Files.antt =====
-- The entries of a file of signatures, and the files.
use domq.Prelude.{
  if◌then◌else◌, Option, none, some, List, [], ◌∷◌, ◌++◌, sort_by, io_error, Result, ok, raise,
  diverge, Text, codes, same_text,
}
use domq.Strings.{splitext, text_leb, key_leb}
use domq.Sconsign.{Settings, NodeInfo, BuildInfo, nodeinfo_string, printfield}

-- What is printed, and what is written to `sys.stderr`.
pub data Line : Type 0 where
  printed : Text → Line
  no_entry no_dir : (name location : Text) → Line
  no_file invalid : Text → Line

-- An entry: the information on the node, which may be missing, and on its build.
abbrev pub Entry : Type 0
Entry = Option NodeInfo × BuildInfo

abbrev pub Output : Type 0
Output = List Line × Result (Unit {0})

abbrev pub and_then : Output → Output → Output
and_then (lines, ok t) (more, ending) = (lines ++ more, ending)
and_then (lines, raise e) rest = (lines, raise e)
and_then (lines, diverge) rest = (lines, diverge)

abbrev pub all_printed : List Text → List Line
all_printed [] = []
all_printed (t ∷ texts) = printed t ∷ all_printed texts

abbrev pub print_text : Result Text → Output
print_text (ok t) = (printed t ∷ [], ok tt)
print_text (raise e) = ([], raise e)
print_text diverge = ([], diverge)

abbrev pub print_texts : Result (List Text) → Output
print_texts (ok texts) = (all_printed texts, ok tt)
print_texts (raise e) = ([], raise e)
print_texts diverge = ([], diverge)

abbrev pub node_line : Settings → Text → Option NodeInfo → Output
node_line s name none = (printed (name ++ b':' ∷ []) ∷ [], ok tt)
node_line s name (some ninfo) = print_text (nodeinfo_string s name ninfo [])

unfoldable pub print_entry : Settings → Text → Entry → Output
unfolding nodeinfo_string printfield
print_entry s name (ninfo, binfo) =
    and_then (node_line s name ninfo) (print_texts (printfield s binfo))

unfoldable pub find {ℓ} : {A : Type ℓ} → Text → List (Text × A) → Option A
unfolding same_text
find name [] = none
find name ((key, value) ∷ dict) =
    let rest = find name dict in if same_text key name then some value else rest

abbrev pub entry_or_report : Settings → Text → Text → Option Entry → Output
entry_or_report s location name none = (no_entry name location ∷ [], ok tt)
entry_or_report s location name (some entry) = print_entry s name entry

unfoldable pub print_named : Settings → List (Text × Entry) → Text → List Text → Output
unfolding print_entry find
print_named s entries location [] = ([], ok tt)
print_named s entries location (name ∷ names) =
    and_then (entry_or_report s location name (find name entries))
      (print_named s entries location names)

unfoldable pub print_all : Settings → List (Text × Entry) → Output
unfolding print_entry
print_all s [] = ([], ok tt)
print_all s ((name, entry) ∷ entries) = and_then (print_entry s name entry) (print_all s entries)

-- `if Print_Entries:`
abbrev pub entries_for : Settings → List (Text × Entry) → Text → List Text → Output
entries_for s entries location [] = print_all s (sort_by key_leb entries)
entries_for s entries location (name ∷ names) = print_named s entries location (name ∷ names)

unfoldable pub printentries : Settings → List (Text × Entry) → Text → Output
unfolding print_named print_all sort_by text_leb
printentries s entries location = entries_for s entries location s.print_entries

-- A database: what is pickled under each directory.
abbrev pub Database : Type 0
Database = List (Text × List (Text × Entry))

abbrev pub print_dir : Settings → Text → List (Text × Entry) → Output
print_dir s dir entries =
    and_then (printed (codes "=== " ++ dir ++ b':' ∷ []) ∷ [], ok tt) (printentries s entries dir)

-- The report of a missing directory names the first argument of the program.
abbrev pub dir_or_report : Settings → Text → Text → Option (List (Text × Entry)) → Output
dir_or_report s first_arg dir none = (no_dir dir first_arg ∷ [], ok tt)
dir_or_report s first_arg dir (some entries) = print_dir s dir entries

unfoldable pub print_dirs : Settings → Text → Database → List Text → Output
unfolding find printentries
print_dirs s first_arg db [] = ([], ok tt)
print_dirs s first_arg db (dir ∷ dirs) =
    and_then (dir_or_report s first_arg dir (find dir db)) (print_dirs s first_arg db dirs)

unfoldable pub print_database : Settings → Database → Output
unfolding printentries
print_database s [] = ([], ok tt)
print_database s ((dir, entries) ∷ db) = and_then (print_dir s dir entries) (print_database s db)

-- `if Print_Directories:`
abbrev pub dirs_for : Settings → Text → Database → List Text → Output
dirs_for s first_arg db [] = print_database s (sort_by key_leb db)
dirs_for s first_arg db (dir ∷ dirs) = print_dirs s first_arg db (dir ∷ dirs)

abbrev pub show_database : Settings → Text → Database → Output
show_database s first_arg db = dirs_for s first_arg db s.print_directories

-- What is left when the second name cannot be opened either: other exceptions than IOError and OSError
-- of the second attempt are not caught.
abbrev pub second_attempt : Settings → Text → Text → Result Database → Output
second_attempt s first_arg fname (ok db) = show_database s first_arg db
second_attempt s first_arg fname (raise io_error) = (no_file fname ∷ [], ok tt)
second_attempt s first_arg fname (raise e) = ([], raise e)
second_attempt s first_arg fname diverge = ([], diverge)

abbrev pub first_attempt : Settings → Text → Text → Result Database → Result Database → Output
first_attempt s first_arg fname second (ok db) = show_database s first_arg db
first_attempt s first_arg fname second (raise io_error) = second_attempt s first_arg fname second
first_attempt s first_arg fname second (raise e) = (invalid fname ∷ [], ok tt)
first_attempt s first_arg fname second diverge = ([], diverge)

-- `Do_SConsignDB.__call__`, where `open_db` is the module's function.
unfoldable pub do_sconsign_db : (Text → Result Database) → Settings → Text → Text → Output
unfolding splitext print_dirs print_database sort_by text_leb
do_sconsign_db open_db s first_arg fname =
    first_attempt s first_arg fname (open_db (splitext fname).0) (open_db fname)

-- `Do_SConsignDir`, where the file is opened first and then read. The entries are reported under the
-- first argument of the program.
abbrev pub read_entries : Settings → Text → Text → Result (List (Text × Entry)) → Output
read_entries s first_arg name (ok entries) = printentries s entries first_arg
read_entries s first_arg name (raise e) = (invalid name ∷ [], ok tt)
read_entries s first_arg name diverge = ([], diverge)

abbrev pub opened_entries : Settings → Text → Text → Result (Result (List (Text × Entry))) → Output
opened_entries s first_arg name (ok contents) = read_entries s first_arg name contents
opened_entries s first_arg name (raise io_error) = (no_file name ∷ [], ok tt)
opened_entries s first_arg name (raise e) = ([], raise e)
opened_entries s first_arg name diverge = ([], diverge)

unfoldable pub do_sconsign_dir :
    (Text → Result (Result (List (Text × Entry)))) → Settings → Text → Text → Output
unfolding printentries
do_sconsign_dir open_dir s first_arg name = opened_entries s first_arg name (open_dir name)
