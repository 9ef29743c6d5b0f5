-- ===== src/Sconsign/Options.antt =====
-- The options of the program, and what it does with its arguments.
use domq.Prelude.{
  if◌then◌else◌, Bool, true, false, ◌||◌, Option, none, some, List, [], ◌∷◌, ◌++◌, Result, ok, Text,
  codes, same_text,
}
use domq.Sconsign.{set_item, Settings}
use domq.Sconsign.Files.{Output, and_then, Entry, Database, do_sconsign_db, do_sconsign_dir}

-- The format of the files: none is asked for, that of a directory's file, or that of a module.
pub data Format : Type 0 where
  by_file dir_format : Format
  db_format : Text → Format

-- What the options come to: settings, the help, or a format of which there is no module.
pub data Parsed : Type 0 where
  settings : Settings → Format → Parsed
  help : Parsed
  illegal_format : Text → Parsed

abbrev pub is_one : Text → List Text → Bool
is_one o [] = false
is_one o (s ∷ names) = same_text o s || is_one o names

abbrev pub flagged : Text → Settings → Settings
flagged name s = record s { print_flags = set_item name 1 s.print_flags }

-- `Module_Map.get(a, a)`
abbrev pub module_of : Text → Option Text
module_of a =
    if same_text a (codes "dblite")
    then some (codes "SCons.dblite")
    else (if same_text a (codes "sconsign")
        then none
        else (if same_text a [] then none else some a))

abbrev pub with_module : (Text → Bool) → Settings → Text → Option Text → Parsed
with_module imports s a none = settings s dir_format
with_module imports s a (some name) =
    if imports name then settings s (db_format name) else illegal_format a

-- An option; `imports` tells whether `my_import` finds a module.
unfoldable pub option : (Text → Bool) → Text → Text → Settings → Format → Parsed
unfolding set_item same_text
option imports o a s format =
    if is_one o (codes "-a" ∷ codes "--act" ∷ codes "--action" ∷ [])
    then settings (flagged (codes "action") s) format
    else (if is_one o (codes "-c" ∷ codes "--csig" ∷ [])
        then settings (flagged (codes "csig") s) format
        else (if is_one o (codes "-d" ∷ codes "--dir" ∷ [])
            then settings (record s { print_directories = s.print_directories ++ a ∷ [] }) format
            else (if is_one o (codes "-e" ∷ codes "--entry" ∷ [])
                then settings (record s { print_entries = s.print_entries ++ a ∷ [] }) format
                else (if is_one o (codes "-f" ∷ codes "--format" ∷ [])
                    then with_module imports s a (module_of a)
                    else (if is_one o (codes "-h" ∷ codes "--help" ∷ [])
                        then help
                        else (if is_one o (codes "-i" ∷ codes "--implicit" ∷ [])
                            then settings (flagged (codes "implicit") s) format
                            else (if is_one o (codes "--raw" ∷ [])
                                then settings (record s { raw = true }) format
                                else (if is_one o (codes "-r" ∷ codes "--readable" ∷ [])
                                    then settings (record s { readable = true }) format
                                    else (if is_one o (codes "-s" ∷ codes "--size" ∷ [])
                                        then settings (flagged (codes "size") s) format
                                        else (if is_one o (codes "-t" ∷ codes "--timestamp" ∷ [])
                                            then settings (flagged (codes "timestamp") s) format
                                            else (if is_one o (codes "-v" ∷ codes "--verbose" ∷ [])
                                                then settings (record s { verbose = true }) format
                                                else settings s format)))))))))))

abbrev pub then_options : Parsed → (Settings → Format → Parsed) → Parsed
then_options (settings s format) next = next s format
then_options help next = help
then_options (illegal_format a) next = illegal_format a

-- `for o, a in opts`
unfoldable pub options : (Text → Bool) → List (Text × Text) → Settings → Format → Parsed
unfolding option
options imports [] s format = settings s format
options imports ((o, a) ∷ opts) s format =
    then_options (option imports o a s format) (options imports opts)

-- The files: the databases by the name of their module, the files of directories, and the module that
-- `whichdb` names for a file.
pub record Store : Type 0 where
  pub open_db : Text → Text → Result Database
  pub open_dir : Text → Result (Result (List (Text × Entry)))
  pub whichdb : Text → Option Text

abbrev pub call : Store → Settings → Text → Text → Option Text → Output
call st s first_arg a none = do_sconsign_dir st.open_dir s first_arg a
call st s first_arg a (some name) = do_sconsign_db (st.open_db name) s first_arg a

abbrev pub call_in : Store → Settings → Format → Text → Text → Output
call_in st s by_file first_arg a = call st s first_arg a (st.whichdb a)
call_in st s dir_format first_arg a = call st s first_arg a none
call_in st s (db_format name) first_arg a = call st s first_arg a (some name)

unfoldable pub call_all : Store → Settings → Format → Text → List Text → Output
unfolding do_sconsign_db do_sconsign_dir
call_all st s format first_arg [] = ([], ok tt)
call_all st s format first_arg (a ∷ args) =
    and_then (call_in st s format first_arg a) (call_all st s format first_arg args)

-- The end of the program: what it shows for its arguments.
unfoldable pub show_all : Store → Settings → Format → List Text → Output
unfolding call_all
show_all st s format [] = ([], ok tt)
show_all st s format (a ∷ args) = call_all st s format a (a ∷ args)
