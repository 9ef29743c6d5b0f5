-- ===== src/Runs/Signatures.antt =====
-- The theorems at concrete inputs, and tests: the printing of signatures, the documentation, the search
-- path and the tools of the build.
use domq.Prelude.{
  Bool, true, false, ◌||◌, if◌then◌else◌, none, some, [], ◌∷◌, ◌++◌, ok, raise, io_error, ◌≡◌, refl,
  codes, same_text, Option, List, key_error, Text,
}
use domq.Strings.{split_on, words, join_path}
use domq.Sconsign.{
  NodeInfo, Settings, no_flags, names_or_none, shown_name, join, nodeinfo_cooked, set_item,
}
use domq.Sconsign.Modules.{Importer, my_import, my_whichdb}
use domq.Sconsign.Modules.Order.{my_import-dotted}
use domq.Sconsign.Fields.{set_items, asked_texts, nodeinfo_cooked_lem}
use domq.Sconsign.Files.{printed, no_dir, do_sconsign_db}
use domq.SearchPath.{System, prefs}
use domq.BuildTools.{text, returned, subst_in_file}
use domq.Doxygen.{Machine, suffixes, text_or_empty, find_program}
use domq.Doxygen.Programs.{candidates, first_file, find_program_lem}

-- A node with a time, a signature and a size.
abbrev node : NodeInfo
node = record {
  field_list = some (codes "csig" ∷ codes "timestamp" ∷ codes "size" ∷ []);
  as_str = (codes "csig", codes "d41d") ∷ (codes "size", codes "12") ∷ [];
  as_repr = [];
  action = none;
  timestamp = some 77;
}

-- The options ask for the size and the signature.
abbrev settings : Settings
settings = record {
  print_directories = codes "src" ∷ codes "lib" ∷ [];
  print_entries = [];
  print_flags = set_items (codes "size" ∷ codes "csig" ∷ []) no_flags;
  verbose = false;
  readable = false;
  raw = false;
  repr = λ t. t;
  ctime = λ t. [];
}

nodeinfo_cooked_lem_example :
    nodeinfo_cooked settings (codes "a.o") node []
    ≡ ok (
        join (codes " ") (shown_name settings (codes "a.o") ++ b':' ∷ []) (
          asked_texts settings
            (codes "size" ∷ codes "csig" ∷ [])
            node
            (names_or_none node.field_list)))
nodeinfo_cooked_lem_example =
    nodeinfo_cooked_lem settings (codes "size" ∷ codes "csig" ∷ []) (codes "a.o") node [] refl refl

test_node : nodeinfo_cooked settings (codes "a.o") node [] ≡ ok (codes "a.o: d41d 12")
unfolding nodeinfo_cooked set_item
test_node = refl

-- A file that opens only without its suffix, and a directory that it does not have.
test_db :
    do_sconsign_db
      (λ name.
        if same_text name (codes ".sconsign")
        then ok (
            (codes "src", (codes "a.o", (some node, record { info = node; bkids = none })) ∷ [])
            ∷ [])
        else raise io_error)
      settings
      (codes "x")
      (codes ".sconsign.dblite")
    ≡ (
      printed (codes "=== src:")
          ∷ printed (codes "a.o: d41d 12")
          ∷ no_dir (codes "lib") (codes "x")
          ∷ [],
      ok tt,
    )
unfolding do_sconsign_db set_item
test_db = refl

-- A system with doxygen in the second directory of PATH.
abbrev machine : Bool → Machine
machine windows = record {
  is_windows = windows;
  path = codes "/bin:/usr/bin";
  pathsep = b':';
  join = join_path;
  is_file = λ path.
      same_text path (codes "/usr/bin/doxygen") || same_text path (codes "/usr/bin/doxygen.exe");
}

find_program_lem_example :
    (find_program (machine true) (codes "doxygen" ∷ [])
      ≡ text_or_empty (
          first_file (machine true) (
            candidates
              (machine true)
              (words (suffixes (machine true)))
              (split_on b':' (codes "/bin:/usr/bin"))
              (codes "doxygen" ∷ []))))
    × ((machine true).is_windows ≡ false → find_program (machine true) (codes "doxygen" ∷ []) ≡ [])
find_program_lem_example = find_program_lem (machine true) (codes "doxygen" ∷ [])

test_windows : find_program (machine true) (codes "doxygen" ∷ []) ≡ codes "/usr/bin/doxygen.exe"
unfolding find_program join_path same_text
test_windows = refl

test_posix : find_program (machine false) (codes "doxygen" ∷ []) ≡ []
unfolding find_program
test_posix = refl

-- A script in /opt/bin, of a Python in /usr/local.
abbrev system : System
system = record {
  scons_lib_dir = none;
  is_windows = false;
  sys_prefix = codes "/usr/local";
  getcwd = codes "/w";
  version = codes "2.7.18";
  os_file = some (codes "/usr/lib64/python2.7/os.py");
  egg = none;
  join = join_path;
  abspath = λ path. path;
}

-- The places: beside the script, for the prefix and above it, and of Python's own library.
test_prefs :
    prefs system (codes "/opt/bin")
    ≡ codes "/opt/lib"
      ∷ codes "/usr/local/lib"
      ∷ codes "/usr/lib"
      ∷ codes "/opt/lib/python2.7/site-packages"
      ∷ codes "/usr/local/lib/python2.7/site-packages"
      ∷ codes "/usr/lib/python2.7/site-packages"
      ∷ codes "/usr/lib64"
      ∷ []
unfolding prefs join_path
test_prefs = refl

-- Two targets, of which the second is not written.
test_targets :
    subst_in_file
      (record {
        read = λ name. some name;
        can_write = λ name. true;
        sub = λ k v contents. ok (contents ++ v);
        expand = λ v. v;
      })
      (codes "a" ∷ codes "b" ∷ [])
      (codes "a.in" ∷ codes "b.in" ∷ [])
      (some ((codes "%V%", text (codes "1\\2")) ∷ []))
    ≡ returned (some (codes "a", codes "a.in1\\\\2"))
unfolding subst_in_file
test_targets = refl

abbrev all_names : Option (List Text) → List Text
all_names none = []
all_names (some names) = names

-- A module is the list of the full names on the way to it, and `broken` has no module.
abbrev importer : Importer
importer = record {
  Module = List Text;
  import_one = λ full_name name parent.
      if same_text name (codes "broken")
      then raise key_error
      else ok (full_name ∷ all_names parent);
}

my_import-dotted_example :
    my_import importer (codes "SCons.dblite") ≡ ok (codes "SCons.dblite" ∷ codes "SCons" ∷ [])
unfolding same_text domq.Strings.has_char
my_import-dotted_example =
    my_import-dotted importer (codes "SCons") (codes "dblite" ∷ []) refl (refl, tt)

third_broken : my_import importer (codes "a.broken.b") ≡ raise key_error
unfolding my_import same_text domq.Sconsign.Modules.import_within domq.Strings.last_dot
third_broken = refl

by_name :
    my_whichdb (λ path. false) (λ path. none) (codes ".sconsign.dblite")
    ≡ some (codes "SCons.dblite")
unfolding my_whichdb same_text
by_name = refl

by_file_beside : my_whichdb (λ path. true) (λ path. none) (codes "x") ≡ some (codes "SCons.dblite")
unfolding my_whichdb same_text
by_file_beside = refl
