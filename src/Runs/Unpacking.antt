-- ===== src/Runs/Unpacking.antt =====
-- Tests: archives and temporary directories.
use domq.Prelude.{
  ◌≡◌, refl, if◌then◌else◌, true, List, [], ◌∷◌, ◌++◌, none, Result, ok, raise, io_error,
  type_error, Text, codes, same_text,
}
use domq.SconsTime.Unpack.{Tempfile, make_temp_file, unzip, read_tree}

-- An old Python, whose `mktemp` takes no prefix.
abbrev old_tempfile : Tempfile
old_tempfile = record {
  mktemp_with = λ prefix. raise type_error;
  mktemp = λ template. ok (template ++ codes "1");
  realpath = none;
}

old_temp_file : make_temp_file old_tempfile (codes "scons-time-") ≡ ok (codes "scons-time-1")
unfolding make_temp_file
old_temp_file = refl

-- The entry of a directory cannot be written as a file, and ends the unpacking.
abbrev write_or_not : Text → Text → List Text → Result (List Text)
write_or_not name contents disk =
    if same_text name (codes "d/") then raise io_error else ok (name ∷ disk)

directory_entry :
    unzip
      (λ path disk. path ∷ disk)
      write_or_not
      ((codes "d/", []) ∷ (codes "d/a", codes "x") ∷ [])
      []
    ≡ raise io_error
unfolding unzip same_text
directory_entry = refl

file_entry :
    unzip (λ path disk. path ∷ disk) write_or_not ((codes "d/a", codes "x") ∷ []) []
    ≡ ok (codes "d/a" ∷ codes "d" ∷ [])
unfolding unzip same_text domq.SearchPath.split domq.SearchPath.without_slashes
    domq.JsonTests.Outcome.basename
file_entry = refl

working_directory :
    read_tree (λ path. true) (λ dir. (dir, codes "a" ∷ []) ∷ []) (codes "elsewhere")
    ≡ codes "./a" ∷ []
unfolding read_tree domq.Strings.join_path
working_directory = refl
