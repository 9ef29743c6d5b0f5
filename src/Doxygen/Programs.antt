-- ===== src/Doxygen/Programs.antt =====
-- The search for programs.
use domq.Prelude.{
  if◌then◌else◌, false, Option, none, some, List, [], ◌∷◌, ◌++◌, map, ◌≡◌, refl, sym, ap, ◌∙◌,
  Bool-cases, inl, inr, Text,
}
use domq.Strings.{split_on, words}
use domq.Doxygen.{
  Machine, in_directories, or_later, with_suffixes, of_filenames, windows_endings, suffixes,
  text_or_empty, find_program,
}

-- The paths that may be the program, those of an earlier name, of an earlier ending and in an earlier
-- directory first.
abbrev pub with_endings : Machine → List Text → List Text → Text → List Text
with_endings m [] paths filename = []
with_endings m (ext ∷ exts) paths filename =
    map (λ directory. m.join directory (filename ++ ext)) paths
    ++ with_endings m exts paths filename

abbrev pub candidates : Machine → List Text → List Text → List Text → List Text
candidates m exts paths [] = []
candidates m exts paths (filename ∷ filenames) =
    with_endings m exts paths filename ++ candidates m exts paths filenames

abbrev pub first_file : Machine → List Text → Option Text
first_file m [] = none
first_file m (path ∷ paths) = if m.is_file path then some path else first_file m paths

first_file-append :
    (m : Machine) (s t : List Text)
    → first_file m (s ++ t) ≡ or_later (first_file m s) (first_file m t)
first_file-append m [] t = refl
first_file-append m (path ∷ s) t = elim (Bool-cases (m.is_file path)) [
  | inl found ↦ rw found refl
  | inr missing ↦ rw missing (first_file-append m s t)
]

in_directories_lem :
    (m : Machine) (name : Text) (paths : List Text)
    → in_directories m name paths ≡ first_file m (map (λ directory. m.join directory name) paths)
unfolding in_directories
in_directories_lem m name [] = refl
in_directories_lem m name (directory ∷ paths) = rw (in_directories_lem m name paths) refl

with_suffixes_lem :
    (m : Machine) (filename : Text) (paths exts : List Text)
    → with_suffixes m filename paths exts ≡ first_file m (with_endings m exts paths filename)
unfolding with_suffixes
with_suffixes_lem m filename paths [] = refl
with_suffixes_lem m filename paths (ext ∷ exts) =
    rw (in_directories_lem m (filename ++ ext) paths, with_suffixes_lem m filename paths exts)
      (sym (first_file-append m (map (λ directory. m.join directory (filename ++ ext)) paths) _))

of_filenames_lem :
    (m : Machine) (exts paths filenames : List Text)
    → of_filenames m exts paths filenames ≡ first_file m (candidates m exts paths filenames)
unfolding of_filenames
of_filenames_lem m exts paths [] = refl
of_filenames_lem m exts paths (filename ∷ filenames) =
    rw (with_suffixes_lem m filename paths exts, of_filenames_lem m exts paths filenames)
      (sym (first_file-append m (with_endings m exts paths filename) _))

no_candidates : (m : Machine) (paths filenames : List Text) → candidates m [] paths filenames ≡ []
no_candidates m paths [] = refl
no_candidates m paths (filename ∷ filenames) = no_candidates m paths filenames

-- The program that is found is the first file among the paths of its names with the endings of
-- Windows, in the directories of PATH, and the empty text if there is none. On every other system no
-- program is ever found, since the list of endings is empty there and has not the empty ending.
pub find_program_lem :
    (m : Machine) (filenames : List Text)
    → (find_program m filenames
        ≡ text_or_empty (
            first_file m (candidates m (words (suffixes m)) (split_on m.pathsep m.path) filenames)))
      × (m.is_windows ≡ false → find_program m filenames ≡ [])
unfolding find_program words
find_program_lem m filenames =
    let found = of_filenames_lem m (words (suffixes m)) (split_on m.pathsep m.path) filenames in
    (
      ap text_or_empty found,
      λ h.
          ap text_or_empty found
          ∙ ap
              (λ b. text_or_empty (
                first_file m (
                  candidates m (words (if b then windows_endings else []))
                    (split_on m.pathsep m.path) filenames)))
              h
          ∙ ap (λ l. text_or_empty (first_file m l))
              (nothing_tried (split_on m.pathsep m.path) filenames),
    )
  where
    nothing_tried : (paths filenames : List Text) → candidates m (words []) paths filenames ≡ []
    nothing_tried paths filenames = no_candidates m paths filenames
