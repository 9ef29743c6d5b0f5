-- ===== src/Fixeol.antt =====
-- framework/jsoncpp/devtools/fixeol.py: one kind of line ending for all lines of a source file.
pub mod Laws
use domq.Prelude.{
  ℕ, ◌==◌, if◌then◌else◌, Bool, true, false, not, ◌&&◌, ◌||◌, List, [], ◌∷◌, ◌++◌, map, Option,
  none, some, Result, ok, raise, value_error, name_error, Text, same_text,
}

-- The newline, and the carriage return.
abbrev pub lf : ℕ
lf = 10

abbrev pub cr : ℕ
cr = 13

abbrev pub add_to_first : ℕ → List Text → List Text
add_to_first c [] = (c ∷ []) ∷ []
add_to_first c (line ∷ lines) = (c ∷ line) ∷ lines

-- `f.readlines()` of a file that is open in binary mode: each line with its newline, which the last
-- one may lack.
unfoldable pub readlines : Text → List Text
readlines [] = []
readlines (c ∷ t) =
    let lines = readlines t in if c == lf then (c ∷ []) ∷ lines else add_to_first c lines

abbrev pub is_eol : ℕ → Bool
is_eol c = c == cr || c == lf

abbrev pub strip_behind : ℕ → Text → Text
strip_behind c [] = if is_eol c then [] else c ∷ []
strip_behind c (d ∷ rest) = c ∷ d ∷ rest

-- `line.rstrip('\r\n')`
unfoldable pub rstrip : Text → Text
rstrip [] = []
rstrip (c ∷ t) = strip_behind c (rstrip t)

unfoldable pub fixed_lines : Text → List Text → List Text
unfolding rstrip
fixed_lines eol raw_lines = map (λ line. rstrip line ++ eol) raw_lines

-- `f.writelines(lines)`, into an empty file.
unfoldable pub writelines : List Text → Text
writelines [] = []
writelines (line ∷ lines) = line ++ writelines lines

-- Whether two lists of lines are the same.
unfoldable pub same_lines : List Text → List Text → Bool
unfolding same_text
same_lines [] [] = true
same_lines (a ∷ s) (b ∷ t) = same_text a b && same_lines s t
same_lines _ _ = false

-- A path: no file, a file that cannot be opened, or a file with its contents.
pub data Source : Type 0 where
  no_file : Source
  unreadable : Source
  source : Text → Source

-- `fix_source_eol`: its result, and what then stands at the path. The report of an IOError names
-- `sys`, which the module does not import. The progress messages are left out.
unfoldable pub fix_source_eol : Source → Bool → Text → Result Bool × Source
unfolding readlines fixed_lines writelines same_lines
fix_source_eol no_file is_dry_run eol = (raise value_error, no_file)
fix_source_eol unreadable is_dry_run eol = (raise name_error, unreadable)
fix_source_eol (source contents) is_dry_run eol =
    let raw_lines = readlines contents in
    let fixed = fixed_lines eol raw_lines in
    if not (same_lines raw_lines fixed) && not is_dry_run
    then (ok true, source (writelines fixed))
    else (ok true, source contents)
