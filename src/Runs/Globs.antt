-- ===== src/Runs/Globs.antt =====
-- The theorems at concrete inputs, and tests: Ant patterns.
use mathlib.Core.List.{Perm}
use domq.Prelude.{◌≡◌, refl, Bool, true, false, List, [], ◌∷◌, ok, Text}
use domq.Antglob.Pattern.{ant_pattern_to_re, re_match}
use domq.Antglob.Pattern.Tokens.{tokens, texts, parts, ant_pattern_to_re-tokens}
use domq.Antglob.Walk.{Entries, end, entry, file, dir, replace_slash, glob}
use domq.Antglob.Walk.Select.{selected, search_of, glob-perm}

-- **/*.h
abbrev headers : Text
headers = b'*' ∷ b'*' ∷ b'/' ∷ b'*' ∷ b'.' ∷ b'h' ∷ []

-- d/a.h
abbrev header : Text
header = b'd' ∷ b'/' ∷ b'a' ∷ b'.' ∷ b'h' ∷ []

ant_pattern_to_re-tokens_example :
    (texts (tokens headers) ≡ headers) × (ant_pattern_to_re headers ≡ ok (parts (tokens headers)))
ant_pattern_to_re-tokens_example = ant_pattern_to_re-tokens headers

headers_match : re_match b'/' (parts (tokens headers)) header ≡ true
unfolding re_match tokens domq.Antglob.Pattern.finditer domq.Antglob.Pattern.token_parts
headers_match = refl

-- A directory with the header d/a.h, the file d/b and the empty directory d/.svn.
abbrev tree : Entries
tree =
    entry (b'd' ∷ [])
      (dir false (
        entry (b'a' ∷ b'.' ∷ b'h' ∷ []) (file false) (
          entry (b'b' ∷ []) (file false)
            (entry (b'.' ∷ b's' ∷ b'v' ∷ b'n' ∷ []) (dir false end) end))))
      end

abbrev no_match : Text → Text → Bool
no_match name pattern_ = false

glob-perm_example :
    (result : List Text) × (glob b'/' no_match (b'.' ∷ []) tree (headers ∷ []) [] 2 [] ≡ ok result)
    × Perm result (
        selected
          (search_of b'/' no_match (headers ∷ []) [] 2 [])
          (replace_slash b'/' (b'.' ∷ []))
          tree)
glob-perm_example = glob-perm b'/' no_match (b'.' ∷ []) tree (headers ∷ []) [] 2 []

glob-headers :
    glob b'/' no_match (b'.' ∷ []) tree (headers ∷ []) [] 2 [] ≡ ok ((b'.' ∷ b'/' ∷ header) ∷ [])
unfolding glob ant_pattern_to_re replace_slash domq.Antglob.Walk.size_entries
glob-headers = refl
