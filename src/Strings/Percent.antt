-- ===== src/Strings/Percent.antt =====
-- The operator `%` of texts, for a dictionary and for a tuple.
use domq.Prelude.{
  ℕ, ◌==◌, if◌then◌else◌, Bool, true, false, List, [], ◌∷◌, ◌++◌, key_error, value_error,
  type_error, Result, ok, raise, ◌>>=◌, Text, same_text,
}

unfoldable pub lookup : Text → List (Text × Text) → Result Text
unfolding same_text
lookup name [] = raise key_error
lookup name ((key, value) ∷ dict) =
    let rest = lookup name dict in if same_text key name then ok value else rest

-- Where a template is read: outside of a conversion, behind its percent sign, in its name, behind it.
pub data Reading : Type 0 where
  outside percent : Reading
  in_name behind_name : Text → Reading

abbrev pub next_reading : Reading → ℕ → Reading
next_reading outside c = if c == b'%' then percent else outside
next_reading percent c = if c == b'(' then in_name [] else outside
next_reading (in_name name) c = if c == b')' then behind_name name else in_name (name ++ c ∷ [])
next_reading (behind_name name) c = outside

-- What a character adds. The conversions are `%(name)s` and `%%`; other ones, which the commands do not
-- have, are refused.
unfoldable pub converted : List (Text × Text) → Reading → ℕ → Result Text
unfolding lookup
converted dict outside c = if c == b'%' then ok [] else ok (c ∷ [])
converted dict percent c =
    if c == b'%' then ok (c ∷ []) else (if c == b'(' then ok [] else raise value_error)
converted dict (in_name name) c = ok []
converted dict (behind_name name) c =
    let found = lookup name dict in if c == b's' then found else raise value_error

unfoldable pub subst_from : List (Text × Text) → Reading → Text → Result Text
unfolding converted
subst_from dict outside [] = ok []
subst_from dict _ [] = raise value_error
subst_from dict reading (c ∷ t) = do
  added ← converted dict reading c
  rest ← subst_from dict (next_reading reading c) t
  ok (added ++ rest)

-- `x % dictionary`
unfoldable pub subst : Text → List (Text × Text) → Result Text
unfolding subst_from
subst x dictionary = subst_from dictionary outside x

-- `x % args`, for the conversions `%s` and `%%`. The Boolean tells that a percent sign has been read.
abbrev pub placed : List Text → Result (Text × List Text)
placed [] = raise type_error
placed (a ∷ args) = ok (a, args)

abbrev pub place : Bool → List Text → ℕ → Result (Text × List Text)
place false args c = if c == b'%' then ok ([], args) else ok (c ∷ [], args)
place true args c =
    if c == b'%' then ok (c ∷ [], args) else (if c == b's' then placed args else raise value_error)

unfoldable pub format : Bool → List Text → Text → Result Text
format true args [] = raise value_error
format false [] [] = ok []
format false (a ∷ args) [] = raise type_error
format conversion args (c ∷ t) = do
  (added, left) ← place conversion args c
  rest ← format (if conversion then false else c == b'%') left t
  ok (added ++ rest)
