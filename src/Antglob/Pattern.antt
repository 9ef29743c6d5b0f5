-- ===== src/Antglob/Pattern.antt =====
-- `ant_pattern_to_re`: an Ant pattern as a regular expression, and what `re.match` does with it.
pub mod Tokens
pub mod Language
pub mod Convention
use domq.Prelude.{
  ℕ, zero, suc, ◌+◌, ◌-◌, ◌==◌, if◌then◌else◌, Bool, true, false, not, ◌&&◌, ◌||◌, List, [], ◌∷◌,
  ◌++◌, length, Result, ok, raise, diverge, value_error, ◌>>=◌, Text,
}

-- What the six groups of `_ANT_RE` match.
pub data Token : Type 0 where
  slash_dirs_slash dirs_slash slash_dirs star slash : Token
  chunk : Text → Token

-- `[^\*/]*`, as far as it goes.
unfoldable pub span_chunk : Text → Text × Text
span_chunk [] = ([], [])
span_chunk (c ∷ t) =
    let (more, rest) = span_chunk t in
    if c == b'*' || c == b'/' then ([], c ∷ t) else (c ∷ more, rest)

-- Whether a text begins with the characters of another, and what follows them.
unfoldable pub after_prefix : Text → Text → Bool × Text
after_prefix [] t = (true, t)
after_prefix (a ∷ s) [] = (false, [])
after_prefix (a ∷ s) (c ∷ t) = if a == c then after_prefix s t else (false, [])

-- A match of `_ANT_RE` at the front of a text: the first alternative that fits. The last one always
-- does.
unfoldable pub match_token : Text → Token × Text
unfolding after_prefix span_chunk
match_token t =
    let (a, t₁) = after_prefix (b'/' ∷ b'*' ∷ b'*' ∷ b'/' ∷ []) t in
    let (b, t₂) = after_prefix (b'*' ∷ b'*' ∷ b'/' ∷ []) t in
    let (c, t₃) = after_prefix (b'/' ∷ b'*' ∷ b'*' ∷ []) t in
    let (d, t₄) = after_prefix (b'*' ∷ []) t in
    let (e, t₅) = after_prefix (b'/' ∷ []) t in
    let (word, t₆) = span_chunk t in
    if a
    then (slash_dirs_slash, t₁)
    else if b
    then (dirs_slash, t₂)
    else if c
    then (slash_dirs, t₃)
    else if d
    then (star, t₄)
    else if e
    then (slash, t₅)
    else (chunk word, t₆)

-- One match of `_ANT_RE.finditer(ant_pattern)`.
pub record Match : Type 0 where
  pub start : ℕ
  pub token : Token
  pub end : ℕ

-- `finditer`: the matches one behind the other, with the empty match at the end of the text last.
unfoldable pub finditer : ℕ → ℕ → Text → List Match
unfolding match_token
finditer zero pos t = []
finditer (suc fuel) pos [] = record { start = pos; token = chunk []; end = pos } ∷ []
finditer (suc fuel) pos (c ∷ t) =
    let (token, rest) = match_token (c ∷ t) in
    let stop = pos + (length (c ∷ t) - length rest) in
    record { start = pos; token = token; end = stop } ∷ finditer fuel stop rest

-- The parts of the regular expression between `^` and `$`. `sep` is `(?:/|<os.path.sep>)`, `dirs` is
-- `(?:.*<sep>)?`, `any` is `.*` and `names` is `[^/<os.path.sep>]*`.
pub data Part : Type 0 where
  sep dirs any names : Part
  lit : Text → Part

unfoldable pub token_parts : Token → List Part
token_parts slash_dirs_slash = sep ∷ dirs ∷ []
token_parts dirs_slash = dirs ∷ []
token_parts slash_dirs = sep ∷ any ∷ []
token_parts star = names ∷ []
token_parts slash = sep ∷ []
token_parts (chunk s) = lit s ∷ []

-- The loop over the matches, with the check that no character was passed over.
unfoldable pub compile_loop : List Match → ℕ → List Part → Result (List Part)
compile_loop [] next_pos rex = ok rex
compile_loop (m ∷ more) next_pos rex =
    if m.start == next_pos
    then compile_loop more m.end (rex ++ token_parts m.token)
    else raise value_error

unfoldable pub ant_pattern_to_re : Text → Result (List Part)
unfolding compile_loop finditer token_parts
ant_pattern_to_re ant_pattern =
    compile_loop (finditer (suc (length ant_pattern)) 0 ant_pattern) 0 []

-- `re.match` with such an expression. Each part is given what is to be done with the text behind it.
-- `os_sep` is `os.path.sep`; the dot stands for any character but the newline, and `$` holds at the
-- end and before a newline at the end.
module _ (os_sep : ℕ) where
  abbrev pub is_sep : ℕ → Bool
  is_sep c = c == b'/' || c == os_sep

  abbrev pub is_dot : ℕ → Bool
  is_dot c = not (c == 10)

  abbrev pub Rest : Type 0
  Rest = Text → Bool

  unfoldable pub at_end : Rest
  at_end [] = true
  at_end (c ∷ []) = c == 10
  at_end _ = false

  unfoldable pub match_sep : Rest → Text → Bool
  match_sep k [] = false
  match_sep k (c ∷ t) = is_sep c && k t

  unfoldable pub match_any : Rest → Text → Bool
  match_any k [] = k []
  match_any k (c ∷ t) = k (c ∷ t) || is_dot c && match_any k t

  unfoldable pub match_names : Rest → Text → Bool
  match_names k [] = k []
  match_names k (c ∷ t) = k (c ∷ t) || not (is_sep c) && match_names k t

  unfoldable pub match_lit : Text → Rest → Text → Bool
  match_lit [] k t = k t
  match_lit (a ∷ s) k [] = false
  match_lit (a ∷ s) k (c ∷ t) = a == c && match_lit s k t

  unfoldable pub match_part : Part → Rest → Text → Bool
  unfolding match_sep match_any match_names match_lit
  match_part sep k t = match_sep k t
  match_part dirs k t = match_any (match_sep k) t || k t
  match_part any k t = match_any k t
  match_part names k t = match_names k t
  match_part (lit s) k t = match_lit s k t

  unfoldable pub re_match : List Part → Text → Bool
  unfolding match_part at_end
  re_match [] = at_end
  re_match (p ∷ rex) = match_part p (re_match rex)
