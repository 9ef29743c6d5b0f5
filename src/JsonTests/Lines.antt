-- ===== src/JsonTests/Lines.antt =====
-- Texts, and the methods of Python's strings that cut them into stripped lines.
use domq.Prelude.{ℕ, ◌==◌, leb, if◌then◌else◌, Bool, ◌&&◌, ◌||◌, List, [], ◌∷◌, Text}

-- The six characters of `string.whitespace`.
abbrev pub is_space : ℕ → Bool
is_space c = c == 32 || leb 9 c && leb c 13

unfoldable pub lstrip : Text → Text
lstrip [] = []
lstrip (c ∷ t) = let rest = lstrip t in if is_space c then rest else c ∷ t

abbrev pub space_behind : ℕ → Text → Text
space_behind c [] = if is_space c then [] else c ∷ []
space_behind c (d ∷ rest) = c ∷ d ∷ rest

unfoldable pub rstrip : Text → Text
rstrip [] = []
rstrip (c ∷ t) = space_behind c (rstrip t)

-- `s.strip()`
unfoldable pub strip : Text → Text
unfolding lstrip rstrip
strip t = rstrip (lstrip t)

-- `s.replace('\r', '')`
unfoldable pub drop_returns : Text → Text
drop_returns [] = []
drop_returns (c ∷ t) = let rest = drop_returns t in if c == 13 then rest else c ∷ rest

abbrev pub before_first : ℕ → List Text → List Text
before_first c [] = (c ∷ []) ∷ []
before_first c (l ∷ lines) = (c ∷ l) ∷ lines

-- `s.split('\n')`
unfoldable pub split_lines : Text → List Text
split_lines [] = [] ∷ []
split_lines (c ∷ t) =
    let lines = split_lines t in if c == 10 then [] ∷ lines else before_first c lines

-- `s.strip().replace('\r','').split('\n')`
unfoldable pub lines_of : Text → List Text
unfolding strip drop_returns split_lines
lines_of t = split_lines (drop_returns (strip t))
