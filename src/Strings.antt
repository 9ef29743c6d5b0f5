-- ===== src/Strings.antt =====
-- What the programs use of Python's strings and of `os.path`: numbers as texts, splitting, and the
-- extension of a path. Percent has the formatting of texts.
pub mod Decimal
pub mod Split
pub mod Percent
use domq.Prelude.{
  ℕ, zero, suc, ◌+◌, ◌-◌, ◌*◌, ◌/◌, ◌%◌, ◌==◌, ltb, leb, if◌then◌else◌, Bool, true, false, not,
  ◌&&◌, ◌||◌, Option, none, some, List, [], ◌∷◌, ◌++◌, length, replicate, Result, ok, raise,
  value_error, ◌>>=◌, Text,
}
use domq.JsonTests.Lines.{is_space, strip}
use domq.JsonTests.Outcome.{ℤ, pos, negsuc}

-- `str(i)`
unfoldable pub digits : ℕ → ℕ → Text → Text
digits zero n behind = behind
digits (suc fuel) n behind =
    let more = digits fuel (n / 10) ((b'0' + n % 10) ∷ behind) in
    if ltb n 10 then (b'0' + n) ∷ behind else more

unfoldable pub str : ℕ → Text
unfolding digits
str i = digits (suc i) i []

-- `'%0<w>d' % i`
unfoldable pub padded : ℕ → ℕ → Text
unfolding str
padded width i = replicate (width - length (str i)) b'0' ++ str i

abbrev pub is_digit : ℕ → Bool
is_digit c = leb b'0' c && leb c b'9'

-- The number that digits spell behind another.
unfoldable pub number_from : ℕ → Text → Result ℕ
number_from n [] = ok n
number_from n (c ∷ t) =
    let rest = number_from (n * 10 + (c - b'0')) t in if is_digit c then rest else raise value_error

abbrev pub unsigned : Text → Result ℕ
unsigned [] = raise value_error
unsigned (c ∷ t) = number_from 0 (c ∷ t)

abbrev pub without_plus : Text → Text
without_plus [] = []
without_plus (c ∷ t) = if c == b'+' then t else c ∷ t

-- `int(t)`, for a text without a minus sign.
unfoldable pub int_of : Text → Result ℕ
unfolding number_from strip
int_of t = unsigned (without_plus (strip t))

abbrev pub into_first : ℕ → List Text → List Text
into_first c [] = (c ∷ []) ∷ []
into_first c (piece ∷ pieces) = (c ∷ piece) ∷ pieces

-- `t.split(c)`
unfoldable pub split_on : ℕ → Text → List Text
split_on c [] = [] ∷ []
split_on c (d ∷ t) =
    let pieces = split_on c t in if d == c then [] ∷ pieces else into_first d pieces

-- `a, b = pieces[-2:]`
unfoldable pub last_two : List Text → Result (Text × Text)
last_two [] = raise value_error
last_two (a ∷ []) = raise value_error
last_two (a ∷ b ∷ []) = ok (a, b)
last_two (a ∷ b ∷ c ∷ pieces) = last_two (b ∷ c ∷ pieces)

abbrev pub after_dot : ℕ → Text → Option (Text × Text) → Option (Text × Text)
after_dot c t (some (root, ext)) = some (c ∷ root, ext)
after_dot c t none = if c == b'.' then some ([], c ∷ t) else none

-- A text cut before its last dot.
unfoldable pub last_dot : Text → Option (Text × Text)
last_dot [] = none
last_dot (c ∷ t) = after_dot c t (last_dot t)

unfoldable pub has_char : ℕ → Text → Bool
has_char c [] = false
has_char c (d ∷ t) = d == c || has_char c t

-- Whether nothing but dots stands behind the last slash; `so_far` tells it of what came before.
unfoldable pub dots_only : Bool → Text → Bool
dots_only so_far [] = so_far
dots_only so_far (c ∷ t) = dots_only (if c == b'/' then true else so_far && c == b'.') t

abbrev pub cut_at : Text → Option (Text × Text) → Text × Text
cut_at path none = (path, [])
cut_at path (some (root, ext)) =
    if has_char b'/' ext || dots_only true root then (path, []) else (root, ext)

-- `os.path.splitext(path)`
unfoldable pub splitext : Text → Text × Text
unfolding last_dot has_char dots_only
splitext path = cut_at path (last_dot path)

-- `os.path.join(a, b)`
abbrev pub with_slash : Text → Text → Text
with_slash [] b = b
with_slash (c ∷ []) b = if c == b'/' then c ∷ b else c ∷ b'/' ∷ b
with_slash (c ∷ d ∷ a) b = c ∷ with_slash (d ∷ a) b

unfoldable pub join_path : Text → Text → Text
join_path a [] = with_slash a []
join_path a (c ∷ b) = if c == b'/' then c ∷ b else with_slash a (c ∷ b)

abbrev pub negated : ℕ → ℤ
negated zero = pos zero
negated (suc n) = negsuc n

abbrev pub with_sign : Text → Result ℤ
with_sign [] = raise value_error
with_sign (c ∷ t) =
    if c == b'-'
    then unsigned t >>= (λ n. ok (negated n))
    else unsigned (without_plus (c ∷ t)) >>= (λ n. ok (pos n))

-- `int(t)`
unfoldable pub int : Text → Result ℤ
unfolding number_from strip
int t = with_sign (strip t)

abbrev pub before_words : Text × List Text → List Text
before_words ([], words) = words
before_words (c ∷ word, words) = (c ∷ word) ∷ words

-- The word that a text begins with, which is empty where it begins with a space, and the others.
unfoldable pub first_word : Text → Text × List Text
first_word [] = ([], [])
first_word (c ∷ t) =
    let rest = first_word t in if is_space c then ([], before_words rest) else (c ∷ rest.0, rest.1)

-- `t.split()`
unfoldable pub words : Text → List Text
unfolding first_word
words t = before_words (first_word t)

-- Whether a text stands before another one or is the same.
unfoldable pub text_leb : Text → Text → Bool
text_leb [] t = true
text_leb (c ∷ s) [] = false
text_leb (c ∷ s) (d ∷ t) = let rest = text_leb s t in if c == d then rest else ltb c d

-- The order of the keys of two items.
abbrev pub key_leb {ℓ} : {A : Type ℓ} → Text × A → Text × A → Bool
key_leb (s, a) (t, b) = text_leb s t
