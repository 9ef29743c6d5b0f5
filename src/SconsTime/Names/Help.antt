-- ===== src/SconsTime/Names/Help.antt =====
-- The help texts.
use domq.Prelude.{
  ℕ, zero, suc, ◌==◌, true, false, List, [], ◌∷◌, ◌++◌, map, replicate, All, ok, ◌≡◌, ◌≢◌, refl, ap,
  ◌∙◌, arith, drop-append_length, Text,
}
use domq.JsonTests.Lines.{split_lines}
use domq.JsonTests.Outcome.{starts_with}
use domq.Strings.{has_char}
use domq.SconsTime.Names.{
  without_empty_first, leading_spaces, strip_initial_spaces, join_lines, stripped, outdent_lines,
  outdent,
}

abbrev pub IsLine : Text → Type 0
IsLine l = has_char 10 l ≡ false

abbrev pub indented : ℕ → Text → Text
indented width line = replicate width 32 ++ line

split_lines-free : (l : Text) → IsLine l → split_lines l ≡ l ∷ []
unfolding split_lines has_char
split_lines-free [] h = refl
split_lines-free (c ∷ l) h =
    let other : (c == 10) ≡ false = ground arith in
    let free : IsLine l = ground arith in rw (split_lines-free l free, other)

split_lines-line : (l t : Text) → IsLine l → split_lines (l ++ 10 ∷ t) ≡ l ∷ split_lines t
unfolding split_lines has_char
split_lines-line [] t h = refl
split_lines-line (c ∷ l) t h =
    let other : (c == 10) ≡ false = ground arith in
    let free : IsLine l = ground arith in rw (split_lines-line l t free, other)

split_lines-join_lines :
    (line : Text) (lines : List Text)
    → IsLine line
    → All IsLine lines
    → split_lines (join_lines line lines) ≡ line ∷ lines
unfolding join_lines
split_lines-join_lines line [] h k = split_lines-free line h
split_lines-join_lines line (next ∷ lines) h (k, more) =
    split_lines-line line (join_lines next lines) h
    ∙ ap (λ l. line ∷ l) (split_lines-join_lines next lines k more)

leading_spaces-indented :
    (width : ℕ) (line : Text)
    → leading_spaces line ≡ []
    → leading_spaces (indented width line) ≡ replicate width 32
unfolding leading_spaces
leading_spaces-indented zero line h = h
leading_spaces-indented (suc width) line h = rw (leading_spaces-indented width line h)

starts_with-append : (s t : Text) → starts_with s (s ++ t) ≡ true
unfolding starts_with
starts_with-append [] t = refl
starts_with-append (c ∷ s) t =
    let same : (c == c) ≡ true = ground arith in rw (same, starts_with-append s t)

strip-indented :
    (width : ℕ) (line : Text)
    → strip_initial_spaces (replicate width 32) (indented width line) ≡ line
strip-indented width line =
    rw (starts_with-append (replicate width 32) line) (drop-append_length (replicate width 32) line)

stripped-indented :
    (width : ℕ) (lines : List Text)
    → stripped (replicate width 32) (map (indented width) lines) ≡ lines
stripped-indented width [] = refl
stripped-indented width (line ∷ lines) =
    rw (strip-indented width line, stripped-indented width lines)

outdent_lines-indented :
    (width : ℕ) (line : Text) (lines : List Text)
    → leading_spaces line ≡ []
    → outdent_lines (map (indented width) (line ∷ lines)) ≡ ok (join_lines line lines ++ 10 ∷ [])
outdent_lines-indented width line lines h =
    rw (
      leading_spaces-indented width line h,
      strip-indented width line,
      stripped-indented width lines,
    )

indented-IsLine : (width : ℕ) (line : Text) → IsLine line → IsLine (indented width line)
unfolding has_char
indented-IsLine zero line h = h
indented-IsLine (suc width) line h = indented-IsLine width line h

All-indented :
    (width : ℕ) (lines : List Text) → All IsLine lines → All IsLine (map (indented width) lines)
All-indented width [] h = tt
All-indented width (line ∷ lines) (h, more) =
    (indented-IsLine width line h, All-indented width lines more)

nonempty_first :
    (line : Text) (lines : List Text)
    → line ≢ []
    → without_empty_first (line ∷ lines) ≡ line ∷ lines
nonempty_first [] lines h = absurd (h refl)
nonempty_first (c ∷ line) lines h = refl

empty-IsLine : IsLine []
unfolding has_char
empty-IsLine = refl

-- A text whose lines all stand to the right by one width, of which the first begins with no further
-- space, loses just this width, whether it begins on the line of the quotes or below it: the
-- further indentation of its other lines stays. The line of the quotes is not empty where the text
-- begins on it.
pub outdent-indented :
    (width : ℕ) (line : Text) (lines : List Text)
    → leading_spaces line ≡ []
    → All IsLine (line ∷ lines)
    → indented width line ≢ []
    → (outdent (join_lines (indented width line) (map (indented width) lines))
        ≡ ok (join_lines line lines ++ 10 ∷ []))
      × (outdent (10 ∷ join_lines (indented width line) (map (indented width) lines))
          ≡ ok (join_lines line lines ++ 10 ∷ []))
unfolding outdent
outdent-indented width line lines h (k, more) ne =
    let cut : split_lines (join_lines (indented width line) (map (indented width) lines))
        ≡ map (indented width) (line ∷ lines) =
      split_lines-join_lines _ _ (indented-IsLine width line k) (All-indented width lines more) in
    let below : split_lines (10 ∷ join_lines (indented width line) (map (indented width) lines))
        ≡ [] ∷ map (indented width) (line ∷ lines) =
      split_lines-line [] (join_lines (indented width line) (map (indented width) lines))
        empty-IsLine
      ∙ ap (λ l. [] ∷ l) cut in
    (
      rw (cut, nonempty_first (indented width line) (map (indented width) lines) ne)
          (outdent_lines-indented width line lines h),
      rw below (outdent_lines-indented width line lines h),
    )
