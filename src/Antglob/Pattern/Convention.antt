-- ===== src/Antglob/Pattern/Convention.antt =====
-- The matching convention of Ant patterns, which the documentation of `ant_pattern_to_re` gives by
-- examples.
use domq.Prelude.{ℕ, true, false, List, [], ◌∷◌, ◌++◌, ◌≡◌, ◌⊎◌, All, Text}
use domq.Antglob.Pattern.{
  Token, slash_dirs_slash, slash_dirs, star, slash, is_sep, chunk, dirs_slash,
}
use domq.Antglob.Pattern.Language.{IsDots}

-- The piece of a path that a token stands for, in the words of the documentation. `*` is a name, and
-- so has no separator; `/**/` is one separator, or two with any directories between them; `**/` is
-- nothing or directories with a separator behind them; `/**` is a separator and all that follows.
-- The directories have no newline, which the dot of the expression does not stand for.
abbrev pub IsPiece : ℕ → Token → Text → Type 0
IsPiece os_sep slash_dirs_slash piece =
    (c : ℕ) × (is_sep os_sep c ≡ true)
    × ((piece ≡ c ∷ [])
        ⊎ ((dir : Text) × (d : ℕ) × IsDots os_sep dir
            × (is_sep os_sep d ≡ true)
            × (piece ≡ c ∷ (dir ++ d ∷ []))))
IsPiece os_sep dirs_slash piece =
    (piece ≡ [])
    ⊎ ((dir : Text) × (d : ℕ) × IsDots os_sep dir
        × (is_sep os_sep d ≡ true)
        × (piece ≡ dir ++ d ∷ []))
IsPiece os_sep slash_dirs piece =
    (c : ℕ) × (more : Text) × (is_sep os_sep c ≡ true) × IsDots os_sep more × (piece ≡ c ∷ more)
IsPiece os_sep star piece = All (λ (c : ℕ). is_sep os_sep c ≡ false) piece
IsPiece os_sep slash piece = (c : ℕ) × (is_sep os_sep c ≡ true) × (piece ≡ c ∷ [])
IsPiece os_sep (chunk s) piece = piece ≡ s

-- A path that is cut into a piece for each token. `$` lets one newline follow.
abbrev pub IsCut : ℕ → List Token → Text → Type 0
IsCut os_sep [] path = (path ≡ []) ⊎ (path ≡ 10 ∷ [])
IsCut os_sep (token ∷ more) path =
    (piece : Text) × (rest : Text) × IsPiece os_sep token piece
    × IsCut os_sep more rest
    × (path ≡ piece ++ rest)
