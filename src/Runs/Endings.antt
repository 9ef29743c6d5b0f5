-- ===== src/Runs/Endings.antt =====
-- The theorems at concrete inputs, and tests: the line endings of a release.
use domq.Prelude.{◌≡◌, refl, [], ◌∷◌, if◌then◌else◌, ok, Text}
use domq.Fixeol.{lf, source}
use domq.Release.Sftp.{is_in}
use domq.Release.Sources.{Store, fix_sources_eol}
use domq.Release.Sources.Store.{fixed, win_fixed, fix_sources_eol_lem}

-- The same two lines at every path.
abbrev two_lines : Store
two_lines q = source (b'a' ∷ lf ∷ b'b' ∷ [])

fix_sources_eol_lem_example :
    (after : Store) × (fix_sources_eol ((b's' ∷ []) ∷ []) ((b'h' ∷ []) ∷ []) two_lines ≡ ok after)
    × ((q : Text)
        → after q ≡ (
            if is_in q ((b'h' ∷ []) ∷ [])
            then fixed (lf ∷ []) (win_fixed ((b's' ∷ []) ∷ []) two_lines q)
            else win_fixed ((b's' ∷ []) ∷ []) two_lines q))
fix_sources_eol_lem_example =
    fix_sources_eol_lem ((b's' ∷ []) ∷ []) ((b'h' ∷ []) ∷ []) two_lines
      (λ q i. (b'a' ∷ lf ∷ b'b' ∷ [], refl)) (λ q i. (b'a' ∷ lf ∷ b'b' ∷ [], refl))
