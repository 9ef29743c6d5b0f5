-- ===== src/Runs/Tools.antt =====
-- The theorems at concrete inputs, and tests: the tools that prepare a release.
use mathlib.Core.List.{Perm}
use domq.Prelude.{◌≡◌, refl, true, false, [], ◌∷◌, ◌++◌, map, ok, arith, Text}
use domq.Fixeol.{lf, cr, readlines, rstrip, fixed_lines, source, fix_source_eol}
use domq.Fixeol.Laws.{unix, windows, fix_source_eol-lines, fix_source_eol_idem}
use domq.Antglob.Walk.{Entries, end, entry, file, dir}
use domq.Tarball.{archive_name, join_prefix, make_tarball}
use domq.Tarball.Names.{archive_name-collide}
use domq.Tarball.Members.{files_of, make_tarball-perm}

-- Two lines, the first with a carriage return too many, the second without a newline.
abbrev contents : Text
contents = b'a' ∷ cr ∷ lf ∷ b'b' ∷ []

fix_source_eol-lines_example :
    (after : Text) × (fix_source_eol (source contents) false (lf ∷ []) ≡ (ok true, source after))
    × (readlines after ≡ fixed_lines (lf ∷ []) (readlines contents))
    × (map rstrip (readlines after) ≡ map rstrip (readlines contents))
fix_source_eol-lines_example = fix_source_eol-lines contents (lf ∷ []) (unix refl)

contents_fixed :
    fix_source_eol (source contents) false (lf ∷ [])
    ≡ (ok true, source (b'a' ∷ lf ∷ b'b' ∷ lf ∷ []))
unfolding fix_source_eol
contents_fixed = refl

fix_source_eol_idem_example :
    (fix_source_eol (fix_source_eol (source contents) false (cr ∷ lf ∷ [])).1 false (cr ∷ lf ∷ [])
      ≡ (ok true, (fix_source_eol (source contents) false (cr ∷ lf ∷ [])).1))
    × (fix_source_eol (source contents) true (cr ∷ lf ∷ []) ≡ (ok true, source contents))
fix_source_eol_idem_example = fix_source_eol_idem contents (cr ∷ lf ∷ []) false (windows refl)

-- Paths that are absolute and normalised.
abbrev same : Text → Text
same path = path

-- /lib, the prefix p, and the files /lib/raries and /libraries.
abbrev base : Text
base = b'/' ∷ b'l' ∷ b'i' ∷ b'b' ∷ []

abbrev raries : Text
raries = b'r' ∷ b'a' ∷ b'r' ∷ b'i' ∷ b'e' ∷ b's' ∷ []

archive_name-collide_example :
    (archive_name same base (b'p' ∷ []) (base ++ b'/' ∷ raries) ≡ join_prefix (b'p' ∷ []) raries)
    × (archive_name same base (b'p' ∷ []) (base ++ raries) ≡ join_prefix (b'p' ∷ []) raries)
archive_name-collide_example =
    archive_name-collide same base (b'p' ∷ []) (base ++ b'/' ∷ raries) (base ++ raries) b'r'
      (b'a' ∷ b'r' ∷ b'i' ∷ b'e' ∷ b's' ∷ []) (omega arith) refl refl

-- A directory with the directory d, in which the file x stands, and the file y.
abbrev sources : Entries
sources =
    entry (b'd' ∷ []) (dir false (entry (b'x' ∷ []) (file false) end))
      (entry (b'y' ∷ []) (file false) end)

make_tarball-perm_example :
    Perm
      (make_tarball same base (b'p' ∷ []) ((base, dir false sources) ∷ []))
      (map (λ r. (base ++ b'/' ∷ r, join_prefix (b'p' ∷ []) r)) (files_of sources))
make_tarball-perm_example =
    make_tarball-perm same base (b'p' ∷ []) false sources ((λ e. cc), refl)
      (((λ e. cc), refl), ((((λ e. cc), refl), (tt, tt)), (((λ e. cc), refl), (tt, tt))))
      (unfold files_of in (refl, (refl, tt)))
