-- ===== src/Tarball/Names.antt =====
-- The names that files get in an archive.
use domq.Prelude.{
  ℕ, [], ◌∷◌, ◌++◌, ◌≡◌, ◌≢◌, refl, ap, ◌∙◌, arith, drop-append_length, ==_iff, Text,
}
use domq.Tarball.{slash_code, commonprefix, drop_root, join_prefix, archive_name}

commonprefix-append : (p rest : Text) → commonprefix p (p ++ rest) ≡ p
unfolding commonprefix
commonprefix-append [] rest = refl
commonprefix-append (c ∷ p) rest = rw ((==_iff c c).1 refl, commonprefix-append p rest)

drop_root-slash : (rest : Text) → drop_root (slash_code ∷ rest) ≡ rest
unfolding drop_root
drop_root-slash rest = refl

drop_root-other : (c : ℕ) (rest : Text) → c ≢ slash_code → drop_root (c ∷ rest) ≡ c ∷ rest
unfolding drop_root
drop_root-other c rest h = ground arith

archive_name-append :
    (norm : Text → Text) (base_dir prefix_dir path rest : Text)
    → norm path ≡ norm base_dir ++ rest
    → archive_name norm base_dir prefix_dir path ≡ join_prefix prefix_dir (drop_root rest)
unfolding archive_name
archive_name-append norm base_dir prefix_dir path rest e =
    rw (e, commonprefix-append (norm base_dir) rest, drop-append_length (norm base_dir) rest)

pub archive_name-below :
    (norm : Text → Text) (base_dir prefix_dir path rest : Text)
    → norm path ≡ norm base_dir ++ slash_code ∷ rest
    → archive_name norm base_dir prefix_dir path ≡ join_prefix prefix_dir rest
archive_name-below norm base_dir prefix_dir path rest e =
    archive_name-append norm base_dir prefix_dir path (slash_code ∷ rest) e
    ∙ ap (join_prefix prefix_dir) (drop_root-slash rest)

-- A file below the base directory gets the name that it has relative to it, behind the prefix. A
-- path that only starts with the same characters, as `libraries` does for the base directory `lib`,
-- gets the name that the file `raries` below the base directory has too.
pub archive_name-collide :
    (norm : Text → Text) (base_dir prefix_dir below beside : Text) (c : ℕ) (rest : Text)
    → c ≢ slash_code
    → norm below ≡ norm base_dir ++ slash_code ∷ c ∷ rest
    → norm beside ≡ norm base_dir ++ c ∷ rest
    → (archive_name norm base_dir prefix_dir below ≡ join_prefix prefix_dir (c ∷ rest))
      × (archive_name norm base_dir prefix_dir beside ≡ join_prefix prefix_dir (c ∷ rest))
archive_name-collide norm base_dir prefix_dir below beside c rest other h k = (
  archive_name-below norm base_dir prefix_dir below (c ∷ rest) h,
  archive_name-append norm base_dir prefix_dir beside (c ∷ rest) k
      ∙ ap (join_prefix prefix_dir) (drop_root-other c rest other),
)
