-- ===== src/Tarball.antt =====
-- framework/jsoncpp/devtools/tarball.py: which files go into an archive, and under which names. The
-- archive that `tarfile` writes is the list of its members.
pub mod Names
pub mod Members
use domq.Prelude.{
  ℕ, ◌==◌, if◌then◌else◌, Bool, true, false, List, [], ◌∷◌, ◌++◌, length, drop, Text,
}
use domq.Antglob.Walk.{Node, file, dir, other, Entries, end, entry, join}

abbrev pub slash_code : ℕ
slash_code = b'/'

-- `os.path.commonprefix` of two paths, which compares characters and not path components.
unfoldable pub commonprefix : Text → Text → Text
commonprefix [] t = []
commonprefix (a ∷ s) [] = []
commonprefix (a ∷ s) (b ∷ t) = let rest = commonprefix s t in if a == b then a ∷ rest else []

-- `if os.path.isabs( archive_name ): archive_name = archive_name[1:]`
unfoldable pub drop_root : Text → Text
drop_root [] = []
drop_root (c ∷ t) = if c == slash_code then t else c ∷ t

-- `os.path.join( prefix_dir, archive_name )`
unfoldable pub join_prefix : Text → Text → Text
unfolding join
join_prefix prefix_dir [] = join slash_code prefix_dir []
join_prefix prefix_dir (c ∷ name) =
    if c == slash_code then c ∷ name else join slash_code prefix_dir (c ∷ name)

-- A member of an archive: the file that it is read from, and its name in the archive.
abbrev pub Member : Type 0
Member = Text × Text

-- `norm` is `os.path.normpath( os.path.abspath( path ) )` in the directory where the tool runs.
module _ (norm : Text → Text) (base_dir prefix_dir : Text) where
  unfoldable pub archive_name : Text → Text
  unfolding commonprefix drop_root join_prefix
  archive_name path =
      let common_path = commonprefix (norm base_dir) (norm path) in
      join_prefix prefix_dir (drop_root (drop (length common_path) (norm path)))

  -- `visit`, for the names in one directory: `os.path.isfile` follows symbolic links.
  unfoldable pub visit : Text → Entries → List Member
  unfolding archive_name join
  visit dirname end = []
  visit dirname (entry name (file link) more) =
      (join slash_code dirname name, archive_name (join slash_code dirname name))
      ∷ visit dirname more
  visit dirname (entry name (dir link sub) more) = visit dirname more
  visit dirname (entry name other more) = visit dirname more

  -- `os.path.walk( path, visit, tar )`: a directory's files, and then its directories, where a
  -- symbolic link is none.
  unfoldable mutual
    pub walk_dirs : Text → Entries → List Member
    walk_dirs path end = []
    walk_dirs path (entry name node more) =
        walk_node (join slash_code path name) node ++ walk_dirs path more

    pub walk_node : Text → Node → List Member
    walk_node path (file link) = []
    walk_node path (dir link sub) = if link then [] else visit path sub ++ walk_dirs path sub
    walk_node path other = []

  -- The `for` loop of `make_tarball` over the sources, each with what is found at its path.
  unfoldable pub make_tarball : List (Text × Node) → List Member
  unfolding walk_dirs visit
  make_tarball [] = []
  make_tarball ((source, dir link es) ∷ more) =
      (visit source es ++ walk_dirs source es) ++ make_tarball more
  make_tarball ((source, file link) ∷ more) = (source, archive_name source) ∷ make_tarball more
  make_tarball ((source, other) ∷ more) = (source, archive_name source) ∷ make_tarball more
