-- ===== src/Antglob/Walk.antt =====
-- `glob`: the walk through a directory tree that keeps the paths which the patterns ask for.
pub mod Select
use Prim.Native.Nat.{bit_and}
use domq.Prelude.{
  map, ◌+◌, ℕ, zero, suc, ◌==◌, if◌then◌else◌, Bool, true, false, not, ◌&&◌, ◌||◌, List, [], ◌∷◌,
  ◌++◌, Result, ok, diverge, ◌>>=◌, Text,
}
use domq.Antglob.Pattern.{Part, ant_pattern_to_re, re_match}

-- A directory tree as `os.listdir`, `os.path.isdir`, `isfile` and `islink` show it. The flag tells
-- a symbolic link from what it leads to; `other` is neither file nor directory.
mutual
  pub data Node : Type 0 where
    file : Bool → Node
    dir : Bool → Entries → Node
    other : Node

  pub data Entries : Type 0 where
    end : Entries
    entry : Text → Node → Entries → Entries

-- The values of DIR, FILE, DIR_LINK and FILE_LINK.
abbrev pub entry_type : Node → ℕ
entry_type (file link) = if link then 8 else 2
entry_type (dir link _) = if link then 4 else 1
entry_type other = 0

-- `path.replace('/', os.path.sep)`
unfoldable pub replace_slash : ℕ → Text → Text
replace_slash os_sep [] = []
replace_slash os_sep (c ∷ t) = (if c == b'/' then os_sep else c) ∷ replace_slash os_sep t

abbrev pub ends_with : ℕ → Text → Bool
ends_with x [] = false
ends_with x (c ∷ []) = c == x
ends_with x (c ∷ d ∷ t) = ends_with x (d ∷ t)

-- `os.path.join` of a directory and the name of an entry, which holds no separator.
unfoldable pub join : ℕ → Text → Text → Text
join os_sep [] name = name
join os_sep (c ∷ path) name =
    if ends_with os_sep (c ∷ path) then c ∷ path ++ name else c ∷ path ++ os_sep ∷ name

-- `any` over a list, as the loops of `is_pruned_dir` and `apply_filter` make it.
unfoldable pub any_of {ℓ} : {A : Type ℓ} → (A → Bool) → List A → Bool
any_of test [] = false
any_of test (x ∷ xs) = test x || any_of test xs

-- `[ant_pattern_to_re(p) for p in patterns]`
unfoldable pub compile_all : List Text → Result (List (List Part))
compile_all [] = ok []
compile_all (p ∷ more) = do rex ← ant_pattern_to_re p; rexs ← compile_all more; ok (rex ∷ rexs)

-- What `glob` is given, its patterns translated. `fnmatch` is the function of Python's library.
pub record Search : Type 0 where
  pub os_sep : ℕ
  pub fnmatch : Text → Text → Bool
  pub include_filter : List (List Part)
  pub exclude_filter : List (List Part)
  pub entry_type_filter : ℕ
  pub prune_dirs : List Text

module _ (s : Search) where
  unfoldable pub is_pruned_dir : Text → Bool
  unfolding any_of
  is_pruned_dir name = any_of (s.fnmatch name) s.prune_dirs

  unfoldable pub apply_filter : Text → List (List Part) → Bool
  unfolding any_of re_match
  apply_filter path rexs = any_of (λ rex. re_match s.os_sep rex path) rexs

  -- The tests behind which an entry is yielded.
  unfoldable pub is_kept : Text → Node → Bool
  unfolding apply_filter
  is_kept path node =
      apply_filter path s.include_filter
      && not (apply_filter path s.exclude_filter)
      && not (entry_type node == 0)
      && not (bit_and (entry_type node) s.entry_type_filter == 0)

  abbrev pub Dirs : Type 0
  Dirs = List (Text × Entries)

  -- The body of the walk for one entry's directory: it is put on the stack if it is not pruned.
  unfoldable pub push : Text → Text → Node → Dirs → Dirs
  unfolding is_pruned_dir
  push path name (dir link sub) stack = if is_pruned_dir name then stack else (path, sub) ∷ stack
  push path name (file link) stack = stack
  push path name other stack = stack

  -- The `for` loop over the entries of one directory: the stack of directories and the paths found.
  unfoldable pub visit : Text → Entries → Dirs → List Text → Dirs × List Text
  unfolding push is_kept join
  visit path end stack found = (stack, found)
  visit path (entry name node more) stack found =
      let full_path = join s.os_sep path name in
      visit path more (push full_path name node stack)
        (if is_kept full_path node then found ++ full_path ∷ [] else found)

  -- The `while` loop: the directory that was put on the stack last is visited first.
  unfoldable pub walk : ℕ → Dirs → List Text → Result (List Text)
  unfolding visit
  walk fuel [] found = ok found
  walk zero (d ∷ stack) found = diverge
  walk (suc fuel) ((path, es) ∷ stack) found =
      let (stack', found') = visit path es stack found in walk fuel stack' found'

-- The entries of a tree, and of the trees below it.
unfoldable mutual
  pub size_node : Node → ℕ
  size_node (dir link es) = size_entries es
  size_node (file link) = 0
  size_node other = 0

  pub size_entries : Entries → ℕ
  size_entries end = 0
  size_entries (entry name node more) = suc (size_node node) + size_entries more

-- `glob`, for a directory that is there. A round for each entry is enough.
unfoldable pub glob :
    (os_sep : ℕ) (fnmatch : Text → Text → Bool) (dir_path : Text) (entries : Entries)
    (includes excludes : List Text) (entry_type : ℕ) (prune_dirs : List Text)
    → Result (List Text)
unfolding walk compile_all
glob os_sep fnmatch dir_path entries includes excludes entry_type prune_dirs = do
  include_filter ← compile_all includes
  exclude_filter ← compile_all excludes
  let s : Search = record {
    os_sep = os_sep;
    fnmatch = fnmatch;
    include_filter = include_filter;
    exclude_filter = exclude_filter;
    entry_type_filter = entry_type;
    prune_dirs = map (replace_slash os_sep) prune_dirs;
  }
  walk s (suc (size_entries entries)) ((replace_slash os_sep dir_path, entries) ∷ []) []
