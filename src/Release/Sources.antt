-- ===== src/Release/Sources.antt =====
-- `fix_sources_eol`: one kind of line ending for the sources of a release. `glob` gives the two lists
-- of paths; a store says what stands at each path.
pub mod Store
use domq.Prelude.{if◌then◌else◌, Bool, false, List, [], ◌∷◌, Result, ok, ◌>>=◌, Text, same_text}
use domq.Fixeol.{lf, cr, Source, fix_source_eol}

abbrev pub Store : Type 0
Store = Text → Source

abbrev pub with_file : Store → Text → Source → Store
with_file store path file q = if same_text q path then file else store q

-- One of the two loops, whose calls of `fix_source_eol` are no dry runs.
unfoldable pub fix_all : List Text → Text → Store → Result Store
fix_all [] eol store = ok store
fix_all (path ∷ paths) eol store = do
  _ ← (fix_source_eol (store path) false eol).0
  fix_all paths eol (with_file store path (fix_source_eol (store path) false eol).1)

unfoldable pub fix_sources_eol : List Text → List Text → Store → Result Store
unfolding fix_all
fix_sources_eol win_sources unix_sources store = do
  after ← fix_all win_sources (cr ∷ lf ∷ []) store
  fix_all unix_sources (lf ∷ []) after
