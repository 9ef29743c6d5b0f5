-- ===== src/Sconsign/Modules.antt =====
-- framework/jsoncpp/sconsign.py: which database module is for a file (`my_whichdb`), and the import of
-- a module by a name with dots (`my_import`).
pub mod Order
use domq.Prelude.{
  ℕ, zero, suc, ◌-◌, if◌then◌else◌, Bool, Option, none, some, List, ◌∷◌, ◌++◌, length, drop, Result,
  ok, diverge, ◌>>=◌, Text, codes, same_text,
}
use domq.Strings.{last_dot}

abbrev pub dblite : Text
dblite = codes ".dblite"

-- `my_whichdb`, for the files that can be opened, and for the answer of Python's own `whichdb`.
unfoldable pub my_whichdb : (Text → Bool) → (Text → Option Text) → Text → Option Text
my_whichdb opens orig_whichdb filename =
    if same_text (drop (length filename - 7) filename) dblite
    then some (codes "SCons.dblite")
    else (if opens (filename ++ dblite) then some (codes "SCons.dblite") else orig_whichdb filename)

-- `imp.find_module` and `imp.load_module`, one after the other: a module under its full name, which is
-- looked for by its last name on the path of its parent, or on the search path.
pub record Importer : Type 1 where
  pub Module : Type 0
  pub import_one : (full_name name : Text) → Option Module → Result Module

module _ (importer : Importer) where
  open importer use {Module, import_one}

  abbrev pub import_cut : Text → (Text → Result Module) → Option (Text × Text) → Result Module
  import_cut name import_parent none = import_one name name none
  import_cut name import_parent (some (parent_name, ext)) = do
    parent ← import_parent parent_name
    import_one name (drop 1 ext) (some parent)

  -- `my_import`, with a round of fuel for each name.
  unfoldable pub import_within : ℕ → Text → Result Module
  unfolding last_dot
  import_within zero name = diverge
  import_within (suc fuel) name =
      import_cut name (λ parent. import_within fuel parent) (last_dot name)

  unfoldable pub my_import : Text → Result Module
  unfolding import_within
  my_import name = import_within (suc (length name)) name
