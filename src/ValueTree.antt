-- ===== src/ValueTree.antt =====
-- framework/jsoncpp/test/pyjsontestrunner.py: the text that shows a JSON value as a tree, by which
-- values are compared. A dictionary is a list of members, in any order.
pub mod Heads
pub mod Paths
pub mod Shown
pub mod Distinct
pub mod Unique
pub mod Injective
pub mod Program
use domq.Prelude.{
  ℕ, zero, suc, ◌+◌, ◌==◌, if◌then◌else◌, Bool, true, false, List, [], ◌∷◌, ◌++◌, sort_by,
  Exception, assertion_error, index_error, Result, ok, raise, diverge, ◌>>=◌, Text, codes,
}
use domq.JsonTests.Outcome.{ℤ, pos, negsuc}
use domq.Strings.{str, text_leb, key_leb}

-- A float is the number that its bits make, with the text that `'%.16g' %` makes of it, which different
-- floats may share. A value of any other type is unexpected.
mutual
  pub data Value : Type 0 where
    dict : Members → Value
    list : Items → Value
    string : Text → Value
    int : ℤ → Value
    float : (bits : ℕ) → (digits : Text) → Value
    true_value false_value none_value unexpected : Value

  pub data Members : Type 0 where
    end_members : Members
    member : (name : Text) → Value → Members → Members

  pub data Items : Type 0 where
    end_items : Items
    item : Value → Items → Items

-- `'%d' % n`
unfoldable pub int_text : ℤ → Text
unfolding str
int_text (pos n) = str n
int_text (negsuc n) = b'-' ∷ str (suc n)

-- `path[-1] == '.'`, for a path that is not empty.
unfoldable pub ends_in_dot : Text → Bool
ends_in_dot [] = false
ends_in_dot (c ∷ []) = c == b'.'
ends_in_dot (c ∷ d ∷ t) = ends_in_dot (d ∷ t)

-- `path + suffix`
unfoldable pub stem : Text → Text
unfolding ends_in_dot
stem path = if ends_in_dot path then path else path ++ b'.' ∷ []

-- The path with its suffix. `path[-1]` of the empty path is an IndexError.
unfoldable pub start_of : Text → Result Text
unfolding stem
start_of [] = raise index_error
start_of (c ∷ path) = ok (stem (c ∷ path))

-- `path + '[%d]' % index`
unfoldable pub item_path : Text → ℕ → Text
unfolding str
item_path path index = path ++ b'[' ∷ (str index ++ b']' ∷ [])

-- `'%s=...\n' % path`
abbrev pub line : Text → Text → Text
line path shown = path ++ b'=' ∷ (shown ++ 10 ∷ [])

abbrev pub all_texts : List (Text × Text) → Text
all_texts [] = []
all_texts ((_, text) ∷ texts) = text ++ all_texts texts

-- `valueTreeToString`: what it writes, if it ends. Where it does not, what comes before is lost. The
-- texts of the members are put in the order of their names, as `names.sort()` does with the names.
unfoldable mutual
  unfolding int_text start_of item_path sort_by text_leb

  pub value_tree : Text → Value → Result Text
  value_tree path (dict members) = do
    start ← start_of path
    texts ← member_trees start members
    ok (line path (codes "{}") ++ all_texts (sort_by key_leb texts))
  value_tree path (list items) = do
    text ← item_trees path 0 items
    ok (line path (codes "[]") ++ text)
  value_tree path (string t) = ok (line path (b'"' ∷ (t ++ b'"' ∷ [])))
  value_tree path (int n) = ok (line path (int_text n))
  value_tree path (float bits t) = ok (line path t)
  value_tree path true_value = ok (line path (codes "true"))
  value_tree path false_value = ok (line path (codes "false"))
  value_tree path none_value = ok (line path (codes "null"))
  value_tree path unexpected = raise assertion_error

  pub member_trees : Text → Members → Result (List (Text × Text))
  member_trees path end_members = ok []
  member_trees path (member name value members) = do
    text ← value_tree (path ++ name) value
    rest ← member_trees path members
    ok ((name, text) ∷ rest)

  pub item_trees : Text → ℕ → Items → Result Text
  item_trees path index end_items = ok []
  item_trees path index (item value items) = do
    text ← value_tree (item_path path index) value
    rest ← item_trees path (suc index) items
    ok (text ++ rest)
