-- ===== src/ValueTree/Program.antt =====
-- framework/jsoncpp/test/pyjsontestrunner.py as a program: it writes the tree of a value that it has
-- read, writes the value as JSON, reads this back, and writes the tree of what it has read. An
-- exception ends the program, and what it had written till then is not kept.
use domq.Prelude.{ℕ, List, [], ◌∷◌, ◌++◌, Result, ok, ◌>>=◌, Text, codes}
use domq.Strings.{splitext}
use domq.JsonTests.Scripts.{TestFiles, put_text, read_file}
use domq.ValueTree.{Value, value_tree}

-- What the `json` module offers. The `write` of json-py is no function of Python's own module.
pub record Json : Type 0 where
  pub loads : Text → Result Value
  pub dumps : Value → Result Text
  pub write : Value → Result Value

-- `base_path + suffix`
unfoldable pub beside : Text → Text → Text
unfolding splitext
beside input_path suffix = (splitext input_path).0 ++ suffix

abbrev pub actual_path : Text → Text
actual_path input_path = beside input_path (codes ".actual")

abbrev pub rewrite_path : Text → Text
rewrite_path input_path = beside input_path (codes ".rewrite")

abbrev pub rewrite_actual_path : Text → Text
rewrite_actual_path input_path = beside input_path (codes ".actual-rewrite")

-- `parseAndSaveValueTree`
unfoldable pub parse_and_save_value_tree :
    Json → Text → Text → TestFiles → Result (Value × TestFiles)
unfolding value_tree
parse_and_save_value_tree json input actual_path files = do
  root ← json.loads input
  text ← value_tree (codes ".") root
  ok (root, put_text actual_path text files)

-- `rewriteValueTree`
unfoldable pub rewrite_value_tree : Json → Value → Text → TestFiles → Result (Text × TestFiles)
rewrite_value_tree json value rewrite_path files = do
  rewrite ← json.dumps value
  ok (rewrite, put_text rewrite_path (rewrite ++ 10 ∷ []) files)

-- The program, with its exit status.
unfoldable pub json_test : Json → List Text → TestFiles → Result (ℕ × TestFiles)
unfolding parse_and_save_value_tree rewrite_value_tree
json_test json (program ∷ input_path ∷ []) files = do
  input ← read_file input_path files
  (root, parsed) ← parse_and_save_value_tree json input (actual_path input_path) files
  written ← json.write root
  (rewrite, saved) ← rewrite_value_tree json written (rewrite_path input_path) parsed
  (again, last) ← parse_and_save_value_tree json rewrite (rewrite_actual_path input_path) saved
  ok (0, last)
json_test json _ files = ok (3, files)
