-- ===== src/JsonTests/Scripts.antt =====
-- framework/jsoncpp/test/generate_expected.py and cleantests.py: the scripts that make the expected
-- outputs of the tests, and that remove what a run of the tests leaves.
use domq.Prelude.{
  if◌then◌else◌, Option, none, some, List, [], ◌∷◌, ◌++◌, Result, ok, raise, io_error, ◌>>=◌, Text,
  codes, same_text,
}
use domq.Strings.{splitext}

-- What stands at each path.
abbrev pub TestFiles : Type 0
TestFiles = Text → Option Text

abbrev pub put_text : Text → Text → TestFiles → TestFiles
put_text path text files other = if same_text other path then some text else files other

abbrev pub text_or_error : Option Text → Result Text
text_or_error none = raise io_error
text_or_error (some text) = ok text

-- `file(path, 'rt').read()`
abbrev pub read_file : Text → TestFiles → Result Text
read_file path files = text_or_error (files path)

-- `os.path.splitext(path)[0] + '.expected'`
unfoldable pub expected_path : Text → Text
unfolding splitext
expected_path path = (splitext path).0 ++ codes ".expected"

-- What the script prints of a path.
pub data Notice : Type 0 where
  skipping : Text → Notice
  creating : Text → Notice

abbrev pub put_expected : Text → Text → Option Text → TestFiles → Notice × TestFiles
put_expected target text (some _) files = (skipping target, files)
put_expected target text none files = (creating target, put_text target text files)

-- generate_expected.py, for the paths that `glob` finds.
unfoldable pub generate_expected : List Text → TestFiles → Result (List Notice × TestFiles)
unfolding expected_path
generate_expected [] files = ok ([], files)
generate_expected (path ∷ paths) files = do
  text ← read_file path files
  let (notice, after) = put_expected (expected_path path) text (files (expected_path path)) files
  (notices, last) ← generate_expected paths after
  ok (notice ∷ notices, last)

-- `os.unlink(path)`, where a missing file is an OSError.
abbrev pub unlink : Text → TestFiles → Result TestFiles
unlink path files = do
  _ ← read_file path files
  ok (λ other. if same_text other path then none else files other)

abbrev pub unlink_all : List Text → TestFiles → Result TestFiles
unlink_all [] files = ok files
unlink_all (path ∷ paths) files = do after ← unlink path files; unlink_all paths after

abbrev pub found_paths : (Text → List Text) → List Text → List Text
found_paths glob [] = []
found_paths glob (pattern ∷ patterns) = glob (codes "data/" ++ pattern) ++ found_paths glob patterns

abbrev pub left_patterns : List Text
left_patterns =
    codes "*.actual" ∷ codes "*.actual-rewrite" ∷ codes "*.rewrite" ∷ codes "*.process-output" ∷ []

-- cleantests.py, for what `glob` finds.
unfoldable pub clean_tests : (Text → List Text) → TestFiles → Result TestFiles
clean_tests glob files = unlink_all (found_paths glob left_patterns) files
