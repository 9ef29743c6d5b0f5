-- ===== src/Runs/Trees.antt =====
-- The theorems at concrete inputs, and tests: the value trees of the JSON reader's tests.
use domq.Prelude.{
  ◌≡◌, ◌≢◌, ◌↔◌, refl, ℕ, Bool, true, false, if◌then◌else◌, Option, none, some, List, [], ◌∷◌, ◌++◌,
  ok, raise, value_error, io_error, type_error, assertion_error, Result, Text, codes, same_text,
}
use domq.JsonTests.Outcome.{pos}
use domq.JsonTests.Scripts.{TestFiles, skipping, creating, generate_expected, clean_tests}
use domq.ValueTree.{
  Value, dict, list, string, int, float, true_value, unexpected, end_members, member, end_items,
  item, value_tree,
}
use domq.ValueTree.Heads.{IsFloat}
use domq.ValueTree.Paths.{IsCleanName, IsClean, as_shown}
use domq.ValueTree.Injective.{value_tree-injective}
use domq.ValueTree.Program.{Json, json_test, beside, actual_path, rewrite_path}

-- `{"a": [1, {"b": "x"}], "c": 1.5}`
abbrev inner : Value
inner = list (
    item (int (pos 1))
      (item (dict (member (codes "b") (string (codes "x")) end_members)) end_items))

abbrev sample : Value
sample = dict (
    member (codes "a") inner
      (member (codes "c") (float 4609434218613702656 (codes "1.5")) end_members))

sample_tree :
    value_tree (codes ".") sample
    ≡ ok (codes ".={}\n.a=[]\n.a[0]=1\n.a[1]={}\n.a[1].b=\"x\"\n.c=1.5\n")
unfolding value_tree
sample_tree = refl

root_list :
    value_tree (codes ".") (list (item true_value end_items)) ≡ ok (codes ".=[]\n.[0]=true\n")
unfolding value_tree
root_list = refl

no_tree : value_tree (codes ".") (list (item unexpected end_items)) ≡ raise assertion_error
unfolding value_tree
no_tree = refl

a-IsCleanName : IsCleanName (codes "a")
unfolding domq.Strings.has_char
a-IsCleanName = record { some_char = λ e. cc; no_dot = refl; no_bracket = refl; no_equals = refl }

b-IsCleanName : IsCleanName (codes "b")
unfolding domq.Strings.has_char
b-IsCleanName = record { some_char = λ e. cc; no_dot = refl; no_bracket = refl; no_equals = refl }

c-IsCleanName : IsCleanName (codes "c")
unfolding domq.Strings.has_char
c-IsCleanName = record { some_char = λ e. cc; no_dot = refl; no_bracket = refl; no_equals = refl }

number-IsFloat : IsFloat (codes "1.5")
unfolding domq.Strings.has_char
number-IsFloat = record {
  has_point = refl;
  starts = (b'1', codes ".5", refl, refl);
  one_line = refl;
}

inner-IsClean : IsClean inner
unfolding domq.Strings.has_char
inner-IsClean = (tt, ((b-IsCleanName, refl, tt, tt), tt))

sample-IsClean : IsClean sample
unfolding domq.Strings.text_leb
sample-IsClean = (a-IsCleanName, inner-IsClean, refl, (c-IsCleanName, number-IsFloat, tt, tt))

no_equals : domq.Strings.has_char b'=' (codes ".") ≡ false
unfolding domq.Strings.has_char
no_equals = refl

value_tree-injective_example :
    ((text : Text) × (value_tree (codes ".") sample ≡ ok text))
    × ((value_tree (codes ".") sample ≡ value_tree (codes ".") inner)
        ↔ (as_shown sample ≡ as_shown inner))
value_tree-injective_example =
    value_tree-injective (codes ".") sample inner (λ e. cc) no_equals sample-IsClean inner-IsClean

-- A module that reads two texts, and writes every value as the first of them.
abbrev read_text : Text → Result Value
read_text text =
    if same_text text (codes "{")
    then ok sample
    else (if same_text text (codes "[]") then ok inner else raise value_error)

abbrev dump_text : Value → Result Text
dump_text (string text) = ok text
dump_text _ = raise type_error

abbrev braces : Json
braces = record { loads = read_text; dumps = dump_text; write = λ value. ok (string (codes "{")) }

abbrev one_file : TestFiles
one_file path = if same_text path (codes "t.json") then some (codes "[]") else none

-- The program writes the three files; the last tree is that of what has been read again.
program_run :
    (last : TestFiles) × (json_test braces (codes "run" ∷ codes "t.json" ∷ []) one_file
      ≡ ok (0, last))
    × (last (rewrite_path (codes "t.json")) ≡ some (codes "{" ++ 10 ∷ []))
unfolding json_test beside domq.Prelude.same_text domq.Strings.splitext value_tree
program_run = (_, refl, refl)

rewritten : actual_path (codes "d/t.json") ≡ codes "d/t.actual"
unfolding beside domq.Strings.splitext
rewritten = refl

no_input : json_test braces (codes "run" ∷ []) one_file ≡ ok (3, one_file)
unfolding json_test
no_input = refl

-- An expected output that is there is kept.
made_expected :
    (after : TestFiles) × (generate_expected (codes "t.json" ∷ codes "t.json" ∷ []) one_file
      ≡ ok (creating (codes "t.expected") ∷ skipping (codes "t.expected") ∷ [], after))
    × (after (codes "t.expected") ≡ some (codes "[]"))
unfolding generate_expected domq.Prelude.same_text
made_expected = (_, refl, refl)

-- A file that `glob` finds twice is missing when it is removed again.
cleaned : clean_tests (λ pattern. codes "t.json" ∷ []) one_file ≡ raise io_error
unfolding clean_tests domq.Prelude.same_text
cleaned = refl
