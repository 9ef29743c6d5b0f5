-- ===== src/SconsTime/Results/Getters.antt =====
-- `get_debug_times`, `get_function_profile`, `get_memory` and `get_object_counts`, on what a file holds.
use domq.Prelude.{
  ℕ, if◌then◌else◌, Option, none, some, List, [], ◌∷◌, ◌++◌, take, index_error, Result, ok, raise,
  ◌>>=◌, Text, codes, same_text,
}
use domq.Fixeol.{readlines}
use domq.JsonTests.Outcome.{starts_with}
use domq.Strings.{int_of, words}
use domq.SconsTime.Names.{ends_with}
use domq.SconsTime.Results.{Measured, nothing, one, several, last_of, item}

-- The whole seconds of the floats of `re.findall( search_string + ': ([\d\.]*)', contents )`, which are `findall` and
-- `float`.
module _ (findall : Text → Text → List Text) (float : Text → Result ℕ) where
  unfoldable pub floats : List Text → Result (List ℕ)
  floats [] = ok []
  floats (t ∷ texts) = do value ← float t; values ← floats texts; ok (value ∷ values)

  -- Without a timer all values are returned, and with one the first, if there is one.
  abbrev pub chosen : Option Text → List ℕ → Measured
  chosen none values = several values
  chosen (some timer) [] = nothing
  chosen (some timer) (v ∷ values) = one v

  abbrev pub search_string : Option Text → Text
  search_string none = codes "Total .* time"
  search_string (some timer) = timer

  unfoldable pub get_debug_times : Option Text → Text → Result Measured
  unfolding floats
  get_debug_times time_string [] = ok nothing
  get_debug_times time_string (c ∷ contents) = do
    values ←
        floats
          (last_of 4 (findall (search_string time_string ++ codes ": ([\\d\\.]*)") (c ∷ contents)))
    ok (chosen time_string values)

-- An entry of `pstats.Stats(file).stats`: the file, the line and the name of a function, and its
-- cumulative time.
pub record Entry : Type 0 where
  pub file : Text
  pub line_no : ℕ
  pub function : Text
  pub cumulative : ℕ

abbrev pub first_entry : List Entry → Result Entry
first_entry [] = raise index_error
first_entry (e ∷ entries) = ok e

unfoldable pub matching : Text → List Entry → List Entry
unfolding same_text
matching function [] = []
matching function (e ∷ entries) =
    let rest = matching function entries in if same_text e.function function then e ∷ rest else rest

unfoldable pub get_function_profile : Text → List Entry → Result Entry
unfolding matching
get_function_profile function statistics = first_entry (matching function statistics)

unfoldable pub get_function_time : Text → List Entry → Result Measured
unfolding get_function_profile
get_function_time function statistics = do
  e ← get_function_profile function statistics
  ok (one e.cumulative)

abbrev pub last_word : List Text → Result Text
last_word [] = raise index_error
last_word (w ∷ []) = ok w
last_word (w ∷ v ∷ ws) = last_word (v ∷ ws)

unfoldable pub starting_with : Text → List Text → List Text
unfolding starts_with
starting_with s [] = []
starting_with s (l ∷ lines) =
    let rest = starting_with s lines in if starts_with s l then l ∷ rest else rest

unfoldable pub last_numbers : List Text → Result (List ℕ)
unfolding words int_of
last_numbers [] = ok []
last_numbers (l ∷ lines) = do
  word ← last_word (words l)
  n ← int_of word
  rest ← last_numbers lines
  ok (n ∷ rest)

abbrev pub one_or_several : List ℕ → Measured
one_or_several (n ∷ []) = one n
one_or_several numbers = several numbers

abbrev pub memory_string : Option Text → Text
memory_string none = codes "Memory "
memory_string (some s) = s

unfoldable pub get_memory : Option Text → Text → Result Measured
unfolding starting_with last_numbers readlines
get_memory string contents = do
  numbers ← last_numbers (last_of 4 (starting_with (memory_string string) (readlines contents)))
  ok (one_or_several numbers)

unfoldable pub ending_with : Text → List Text → List Text
unfolding same_text
ending_with s [] = []
ending_with s (l ∷ lines) =
    let rest = ending_with s lines in if ends_with s l then l ∷ rest else rest

unfoldable pub numbers_of : List Text → Result (List ℕ)
unfolding int_of
numbers_of [] = ok []
numbers_of (field ∷ fields) = do n ← int_of field; rest ← numbers_of fields; ok (n ∷ rest)

abbrev pub counted : Option ℕ → List ℕ → Result Measured
counted none numbers = ok (several numbers)
counted (some index) numbers = do n ← item index numbers; ok (one n)

unfoldable pub get_object_counts : Text → Option ℕ → Text → Result Measured
unfolding ending_with numbers_of readlines words
get_object_counts object_name index contents = do
  l ← item 0 (ending_with (32 ∷ object_name ++ 10 ∷ []) (readlines contents))
  numbers ← numbers_of (take 4 (words l))
  counted index numbers
