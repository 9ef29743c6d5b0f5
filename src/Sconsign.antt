-- ===== src/Sconsign.antt =====
-- framework/jsoncpp/sconsign.py: the printing of the signatures that the build tool keeps.
pub mod Fields
pub mod Files
pub mod Options
pub mod Modules
use domq.Prelude.{
  ℕ, zero, suc, ◌==◌, if◌then◌else◌, Bool, true, false, not, Option, none, some, List, [], ◌∷◌,
  ◌++◌, sort_by, Exception, key_error, index_error, type_error, Result, ok, raise, diverge, ◌>>=◌,
  Text, codes, same_text,
}
use domq.Strings.{str, has_char, text_leb}

-- `Flagger`: the items that have been set, the last one first, and the value of the others.
pub record Flagger : Type 0 where
  pub values : List (Text × ℕ)
  pub default_value : ℕ

abbrev pub no_flags : Flagger
no_flags = record { values = []; default_value = 1 }

-- `__setitem__` and `__getitem__`
unfoldable pub set_item : Text → ℕ → Flagger → Flagger
set_item item value f = record { values = (item, value) ∷ f.values; default_value = 0 }

unfoldable pub value_or : Text → ℕ → List (Text × ℕ) → ℕ
value_or item default [] = default
value_or item default ((name, value) ∷ values) =
    let rest = value_or item default values in if same_text name item then value else rest

unfoldable pub get_item : Text → Flagger → ℕ
unfolding value_or same_text
get_item item f = value_or item f.default_value f.values

-- The information on a node: its `field_list`, the texts of its attributes by `str` and by `repr`,
-- and what stands in it of an action and of a time.
pub record NodeInfo : Type 0 where
  pub field_list : Option (List Text)
  pub as_str : List (Text × Text)
  pub as_repr : List (Text × Text)
  pub action : Option (Text × Text)
  pub timestamp : Option ℕ

-- The information on a build has the nodes that were used and their signatures too.
pub record BuildInfo : Type 0 where
  pub info : NodeInfo
  pub bkids : Option (List Text × List NodeInfo)

-- The global variables that options set, with Python's `repr` of a text and `time.ctime`.
pub record Settings : Type 0 where
  pub print_directories : List Text
  pub print_entries : List Text
  pub print_flags : Flagger
  pub verbose : Bool
  pub readable : Bool
  pub raw : Bool
  pub repr : Text → Text
  pub ctime : ℕ → Text

unfoldable pub attribute : Text → List (Text × Text) → Text
unfolding same_text
attribute name [] = codes "None"
attribute name ((key, value) ∷ attributes) =
    let rest = attribute name attributes in if same_text key name then value else rest

abbrev pub action_text : Option (Text × Text) → Option Text
action_text none = none
action_text (some (bact, bactsig)) = some (bactsig ++ codes " [" ++ bact ++ codes "]")

-- `map_timestamp`. A time of 0 counts as none when it is to be readable.
abbrev pub time_text : Settings → Option ℕ → Text
time_text s none = codes "None"
time_text s (some zero) = codes "0"
time_text s (some (suc t)) = if s.readable then 39 ∷ s.ctime (suc t) ++ 39 ∷ [] else str (suc t)

-- The mapper of a field; `kids` is what `map_bkids` returns.
unfoldable pub mapped : Settings → Option Text → NodeInfo → Text → Option Text
unfolding attribute str
mapped s kids entry name =
    if same_text name (codes "action")
    then action_text entry.action
    else (if same_text name (codes "timestamp")
        then some (time_text s entry.timestamp)
        else (if same_text name (codes "bkids")
            then kids
            else (if same_text name (codes "implicit")
                then kids
                else some (attribute name entry.as_str))))

-- `name + ": " + val`, which fails for None.
abbrev pub labelled : Bool → Text → Option Text → Result (Option Text)
labelled false name val = ok val
labelled true name none = raise type_error
labelled true name (some val) = ok (some (name ++ codes ": " ++ val))

unfoldable pub field : Settings → Option Text → Bool → Text → NodeInfo → Result (Option Text)
unfolding get_item mapped
field s kids verbose name entry =
    if get_item name s.print_flags == 0
    then ok none
    else labelled verbose name (mapped s kids entry name)

-- `filter( None, ... )`
abbrev pub kept_text : Option Text → List Text → List Text
kept_text none texts = texts
kept_text (some []) texts = texts
kept_text (some (c ∷ t)) texts = (c ∷ t) ∷ texts

unfoldable pub fields : Settings → List Text → NodeInfo → Result (List Text)
unfolding field
fields s [] entry = ok []
fields s (name ∷ names) entry = do
  text ← field s none s.verbose name entry
  rest ← fields s names entry
  ok (kept_text text rest)

-- `string.join( first :: texts, sep )`
unfoldable pub join : Text → Text → List Text → Text
join sep first [] = first
join sep first (t ∷ texts) = first ++ sep ++ join sep t texts

abbrev pub names_or_none : Option (List Text) → List Text
names_or_none none = []
names_or_none (some names) = names

abbrev pub shown_name : Settings → Text → Text
shown_name s name = if has_char 10 name then s.repr name else name

abbrev pub separator : Settings → Text → Text
separator s prefix = if s.verbose then 10 ∷ codes "    " ++ prefix else codes " "

unfoldable pub nodeinfo_cooked : Settings → Text → NodeInfo → Text → Result Text
unfolding fields join has_char
nodeinfo_cooked s name ninfo prefix = do
  texts ← fields s (names_or_none ninfo.field_list) ninfo
  ok (join (separator s prefix) (shown_name s name ++ b':' ∷ []) texts)

abbrev pub keys_of : List (Text × Text) → List Text
keys_of [] = []
keys_of ((key, value) ∷ attributes) = key ∷ keys_of attributes

-- The keys of the dictionary, sorted where there is no `field_list`.
abbrev pub raw_keys : NodeInfo → Option (List Text) → List Text
raw_keys ninfo none = sort_by text_leb (keys_of ninfo.as_repr)
raw_keys ninfo (some names) = names ++ codes "_version_id" ∷ []

abbrev pub raw_fields : Settings → NodeInfo → List Text → List Text
raw_fields s ninfo [] = []
raw_fields s ninfo (k ∷ keys) =
    (s.repr k ++ codes ": " ++ attribute k ninfo.as_repr) ∷ raw_fields s ninfo keys

abbrev pub joined : List Text → Text
joined [] = []
joined (t ∷ texts) = join (codes ", ") t texts

unfoldable pub nodeinfo_raw : Settings → Text → NodeInfo → Text
unfolding join has_char attribute sort_by text_leb
nodeinfo_raw s name ninfo =
    shown_name s name
    ++ codes ": {"
    ++ joined (raw_fields s ninfo (raw_keys ninfo ninfo.field_list))
    ++ codes "}"

unfoldable pub nodeinfo_string : Settings → Text → NodeInfo → Text → Result Text
unfolding nodeinfo_cooked nodeinfo_raw
nodeinfo_string s name ninfo prefix =
    if s.raw then ok (nodeinfo_raw s name ninfo) else nodeinfo_cooked s name ninfo prefix

-- `map_bkids`: a node without a signature is an IndexError.
unfoldable pub kid_texts : Settings → List Text → List NodeInfo → Result (List Text)
unfolding nodeinfo_string
kid_texts s [] sigs = ok []
kid_texts s (kid ∷ kids) [] = raise index_error
kid_texts s (kid ∷ kids) (sig ∷ sigs) = do
  text ← nodeinfo_string s kid sig (codes "        ")
  rest ← kid_texts s kids sigs
  ok (text ∷ rest)

abbrev pub some_joined : List Text → Option Text
some_joined [] = none
some_joined (t ∷ texts) = some (join (10 ∷ codes "        ") t texts)

abbrev pub kids_text : Settings → Option (List Text × List NodeInfo) → Result (Option Text)
kids_text s none = ok none
kids_text s (some (kids, sigs)) = do texts ← kid_texts s kids sigs; ok (some_joined texts)

-- `field("implicit", entry, 0)`, which computes the kids only where the flag is set.
abbrev pub implicit_field : Settings → BuildInfo → Result (Option Text)
implicit_field s entry =
    if get_item (codes "implicit") s.print_flags == 0 then ok none else kids_text s entry.bkids

abbrev pub implicit_lines : Bool → Option Text → List Text
implicit_lines verbose none = []
implicit_lines verbose (some []) = []
implicit_lines true (some (c ∷ t)) = codes "    implicit:" ∷ (codes "        " ++ c ∷ t) ∷ []
implicit_lines false (some (c ∷ t)) = (codes "        " ++ c ∷ t) ∷ []

abbrev pub action_lines : Bool → Option Text → List Text
action_lines verbose none = []
action_lines verbose (some []) = []
action_lines true (some (c ∷ t)) = (codes "    action: " ++ c ∷ t) ∷ []
action_lines false (some (c ∷ t)) = (codes "        " ++ c ∷ t) ∷ []

-- The lines that `printfield` prints.
unfoldable pub printfield : Settings → BuildInfo → Result (List Text)
unfolding kid_texts field join
printfield s entry = do
  outlist ← implicit_field s entry
  outact ← field s none false (codes "action") entry.info
  ok (implicit_lines s.verbose outlist ++ action_lines s.verbose outact)
