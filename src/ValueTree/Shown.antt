-- ===== src/ValueTree/Shown.antt =====
-- The entries of a value as text, and that the text can be read back.
use domq.Prelude.{
  ℕ, suc, false, List, [], ◌∷◌, ◌++◌, ok, ◌≡◌, ◌≢◌, refl, sym, ap, ◌∙◌, append_assoc, append-nil,
  sort_by-sorted, IsSortedBy, All, All-append, Bool-cases, inl, inr, codes, Text,
}
use domq.Strings.{str, has_char, key_leb}
use domq.ValueTree.{
  Value, Members, Items, dict, list, string, int, float, true_value, false_value, none_value,
  unexpected, end_members, member, end_items, item, stem, item_path, int_text, all_texts, line,
  ends_in_dot, start_of, value_tree, member_trees, item_trees,
}
use domq.Strings.Decimal.{str-IsDigits}
use domq.Strings.Split.{digits_free, has_char-append, has_char-cut}
use domq.ValueTree.Heads.{head_text-injective, head_text-one_line, head_of, head_text, IsCleanHead}
use domq.ValueTree.Paths.{
  Entry, below, member_entries, item_entries, entries, IsClean, AreCleanMembers, AreCleanItems,
}

stem-no_equals : (path : Text) → has_char b'=' path ≡ false → has_char b'=' (stem path) ≡ false
unfolding stem has_char
stem-no_equals path h = elim (Bool-cases (ends_in_dot path)) [
  | inl same ↦ rw same h
  | inr other ↦ rw other (has_char-append b'=' path (b'.' ∷ []) h refl)
]

item_path-no_equals :
    (path : Text) (n : ℕ) → has_char b'=' path ≡ false → has_char b'=' (item_path path n) ≡ false
unfolding item_path has_char
item_path-no_equals path n h =
    has_char-append b'=' path (b'[' ∷ (str n ++ b']' ∷ [])) h (
      has_char-append b'=' (str n) (b']' ∷ []) (digits_free b'=' (str n) (str-IsDigits n) refl)
        refl)

-- An entry whose line can be read back.
abbrev pub IsReadable : Entry → Type 0
IsReadable (path, head) = (has_char b'=' path ≡ false) × IsCleanHead head

pub head_of-IsCleanHead : (value : Value) → IsClean value → IsCleanHead (head_of value)
head_of-IsCleanHead (dict members) h = tt
head_of-IsCleanHead (list items) h = tt
head_of-IsCleanHead (string t) h = h
head_of-IsCleanHead (int n) h = h
head_of-IsCleanHead (float bits t) h = h
head_of-IsCleanHead true_value h = h
head_of-IsCleanHead false_value h = h
head_of-IsCleanHead none_value h = h
head_of-IsCleanHead unexpected h = h

mutual
  pub below-IsReadable :
      (path : Text) (value : Value)
      → has_char b'=' path ≡ false
      → IsClean value
      → All IsReadable (below path value)
  below-IsReadable path (dict members) h clean =
      member_entries-IsReadable (stem path) members (stem-no_equals path h) clean
  below-IsReadable path (list items) h clean = item_entries-IsReadable path 0 items h clean
  below-IsReadable path _ h clean = tt

  member_entries-IsReadable :
      (path : Text) (members : Members)
      → has_char b'=' path ≡ false
      → AreCleanMembers members
      → All IsReadable (member_entries path members)
  member_entries-IsReadable path end_members h clean = tt
  member_entries-IsReadable path (member name value members) h (named, clean, _, more) =
      let there = has_char-append b'=' path name h named.no_equals in
      (
        (there, head_of-IsCleanHead value clean),
        All-append IsReadable (below (path ++ name) value) (member_entries path members)
            (below-IsReadable (path ++ name) value there clean)
            (member_entries-IsReadable path members h more),
      )

  item_entries-IsReadable :
      (path : Text) (index : ℕ) (items : Items)
      → has_char b'=' path ≡ false
      → AreCleanItems items
      → All IsReadable (item_entries path index items)
  item_entries-IsReadable path index end_items h clean = tt
  item_entries-IsReadable path index (item value items) h (clean, more) =
      let there = item_path-no_equals path index h in
      (
        (there, head_of-IsCleanHead value clean),
        All-append IsReadable (below (item_path path index) value)
            (item_entries path (suc index) items)
            (below-IsReadable (item_path path index) value there clean)
            (item_entries-IsReadable path (suc index) items h more),
      )

-- The entries as lines.
abbrev pub shown : List Entry → Text
shown [] = []
shown ((path, head) ∷ rest) = line path (head_text head) ++ shown rest

pub shown-append : (es fs : List Entry) → shown (es ++ fs) ≡ shown es ++ shown fs
shown-append [] fs = refl
shown-append ((path, head) ∷ es) fs =
    rw (shown-append es fs) (sym (append_assoc (line path (head_text head)) (shown es) (shown fs)))

line-append : (path text rest : Text) → line path text ++ rest ≡ path ++ b'=' ∷ (text ++ 10 ∷ rest)
line-append path text rest =
    append_assoc path (b'=' ∷ (text ++ 10 ∷ [])) rest
    ∙ ap (λ t. path ++ b'=' ∷ t) (append_assoc text (10 ∷ []) rest)

line-ne-nil : (path text rest : Text) → line path text ++ rest ≢ []
line-ne-nil [] text rest = λ e. cc
line-ne-nil (c ∷ path) text rest = λ e. cc

-- Readable entries are told from their lines.
pub shown-injective :
    (es fs : List Entry) → All IsReadable es → All IsReadable fs → shown es ≡ shown fs → es ≡ fs
shown-injective [] [] h k e = refl
shown-injective [] ((path, head) ∷ fs) h k e =
    absurd (line-ne-nil path (head_text head) (shown fs) (sym e))
shown-injective ((path, head) ∷ es) [] h k e =
    absurd (line-ne-nil path (head_text head) (shown es) e)
shown-injective ((path, head) ∷ es) ((other, tail) ∷ fs) ((free, clean), h) ((free', clean'), k) e =
    let cut =
      sym (line-append path (head_text head) (shown es))
      ∙ e
      ∙ line-append other (head_text tail) (shown fs) in
    let (paths, after) = has_char-cut b'=' path other free free' cut in
    let (texts, rests) =
      has_char-cut 10 (head_text head) (head_text tail) (head_text-one_line head clean)
        (head_text-one_line tail clean') after in
    let heads = head_text-injective head tail clean clean' texts in
    let tails = shown-injective es fs h k rests in cc

one_line : (path text : Text) → ok (line path text) ≡ ok (line path text ++ [])
one_line path text = ap ok (sym (append-nil (line path text)))

entry_lines :
    (path text : Text) (es fs : List Entry)
    → ok ((line path text ++ shown es) ++ shown fs) ≡ ok (line path text ++ shown (es ++ fs))
entry_lines path text es fs = ap ok (
    append_assoc (line path text) (shown es) (shown fs)
    ∙ ap (λ t. line path text ++ t) (sym (shown-append es fs)))

-- The names of the members with their lines.
abbrev member_texts : Text → Members → List (Text × Text)
member_texts path end_members = []
member_texts path (member name value members) =
    (name, shown (entries (path ++ name) value)) ∷ member_texts path members

all_texts-member_texts :
    (path : Text) (members : Members)
    → all_texts (member_texts path members) ≡ shown (member_entries path members)
all_texts-member_texts path end_members = refl
all_texts-member_texts path (member name value members) =
    ap (λ t. shown (entries (path ++ name) value) ++ t) (all_texts-member_texts path members)
    ∙ sym (shown-append (entries (path ++ name) value) (member_entries path members))

member_texts-IsSortedBy :
    (path : Text) (members : Members)
    → AreCleanMembers members
    → IsSortedBy key_leb (member_texts path members)
member_texts-IsSortedBy path end_members clean = tt
member_texts-IsSortedBy path (member name value end_members) clean = tt
member_texts-IsSortedBy path (member name value (member other next members)) (_, _, before, more) =
    (before, member_texts-IsSortedBy path (member other next members) more)

start_of-stem : (path : Text) → path ≢ [] → start_of path ≡ ok (stem path)
unfolding start_of
start_of-stem [] ne = absurd (ne refl)
start_of-stem (c ∷ path) ne = refl

append-ne-nil : (a b : Text) → b ≢ [] → a ++ b ≢ []
append-ne-nil [] b ne = ne
append-ne-nil (c ∷ a) b ne = λ e. cc

item_path-ne-nil : (path : Text) (index : ℕ) → item_path path index ≢ []
unfolding item_path
item_path-ne-nil path index = append-ne-nil path (b'[' ∷ (str index ++ b']' ∷ [])) (λ e. cc)

mutual
  unfolding value_tree member_trees item_trees

  -- What a clean value is shown as.
  pub value_tree-shown :
      (path : Text) (value : Value)
      → path ≢ []
      → IsClean value
      → value_tree path value ≡ ok (shown (entries path value))
  value_tree-shown path (dict members) ne clean = rw (
    start_of-stem path ne,
    member_trees-shown (stem path) members clean,
    sort_by-sorted key_leb (member_texts (stem path) members)
        (member_texts-IsSortedBy (stem path) members clean),
    all_texts-member_texts (stem path) members,
  )
  value_tree-shown path (list items) ne clean = rw (item_trees-shown path 0 items clean)
  value_tree-shown path (string t) ne clean = one_line path (b'"' ∷ (t ++ b'"' ∷ []))
  value_tree-shown path (int n) ne clean = one_line path (int_text n)
  value_tree-shown path (float bits t) ne clean = one_line path t
  value_tree-shown path true_value ne clean = one_line path (codes "true")
  value_tree-shown path false_value ne clean = one_line path (codes "false")
  value_tree-shown path none_value ne clean = one_line path (codes "null")
  value_tree-shown path unexpected ne clean = absurd clean

  member_trees-shown :
      (path : Text) (members : Members)
      → AreCleanMembers members
      → member_trees path members ≡ ok (member_texts path members)
  member_trees-shown path end_members clean = refl
  member_trees-shown path (member name value members) (named, clean, _, more) = rw (
    value_tree-shown (path ++ name) value (append-ne-nil path name named.some_char) clean,
    member_trees-shown path members more,
  )

  item_trees-shown :
      (path : Text) (index : ℕ) (items : Items)
      → AreCleanItems items
      → item_trees path index items ≡ ok (shown (item_entries path index items))
  item_trees-shown path index end_items clean = refl
  item_trees-shown path index (item value items) (clean, more) =
      rw
        (
          value_tree-shown (item_path path index) value (item_path-ne-nil path index) clean,
          item_trees-shown path (suc index) items more,
        )
        (entry_lines (item_path path index) (head_text (head_of value))
          (below (item_path path index) value) (item_entries path (suc index) items))
