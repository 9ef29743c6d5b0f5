-- ===== src/ValueTree/Paths.antt =====
-- The lines of a value, each with its path, and how a path is told from the others.
use domq.Prelude.{ℕ, suc, true, false, List, [], ◌∷◌, ◌++◌, ◌≡◌, ◌≢◌, refl, Text}
use domq.Strings.{has_char, text_leb}
use domq.ValueTree.{
  Value, Members, Items, dict, list, string, int, float, true_value, false_value, none_value,
  unexpected, end_members, member, end_items, item, stem, item_path,
}
use domq.ValueTree.Heads.{Head, head_of, IsCleanHead}

-- A path and what stands there.
abbrev pub Entry : Type 0
Entry = Text × Head

abbrev mutual
  pub below : Text → Value → List Entry
  below path (dict members) = member_entries (stem path) members
  below path (list items) = item_entries path 0 items
  below path _ = []

  pub member_entries : Text → Members → List Entry
  member_entries path end_members = []
  member_entries path (member name value members) =
      (path ++ name, head_of value) ∷ (below (path ++ name) value ++ member_entries path members)

  pub item_entries : Text → ℕ → Items → List Entry
  item_entries path index end_items = []
  item_entries path index (item value items) =
      (item_path path index, head_of value)
      ∷ (below (item_path path index) value ++ item_entries path (suc index) items)

abbrev pub entries : Text → Value → List Entry
entries path value = (path, head_of value) ∷ below path value

-- A value as far as it is shown: floats with the same text are one.
abbrev mutual
  pub as_shown : Value → Value
  as_shown (dict members) = dict (members_as_shown members)
  as_shown (list items) = list (items_as_shown items)
  as_shown (string t) = string t
  as_shown (int n) = int n
  as_shown (float bits t) = float 0 t
  as_shown true_value = true_value
  as_shown false_value = false_value
  as_shown none_value = none_value
  as_shown unexpected = unexpected

  pub members_as_shown : Members → Members
  members_as_shown end_members = end_members
  members_as_shown (member name value members) =
      member name (as_shown value) (members_as_shown members)

  pub items_as_shown : Items → Items
  items_as_shown end_items = end_items
  items_as_shown (item value items) = item (as_shown value) (items_as_shown items)

head_of-as_shown : (value : Value) → head_of (as_shown value) ≡ head_of value
head_of-as_shown (dict members) = refl
head_of-as_shown (list items) = refl
head_of-as_shown (string t) = refl
head_of-as_shown (int n) = refl
head_of-as_shown (float bits t) = refl
head_of-as_shown true_value = refl
head_of-as_shown false_value = refl
head_of-as_shown none_value = refl
head_of-as_shown unexpected = refl

mutual
  below-as_shown : (path : Text) (value : Value) → below path (as_shown value) ≡ below path value
  below-as_shown path (dict members) = member_entries-as_shown (stem path) members
  below-as_shown path (list items) = item_entries-as_shown path 0 items
  below-as_shown path (string t) = refl
  below-as_shown path (int n) = refl
  below-as_shown path (float bits t) = refl
  below-as_shown path true_value = refl
  below-as_shown path false_value = refl
  below-as_shown path none_value = refl
  below-as_shown path unexpected = refl

  member_entries-as_shown :
      (path : Text) (members : Members)
      → member_entries path (members_as_shown members) ≡ member_entries path members
  member_entries-as_shown path end_members = refl
  member_entries-as_shown path (member name value members) =
      rw
        (
          head_of-as_shown value,
          below-as_shown (path ++ name) value,
          member_entries-as_shown path members,
        )
        refl

  item_entries-as_shown :
      (path : Text) (index : ℕ) (items : Items)
      → item_entries path index (items_as_shown items) ≡ item_entries path index items
  item_entries-as_shown path index end_items = refl
  item_entries-as_shown path index (item value items) =
      rw
        (
          head_of-as_shown value,
          below-as_shown (item_path path index) value,
          item_entries-as_shown path (suc index) items,
        )
        refl

pub entries-as_shown :
    (path : Text) (value : Value) → entries path (as_shown value) ≡ entries path value
entries-as_shown path value = rw (head_of-as_shown value, below-as_shown path value) refl

-- A name of a member that leaves paths readable.
pub record IsCleanName (name : Text) : Type 0 where
  pub some_char : name ≢ []
  pub no_dot : has_char b'.' name ≡ false
  pub no_bracket : has_char b'[' name ≡ false
  pub no_equals : has_char b'=' name ≡ false

-- A name in the order of the names. Python's dictionaries have no order, so that each of them can be
-- written with its members in order.
abbrev pub IsBefore : Text → Members → Type 0
IsBefore name end_members = Unit
IsBefore name (member other value members) = text_leb name other ≡ true

abbrev mutual
  pub IsClean : Value → Type 0
  IsClean (dict members) = AreCleanMembers members
  IsClean (list items) = AreCleanItems items
  IsClean value = IsCleanHead (head_of value)

  pub AreCleanMembers : Members → Type 0
  AreCleanMembers end_members = Unit
  AreCleanMembers (member name value members) =
      IsCleanName name × IsClean value × IsBefore name members × AreCleanMembers members

  pub AreCleanItems : Items → Type 0
  AreCleanItems end_items = Unit
  AreCleanItems (item value items) = IsClean value × AreCleanItems items
