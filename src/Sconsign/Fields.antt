-- ===== src/Sconsign/Fields.antt =====
-- Which fields of a node are printed.
use domq.Prelude.{
  ◌==◌, if◌then◌else◌, Bool, true, false, ◌||◌, none, List, [], ◌∷◌, ◌++◌, ok, ◌≡◌, refl, ap, ◌∙◌,
  Bool-cases, inl, inr, Text, codes, same_text,
}
use domq.Sconsign.{
  Flagger, no_flags, set_item, value_or, get_item, NodeInfo, Settings, mapped, field, kept_text,
  fields, join, names_or_none, shown_name, nodeinfo_cooked,
}

-- The flags after options have set items.
abbrev pub set_items : List Text → Flagger → Flagger
set_items [] f = f
set_items (item ∷ items) f = set_items items (set_item item 1 f)

abbrev pub is_item : Text → List Text → Bool
is_item name [] = false
is_item name (item ∷ items) = same_text item name || is_item name items

-- An item is asked for if an option names it, or no option names any.
abbrev pub is_asked : Text → List Text → Bool
is_asked name [] = true
is_asked name (item ∷ items) = is_item name (item ∷ items)

-- Whether an item has a flag that is not 0.
abbrev flag : Text → Flagger → Bool
flag name f = if get_item name f == 0 then false else true

flag-set_item :
    (name item : Text) (f : Flagger)
    → f.default_value ≡ 0
    → (flag name (set_item item 1 f) ≡ (same_text item name || flag name f))
      × ((set_item item 1 f).default_value ≡ 0)
unfolding get_item value_or set_item
flag-set_item name item f h = elim (Bool-cases (same_text item name)) [
  | inl same ↦ rw (h, same) (refl, refl)
  | inr other ↦ rw (h, other) (refl, refl)
]

flag-set_items :
    (name : Text) (items : List Text) (f : Flagger)
    → f.default_value ≡ 0
    → flag name (set_items items f) ≡ (is_item name items || flag name f)
flag-set_items name [] f h = refl
flag-set_items name (item ∷ items) f h =
    let (e, d) = flag-set_item name item f h in
    flag-set_items name items (set_item item 1 f) d
    ∙ ap (λ b. is_item name items || b) e
    ∙ go (is_item name items) (same_text item name) (flag name f)
  where
    go : (a b c : Bool) → (a || (b || c)) ≡ ((b || a) || c)
    go true true c = refl
    go true false c = refl
    go false true c = refl
    go false false c = refl

flag-first : (name item : Text) → flag name (set_item item 1 no_flags) ≡ same_text item name
unfolding get_item value_or set_item
flag-first name item = elim (Bool-cases (same_text item name)) [
  | inl same ↦ rw same refl
  | inr other ↦ rw other refl
]

first_is_last :
    (name item : Text) (items : List Text)
    → flag name (set_items (item ∷ items) no_flags) ≡ is_item name (item ∷ items)
unfolding set_item
first_is_last name item items =
    flag-set_items name items (set_item item 1 no_flags) refl
    ∙ ap (λ b. is_item name items || b) (flag-first name item)
    ∙ go (is_item name items) (same_text item name)
  where
    go : (a b : Bool) → (a || b) ≡ (b || a)
    go true true = refl
    go true false = refl
    go false true = refl
    go false false = refl

flag_lem :
    (name : Text) (items : List Text) → flag name (set_items items no_flags) ≡ is_asked name items
unfolding get_item value_or
flag_lem name [] = refl
flag_lem name (item ∷ items) = first_is_last name item items

-- The texts of the fields that are asked for and have one.
abbrev pub asked_texts : Settings → List Text → NodeInfo → List Text → List Text
asked_texts s items entry [] = []
asked_texts s items entry (name ∷ names) =
    if is_asked name items
    then kept_text (mapped s none entry name) (asked_texts s items entry names)
    else asked_texts s items entry names

field_or_none :
    (s : Settings) (name : Text) (entry : NodeInfo)
    → field s none false name entry
      ≡ ok (if flag name s.print_flags then mapped s none entry name else none)
unfolding field
field_or_none s name entry = elim (Bool-cases (get_item name s.print_flags == 0)) [
  | inl unset ↦ rw unset refl
  | inr given ↦ rw given refl
]

fields_lem :
    (s : Settings) (items : List Text) (names : List Text) (entry : NodeInfo)
    → s.verbose ≡ false
    → s.print_flags ≡ set_items items no_flags
    → fields s names entry ≡ ok (asked_texts s items entry names)
unfolding fields
fields_lem s items [] entry h k = refl
fields_lem s items (name ∷ names) entry h k =
    let asked : flag name s.print_flags ≡ is_asked name items =
      ap (flag name) k ∙ flag_lem name items in
    elim (Bool-cases (is_asked name items)) [
      | inl asks ↦
          rw (h, field_or_none s name entry, asked, asks, fields_lem s items names entry h k) refl
      | inr skips ↦
          rw (h, field_or_none s name entry, asked, skips, fields_lem s items names entry h k) refl
    ]

-- Of a node, without labels, just the fields are printed that the options ask for, in the order of the
-- node's list and whatever the order of the options, or all fields if no option asks for one; those
-- without a text are left out.
pub nodeinfo_cooked_lem :
    (s : Settings) (items : List Text) (name : Text) (ninfo : NodeInfo) (prefix : Text)
    → s.verbose ≡ false
    → s.print_flags ≡ set_items items no_flags
    → nodeinfo_cooked s name ninfo prefix
      ≡ ok (
          join
            (codes " ")
            (shown_name s name ++ b':' ∷ [])
            (asked_texts s items ninfo (names_or_none ninfo.field_list)))
unfolding nodeinfo_cooked
nodeinfo_cooked_lem s items name ninfo prefix h k =
    rw (fields_lem s items (names_or_none ninfo.field_list) ninfo h k, h) refl
