-- ===== src/ValueTree/Unique.antt =====
-- The entries of a value determine it.
use domq.Prelude.{
  ℕ, suc, List, [], ◌∷◌, ◌++◌, Option, none, some, ◌≡◌, refl, sym, ap, ◌∙◌, append_assoc, Text,
}
use mathlib.Core.Path.{subst}
use mathlib.Core.List.{head-eq_of_cons-eq, tail-eq_of_cons-eq, append_cancel_left}
use domq.ValueTree.{
  Value, Members, Items, dict, list, string, int, float, true_value, false_value, none_value,
  unexpected, end_members, member, end_items, item, stem, item_path,
}
use domq.ValueTree.Heads.{
  Head, head_of, dict_head, list_head, string_head, int_head, float_head, true_head, false_head,
  none_head, no_head,
}
use domq.ValueTree.Paths.{
  Entry, below, member_entries, item_entries, IsCleanName, IsClean, AreCleanMembers, AreCleanItems,
  as_shown, members_as_shown, items_as_shown,
}
use domq.ValueTree.Distinct.{
  IsOutside, IsNoMember, IsNoItem, member-IsOutside, IsNoMember-IsOutside, not_item, item-IsOutside,
  IsNoItem-IsOutside,
}

abbrev AtFirst : List Entry → (Text → Type 0) → Type 0
AtFirst [] P = Unit
AtFirst ((path, _) ∷ _) P = P path

abbrev Ends : Text → List Entry → Type 0
Ends path rest = AtFirst rest (IsOutside path)

head_of-dict :
    (value : Value) → dict_head ≡ head_of value → (members : Members) × (value ≡ dict members)
head_of-dict (dict members) e = (members, refl)
head_of-dict (list _) e = cc
head_of-dict (string _) e = cc
head_of-dict (int _) e = cc
head_of-dict (float _ _) e = cc
head_of-dict true_value e = cc
head_of-dict false_value e = cc
head_of-dict none_value e = cc
head_of-dict unexpected e = cc

head_of-list : (value : Value) → list_head ≡ head_of value → (items : Items) × (value ≡ list items)
head_of-list (list items) e = (items, refl)
head_of-list (dict _) e = cc
head_of-list (string _) e = cc
head_of-list (int _) e = cc
head_of-list (float _ _) e = cc
head_of-list true_value e = cc
head_of-list false_value e = cc
head_of-list none_value e = cc
head_of-list unexpected e = cc

-- The value of a head that holds nothing.
abbrev value_of : Head → Option Value
value_of dict_head = none
value_of list_head = none
value_of (string_head t) = some (string t)
value_of (int_head n) = some (int n)
value_of (float_head t) = some (float 0 t)
value_of true_head = some true_value
value_of false_head = some false_value
value_of none_head = some none_value
value_of no_head = some unexpected

leaf-below :
    (path : Text) (v w : Value)
    → value_of (head_of w) ≡ some v
    → (as_shown w ≡ v) × (below path w ≡ [])
leaf-below path v (dict _) e = cc
leaf-below path v (list _) e = cc
leaf-below path v (string _) e = (cc, refl)
leaf-below path v (int _) e = (cc, refl)
leaf-below path v (float _ _) e = (cc, refl)
leaf-below path v true_value e = (cc, refl)
leaf-below path v false_value e = (cc, refl)
leaf-below path v none_value e = (cc, refl)
leaf-below path v unexpected e = (cc, refl)

leaf_unique :
    (path : Text) (u v w : Value) (r s : List Entry)
    → value_of (head_of v) ≡ some u
    → head_of v ≡ head_of w
    → below path v ++ r ≡ below path w ++ s
    → (as_shown v ≡ as_shown w) × (r ≡ s)
leaf_unique path u v w r s leaf heads e =
    let (first, nothing) = leaf-below path u v leaf in
    let (same, nothing') = leaf-below path u w (ap value_of (sym heads) ∙ leaf) in
    (first ∙ sym same, ap (λ l. l ++ r) (sym nothing) ∙ e ∙ ap (λ l. l ++ s) nothing')

Ends-IsNoMember : (path : Text) (r : List Entry) → Ends path r → AtFirst r (IsNoMember (stem path))
Ends-IsNoMember path [] h = tt
Ends-IsNoMember path ((other, _) ∷ r) (h, _) = h

Ends-IsNoItem : (path : Text) (r : List Entry) → Ends path r → AtFirst r (IsNoItem path)
Ends-IsNoItem path [] h = tt
Ends-IsNoItem path ((other, _) ∷ r) (_, h) = h

members-Ends :
    (start name : Text) (members : Members) (r : List Entry)
    → IsCleanName name
    → AreCleanMembers members
    → AtFirst r (IsNoMember start)
    → Ends (start ++ name) (member_entries start members ++ r)
members-Ends start name end_members [] named clean h = tt
members-Ends start name end_members ((other, _) ∷ r) named clean h =
    IsNoMember-IsOutside start name other named h
members-Ends start name (member other _ _) r named (named', _, _, _) h =
    member-IsOutside start name other named named'

items-Ends :
    (path : Text) (n : ℕ) (items : Items) (r : List Entry)
    → AtFirst r (IsNoItem path)
    → Ends (item_path path n) (item_entries path (suc n) items ++ r)
items-Ends path n end_items [] h = tt
items-Ends path n end_items ((other, _) ∷ r) h = IsNoItem-IsOutside path n other h
items-Ends path n (item _ _) r h = item-IsOutside path (suc n) n

mutual
  pub below_unique :
      (path : Text) (v w : Value) (r s : List Entry)
      → IsClean v
      → IsClean w
      → Ends path r
      → Ends path s
      → head_of v ≡ head_of w
      → below path v ++ r ≡ below path w ++ s
      → (as_shown v ≡ as_shown w) × (r ≡ s)
  below_unique path (dict members) w r s clean clean' ends ends' heads e =
      let (others, same) = head_of-dict w heads in
      let (alike, rests) =
        members_unique (stem path) members others r s clean (subst IsClean same clean')
          (Ends-IsNoMember path r ends) (Ends-IsNoMember path s ends')
          (e ∙ ap (λ x. below path x ++ s) same) in
      (ap dict alike ∙ sym (ap as_shown same), rests)
  below_unique path (list items) w r s clean clean' ends ends' heads e =
      let (others, same) = head_of-list w heads in
      let (alike, rests) =
        items_unique path 0 items others r s clean (subst IsClean same clean')
          (Ends-IsNoItem path r ends) (Ends-IsNoItem path s ends')
          (e ∙ ap (λ x. below path x ++ s) same) in
      (ap list alike ∙ sym (ap as_shown same), rests)
  below_unique path (string t) w r s _ _ _ _ heads e =
      leaf_unique path (string t) (string t) w r s refl heads e
  below_unique path (int n) w r s _ _ _ _ heads e =
      leaf_unique path (int n) (int n) w r s refl heads e
  below_unique path (float bits t) w r s _ _ _ _ heads e =
      leaf_unique path (float 0 t) (float bits t) w r s refl heads e
  below_unique path true_value w r s _ _ _ _ heads e =
      leaf_unique path true_value true_value w r s refl heads e
  below_unique path false_value w r s _ _ _ _ heads e =
      leaf_unique path false_value false_value w r s refl heads e
  below_unique path none_value w r s _ _ _ _ heads e =
      leaf_unique path none_value none_value w r s refl heads e
  below_unique path unexpected w r s _ _ _ _ heads e =
      leaf_unique path unexpected unexpected w r s refl heads e

  members_unique :
      (start : Text) (ms ns : Members) (r s : List Entry)
      → AreCleanMembers ms
      → AreCleanMembers ns
      → AtFirst r (IsNoMember start)
      → AtFirst s (IsNoMember start)
      → member_entries start ms ++ r ≡ member_entries start ns ++ s
      → (members_as_shown ms ≡ members_as_shown ns) × (r ≡ s)
  members_unique start end_members end_members r s _ _ h k e = (refl, e)
  members_unique start end_members (member name _ _) r s _ _ h k e =
      absurd (subst (λ l. AtFirst l (IsNoMember start)) e h name refl)
  members_unique start (member name _ _) end_members r s _ _ h k e =
      absurd (subst (λ l. AtFirst l (IsNoMember start)) (sym e) k name refl)
  members_unique start (member n v ms) (member m w ns) r s (named, clean, _, more)
        (named', clean', _, more') h k e =
      let firsts = head-eq_of_cons-eq e in
      let names : n ≡ m = append_cancel_left start n m (ap (λ x. x.0) firsts) in
      let (values, later) =
        below_unique (start ++ n) v w (member_entries start ms ++ r) (member_entries start ns ++ s)
          clean clean' (members-Ends start n ms r named more h)
          (members-Ends start n ns s named more' k) (ap (λ x. x.1) firsts)
          (sym (append_assoc (below (start ++ n) v) (member_entries start ms) r)
            ∙ tail-eq_of_cons-eq e
            ∙ append_assoc (below (start ++ m) w) (member_entries start ns) s
            ∙ ap (λ x. below (start ++ x) w ++ (member_entries start ns ++ s)) (sym names)) in
      let (alike, rests) = members_unique start ms ns r s more more' h k later in (cc, rests)

  items_unique :
      (path : Text) (n : ℕ) (xs ys : Items) (r s : List Entry)
      → AreCleanItems xs
      → AreCleanItems ys
      → AtFirst r (IsNoItem path)
      → AtFirst s (IsNoItem path)
      → item_entries path n xs ++ r ≡ item_entries path n ys ++ s
      → (items_as_shown xs ≡ items_as_shown ys) × (r ≡ s)
  items_unique path n end_items end_items r s _ _ h k e = (refl, e)
  items_unique path n end_items (item _ _) r s _ _ h k e =
      absurd (not_item path n (subst (λ l. AtFirst l (IsNoItem path)) e h))
  items_unique path n (item _ _) end_items r s _ _ h k e =
      absurd (not_item path n (subst (λ l. AtFirst l (IsNoItem path)) (sym e) k))
  items_unique path n (item v xs) (item w ys) r s (clean, more) (clean', more') h k e =
      let (values, later) =
        below_unique (item_path path n) v w (item_entries path (suc n) xs ++ r)
          (item_entries path (suc n) ys ++ s) clean clean' (items-Ends path n xs r h)
          (items-Ends path n ys s k) (ap (λ x. x.1) (head-eq_of_cons-eq e))
          (sym (append_assoc (below (item_path path n) v) (item_entries path (suc n) xs) r)
            ∙ tail-eq_of_cons-eq e
            ∙ append_assoc (below (item_path path n) w) (item_entries path (suc n) ys) s) in
      let (alike, rests) = items_unique path (suc n) xs ys r s more more' h k later in (cc, rests)
