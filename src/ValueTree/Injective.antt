-- ===== src/ValueTree/Injective.antt =====
-- What `valueTreeToString` writes determines the value.
use domq.Prelude.{false, [], ◌++◌, ok, ◌≡◌, ◌≢◌, sym, ap, ◌∙◌, ◌↔◌, All, Text}
use mathlib.Core.List.{head-eq_of_cons-eq, tail-eq_of_cons-eq}
use domq.Strings.{has_char}
use domq.ValueTree.{Value, value_tree}
use domq.ValueTree.Paths.{entries, below, IsClean, as_shown, entries-as_shown}
use domq.ValueTree.Shown.{
  IsReadable, shown, shown-injective, value_tree-shown, below-IsReadable, head_of-IsCleanHead,
}
use domq.ValueTree.Unique.{below_unique}

entries-IsReadable :
    (path : Text) (value : Value)
    → has_char b'=' path ≡ false
    → IsClean value
    → All IsReadable (entries path value)
entries-IsReadable path value h clean =
    ((h, head_of-IsCleanHead value clean), below-IsReadable path value h clean)

entries-injective :
    (path : Text) (v w : Value)
    → IsClean v
    → IsClean w
    → entries path v ≡ entries path w
    → as_shown v ≡ as_shown w
entries-injective path v w clean clean' e =
    let belows : below path v ++ [] ≡ below path w ++ [] =
      ap (λ l. l ++ []) (tail-eq_of_cons-eq e) in
    (below_unique path v w [] [] clean clean' tt tt (ap (λ x. x.1) (head-eq_of_cons-eq e)) belows).0

-- At a path that is not empty and has no equals sign, the tree of a clean value is written to the end,
-- and two clean values have the same text just when they are the same but for floats that `%.16g` shows
-- alike. A value is clean if the members of each dictionary
-- are in the order of their names, no name is empty or has a dot, an opening bracket or an equals
-- sign, no string has a line break, each float is shown on one line, with a point and with a digit
-- or a sign in front, and there is no value of an unexpected type.
pub value_tree-injective :
    (path : Text) (v w : Value)
    → path ≢ []
    → has_char b'=' path ≡ false
    → IsClean v
    → IsClean w
    → ((text : Text) × (value_tree path v ≡ ok text))
      × ((value_tree path v ≡ value_tree path w) ↔ (as_shown v ≡ as_shown w))
value_tree-injective path v w ne h clean clean' =
    let left = value_tree-shown path v ne clean in
    let right = value_tree-shown path w ne clean' in
    (
      (shown (entries path v), left),
      (
        λ e.
            let lines : ok (shown (entries path v)) ≡ ok (shown (entries path w)) =
              sym left ∙ e ∙ right in
            entries-injective path v w clean clean' (
              shown-injective (entries path v) (entries path w) (entries-IsReadable path v h clean)
                (entries-IsReadable path w h clean') cc),
        λ e.
            left
            ∙ ap (λ l. ok (shown l))
                (sym (entries-as_shown path v) ∙ ap (entries path) e ∙ entries-as_shown path w)
            ∙ sym right,
      ),
    )
