-- ===== src/ValueTree/Distinct.antt =====
-- When a path is not of what a dictionary or a list holds: the paths of members and of items are
-- told apart by the character behind a name or an index.
use domq.Prelude.{
  ℕ, true, false, [], ◌∷◌, ◌++◌, ◌≡◌, ◌≢◌, refl, sym, ap, ◌∙◌, arith, append_assoc, append-nil,
  Text,
}
use mathlib.Core.Bool.{false≢true}
use mathlib.Core.List.{tail-eq_of_cons-eq, append_cancel_left}
use domq.Strings.{str, has_char}
use domq.Strings.Decimal.{str-IsDigits}
use domq.Strings.Split.{digits_free, has_char-cut}
use domq.ValueTree.{stem, item_path, ends_in_dot}
use domq.ValueTree.Paths.{IsCleanName}

-- A path that is not of what a dictionary or a list at `path` holds.
abbrev pub IsOutside : Text → Text → Type 0
IsOutside path other =
    ((t : Text) → other ≢ stem path ++ t) × ((t : Text) → other ≢ path ++ b'[' ∷ t)

-- The same of all the members of a dictionary, or items of a list.
abbrev pub IsNoMember : Text → Text → Type 0
IsNoMember start other = (t : Text) → other ≢ start ++ t

abbrev pub IsNoItem : Text → Text → Type 0
IsNoItem path other = (t : Text) → other ≢ path ++ b'[' ∷ t

ends_in_dot-append : (s : Text) (c : ℕ) (t : Text) → ends_in_dot (s ++ c ∷ t) ≡ ends_in_dot (c ∷ t)
unfolding ends_in_dot
ends_in_dot-append [] c t = refl
ends_in_dot-append (d ∷ []) c t = refl
ends_in_dot-append (d ∷ e ∷ s) c t = ends_in_dot-append (e ∷ s) c t

no_dot-end : (t : Text) → has_char b'.' t ≡ false → ends_in_dot t ≡ false
unfolding ends_in_dot has_char
no_dot-end [] h = refl
no_dot-end (c ∷ []) h = ground arith
no_dot-end (c ∷ d ∷ t) h = no_dot-end (d ∷ t) (ground arith)

-- Below a member, a dot follows its name.
stem-name :
    (start name : Text) → IsCleanName name → stem (start ++ name) ≡ (start ++ name) ++ b'.' ∷ []
unfolding stem
stem-name start [] named = absurd (named.some_char refl)
stem-name start (c ∷ name) named =
    let last = ends_in_dot-append start c name ∙ no_dot-end (c ∷ name) named.no_dot in rw last

stem-item_path : (path : Text) (n : ℕ) → stem (item_path path n) ≡ item_path path n ++ b'.' ∷ []
unfolding stem item_path
stem-item_path path n =
    let last =
      ends_in_dot-append path b'[' (str n ++ b']' ∷ [])
      ∙ ends_in_dot-append (b'[' ∷ str n) b']' [] in
    rw last

has_char-middle : (c : ℕ) (s t : Text) → has_char c (s ++ c ∷ t) ≡ true
unfolding has_char
has_char-middle c [] t = ground arith
has_char-middle c (d ∷ s) t = let later = has_char-middle c s t in ground arith

not_further :
    (c : ℕ) (start name other t : Text)
    → has_char c other ≡ false
    → start ++ other ≢ (start ++ name) ++ c ∷ t
not_further c start name other t free e =
    let same : other ≡ name ++ c ∷ t =
      append_cancel_left start other (name ++ c ∷ t) (e ∙ append_assoc start name (c ∷ t)) in
    let there = ap (has_char c) same ∙ has_char-middle c name t in
    absurd (false≢true (sym free ∙ there))

dotted_name :
    (start name t : Text)
    → IsCleanName name
    → stem (start ++ name) ++ t ≡ (start ++ name) ++ b'.' ∷ t
dotted_name start name t named =
    ap (λ s. s ++ t) (stem-name start name named) ∙ append_assoc (start ++ name) (b'.' ∷ []) t

-- Another member of the dictionary is outside of a member.
pub member-IsOutside :
    (start name other : Text)
    → IsCleanName name
    → IsCleanName other
    → IsOutside (start ++ name) (start ++ other)
member-IsOutside start name other named named' = (
  λ t e. not_further b'.' start name other t named'.no_dot (e ∙ dotted_name start name t named),
  λ t. not_further b'[' start name other t named'.no_bracket,
)

-- So is what is no member.
pub IsNoMember-IsOutside :
    (start name other : Text)
    → IsCleanName name
    → IsNoMember start other
    → IsOutside (start ++ name) other
IsNoMember-IsOutside start name other named h = (
  λ t e.
      h (name ++ b'.' ∷ t)
        (e ∙ dotted_name start name t named ∙ append_assoc start name (b'.' ∷ t)),
  λ t e. h (name ++ b'[' ∷ t) (e ∙ append_assoc start name (b'[' ∷ t)),
)

index_text :
    (path : Text) (n : ℕ) (t : Text) → item_path path n ++ t ≡ path ++ b'[' ∷ (str n ++ b']' ∷ t)
unfolding item_path
index_text path n t =
    append_assoc path (b'[' ∷ (str n ++ b']' ∷ [])) t
    ∙ ap (λ s. path ++ b'[' ∷ s) (append_assoc (str n) (b']' ∷ []) t)

pub not_item : (path : Text) (n : ℕ) → IsNoItem path (item_path path n) → ⊥
not_item path n h =
    h (str n ++ b']' ∷ []) (sym (append-nil (item_path path n)) ∙ index_text path n [])

dotted_item :
    (path : Text) (n : ℕ) (t : Text) → stem (item_path path n) ++ t ≡ item_path path n ++ b'.' ∷ t
dotted_item path n t =
    ap (λ s. s ++ t) (stem-item_path path n) ∙ append_assoc (item_path path n) (b'.' ∷ []) t

not_deeper : (path : Text) (m n c : ℕ) (t : Text) → item_path path m ≢ item_path path n ++ c ∷ t
not_deeper path m n c t e =
    let whole = append-nil (item_path path m) ∙ e in
    let texts = sym (index_text path m []) ∙ whole ∙ index_text path n (c ∷ t) in
    let inside = tail-eq_of_cons-eq (append_cancel_left path _ _ texts) in
    let (_, after) =
      has_char-cut b']' (str m) (str n) (digits_free b']' (str m) (str-IsDigits m) refl)
        (digits_free b']' (str n) (str-IsDigits n) refl) inside in
    cc

-- An item of the list is outside of an item, and so is what is no item.
pub item-IsOutside : (path : Text) (m n : ℕ) → IsOutside (item_path path n) (item_path path m)
item-IsOutside path m n =
    (λ t e. not_deeper path m n b'.' t (e ∙ dotted_item path n t), λ t. not_deeper path m n b'[' t)

pub IsNoItem-IsOutside :
    (path : Text) (n : ℕ) (other : Text) → IsNoItem path other → IsOutside (item_path path n) other
IsNoItem-IsOutside path n other h = (
  λ t e. h (str n ++ b']' ∷ b'.' ∷ t) (e ∙ dotted_item path n t ∙ index_text path n (b'.' ∷ t)),
  λ t e. h (str n ++ b']' ∷ b'[' ∷ t) (e ∙ index_text path n (b'[' ∷ t)),
)
