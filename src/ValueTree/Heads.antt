-- ===== src/ValueTree/Heads.antt =====
-- What a line shows of a value, and how it is read back.
use domq.Prelude.{
  ℕ, suc, ◌-◌, ◌==◌, if◌then◌else◌, true, false, ◌||◌, [], ◌∷◌, ◌++◌, Result, ok, ◌≡◌, ◌≢◌, refl,
  sym, ap, ◌∙◌, arith, Text, codes,
}
use domq.JsonTests.Outcome.{ℤ, pos, negsuc}
use domq.Strings.{str, is_digit, int_of, has_char}
use domq.Strings.Decimal.{IsDigits, str-IsDigits, str-ne-nil, int_of-str}
use domq.Strings.Split.{digits_free}
use domq.ValueTree.{
  Value, dict, list, string, int, float, true_value, false_value, none_value, unexpected, int_text,
}

-- A value without what it holds.
pub data Head : Type 0 where
  dict_head list_head true_head false_head none_head no_head : Head
  string_head float_head : Text → Head
  int_head : ℤ → Head

abbrev pub head_of : Value → Head
head_of (dict members) = dict_head
head_of (list items) = list_head
head_of (string t) = string_head t
head_of (int n) = int_head n
head_of (float bits t) = float_head t
head_of true_value = true_head
head_of false_value = false_head
head_of none_value = none_head
head_of unexpected = no_head

abbrev pub head_text : Head → Text
head_text dict_head = codes "{}"
head_text list_head = codes "[]"
head_text (string_head t) = b'"' ∷ (t ++ b'"' ∷ [])
head_text (int_head n) = int_text n
head_text (float_head t) = t
head_text true_head = codes "true"
head_text false_head = codes "false"
head_text none_head = codes "null"
head_text no_head = []

-- A number with a point, which starts with a digit or a sign, and no line break.
pub record IsFloat (t : Text) : Type 0 where
  pub has_point : has_char b'.' t ≡ true
  pub starts : (c : ℕ) × (rest : Text) × (t ≡ c ∷ rest) × ((is_digit c || c == b'-') ≡ true)
  pub one_line : has_char 10 t ≡ false

abbrev pub IsCleanHead : Head → Type 0
IsCleanHead (string_head t) = has_char 10 t ≡ false
IsCleanHead (float_head t) = IsFloat t
IsCleanHead no_head = ⊥
IsCleanHead _ = Unit

abbrev drop_last : Text → Text
drop_last [] = []
drop_last (c ∷ []) = []
drop_last (c ∷ d ∷ t) = c ∷ drop_last (d ∷ t)

drop_last-append : (t : Text) (c : ℕ) → drop_last (t ++ c ∷ []) ≡ t
drop_last-append [] c = refl
drop_last-append (d ∷ []) c = refl
drop_last-append (d ∷ e ∷ t) c = ap (λ u. d ∷ u) (drop_last-append (e ∷ t) c)

abbrev number_or_zero : Result ℕ → ℕ
number_or_zero (ok n) = n
number_or_zero _ = 0

abbrev read_int : ℕ → Text → ℤ
read_int c t =
    if c == b'-'
    then negsuc (number_or_zero (int_of t) - 1)
    else pos (number_or_zero (int_of (c ∷ t)))

abbrev read_number : ℕ → Text → Head
read_number c t = if has_char b'.' (c ∷ t) then float_head (c ∷ t) else int_head (read_int c t)

abbrev read_head : Text → Head
read_head [] = no_head
read_head (c ∷ t) =
    if c == b'"'
    then string_head (drop_last t)
    else (if c == b'{'
        then dict_head
        else (if c == b'['
            then list_head
            else (if c == b't'
                then true_head
                else (if c == b'f'
                    then false_head
                    else (if c == b'n' then none_head else read_number c t)))))

read_head-number :
    (c : ℕ) (t : Text) → (is_digit c || c == b'-') ≡ true → read_head (c ∷ t) ≡ read_number c t
read_head-number c t h =
    let a : (c == b'"') ≡ false = ground arith in
    let b : (c == b'{') ≡ false = ground arith in
    let d : (c == b'[') ≡ false = ground arith in
    let e : (c == b't') ≡ false = ground arith in
    let f : (c == b'f') ≡ false = ground arith in
    let g : (c == b'n') ≡ false = ground arith in rw (a, b, d, e, f, g)

read_head-digits :
    (t : Text) (n : ℕ) → IsDigits t → t ≢ [] → int_of t ≡ ok n → read_head t ≡ int_head (pos n)
read_head-digits [] n h ne e = absurd (ne refl)
read_head-digits (c ∷ t) n (h, more) ne e =
    let number : (is_digit c || c == b'-') ≡ true = ground arith in
    let whole : has_char b'.' (c ∷ t) ≡ false = digits_free b'.' (c ∷ t) (h, more) refl in
    let unsigned : (c == b'-') ≡ false = ground arith in
    read_head-number c t number ∙ rw (whole, unsigned, e) refl

read_head-negsuc : (n : ℕ) → read_head (b'-' ∷ str (suc n)) ≡ int_head (negsuc n)
read_head-negsuc n =
    let whole : has_char b'.' (b'-' ∷ str (suc n)) ≡ false =
      unfold has_char in digits_free b'.' (str (suc n)) (str-IsDigits (suc n)) refl in
    let less : suc n - 1 ≡ n = omega arith in rw (whole, int_of-str (suc n), less) refl

-- The text of a head is read as the head.
pub read_head-head_text : (h : Head) → IsCleanHead h → read_head (head_text h) ≡ h
unfolding int_text
read_head-head_text dict_head h = refl
read_head-head_text list_head h = refl
read_head-head_text true_head h = refl
read_head-head_text false_head h = refl
read_head-head_text none_head h = refl
read_head-head_text no_head h = absurd h
read_head-head_text (string_head t) h = ap string_head (drop_last-append t b'"')
read_head-head_text (int_head (pos n)) h =
    read_head-digits (str n) n (str-IsDigits n) (str-ne-nil n) (int_of-str n)
read_head-head_text (int_head (negsuc n)) h = read_head-negsuc n
read_head-head_text (float_head t) h =
    let (c, rest, e, number) = h.starts in
    let point : has_char b'.' (c ∷ rest) ≡ true = ap (has_char b'.') (sym e) ∙ h.has_point in
    ap read_head e ∙ read_head-number c rest number ∙ rw point (ap float_head (sym e))

-- Heads that are shown alike are the same.
pub head_text-injective :
    (g h : Head) → IsCleanHead g → IsCleanHead h → head_text g ≡ head_text h → g ≡ h
head_text-injective g h clean other e =
    sym (read_head-head_text g clean) ∙ ap read_head e ∙ read_head-head_text h other

int_text-one_line : (n : ℤ) → has_char 10 (int_text n) ≡ false
unfolding int_text has_char
int_text-one_line (pos n) = digits_free 10 (str n) (str-IsDigits n) refl
int_text-one_line (negsuc n) = digits_free 10 (str (suc n)) (str-IsDigits (suc n)) refl

quoted-one_line : (t : Text) → has_char 10 t ≡ false → has_char 10 (t ++ b'"' ∷ []) ≡ false
unfolding has_char
quoted-one_line [] h = refl
quoted-one_line (c ∷ t) h =
    let other : (c == 10) ≡ false = ground arith in rw other (quoted-one_line t (ground arith))

-- What is shown of a value stands on one line.
pub head_text-one_line : (h : Head) → IsCleanHead h → has_char 10 (head_text h) ≡ false
unfolding has_char
head_text-one_line dict_head h = refl
head_text-one_line list_head h = refl
head_text-one_line true_head h = refl
head_text-one_line false_head h = refl
head_text-one_line none_head h = refl
head_text-one_line no_head h = absurd h
head_text-one_line (string_head t) h = quoted-one_line t h
head_text-one_line (int_head n) h = int_text-one_line n
head_text-one_line (float_head t) h = h.one_line
