-- ===== src/Strings/Split.antt =====
-- A text that is put together is cut where it was joined: at a separator, at the slash before a
-- file's name, and at the dot before its extension.
use domq.Prelude.{
  ℕ, ◌==◌, if◌then◌else◌, Bool, true, false, ◌&&◌, none, some, List, [], ◌∷◌, ◌++◌, ok, ◌≡◌, ◌≢◌,
  refl, sym, ap, ◌∙◌, arith, Bool-cases, inl, inr, append-nil, Text,
}
use mathlib.Core.List.{head-eq_of_cons-eq, tail-eq_of_cons-eq}
use domq.Strings.{
  into_first, split_on, last_two, last_dot, has_char, dots_only, splitext, is_digit, with_slash,
  join_path,
}
use domq.Strings.Decimal.{IsDigits}

pub split_on-ne-nil : (c : ℕ) (t : Text) → split_on c t ≢ []
unfolding split_on
split_on-ne-nil c [] = λ e. cc
split_on-ne-nil c (d ∷ t) = elim (Bool-cases (d == c)) [
  | inl same ↦ rw same (λ e. cc)
  | inr other ↦ rw other (into_first-ne-nil d (split_on c t))
]
  where
    into_first-ne-nil : (d : ℕ) (l : List Text) → into_first d l ≢ []
    into_first-ne-nil d [] = λ e. cc
    into_first-ne-nil d (piece ∷ l) = λ e. cc

into_first-append : (c : ℕ) (l k : List Text) → l ≢ [] → into_first c (l ++ k) ≡ into_first c l ++ k
into_first-append c [] k ne = absurd (ne refl)
into_first-append c (piece ∷ l) k ne = refl

pub split_on-append : (c : ℕ) (s t : Text) → split_on c (s ++ c ∷ t) ≡ split_on c s ++ split_on c t
unfolding split_on
split_on-append c [] t = let same : (c == c) ≡ true = ground arith in rw same
split_on-append c (d ∷ s) t = elim (Bool-cases (d == c)) [
  | inl same ↦ rw (same, split_on-append c s t)
  | inr other ↦
      rw (other, split_on-append c s t)
        (into_first-append d (split_on c s) (split_on c t) (split_on-ne-nil c s))
]

pub split_on-free : (c : ℕ) (t : Text) → has_char c t ≡ false → split_on c t ≡ t ∷ []
unfolding split_on has_char
split_on-free c [] h = refl
split_on-free c (d ∷ t) h =
    let other : (d == c) ≡ false = ground arith in
    let free : has_char c t ≡ false = ground arith in rw (other, split_on-free c t free)

pub last_two-append : (l : List Text) (a b : Text) → last_two (l ++ a ∷ b ∷ []) ≡ ok (a, b)
unfolding last_two
last_two-append [] a b = refl
last_two-append (c ∷ []) a b = refl
last_two-append (c ∷ d ∷ []) a b = refl
last_two-append (c ∷ d ∷ e ∷ l) a b = last_two-append (d ∷ e ∷ l) a b

-- The last two of three pieces that are joined by a separator, of which the others are free.
pub last_two-split_on :
    (c : ℕ) (s a b : Text)
    → has_char c a ≡ false
    → has_char c b ≡ false
    → last_two (split_on c (s ++ c ∷ (a ++ c ∷ b))) ≡ ok (a, b)
last_two-split_on c s a b h k =
    rw
      (
        split_on-append c s (a ++ c ∷ b),
        split_on-append c a b,
        split_on-free c a h,
        split_on-free c b k,
      )
      (last_two-append (split_on c s) a b)

pub digits_free : (c : ℕ) (t : Text) → IsDigits t → is_digit c ≡ false → has_char c t ≡ false
unfolding has_char
digits_free c [] h k = refl
digits_free c (d ∷ t) (h, more) k =
    let other : (d == c) ≡ false = ground arith in rw other (digits_free c t more k)

pub last_dot-free : (t : Text) → has_char b'.' t ≡ false → last_dot t ≡ none
unfolding last_dot has_char
last_dot-free [] h = refl
last_dot-free (c ∷ t) h =
    let other : (c == b'.') ≡ false = ground arith in
    let free : has_char b'.' t ≡ false = ground arith in rw (last_dot-free t free, other)

pub last_dot-append :
    (root ext : Text)
    → has_char b'.' ext ≡ false
    → last_dot (root ++ b'.' ∷ ext) ≡ some (root, b'.' ∷ ext)
unfolding last_dot
last_dot-append [] ext h = rw (last_dot-free ext h)
last_dot-append (c ∷ root) ext h = rw (last_dot-append root ext h)

dots_only-append : (s t : Text) (b : Bool) → dots_only b (s ++ t) ≡ dots_only (dots_only b s) t
unfolding dots_only
dots_only-append [] t b = refl
dots_only-append (c ∷ s) t b = dots_only-append s t (if c == b'/' then true else b && c == b'.')

dots_only-digits : (b : Bool) (t : Text) → IsDigits t → t ≢ [] → dots_only b t ≡ false
unfolding dots_only
dots_only-digits b [] h ne = absurd (ne refl)
dots_only-digits b (c ∷ t) (h, more) ne =
    let other : (c == b'/') ≡ false = ground arith in
    let no_dot : (b && c == b'.') ≡ false = ground arith in rw (other, no_dot) (stays t more)
  where
    stays : (t : Text) → IsDigits t → dots_only false t ≡ false
    stays [] h = refl
    stays (c ∷ t) (h, more) =
        let other : (c == b'/') ≡ false = ground arith in rw other (stays t more)

-- A name that ends in digits is all of the path but its extension.
pub splitext-digits :
    (s t ext : Text)
    → IsDigits t
    → t ≢ []
    → has_char b'.' ext ≡ false
    → has_char b'/' ext ≡ false
    → splitext ((s ++ t) ++ b'.' ∷ ext) ≡ (s ++ t, b'.' ∷ ext)
unfolding splitext has_char
splitext-digits s t ext h ne no_dot no_slash = rw (
  last_dot-append (s ++ t) ext no_dot,
  no_slash,
  dots_only-append s t true,
  dots_only-digits (dots_only true s) t h ne,
)

-- A joined path ends in what was joined to it.
pub join_path-end : (a b : Text) → (s : Text) × (join_path a b ≡ s ++ b)
unfolding join_path
join_path-end a [] = (with_slash a [], sym (append-nil (with_slash a [])))
join_path-end a (c ∷ b) = elim (Bool-cases (c == b'/')) [
  | inl absolute ↦ rw absolute ([], refl)
  | inr relative ↦ rw relative (with_slash-end a (c ∷ b))
]
  where
    with_slash-end : (a b : Text) → (s : Text) × (with_slash a b ≡ s ++ b)
    with_slash-end [] b = ([], refl)
    with_slash-end (c ∷ []) b = elim (Bool-cases (c == b'/')) [
      | inl same ↦ rw same (c ∷ [], refl)
      | inr other ↦ rw other (c ∷ b'/' ∷ [], refl)
    ]
    with_slash-end (c ∷ d ∷ a) b =
        let (s, e) = with_slash-end (d ∷ a) b in (c ∷ s, ap (λ t. c ∷ t) e)

-- Texts that are cut at a character neither start has.
pub has_char-cut :
    (c : ℕ) (a b : Text) {s t : Text}
    → has_char c a ≡ false
    → has_char c b ≡ false
    → a ++ c ∷ s ≡ b ++ c ∷ t
    → (a ≡ b) × (s ≡ t)
unfolding has_char
has_char-cut c [] [] h k e = (refl, tail-eq_of_cons-eq e)
has_char-cut c [] (d ∷ b) h k e = let same : c ≡ d = head-eq_of_cons-eq e in absurd (ground arith)
has_char-cut c (d ∷ a) [] h k e = let same : d ≡ c = head-eq_of_cons-eq e in absurd (ground arith)
has_char-cut c (d ∷ a) (f ∷ b) h k e =
    let (same, rest) = has_char-cut c a b (ground arith) (ground arith) (tail-eq_of_cons-eq e) in
    (ap (λ x. x ∷ a) (head-eq_of_cons-eq e) ∙ ap (λ x. f ∷ x) same, rest)

pub has_char-append :
    (c : ℕ) (s t : Text) → has_char c s ≡ false → has_char c t ≡ false → has_char c (s ++ t) ≡ false
unfolding has_char
has_char-append c [] t h k = k
has_char-append c (d ∷ s) t h k =
    let other : (d == c) ≡ false = ground arith in rw other (has_char-append c s t (ground arith) k)
