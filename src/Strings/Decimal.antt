-- ===== src/Strings/Decimal.antt =====
-- Numbers are read back from their texts.
use domq.Prelude.{
  ℕ, zero, suc, ◌+◌, ◌-◌, ◌*◌, ◌/◌, ◌%◌, ◌<◌, ◌==◌, ltb, true, false, [], ◌∷◌, ◌++◌, length,
  replicate, All, ok, ◌≡◌, ◌≢◌, refl, ◌∙◌, arith, Bool-cases, inl, inr, Text,
}
use domq.JsonTests.Lines.{is_space, lstrip, rstrip, strip}
use domq.Strings.{digits, str, padded, is_digit, number_from, unsigned, without_plus, int_of}

abbrev pub IsDigits : Text → Type 0
IsDigits t = All (λ (c : ℕ). is_digit c ≡ true) t

digits-IsDigits : (fuel n : ℕ) (behind : Text) → IsDigits behind → IsDigits (digits fuel n behind)
unfolding digits
digits-IsDigits zero n behind h = h
digits-IsDigits (suc fuel) n behind h = elim (Bool-cases (ltb n 10)) [
  | inl small ↦ rw small (ground arith, h)
  | inr large ↦
      rw large (digits-IsDigits fuel (n / 10) ((b'0' + n % 10) ∷ behind) (ground arith, h))
]

digits-ne-nil : (fuel n : ℕ) (c : ℕ) (behind : Text) → digits fuel n (c ∷ behind) ≢ []
unfolding digits
digits-ne-nil zero n c behind = λ e. cc
digits-ne-nil (suc fuel) n c behind = elim (Bool-cases (ltb n 10)) [
  | inl small ↦ rw small (λ e. cc)
  | inr large ↦ rw large (digits-ne-nil fuel (n / 10) (b'0' + n % 10) (c ∷ behind))
]

pub str-ne-nil : (n : ℕ) → str n ≢ []
unfolding str digits
str-ne-nil n = elim (Bool-cases (ltb n 10)) [
  | inl small ↦ rw small (λ e. cc)
  | inr large ↦ rw large (digits-ne-nil n (n / 10) (b'0' + n % 10) [])
]

pub str-IsDigits : (n : ℕ) → IsDigits (str n)
unfolding str
str-IsDigits n = digits-IsDigits (suc n) n [] tt

one_digit :
    (m d n : ℕ) (t : Text)
    → d < 10
    → m * 10 + d ≡ n
    → number_from m ((b'0' + d) ∷ t) ≡ number_from n t
unfolding number_from
one_digit m d n t h e =
    let in_range : is_digit (b'0' + d) ≡ true = ground arith in
    let same : m * 10 + (b'0' + d - b'0') ≡ n = omega arith in rw (in_range, same)

number_from-digits :
    (fuel n : ℕ) (behind : Text)
    → n < fuel
    → number_from 0 (digits fuel n behind) ≡ number_from n behind
unfolding digits
number_from-digits zero n behind h = absurd (omega arith)
number_from-digits (suc fuel) n behind h = elim (Bool-cases (ltb n 10)) [
  | inl small ↦ rw small (one_digit 0 n n behind (ground arith) (omega arith))
  | inr large ↦
      rw (large, number_from-digits fuel (n / 10) ((b'0' + n % 10) ∷ behind) (ground arith))
        (one_digit (n / 10) (n % 10) n behind (omega arith) (omega arith))
]

number_from-zeros : (k : ℕ) (t : Text) → number_from 0 (replicate k b'0' ++ t) ≡ number_from 0 t
number_from-zeros zero t = refl
number_from-zeros (suc k) t = one_digit 0 0 0 _ (omega arith) refl ∙ number_from-zeros k t

replicate-IsDigits : (k : ℕ) (t : Text) → IsDigits t → IsDigits (replicate k b'0' ++ t)
replicate-IsDigits zero t h = h
replicate-IsDigits (suc k) t h = (refl, replicate-IsDigits k t h)

replicate-ne-nil : (k : ℕ) (t : Text) → t ≢ [] → replicate k b'0' ++ t ≢ []
replicate-ne-nil zero t h = h
replicate-ne-nil (suc k) t h = λ e. cc

digit_not_space : (c : ℕ) → is_digit c ≡ true → is_space c ≡ false
digit_not_space c h = ground arith

rstrip-digits : (t : Text) → IsDigits t → rstrip t ≡ t
unfolding rstrip
rstrip-digits [] h = refl
rstrip-digits (c ∷ []) (h, k) = rw (digit_not_space c h)
rstrip-digits (c ∷ d ∷ t) (h, k) = rw (rstrip-digits (d ∷ t) k)

lstrip-digits : (t : Text) → IsDigits t → lstrip t ≡ t
unfolding lstrip
lstrip-digits [] h = refl
lstrip-digits (c ∷ t) (h, k) = rw (digit_not_space c h)

unsigned-digits : (t : Text) → IsDigits t → t ≢ [] → unsigned (without_plus t) ≡ number_from 0 t
unsigned-digits [] h ne = absurd (ne refl)
unsigned-digits (c ∷ t) (h, k) ne = let no_plus : (c == b'+') ≡ false = ground arith in rw no_plus

pub int_of-digits : (t : Text) → IsDigits t → t ≢ [] → int_of t ≡ number_from 0 t
unfolding int_of strip
int_of-digits t h ne = rw (lstrip-digits t h, rstrip-digits t h) (unsigned-digits t h ne)

pub padded-IsDigits : (width n : ℕ) → IsDigits (padded width n)
unfolding padded
padded-IsDigits width n = replicate-IsDigits _ (str n) (str-IsDigits n)

pub padded-ne-nil : (width n : ℕ) → padded width n ≢ []
unfolding padded
padded-ne-nil width n = replicate-ne-nil _ (str n) (str-ne-nil n)

pub int_of-padded : (width n : ℕ) → int_of (padded width n) ≡ ok n
unfolding padded str number_from
int_of-padded width n =
    int_of-digits (padded width n) (padded-IsDigits width n) (padded-ne-nil width n)
    ∙ number_from-zeros (width - length (str n)) (str n)
    ∙ number_from-digits (suc n) n [] (omega arith)

pub int_of-str : (n : ℕ) → int_of (str n) ≡ ok n
unfolding str number_from
int_of-str n =
    int_of-digits (str n) (str-IsDigits n) (str-ne-nil n)
    ∙ number_from-digits (suc n) n [] (omega arith)

number_from-total : (n : ℕ) (t : Text) → IsDigits t → (k : ℕ) × (number_from n t ≡ ok k)
unfolding number_from
number_from-total n [] h = (n, refl)
number_from-total n (c ∷ t) (h, more) = rw h (number_from-total (n * 10 + (c - b'0')) t more)

pub int_of-total : (t : Text) → IsDigits t → t ≢ [] → (k : ℕ) × (int_of t ≡ ok k)
int_of-total t h ne = let (k, e) = number_from-total 0 t h in (k, int_of-digits t h ne ∙ e)
