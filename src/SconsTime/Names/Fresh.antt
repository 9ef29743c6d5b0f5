-- ===== src/SconsTime/Names/Fresh.antt =====
-- The next run number.
use mathlib.Core.List.{Memᴰ}
use mathlib.Core.List.Memᴰ
use domq.Prelude.{
  ℕ, ◌≤◌, ◌<◌, ◌==◌, leb, if◌then◌else◌, true, false, Option, none, some, List, [], ◌∷◌, ◌++◌, ok,
  ◌≡◌, ◌≢◌, refl, sym, ap, ◌∙◌, arith, Bool-cases, inl, inr, append_assoc, Text,
}
use domq.Strings.{padded, is_digit, int_of}
use domq.Strings.Decimal.{IsDigits, padded-IsDigits, padded-ne-nil, int_of-padded, int_of-total}
use domq.SconsTime.Names.{
  prefix_run, behind_prefix, leading_digits, some_digits, digits_behind, match_run, add_number,
  run_numbers, greatest, next_number, find_next_run_number,
}

behind_prefix-append : (p t : Text) → behind_prefix p (p ++ t) ≡ some t
unfolding behind_prefix
behind_prefix-append [] t = refl
behind_prefix-append (c ∷ p) t =
    let same : (c == c) ≡ true = ground arith in rw same (behind_prefix-append p t)

leading_digits-append :
    (t : Text) (c : ℕ) (rest : Text)
    → IsDigits t
    → is_digit c ≡ false
    → leading_digits (t ++ c ∷ rest) ≡ t
unfolding leading_digits
leading_digits-append [] c rest h k = rw k
leading_digits-append (d ∷ t) c rest (h, more) k = rw (h, leading_digits-append t c rest more k)

some_digits-ne : (t : Text) → t ≢ [] → some_digits t ≡ some t
some_digits-ne [] h = absurd (h refl)
some_digits-ne (c ∷ t) h = refl

-- The number of a run is found in the names that are made of it.
match_run-prefix_run :
    (prefix : Text) (run : ℕ) (rest : Text)
    → match_run prefix (prefix_run prefix run ++ b'-' ∷ rest) ≡ some (padded 3 run)
unfolding match_run
match_run-prefix_run prefix run rest =
    let together : prefix_run prefix run ++ b'-' ∷ rest
        ≡ (prefix ++ b'-' ∷ []) ++ (padded 3 run ++ b'-' ∷ rest) =
      simp append_assoc in
    let found : behind_prefix (prefix ++ b'-' ∷ []) (prefix_run prefix run ++ b'-' ∷ rest)
        ≡ some (padded 3 run ++ b'-' ∷ rest) =
      rw together (behind_prefix-append (prefix ++ b'-' ∷ []) _) in
    rw (found, leading_digits-append (padded 3 run) b'-' rest (padded-IsDigits 3 run) refl)
      (some_digits-ne (padded 3 run) (padded-ne-nil 3 run))

leading_digits-IsDigits : (t : Text) → IsDigits (leading_digits t)
unfolding leading_digits
leading_digits-IsDigits [] = tt
leading_digits-IsDigits (c ∷ t) = elim (Bool-cases (is_digit c)) [
  | inl digit ↦ rw digit (digit, leading_digits-IsDigits t)
  | inr other ↦ rw other tt
]

some_digits-total :
    (t : Text) (numbers : List ℕ)
    → IsDigits t
    → (all : List ℕ) × (add_number (some_digits t) numbers ≡ ok all)
      × ((n : ℕ) → Memᴰ n numbers → Memᴰ n all)
      × ((group : Text) (n : ℕ) → some_digits t ≡ some group → int_of group ≡ ok n → Memᴰ n all)
some_digits-total [] numbers h = (numbers, refl, λ n m. m, λ group n e f. absurd cc)
some_digits-total (c ∷ t) numbers h =
    let (k, e) = int_of-total (c ∷ t) h (λ e. cc) in
    (k ∷ numbers, rw e, λ n m. Memᴰ.tail m, λ group n f g. Memᴰ.head (cc))

digits_behind-total :
    (behind : Option Text) (numbers : List ℕ)
    → (all : List ℕ) × (add_number (digits_behind behind) numbers ≡ ok all)
      × ((n : ℕ) → Memᴰ n numbers → Memᴰ n all)
      × ((group : Text) (n : ℕ)
          → digits_behind behind ≡ some group
          → int_of group ≡ ok n
          → Memᴰ n all)
digits_behind-total none numbers = (numbers, refl, λ n m. m, λ group n e f. absurd cc)
digits_behind-total (some t) numbers =
    some_digits-total (leading_digits t) numbers (leading_digits-IsDigits t)

run_numbers-total :
    (prefix : Text) (names : List Text)
    → (numbers : List ℕ) × (run_numbers prefix names ≡ ok numbers)
      × ((run : ℕ) (rest : Text)
          → Memᴰ (prefix_run prefix run ++ b'-' ∷ rest) names
          → Memᴰ run numbers)
unfolding run_numbers match_run
run_numbers-total prefix [] = ([], refl, λ run rest m. absurd (Memᴰ.not-nil m))
run_numbers-total prefix (name ∷ names) =
    let (numbers, e, found) = run_numbers-total prefix names in
    let (all, f, kept, added) =
      digits_behind-total (behind_prefix (prefix ++ b'-' ∷ []) name) numbers in
    (all, rw (e, f), here all numbers found kept added)
  where
    here :
        (all numbers : List ℕ)
        → ((run : ℕ) (rest : Text)
            → Memᴰ (prefix_run prefix run ++ b'-' ∷ rest) names
            → Memᴰ run numbers)
        → ((n : ℕ) → Memᴰ n numbers → Memᴰ n all)
        → ((group : Text) (n : ℕ)
            → match_run prefix name ≡ some group
            → int_of group ≡ ok n
            → Memᴰ n all)
        → (run : ℕ) (rest : Text) → Memᴰ (prefix_run prefix run ++ b'-' ∷ rest) (name ∷ names)
        → Memᴰ run all
    here all numbers found kept added run rest (Memᴰ.head e) =
        added (padded 3 run) run
          (ap (match_run prefix) (sym e) ∙ match_run-prefix_run prefix run rest)
          (int_of-padded 3 run)
    here all numbers found kept added run rest (Memᴰ.tail m) = kept run (found run rest m)

greatest_least : (m : ℕ) (numbers : List ℕ) → m ≤ greatest m numbers
greatest_least m [] = omega arith
greatest_least m (n ∷ numbers) = elim (Bool-cases (leb n m)) [
  | inl below ↦ rw below (greatest_least m numbers)
  | inr above ↦ rw above (let h : n ≤ greatest n numbers = greatest_least n numbers in ground arith)
]

greatest-mem : (n m : ℕ) (numbers : List ℕ) → Memᴰ n numbers → n ≤ greatest m numbers
greatest-mem n m [] h = absurd (Memᴰ.not-nil h)
greatest-mem n m (k ∷ numbers) (Memᴰ.head e) = elim (Bool-cases (leb k m)) [
  | inl below ↦
      rw (below, e) (let h : m ≤ greatest m numbers = greatest_least m numbers in ground arith)
  | inr above ↦ rw (above, e) (greatest_least k numbers)
]
greatest-mem n m (k ∷ numbers) (Memᴰ.tail h) = greatest-mem n (if leb k m then m else k) numbers h

next_number-mem : (n : ℕ) (numbers : List ℕ) → Memᴰ n numbers → n < next_number numbers
next_number-mem n [] h = absurd (Memᴰ.not-nil h)
next_number-mem n (m ∷ numbers) (Memᴰ.head e) =
    rw e (let h = greatest_least m numbers in omega arith)
next_number-mem n (m ∷ numbers) (Memᴰ.tail h) = let k = greatest-mem n m numbers h in omega arith

-- There is always a next run number, and it is fresh: it is above the number of every run of which
-- the directory has a file that is named after it, so that no such file is overwritten.
pub find_next_run_number_lem :
    (prefix : Text) (names : List Text)
    → (next : ℕ) × (find_next_run_number prefix names ≡ ok next)
      × ((run : ℕ) (rest : Text) → Memᴰ (prefix_run prefix run ++ b'-' ∷ rest) names → run < next)
unfolding find_next_run_number
find_next_run_number_lem prefix names =
    let (numbers, e, found) = run_numbers-total prefix names in
    (next_number numbers, rw e, λ run rest m. next_number-mem run numbers (found run rest m))
