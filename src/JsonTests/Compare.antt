-- ===== src/JsonTests/Compare.antt =====
-- What `compareOutputs` reports of two texts.
use domq.Prelude.{
  ℕ, zero, suc, ◌+◌, ◌-◌, ◌≤◌, ◌==◌, ==_iff, leb, if◌then◌else◌, true, false, List, [], ◌∷◌, length,
  take, map, Option, none, some, ◌≡◌, ◌≢◌, ◌⊎◌, inl, inr, refl, sym, ap, ◌∙◌, arith, Bool-cases,
  Text, same_text, same_text_iff,
}
use domq.JsonTests.Lines.{strip, lines_of}
use domq.JsonTests.{
  diff_loop, find_diff_line, max_line_to_compare, line_at, safe_get_line, compare_outputs,
}

-- The lines of a text as they are compared.
abbrev pub stripped_lines : Text → List Text
stripped_lines t = map strip (lines_of t)

-- The line with a number, counted from 0, if there is one.
abbrev pub get_elem? : List Text → ℕ → Option Text
get_elem? [] n = none
get_elem? (l ∷ lines) zero = some l
get_elem? (l ∷ lines) (suc n) = get_elem? lines n

abbrev pub or_empty : Option Text → Text
or_empty none = []
or_empty (some l) = l

-- Two lists of lines differ first at n: those before agree, and not both have the same line there.
abbrev pub IsFirstDifference : ℕ → List Text → List Text → Type 0
IsFirstDifference n xs ys = (take n xs ≡ take n ys) × (get_elem? xs n ≢ get_elem? ys n)

-- What the loop returns: 0, and then the shorter list is a prefix of the longer; or the number of a
-- line, counted from the index where it began.
LoopResult : ℕ → List Text → List Text → ℕ → Type 0
LoopResult index xs ys d =
    ((d ≡ 0)
      × ((length xs ≡ length ys → map strip xs ≡ map strip ys)
          × (length xs ≢ length ys
              → IsFirstDifference (max_line_to_compare xs ys) (map strip xs) (map strip ys))))
    ⊎ ((n : ℕ) × (d ≡ index + n + 1) × IsFirstDifference n (map strip xs) (map strip ys))

max_line_to_compare-suc :
    (x y : Text) (xs ys : List Text)
    → max_line_to_compare (x ∷ xs) (y ∷ ys) ≡ suc (max_line_to_compare xs ys)
max_line_to_compare-suc x y xs ys = ground arith

none_left : (ys : List Text) → max_line_to_compare [] ys ≡ 0
none_left ys = ground arith

none_right : (xs : List Text) → max_line_to_compare xs [] ≡ 0
none_right xs = ground arith

IsFirstDifference-suc :
    (n : ℕ) (x y : Text) (xs ys : List Text)
    → x ≡ y
    → IsFirstDifference n xs ys
    → IsFirstDifference (suc n) (x ∷ xs) (y ∷ ys)
IsFirstDifference-suc n x y xs ys e (before, differ) = (cc (e, before), differ)

LoopResult-suc :
    (index d : ℕ) (x y : Text) (xs ys : List Text)
    → strip x ≡ strip y
    → LoopResult (suc index) xs ys d
    → LoopResult index (x ∷ xs) (y ∷ ys) d
unfolding LoopResult
LoopResult-suc index d x y xs ys e (inl (zero_, (same, differ))) = inl (
  zero_,
  (
    λ h. let rest : map strip xs ≡ map strip ys = same (omega (arith, h)) in cc (e, rest),
    λ h.
        rw (max_line_to_compare-suc x y xs ys)
          (IsFirstDifference-suc _ _ _ _ _ e (differ (λ k. h (ap suc k)))),
  ),
)
LoopResult-suc index d x y xs ys e (inr (n, at, first)) =
    inr (suc n, omega (arith, at), IsFirstDifference-suc n _ _ _ _ e first)

diff_loop_lem : (index : ℕ) (xs ys : List Text) → LoopResult index xs ys (diff_loop index xs ys)
unfolding diff_loop
diff_loop_lem index [] [] = unfold LoopResult in inl (refl, (λ h. refl, λ h. absurd (h refl)))
diff_loop_lem index [] (y ∷ ys) =
    unfold LoopResult in
    inl (refl, (λ h. absurd (omega arith), λ h. rw (none_left (y ∷ ys)) (refl, λ e. cc)))
diff_loop_lem index (x ∷ xs) [] =
    unfold LoopResult in
    inl (refl, (λ h. absurd (omega arith), λ h. rw (none_right (x ∷ xs)) (refl, λ e. cc)))
diff_loop_lem index (x ∷ xs) (y ∷ ys) = elim (Bool-cases (same_text (strip x) (strip y))) [
  | inr differ ↦
      rw differ (unfold LoopResult in inr (0, omega arith, (refl, λ e. absurd (apart differ e))))
  | inl same ↦ rw same (
      LoopResult-suc index _ x y xs ys ((same_text_iff (strip x) (strip y)).0 same)
        (diff_loop_lem (suc index) xs ys))
]
  where
    apart : same_text (strip x) (strip y) ≡ false → some (strip x) ≢ some (strip y)
    apart h e = let k : strip x ≡ strip y = cc in cc (h, (same_text_iff (strip x) (strip y)).1 k)

-- Either all lines agree, or there is a first difference, whose number is counted from 1.
find_diff_line_lem :
    (xs ys : List Text)
    → ((find_diff_line xs ys ≡ 0) × (map strip xs ≡ map strip ys))
      ⊎ ((n : ℕ) × (find_diff_line xs ys ≡ n + 1)
          × IsFirstDifference n (map strip xs) (map strip ys))
unfolding find_diff_line LoopResult
find_diff_line_lem xs ys = elim (diff_loop_lem 0 xs ys) [
  | inl (none_, (same, differ)) ↦ elim (Bool-cases (length xs == length ys)) [
    | inl e ↦ inl (rw (none_, e), same ((==_iff _ _).0 e))
    | inr e ↦ inr (max_line_to_compare xs ys, rw (none_, e), differ (ground arith))
  ]
  | inr (n, at, first) ↦ inr (n, rw at (ground arith), first)
]

line_at_lem : (xs : List Text) (n : ℕ) → line_at xs n ≡ or_empty (get_elem? (map strip xs) n)
line_at_lem [] n = refl
line_at_lem (x ∷ xs) zero = refl
line_at_lem (x ∷ xs) (suc n) = line_at_lem xs n

line_at-beyond : (xs : List Text) (n : ℕ) → length xs ≤ n → line_at xs n ≡ []
line_at-beyond [] n h = refl
line_at-beyond (x ∷ xs) zero h = absurd (omega arith)
line_at-beyond (x ∷ xs) (suc n) h = line_at-beyond xs n (omega arith)

safe_get_line_lem :
    (xs : List Text) (n : ℕ) → safe_get_line xs (n + 1) ≡ or_empty (get_elem? (map strip xs) n)
unfolding safe_get_line
safe_get_line_lem xs n =
    let e : n + 1 - 1 ≡ n = omega arith in
    rw e (sym (found (Bool-cases (leb (length xs) n))) ∙ line_at_lem xs n)
  where
    found :
        (leb (length xs) n ≡ true) ⊎ (leb (length xs) n ≡ false)
        → line_at xs n ≡ (if leb (length xs) n then [] else line_at xs n)
    found (inl h) = rw h (line_at-beyond xs n (ground arith))
    found (inr h) = rw h

-- `compareOutputs` returns None just when both texts have the same lines, stripped. Else it reports
-- the first line that differs, or that only one of them has: its number counts from 1, the lines
-- before it agree, and the report holds the stripped line of each text, or nothing where there is
-- none.
pub compare_outputs_lem :
    (expected actual message : Text)
    → ((compare_outputs expected actual message ≡ none)
        × (stripped_lines expected ≡ stripped_lines actual))
      ⊎ ((n : ℕ) × IsFirstDifference n (stripped_lines expected) (stripped_lines actual)
          × (compare_outputs expected actual message
              ≡ some (record {
                message = message;
                diff_line = n + 1;
                expected_line = or_empty (get_elem? (stripped_lines expected) n);
                actual_line = or_empty (get_elem? (stripped_lines actual) n);
              })))
unfolding compare_outputs
compare_outputs_lem expected actual message =
    let xs : List Text = lines_of expected in
    let ys : List Text = lines_of actual in
    elim (find_diff_line_lem xs ys) [
      | inl (e, same) ↦ inl (rw e, same)
      | inr (n, e, first) ↦
          inr (n, first, rw (e, safe_get_line_lem xs n, safe_get_line_lem ys n) (ground arith))
    ]
