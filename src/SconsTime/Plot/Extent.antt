-- ===== src/SconsTime/Plot/Extent.antt =====
-- The range of the points of a graph's lines: `get_min_x` and its kin against an independent description.
use domq.Prelude.{
  ℕ, ◌≤◌, leb, none, some, List, [], ◌∷◌, ◌++◌, ◌≡◌, ◌↔◌, ◌⊎◌, inl, inr, refl, sym, ap, arith,
  Bool-cases,
}
use mathlib.Core.Path.{subst}
use domq.SconsTime.Plot.{
  Point, Line, min_from, max_from, min_or_zero, max_or_zero, get_x_values, get_y_values,
  get_all_x_values, get_all_y_values,
}

-- A number that a point of one of the lines has as its x value, or as its y value.
abbrev pub IsXIn : ℕ → List Point → Type 0
IsXIn v [] = ⊥
IsXIn v ((x, y) ∷ points) = (v ≡ x) ⊎ IsXIn v points

abbrev pub IsYIn : ℕ → List Point → Type 0
IsYIn v [] = ⊥
IsYIn v ((x, y) ∷ points) = (y ≡ some v) ⊎ IsYIn v points

abbrev pub IsX : ℕ → List Line → Type 0
IsX v [] = ⊥
IsX v (l ∷ lines) = IsXIn v l.points ⊎ IsX v lines

abbrev pub IsY : ℕ → List Line → Type 0
IsY v [] = ⊥
IsY v (l ∷ lines) = IsYIn v l.points ⊎ IsY v lines

-- The least and the greatest of the numbers with a property, or 0 if there is none.
abbrev pub IsLeast : (ℕ → Type 0) → ℕ → Type 0
IsLeast P m = ((v : ℕ) → P v → m ≤ v) × (P m ⊎ ((m ≡ 0) × ((v : ℕ) → P v → ⊥)))

abbrev pub IsGreatest : (ℕ → Type 0) → ℕ → Type 0
IsGreatest P m = ((v : ℕ) → P v → v ≤ m) × (P m ⊎ ((m ≡ 0) × ((v : ℕ) → P v → ⊥)))

-- The same of the numbers of a list.
abbrev IsIn : ℕ → List ℕ → Type 0
IsIn v [] = ⊥
IsIn v (n ∷ values) = (v ≡ n) ⊎ IsIn v values

IsIn-left : (v : ℕ) (a b : List ℕ) → IsIn v a → IsIn v (a ++ b)
IsIn-left v [] b h = absurd h
IsIn-left v (n ∷ a) b (inl e) = inl e
IsIn-left v (n ∷ a) b (inr h) = inr (IsIn-left v a b h)

IsIn-right : (v : ℕ) (a b : List ℕ) → IsIn v b → IsIn v (a ++ b)
IsIn-right v [] b h = h
IsIn-right v (n ∷ a) b h = inr (IsIn-right v a b h)

IsIn-split : (v : ℕ) (a b : List ℕ) → IsIn v (a ++ b) → IsIn v a ⊎ IsIn v b
IsIn-split v [] b h = inr h
IsIn-split v (n ∷ a) b (inl e) = inl (inl e)
IsIn-split v (n ∷ a) b (inr h) = elim (IsIn-split v a b h) [ inl l ↦ inl (inr l) | inr r ↦ inr r ]

abbrev IsLeastOf : List ℕ → ℕ → Type 0
IsLeastOf values y = ((v : ℕ) → IsIn v values → y ≤ v) × IsIn y values

min_from-IsLeast : (m : ℕ) (values : List ℕ) → IsLeastOf (m ∷ values) (min_from m values)
min_from-IsLeast m [] =
    (λ v h. elim h [ inl e ↦ omega arith | inr none_is ↦ absurd none_is ], inl refl)
min_from-IsLeast m (n ∷ values) = elim (Bool-cases (leb m n)) [
  | inl small ↦
      let (bounds, there) = min_from-IsLeast m values in
      let e : min_from m (n ∷ values) ≡ min_from m values = rw small refl in
      subst (IsLeastOf (m ∷ n ∷ values)) (sym e) (
        λ v h. elim h [
          | inl e ↦ bounds v (inl e)
          | inr (inl e) ↦ let least = bounds m (inl refl) in ground arith
          | inr (inr in_rest) ↦ bounds v (inr in_rest)
        ],
        elim there [ inl e ↦ inl e | inr in_rest ↦ inr (inr in_rest) ],
      )
  | inr large ↦
      let (bounds, there) = min_from-IsLeast n values in
      let e : min_from m (n ∷ values) ≡ min_from n values = rw large refl in
      subst (IsLeastOf (m ∷ n ∷ values)) (sym e) (
        λ v h. elim h [
          | inl e ↦ let least = bounds n (inl refl) in ground arith
          | inr in_rest ↦ bounds v in_rest
        ],
        inr there,
      )
]

abbrev IsGreatestOf : List ℕ → ℕ → Type 0
IsGreatestOf values y = ((v : ℕ) → IsIn v values → v ≤ y) × IsIn y values

max_from-IsGreatest : (m : ℕ) (values : List ℕ) → IsGreatestOf (m ∷ values) (max_from m values)
max_from-IsGreatest m [] =
    (λ v h. elim h [ inl e ↦ omega arith | inr none_is ↦ absurd none_is ], inl refl)
max_from-IsGreatest m (n ∷ values) = elim (Bool-cases (leb n m)) [
  | inl small ↦
      let (bounds, there) = max_from-IsGreatest m values in
      let e : max_from m (n ∷ values) ≡ max_from m values = rw small refl in
      subst (IsGreatestOf (m ∷ n ∷ values)) (sym e) (
        λ v h. elim h [
          | inl e ↦ bounds v (inl e)
          | inr (inl e) ↦ let greatest = bounds m (inl refl) in ground arith
          | inr (inr in_rest) ↦ bounds v (inr in_rest)
        ],
        elim there [ inl e ↦ inl e | inr in_rest ↦ inr (inr in_rest) ],
      )
  | inr large ↦
      let (bounds, there) = max_from-IsGreatest n values in
      let e : max_from m (n ∷ values) ≡ max_from n values = rw large refl in
      subst (IsGreatestOf (m ∷ n ∷ values)) (sym e) (
        λ v h. elim h [
          | inl e ↦ let greatest = bounds n (inl refl) in ground arith
          | inr in_rest ↦ bounds v in_rest
        ],
        inr there,
      )
]

min_or_zero-IsLeast : (values : List ℕ) → IsLeast (λ v. IsIn v values) (min_or_zero values)
unfolding min_or_zero
min_or_zero-IsLeast [] = (λ v h. absurd h, inr (refl, λ v h. h))
min_or_zero-IsLeast (n ∷ values) =
    ((min_from-IsLeast n values).0, inl (min_from-IsLeast n values).1)

max_or_zero-IsGreatest : (values : List ℕ) → IsGreatest (λ v. IsIn v values) (max_or_zero values)
unfolding max_or_zero
max_or_zero-IsGreatest [] = (λ v h. absurd h, inr (refl, λ v h. h))
max_or_zero-IsGreatest (n ∷ values) =
    ((max_from-IsGreatest n values).0, inl (max_from-IsGreatest n values).1)

get_x_values_iff : (v : ℕ) (points : List Point) → IsIn v (get_x_values points) ↔ IsXIn v points
unfolding get_x_values
get_x_values_iff v [] = (λ h. h, λ h. h)
get_x_values_iff v ((x, y) ∷ points) = (
  λ h. elim h [ inl e ↦ inl e | inr more ↦ inr ((get_x_values_iff v points).0 more) ],
  λ h. elim h [ inl e ↦ inl e | inr more ↦ inr ((get_x_values_iff v points).1 more) ],
)

get_y_values_iff : (v : ℕ) (points : List Point) → IsIn v (get_y_values points) ↔ IsYIn v points
unfolding get_y_values
get_y_values_iff v [] = (λ h. h, λ h. h)
get_y_values_iff v ((x, none) ∷ points) = (
  λ h. inr ((get_y_values_iff v points).0 h),
  λ h. elim h [ inl e ↦ cc | inr more ↦ (get_y_values_iff v points).1 more ],
)
get_y_values_iff v ((x, some y) ∷ points) = (
  λ h. elim h [
    | inl e ↦ inl (ap some (sym e))
    | inr more ↦ inr ((get_y_values_iff v points).0 more)
  ],
  λ h. elim h [ inl e ↦ inl cc | inr more ↦ inr ((get_y_values_iff v points).1 more) ],
)

get_all_x_values_iff : (v : ℕ) (lines : List Line) → IsIn v (get_all_x_values lines) ↔ IsX v lines
unfolding get_all_x_values
get_all_x_values_iff v [] = (λ h. h, λ h. h)
get_all_x_values_iff v (l ∷ lines) =
    let here = get_x_values_iff v l.points in
    let later = get_all_x_values_iff v lines in
    (
      λ h. elim (IsIn-split v (get_x_values l.points) (get_all_x_values lines) h) [
        | inl first ↦ inl (here.0 first)
        | inr rest ↦ inr (later.0 rest)
      ],
      λ h. elim h [
        | inl first ↦ IsIn-left v (get_x_values l.points) (get_all_x_values lines) (here.1 first)
        | inr rest ↦ IsIn-right v (get_x_values l.points) (get_all_x_values lines) (later.1 rest)
      ],
    )

get_all_y_values_iff : (v : ℕ) (lines : List Line) → IsIn v (get_all_y_values lines) ↔ IsY v lines
unfolding get_all_y_values
get_all_y_values_iff v [] = (λ h. h, λ h. h)
get_all_y_values_iff v (l ∷ lines) =
    let here = get_y_values_iff v l.points in
    let later = get_all_y_values_iff v lines in
    (
      λ h. elim (IsIn-split v (get_y_values l.points) (get_all_y_values lines) h) [
        | inl first ↦ inl (here.0 first)
        | inr rest ↦ inr (later.0 rest)
      ],
      λ h. elim h [
        | inl first ↦ IsIn-left v (get_y_values l.points) (get_all_y_values lines) (here.1 first)
        | inr rest ↦ IsIn-right v (get_y_values l.points) (get_all_y_values lines) (later.1 rest)
      ],
    )

IsLeast-iff : (P Q : ℕ → Type 0) (m : ℕ) → ((v : ℕ) → P v ↔ Q v) → IsLeast P m → IsLeast Q m
IsLeast-iff P Q m same (bounds, inl there) =
    (λ v h. bounds v ((same v).1 h), inl ((same m).0 there))
IsLeast-iff P Q m same (bounds, inr (e, none_is)) =
    (λ v h. bounds v ((same v).1 h), inr (e, λ v h. none_is v ((same v).1 h)))

IsGreatest-iff :
    (P Q : ℕ → Type 0) (m : ℕ) → ((v : ℕ) → P v ↔ Q v) → IsGreatest P m → IsGreatest Q m
IsGreatest-iff P Q m same (bounds, inl there) =
    (λ v h. bounds v ((same v).1 h), inl ((same m).0 there))
IsGreatest-iff P Q m same (bounds, inr (e, none_is)) =
    (λ v h. bounds v ((same v).1 h), inr (e, λ v h. none_is v ((same v).1 h)))

-- The sizes that the graph of some lines is asked for.
pub extent_lem :
    (lines : List Line)
    → IsLeast (λ v. IsX v lines) (min_or_zero (get_all_x_values lines))
      × IsGreatest (λ v. IsX v lines) (max_or_zero (get_all_x_values lines))
      × IsGreatest (λ v. IsY v lines) (max_or_zero (get_all_y_values lines))
extent_lem lines =
    let xs = get_all_x_values lines in
    let ys = get_all_y_values lines in
    (
      IsLeast-iff (λ v. IsIn v xs) (λ v. IsX v lines) (min_or_zero xs)
          (λ v. get_all_x_values_iff v lines) (min_or_zero-IsLeast xs),
      IsGreatest-iff (λ v. IsIn v xs) (λ v. IsX v lines) (max_or_zero xs)
          (λ v. get_all_x_values_iff v lines) (max_or_zero-IsGreatest xs),
      IsGreatest-iff (λ v. IsIn v ys) (λ v. IsY v lines) (max_or_zero ys)
          (λ v. get_all_y_values_iff v lines) (max_or_zero-IsGreatest ys),
    )
