-- ===== src/SconsTime/Plot/Bars.antt =====
-- The vertical bars of a graph.
use domq.Prelude.{
  ℕ, leb, if◌then◌else◌, ◌&&◌, Option, none, some, List, [], ◌∷◌, ◌++◌, ◌≡◌, ◌⊎◌, inl, inr, refl,
  sym, ap, ◌∙◌, append-nil, append_assoc, Bool-cases,
}
use domq.SconsTime.Plot.{
  Line, Gnuplotter, Bar, bar_points, min_or_zero, max_or_zero, get_all_x_values, get_all_y_values,
  kept_or, max_graph_value, line, get_min_x, get_max_x, get_max_y, vertical_bar, vertical_bars,
}

-- What an attribute holds, or would be computed to be.
abbrev IsKept : Option ℕ → ℕ → ℕ → Type 0
IsKept kept computed v = (kept ≡ some v) ⊎ ((kept ≡ none) × (computed ≡ v))

kept_or-IsKept :
    (kept : Option ℕ) (computed v : ℕ) → IsKept kept computed v → kept_or kept computed ≡ v
kept_or-IsKept kept computed v (inl e) = rw e
kept_or-IsKept kept computed v (inr (e, same)) = rw e same

-- The range of x values, and the largest y value, whether they have been asked for or not.
record HasRange (lo hi top : ℕ) (gp : Gnuplotter) : Type 0 where
  low : IsKept gp.min_x (min_or_zero (get_all_x_values gp.lines)) lo
  high : IsKept gp.max_x (max_or_zero (get_all_x_values gp.lines)) hi
  upper : IsKept gp.max_y (max_or_zero (get_all_y_values gp.lines)) top

-- The lines that a bar adds, in a range.
abbrev pub bar_lines : ℕ → ℕ → ℕ → Bar → List Line
bar_lines lo hi top bar =
    if leb lo bar.x && leb bar.x hi
    then record {
      points = bar_points bar.x (max_graph_value top);
      type = bar.type;
      title = some bar.label;
      label = some bar.comment;
      comment = none;
    }
      ∷ []
    else []

abbrev pub all_bar_lines : ℕ → ℕ → ℕ → List Bar → List Line
all_bar_lines lo hi top [] = []
all_bar_lines lo hi top (bar ∷ bars) = bar_lines lo hi top bar ++ all_bar_lines lo hi top bars

vertical_bar_lem :
    (lo hi top : ℕ) (bar : Bar) (gp : Gnuplotter)
    → HasRange lo hi top gp
    → ((vertical_bar bar gp).lines ≡ gp.lines ++ bar_lines lo hi top bar)
      × HasRange lo hi top (vertical_bar bar gp)
unfolding vertical_bar get_min_x get_max_x get_max_y line
vertical_bar_lem lo hi top bar gp r =
    let e : kept_or gp.min_x (min_or_zero (get_all_x_values gp.lines)) ≡ lo =
      kept_or-IsKept gp.min_x _ lo r.low in
    let f : kept_or gp.max_x (max_or_zero (get_all_x_values gp.lines)) ≡ hi =
      kept_or-IsKept gp.max_x _ hi r.high in
    let g : kept_or gp.max_y (max_or_zero (get_all_y_values gp.lines)) ≡ top =
      kept_or-IsKept gp.max_y _ top r.upper in
    elim (Bool-cases (leb lo bar.x)) [
      | inr left ↦
          rw (e, left, append-nil) (refl, record { low = inl refl; high = r.high; upper = r.upper })
      | inl right ↦ elim (Bool-cases (leb bar.x hi)) [
        | inr beyond ↦
            rw (e, right, f, beyond, append-nil)
              (refl, record { low = inl refl; high = inl refl; upper = r.upper })
        | inl inside ↦
            rw (e, right, f, inside, g)
              (refl, record { low = inl refl; high = inl refl; upper = inl refl })
      ]
    ]

vertical_bars-lines :
    (lo hi top : ℕ) (bars : List Bar) (gp : Gnuplotter)
    → HasRange lo hi top gp
    → (vertical_bars bars gp).lines ≡ gp.lines ++ all_bar_lines lo hi top bars
unfolding vertical_bars
vertical_bars-lines lo hi top [] gp r = sym (append-nil gp.lines)
vertical_bars-lines lo hi top (bar ∷ bars) gp r =
    let (added, kept) = vertical_bar_lem lo hi top bar gp r in
    vertical_bars-lines lo hi top bars (vertical_bar bar gp) kept
    ∙ ap (λ l. l ++ all_bar_lines lo hi top bars) added
    ∙ append_assoc gp.lines (bar_lines lo hi top bar) (all_bar_lines lo hi top bars)

-- Bars that are drawn on a graph that has not been asked for its size: those outside the range of its
-- lines' x values are left out, and the others all have the height that the lines need, since the
-- size is kept when it is asked for first.
pub vertical_bars_lem :
    (bars : List Bar) (gp : Gnuplotter)
    → gp.min_x ≡ none
    → gp.max_x ≡ none
    → gp.max_y ≡ none
    → (vertical_bars bars gp).lines
      ≡ gp.lines
        ++ all_bar_lines
            (min_or_zero (get_all_x_values gp.lines))
            (max_or_zero (get_all_x_values gp.lines))
            (max_or_zero (get_all_y_values gp.lines))
            bars
vertical_bars_lem bars gp e f g =
    vertical_bars-lines _ _ _ bars gp
      (record { low = inr (e, refl); high = inr (f, refl); upper = inr (g, refl) })
