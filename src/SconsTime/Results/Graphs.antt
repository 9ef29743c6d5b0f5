-- ===== src/SconsTime/Results/Graphs.antt =====
-- The graphs of measured values.
use domq.Prelude.{
  ℕ, ◌+◌, Option, none, some, List, [], ◌∷◌, ◌++◌, map, sort_by, ◌≡◌, refl, sym, ap, ◌∙◌,
  append-nil, append_assoc, Text,
}
use domq.SconsTime.Plot.{
  Point, Line, Bar, Gnuplotter, new_gnuplotter, line, min_or_zero, max_or_zero, get_all_x_values,
  get_all_y_values,
}
use domq.SconsTime.Plot.Extent.{IsX, IsY, IsLeast, IsGreatest, extent_lem}
use domq.SconsTime.Plot.Bars.{all_bar_lines, vertical_bars_lem}
use domq.SconsTime.Results.{
  point_leb, index_leb, BarTuple, bar_of, title_of, result_line, result_lines, results_graph,
}

-- The line of an invocation, if it has results: its runs in order, with the title as its comment too.
abbrev pub line_for : ℕ → List Point → List Line
line_for i [] = []
line_for i (p ∷ points) =
    record {
      points = p ∷ points;
      type = i + 1;
      title = some (title_of i);
      label = none;
      comment = some (title_of i);
    }
    ∷ []

abbrev pub lines_for : List (ℕ × List Point) → List Line
lines_for [] = []
lines_for ((i, points) ∷ results) = line_for i (sort_by point_leb points) ++ lines_for results

-- A graph that has not been asked for its size.
record IsFresh (gp : Gnuplotter) : Type 0 where
  no_min_x : gp.min_x ≡ none
  no_max_x : gp.max_x ≡ none
  no_max_y : gp.max_y ≡ none

line_lem :
    (i : ℕ) (points : List Point) (gp : Gnuplotter)
    → IsFresh gp
    → ((line points (i + 1) (some (title_of i)) none (some (title_of i)) gp).lines
        ≡ gp.lines ++ line_for i points)
      × IsFresh (line points (i + 1) (some (title_of i)) none (some (title_of i)) gp)
unfolding line
line_lem i [] gp h = (sym (append-nil gp.lines), h)
line_lem i (p ∷ points) gp h =
    (refl, record { no_min_x = h.no_min_x; no_max_x = h.no_max_x; no_max_y = h.no_max_y })

result_lines_lem :
    (results : List (ℕ × List Point)) (gp : Gnuplotter)
    → IsFresh gp
    → ((result_lines results gp).lines ≡ gp.lines ++ lines_for results)
      × IsFresh (result_lines results gp)
unfolding result_lines result_line
result_lines_lem [] gp h = (sym (append-nil gp.lines), h)
result_lines_lem ((i, points) ∷ results) gp h =
    let (added, fresh) = line_lem i (sort_by point_leb points) gp h in
    let (more, last) = result_lines_lem results (result_line i points gp) fresh in
    (
      more
          ∙ ap (λ l. l ++ lines_for results) added
          ∙ append_assoc gp.lines (line_for i (sort_by point_leb points)) (lines_for results),
      last,
    )

-- Lines, and the bars that are drawn on them.
abbrev with_bars : List Bar → List Line → List Line
with_bars bars lines =
    lines
    ++ all_bar_lines (min_or_zero (get_all_x_values lines)) (max_or_zero (get_all_x_values lines))
        (max_or_zero (get_all_y_values lines)) bars

-- The graph of results has a line for each invocation that has any, in the order of the invocations,
-- each with its runs in order, and behind them the bars of the configuration: only those between the
-- least and the greatest run of all the lines, and all of them as high as `max_graph_value` makes of the
-- greatest value of all the lines. Where there is no run, or no value, 0 stands for these. Measured
-- values are whole numbers.
pub results_graph-lines :
    (title : Option Text) (key_location : Text) (bars : List BarTuple)
    (results : List (ℕ × List Point))
    → (lo hi top : ℕ) × ((results_graph title key_location bars results).lines
        ≡ lines_for (sort_by index_leb results) ++ all_bar_lines lo hi top (map bar_of bars))
      × IsLeast (λ x. IsX x (lines_for (sort_by index_leb results))) lo
      × IsGreatest (λ x. IsX x (lines_for (sort_by index_leb results))) hi
      × IsGreatest (λ y. IsY y (lines_for (sort_by index_leb results))) top
unfolding results_graph
results_graph-lines title key_location bars results =
    let gp : Gnuplotter = new_gnuplotter title key_location in
    let lines : List Line = lines_for (sort_by index_leb results) in
    let (drawn, fresh) =
      result_lines_lem (sort_by index_leb results) gp
        (record { no_min_x = refl; no_max_x = refl; no_max_y = refl }) in
    (
      min_or_zero (get_all_x_values lines),
      max_or_zero (get_all_x_values lines),
      max_or_zero (get_all_y_values lines),
      vertical_bars_lem (map bar_of bars) (result_lines (sort_by index_leb results) gp)
            fresh.no_min_x fresh.no_max_x fresh.no_max_y
          ∙ ap (with_bars (map bar_of bars)) drawn,
      (extent_lem lines).0,
      (extent_lem lines).1,
      (extent_lem lines).2,
    )
