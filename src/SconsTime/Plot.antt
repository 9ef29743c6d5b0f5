-- ===== src/SconsTime/Plot.antt =====
-- `Plotter`, `Line` and `Gnuplotter`: the lines of a graph, its size, and the commands that draw it.
-- Measured values are whole numbers: a time is cut to its whole seconds, as `max_graph_value` cuts it.
pub mod Increment
pub mod Bars
pub mod Extent
use domq.Prelude.{
  ℕ, zero, suc, ◌+◌, ◌-◌, ◌*◌, ◌/◌, ◌%◌, ◌==◌, leb, if◌then◌else◌, Bool, true, false, Option, none,
  some, List, [], ◌∷◌, ◌++◌, map, Text,
}
use domq.JsonTests.Outcome.{ℤ, pos, negsuc}

-- The `while` loop of `increment_size`: each round leaves a digit off.
unfoldable pub increment_loop : ℕ → ℕ → ℕ → ℕ
increment_loop zero i multiplier = i * multiplier
increment_loop (suc fuel) i multiplier =
    let rest = increment_loop fuel (i / 10) (multiplier * 10) in
    if leb 10 i then rest else i * multiplier

unfoldable pub increment_size : ℕ → ℕ
unfolding increment_loop
increment_size largest = let i = largest / 5 in if i == 0 then largest else increment_loop i i 1

-- `max_graph_value`, for a value that `int` has cut to a whole number.
unfoldable pub max_graph_value : ℕ → ℕ
unfolding increment_size
max_graph_value largest =
    (largest + 1 + increment_size (largest + 1) - 1)
    / increment_size (largest + 1)
    * increment_size (largest + 1)

-- A point may have no y value.
abbrev pub Point : Type 0
Point = ℕ × Option ℕ

pub record Line : Type 0 where
  pub points : List Point
  pub type : ℕ
  pub title : Option Text
  pub label : Option Text
  pub comment : Option Text

-- What `min_x` and the other three attributes hold is missing until it is asked for.
pub record Gnuplotter : Type 0 where
  pub lines : List Line
  pub title : Option Text
  pub key_location : Text
  pub min_x : Option ℕ
  pub max_x : Option ℕ
  pub min_y : Option ℕ
  pub max_y : Option ℕ

-- `Gnuplotter( title, key_location )`
abbrev pub new_gnuplotter : Option Text → Text → Gnuplotter
new_gnuplotter title key_location = record {
  lines = [];
  title = title;
  key_location = key_location;
  min_x = none;
  max_x = none;
  min_y = none;
  max_y = none;
}

abbrev pub add_line : List Point → Line → Gnuplotter → Gnuplotter
add_line [] new gp = gp
add_line (p ∷ points) new gp = record gp { lines = gp.lines ++ new ∷ [] }

-- `Gnuplotter.line`
unfoldable pub line :
    List Point → ℕ → Option Text → Option Text → Option Text → Gnuplotter → Gnuplotter
line points type title label comment gp =
    add_line points
      (record { points = points; type = type; title = title; label = label; comment = comment }) gp

unfoldable pub get_x_values : List Point → List ℕ
get_x_values [] = []
get_x_values ((x, y) ∷ points) = x ∷ get_x_values points

abbrev pub with_value : Option ℕ → List ℕ → List ℕ
with_value none ys = ys
with_value (some y) ys = y ∷ ys

-- The y values of a line that are not None.
unfoldable pub get_y_values : List Point → List ℕ
get_y_values [] = []
get_y_values ((x, y) ∷ points) = with_value y (get_y_values points)

unfoldable pub get_all_x_values : List Line → List ℕ
unfolding get_x_values
get_all_x_values [] = []
get_all_x_values (l ∷ lines) = get_x_values l.points ++ get_all_x_values lines

unfoldable pub get_all_y_values : List Line → List ℕ
unfolding get_y_values
get_all_y_values [] = []
get_all_y_values (l ∷ lines) = get_y_values l.points ++ get_all_y_values lines

-- `min` and `max` of a list, or 0 where these raise ValueError.
abbrev pub min_from : ℕ → List ℕ → ℕ
min_from m [] = m
min_from m (n ∷ values) = min_from (if leb m n then m else n) values

abbrev pub max_from : ℕ → List ℕ → ℕ
max_from m [] = m
max_from m (n ∷ values) = max_from (if leb n m then m else n) values

unfoldable pub min_or_zero : List ℕ → ℕ
min_or_zero [] = 0
min_or_zero (n ∷ values) = min_from n values

unfoldable pub max_or_zero : List ℕ → ℕ
max_or_zero [] = 0
max_or_zero (n ∷ values) = max_from n values

-- `get_min_x` and its kin: the attribute, which is computed and kept where it is missing.
abbrev pub kept_or {ℓ} : {A : Type ℓ} → Option A → A → A
kept_or none computed = computed
kept_or (some kept) computed = kept

unfoldable pub get_min_x : Gnuplotter → ℕ × Gnuplotter
get_min_x gp =
    let v = kept_or gp.min_x (min_or_zero (get_all_x_values gp.lines)) in
    (v, record gp { min_x = some v })

unfoldable pub get_max_x : Gnuplotter → ℕ × Gnuplotter
get_max_x gp =
    let v = kept_or gp.max_x (max_or_zero (get_all_x_values gp.lines)) in
    (v, record gp { max_x = some v })

unfoldable pub get_min_y : Gnuplotter → ℕ × Gnuplotter
get_min_y gp =
    let v = kept_or gp.min_y (min_or_zero (get_all_y_values gp.lines)) in
    (v, record gp { min_y = some v })

unfoldable pub get_max_y : Gnuplotter → ℕ × Gnuplotter
get_max_y gp =
    let v = kept_or gp.max_y (max_or_zero (get_all_y_values gp.lines)) in
    (v, record gp { max_y = some v })

-- A bar that the configuration asks for.
pub record Bar : Type 0 where
  pub x : ℕ
  pub type : ℕ
  pub label : Text
  pub comment : Text

-- `[(x, 0), (x, self.max_graph_value(self.get_max_y()))]`
abbrev pub bar_points : ℕ → ℕ → List Point
bar_points x top = (x, some 0) ∷ (x, some top) ∷ []

-- `vertical_bar`. It hands `label` and `comment` to `line` as its title and its label.
unfoldable pub vertical_bar : Bar → Gnuplotter → Gnuplotter
unfolding get_min_x get_max_x get_max_y line
vertical_bar bar gp =
    let (lo, with_lo) = get_min_x gp in
    let (hi, with_hi) = get_max_x with_lo in
    let (top, with_top) = get_max_y with_hi in
    if leb lo bar.x
    then (if leb bar.x hi
        then line (bar_points bar.x (max_graph_value top)) bar.type (some bar.label)
            (some bar.comment) none with_top
        else with_hi)
    else with_lo

unfoldable pub vertical_bars : List Bar → Gnuplotter → Gnuplotter
unfolding vertical_bar
vertical_bars [] gp = gp
vertical_bars (bar ∷ bars) gp = vertical_bars bars (vertical_bar bar gp)

-- What `draw` prints. A label stands at one of five heights.
pub data Command : Type 0 where
  set_title set_key comment : Text → Command
  set_label : (inx : ℕ) → Text → (x : ℤ) → (position : ℕ) → Command
  plot : List (Option Text × ℕ) → Command
  point : ℕ → ℕ → Command
  end : Command

-- `if text:`
abbrev pub said : Option Text → Option Text
said (some (c ∷ t)) = some (c ∷ t)
said _ = none

abbrev pub title_command : Option Text → List Command
title_command none = []
title_command (some t) = set_title t ∷ []

abbrev pub comment_command : Option Text → List Command
comment_command none = []
comment_command (some t) = comment t ∷ []

-- `line.points[0][0]-1`. A line of a graph has a point.
abbrev pub one_before : ℕ → ℤ
one_before zero = negsuc 0
one_before (suc x) = pos x

abbrev pub before_first : List Point → ℤ
before_first [] = pos 0
before_first ((x, y) ∷ points) = one_before x

-- `print_label`
abbrev pub label_command : ℕ → Option Text → ℤ → List Command
label_command inx none x = []
label_command inx (some t) x = set_label inx t x ((inx - 1) % 5) ∷ []

unfoldable pub print_labels : ℕ → List Line → List Command
print_labels inx [] = []
print_labels inx (l ∷ lines) =
    label_command inx (said l.label) (before_first l.points) ++ print_labels (inx + 1) lines

unfoldable pub plot_strings : List Line → List (Option Text × ℕ)
plot_strings [] = []
plot_strings (l ∷ lines) = (said l.title, l.type) ∷ plot_strings lines

abbrev pub point_command : ℕ → Option ℕ → List Command
point_command x none = []
point_command x (some y) = point x y ∷ []

unfoldable pub point_commands : List Point → List Command
point_commands [] = end ∷ []
point_commands ((x, y) ∷ points) = point_command x y ++ point_commands points

unfoldable pub print_points : List Line → List Command
unfolding point_commands
print_points [] = []
print_points (l ∷ lines) =
    (comment_command (said l.comment) ++ point_commands l.points) ++ print_points lines

abbrev pub draw_lines : List Line → Gnuplotter → List Command
draw_lines [] gp = []
draw_lines (l ∷ lines) gp =
    title_command (said gp.title)
    ++ (set_key gp.key_location ∷ print_labels 1 (l ∷ lines)
        ++ plot (plot_strings (l ∷ lines)) ∷ print_points (l ∷ lines))

unfoldable pub draw : Gnuplotter → List Command
unfolding print_labels plot_strings print_points
draw gp = draw_lines gp.lines gp
