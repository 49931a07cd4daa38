-- ===== src/Examples/Grid.antt =====
-- pkg/tui/grid/grid.go at concrete inputs: three panes on three columns, two columns on 80 cells.
use binnacle.Prelude.{
  ℕ, Bool, false, List, [], ◌∷◌, Option, none, some, text, ◌≡◌, refl, ◌≤◌, ◌<◌, true,
}
use binnacle.Grid.{Pane, Placement}
use binnacle.Grid.Heights.{Chrome, Row, cap_row_heights, height_sum}
use binnacle.Grid.Heights.Sum.{cap_row_heights-sum}
use binnacle.Grid.Place.{place_all, row_count}
use binnacle.Grid.Cells.{lay_out}
use binnacle.Grid.Cells.Disjoint.{place_all-disjoint}
use binnacle.Grid.Cells.Grow.{total_tiles}
use binnacle.Grid.Widths.{Column, divide_width, width_sum, lift_step}
use binnacle.Grid.Widths.Sum.{divide_width-sum}

abbrev panes : List Pane
panes =
    record { id = text "machines"; col_span = some 2; min_cols_for_span = none; row_span = none }
    ∷ record { id = text "nodes"; col_span = none; min_cols_for_span = none; row_span = some 2 }
    ∷ record { id = text "events"; col_span = some 2; min_cols_for_span = some 3; row_span = none }
    ∷ []

place_all-disjoint_example :
    (total_tiles (lay_out (row_count (place_all panes 4 3)) 3 (place_all panes 4 3)) 1 2 ≤ 1)
    × (0 < total_tiles (lay_out (row_count (place_all panes 4 3)) 3 (place_all panes 4 3)) 1 2
        → (1 < row_count (place_all panes 4 3)) × (2 < 3))
place_all-disjoint_example = place_all-disjoint panes 4 3 1 2

abbrev columns : List Column
columns =
    record { appetite = 10; floor = 30; covered = true; width = 0 }
    ∷ record { appetite = 90; floor = 20; covered = true; width = 0 }
    ∷ []

divide_width-sum_example :
    (width_sum (divide_width 80 columns) ≡ 80) × (lift_step (divide_width 80 columns) ≡ none)
divide_width-sum_example = divide_width-sum 80 columns refl

abbrev chrome : Chrome
chrome = record { chrome_h = 2; chrome_v = 2; pad_v = 2 }

abbrev rows : List Row
rows =
    record { height = 30; weight = 1; ceiling = 0; capped = true }
    ∷ record { height = 20; weight = 2; ceiling = 0; capped = true }
    ∷ []

abbrev tile : Placement
tile = record {
  pane = record { id = text "network"; col_span = none; min_cols_for_span = none; row_span = none };
  row = 0;
  col = some 0;
  col_end = 1;
  col_span = 1;
  row_span = 1;
}

abbrev tiles : List (Placement × Option (ℕ → ℕ) × Bool)
tiles = (tile, some (λ w. 9), false) ∷ (record tile { row = 1 }, none, false) ∷ []

cap_row_heights-sum_example :
    height_sum (cap_row_heights chrome tiles ((80 ∷ []) ∷ (80 ∷ []) ∷ []) rows) ≡ height_sum rows
cap_row_heights-sum_example = cap_row_heights-sum chrome tiles ((80 ∷ []) ∷ (80 ∷ []) ∷ []) rows
