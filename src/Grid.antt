-- ===== src/Grid.antt =====
-- pkg/tui/grid/grid.go: how the dashboard divides a terminal between its panes. Here the breakpoints and
-- the spans that a pane asks for; Grid/Place finds the rows, Grid/Cells the columns, Grid/Widths the
-- widths, Grid/Heights the heights.
--
-- Spans, widths and weights are natural numbers: where a pane may answer a negative number, the code
-- clamps it to 1, as it does 0.
use binnacle.Prelude.{
  ℕ, zero, suc, ◌+◌, ◌-◌, ◌/◌, Bool, true, false, List, [], ◌∷◌, Option, none, some, if◌then◌else◌,
  ltb, leb, min, max, Text, text_eq, ◌||◌, ◌==◌,
}
pub mod Place
pub mod Cells
pub mod Widths
pub mod Heights

pub data Breakpoint : Type 0 where
  small medium wide ultra : Breakpoint

unfoldable pub column_count : ℕ → ℕ
column_count w = if ltb w 120 then 1 else if ltb w 180 then 2 else if ltb w 260 then 3 else 4

unfoldable pub breakpoint_for : ℕ → Breakpoint
unfolding column_count
breakpoint_for w =
    let n = column_count w in
    if n == 1 then small else if n == 2 then medium else if n == 3 then wide else ultra

-- What a pane says of its shape; `none` where it does not implement the interface: `ColSpan`,
-- `MinColsForSpan` and `RowSpan`.
pub record Pane : Type 0 where
  pub id : Text
  pub col_span : Option ℕ
  pub min_cols_for_span : Option ℕ
  pub row_span : Option ℕ

unfoldable pub span_of : Pane → ℕ → ℕ
span_of p cols = elim p.col_span [
  | none ↦ 1
  | some span ↦ elim p.min_cols_for_span [
    | none ↦ min (max span 1) (max cols 1)
    | some floor ↦ if ltb cols floor then 1 else min (max span 1) (max cols 1)
  ]
]

abbrev pub min_cols_for_row_span : ℕ
min_cols_for_row_span = 4

unfoldable pub row_span_of : Pane → ℕ → ℕ → ℕ
row_span_of p rows cols = elim p.row_span [
  | none ↦ 1
  | some span ↦ if ltb cols min_cols_for_row_span then 1 else min (max span 1) (max rows 1)
]

-- A pane's slot. `col` is none for the source's -1.
pub record Placement : Type 0 where
  pub pane : Pane
  pub row : ℕ
  pub col : Option ℕ
  pub col_end : ℕ
  pub col_span : ℕ
  pub row_span : ℕ

unfoldable pub ceil_div : ℕ → ℕ → ℕ
ceil_div n d = if leb n 0 || leb d 0 then 0 else (n + d - 1) / d

unfoldable pub contains_id : List Text → Text → Bool
contains_id [] target = false
contains_id (id ∷ ids) target =
    let rest = contains_id ids target in if text_eq id target then true else rest
