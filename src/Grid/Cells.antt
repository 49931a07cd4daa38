-- ===== src/Grid/Cells.antt =====
-- The columns: the cells that are taken, the column each tile starts in, and its growth to the right.
--
-- `occupied` is a slice of `rows` slices of `cols` flags: here a function on the cells, with the two
-- lengths beside it.
use binnacle.Prelude.{
  ℕ, zero, suc, ◌+◌, ◌-◌, Bool, true, false, ◌&&◌, ◌||◌, List, [], ◌∷◌, ◌++◌, Option, none, some,
  if◌then◌else◌, ltb, leb, ◌==◌, keep, is_some,
}
use binnacle.Prelude.Sort.{sort_stable}
use binnacle.Grid.{Placement}
pub mod Count
pub mod Assign
pub mod Grow
pub mod Disjoint

pub record Occupied : Type 0 where
  pub rows : ℕ
  pub cols : ℕ
  pub taken : ℕ → ℕ → Bool

unfoldable pub no_cells : ℕ → ℕ → Occupied
no_cells rows cols = record { rows = rows; cols = cols; taken = λ r c. false }

-- The inner loop of `cellsFree`, on the row `r`.
unfoldable pub row_free : Occupied → ℕ → ℕ → ℕ → Bool
row_free g r c zero = true
row_free g r c (suc n) =
    let rest = row_free g r (suc c) n in if leb g.cols c || g.taken r c then false else rest

unfoldable pub cells_free : Occupied → ℕ → ℕ → ℕ → ℕ → Bool
unfolding row_free
cells_free g r zero c w = true
cells_free g r (suc n) c w =
    let rest = cells_free g (suc r) n c w in
    if leb g.rows r then false else if row_free g r c w then rest else false

-- Whether a cell lies in a block.
unfoldable pub in_block : ℕ → ℕ → ℕ → ℕ → ℕ → ℕ → Bool
in_block row row_span col width r c =
    leb row r && ltb r (row + row_span) && leb col c && ltb c (col + width)

-- The two loops write true to the cells of the block that exist.
unfoldable pub mark_cells : Occupied → ℕ → ℕ → ℕ → ℕ → Occupied
unfolding in_block
mark_cells g row row_span col width = record {
  rows = g.rows;
  cols = g.cols;
  taken = λ r c.
      if ltb r g.rows && ltb c g.cols && in_block row row_span col width r c
      then true
      else g.taken r c;
}

-- The loop over the columns `c` with `c + colSpan <= cols`, of which `n` are left.
unfoldable pub first_col : Occupied → Placement → ℕ → ℕ → Option ℕ
unfolding cells_free
first_col g pl c zero = none
first_col g pl c (suc n) =
    let rest = first_col g pl (suc c) n in
    if cells_free g pl.row pl.row_span c pl.col_span then some c else rest

-- One pass of the loop over the rows: the placements that start in the row `r` get their columns.
unfoldable pub assign_row : ℕ → Occupied → List Placement → Occupied × List Placement
unfolding first_col mark_cells
assign_row r g [] = (g, [])
assign_row r g (pl ∷ pls) =
    if pl.row == r
    then elim (first_col g pl 0 ((g.cols + 1) - pl.col_span)) [
      | none ↦ let (g', pls') = assign_row r g pls in (g', pl ∷ pls')
      | some c ↦
          let (g', pls') = assign_row r (mark_cells g pl.row pl.row_span c pl.col_span) pls in
          (g', record pl { col = some c } ∷ pls')
    ]
    else let (g', pls') = assign_row r g pls in (g', pl ∷ pls')

-- The passes over the rows `r`, `r + 1`, …, of which `n` are left.
unfoldable pub assign_rows : ℕ → ℕ → Occupied → List Placement → Occupied × List Placement
unfolding assign_row
assign_rows r zero g pls = (g, pls)
assign_rows r (suc n) g pls = let (g', pls') = assign_row r g pls in assign_rows (suc r) n g' pls'

-- `while colEnd < cols` and the cells of that column are free; `n` columns are left.
unfoldable pub grow_end : Occupied → ℕ → ℕ → ℕ → ℕ → Occupied × ℕ
unfolding cells_free mark_cells
grow_end g row rs e zero = (g, e)
grow_end g row rs e (suc n) =
    let rest = grow_end (mark_cells g row rs e 1) row rs (suc e) n in
    if cells_free g row rs e 1 then rest else (g, e)

-- The loop over the placements that have a column.
unfoldable pub grow_all : Occupied → List Placement → List Placement
unfolding grow_end
grow_all g [] = []
grow_all g (pl ∷ pls) = elim pl.col [
  | none ↦ pl ∷ grow_all g pls
  | some c ↦
      let (g', e) = grow_end g pl.row pl.row_span (c + pl.col_span) (g.cols - (c + pl.col_span)) in
      record pl { col_end = e } ∷ grow_all g' pls
]

abbrev pub col_of : Placement → ℕ
col_of pl = elim pl.col [ none ↦ 0 | some c ↦ c ]

abbrev pub has_col : Placement → Bool
has_col pl = is_some pl.col

unfoldable pub before_2d : Placement → Placement → Bool
before_2d a b = if a.row == b.row then ltb (col_of a) (col_of b) else ltb a.row b.row

-- The tiles that get a column, grown, in the order in which they are grown: by row, then by column.
unfoldable pub lay_out : ℕ → ℕ → List Placement → List Placement
unfolding assign_rows grow_all no_cells before_2d
lay_out rows cols placements =
    let (g, assigned) = assign_rows 0 rows (no_cells rows cols) placements in
    grow_all g (sort_stable before_2d (keep has_col assigned))
