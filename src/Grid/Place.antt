-- ===== src/Grid/Place.antt =====
-- The rows: each pane takes the first row, from the row of the pane before it on, in which and below
-- which its whole block has the columns left.
use binnacle.Prelude.{
  ℕ, zero, suc, ◌+◌, ◌-◌, Bool, true, false, List, [], ◌∷◌, Option, none, some, if◌then◌else◌, leb,
  get_or, set, max, replicate,
}
use binnacle.Grid.{Pane, Placement, span_of, row_span_of}

-- `capacity[k] >= cs` for the `rs` rows from `k` on.
unfoldable pub fits : List ℕ → ℕ → ℕ → ℕ → Bool
fits capacity k zero cs = true
fits capacity k (suc rs) cs =
    let rest = fits capacity (suc k) rs cs in if leb cs (get_or capacity k 0) then rest else false

-- The loop over the rows `r` with `r + rs <= gridRows`, of which `n` are left.
unfoldable pub first_row : List ℕ → ℕ → ℕ → ℕ → ℕ → Option ℕ
unfolding fits
first_row capacity r zero rs cs = none
first_row capacity r (suc n) rs cs =
    let rest = first_row capacity (suc r) n rs cs in if fits capacity r rs cs then some r else rest

unfoldable pub spend : List ℕ → ℕ → ℕ → ℕ → List ℕ
spend capacity k zero cs = capacity
spend capacity k (suc rs) cs = spend (set capacity k (get_or capacity k 0 - cs)) (suc k) rs cs

-- The loop over the panes.
unfoldable pub place : List Pane → ℕ → ℕ → List ℕ → ℕ → List Placement
unfolding first_row spend span_of row_span_of
place [] rows cols capacity min_row = []
place (p ∷ panes) rows cols capacity min_row =
    let cs = span_of p cols in
    let rs = row_span_of p rows cols in
    elim (first_row capacity min_row ((rows + 1) - (min_row + rs)) rs cs) [
      | none ↦ place panes rows cols capacity min_row
      | some row ↦
          record { pane = p; row = row; col = none; col_end = 0; col_span = cs; row_span = rs }
          ∷ place panes rows cols (spend capacity row rs cs) row
    ]

unfoldable pub place_all : List Pane → ℕ → ℕ → List Placement
unfolding place
place_all panes rows cols = place panes rows cols (replicate rows cols) 0

unfoldable pub row_count : List Placement → ℕ
row_count [] = 0
row_count (pl ∷ placements) = max (pl.row + pl.row_span) (row_count placements)
