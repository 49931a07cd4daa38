-- ===== src/Grid/Cells/Disjoint.antt =====
-- The cells that the tiles of a layout share, and the edges of the grid (`Compute` of
-- pkg/tui/grid/grid.go).
use binnacle.Prelude.{
  ltb→lt, replicate, ℕ, ◌+◌, ◌-◌, ◌≤◌, ◌<◌, true, List, [], ◌∷◌, none, ltb, ◌≡◌, refl, inl, inr,
  arith, Bool-cases, Option-cases, ap, ◌∙◌, subst, keep, All,
}
use binnacle.Prelude.Sort.{sort_stable, insert_sorted}
use binnacle.Grid.{Placement, Pane, span_of, row_span_of}
use binnacle.Grid.Place.{place, place_all, first_row, spend, row_count}
use binnacle.Grid.Cells.{no_cells, assign_rows, grow_all, has_col, before_2d, lay_out}
use binnacle.Grid.Cells.Count.{bit, span_at, covers, total_covers, IsCount, IsCount-same}
use binnacle.Grid.Cells.Assign.{IsFresh, assign_rows-Assigned}
use binnacle.Grid.Cells.Grow.{total_tiles, grow_all-IsCount}

insert_sorted-covers :
    (x : Placement) (pls : List Placement) (r c : ℕ)
    → total_covers (insert_sorted before_2d x pls) r c ≡ covers x r c + total_covers pls r c
unfolding insert_sorted
insert_sorted-covers x [] r c = refl
insert_sorted-covers x (y ∷ pls) r c = elim (Bool-cases (before_2d y x)) [
  | inl e ↦
      let same : insert_sorted before_2d x (y ∷ pls) ≡ y ∷ insert_sorted before_2d x pls =
        ground (arith, e) in
      let ih = insert_sorted-covers x pls r c in
      ap (λ l. total_covers l r c) same ∙ omega (arith, ih)
  | inr e ↦
      let same : insert_sorted before_2d x (y ∷ pls) ≡ x ∷ y ∷ pls = ground (arith, e) in
      ap (λ l. total_covers l r c) same
]

sort_stable-covers :
    (pls : List Placement) (r c : ℕ)
    → total_covers (sort_stable before_2d pls) r c ≡ total_covers pls r c
unfolding sort_stable
sort_stable-covers [] r c = refl
sort_stable-covers (pl ∷ pls) r c =
    insert_sorted-covers pl (sort_stable before_2d pls) r c
    ∙ ap (λ x. covers pl r c + x) (sort_stable-covers pls r c)

keep-covers :
    (pls : List Placement) (r c : ℕ) → total_covers (keep has_col pls) r c ≡ total_covers pls r c
keep-covers [] r c = refl
keep-covers (pl ∷ pls) r c = elim (Option-cases pl.col) [
  | inl e ↦
      let same : keep has_col (pl ∷ pls) ≡ keep has_col pls = ground (arith, e) in
      let z : covers pl r c ≡ 0 = ap (λ o. span_at o pl.row pl.row_span pl.col_span r c) e in
      ap (λ l. total_covers l r c) same ∙ omega (arith, z, keep-covers pls r c)
  | inr (col, e) ↦
      let same : keep has_col (pl ∷ pls) ≡ pl ∷ keep has_col pls = ground (arith, e) in
      ap (λ l. total_covers l r c) same ∙ ap (λ x. covers pl r c + x) (keep-covers pls r c)
]

abbrev pub IsBlank : List Placement → Type 0
IsBlank = All (λ p. p.col ≡ none)

IsBlank-IsFresh : (pls : List Placement) → IsBlank pls → IsFresh 0 pls
IsBlank-IsFresh [] h = tt
IsBlank-IsFresh (pl ∷ pls) h = ((λ k. h.0), IsBlank-IsFresh pls h.1)

IsBlank-covers : (pls : List Placement) (r c : ℕ) → IsBlank pls → total_covers pls r c ≡ 0
IsBlank-covers [] r c h = refl
IsBlank-covers (pl ∷ pls) r c h =
    let z : covers pl r c ≡ 0 = ap (λ o. span_at o pl.row pl.row_span pl.col_span r c) h.0 in
    omega (arith, z, IsBlank-covers pls r c h.1)

no_cells-IsCount :
    (rows cols : ℕ) (pls : List Placement)
    → IsBlank pls
    → IsCount rows cols (no_cells rows cols) (total_covers pls)
unfolding no_cells
no_cells-IsCount rows cols pls h =
    (refl, refl, λ r c. (IsBlank-covers pls r c h, λ t. absurd (ground arith)))

-- If no placement has a column yet, the tiles of the layout cover each cell at most once, and a cell that
-- a tile covers lies inside the grid.
pub lay_out-disjoint :
    (rows cols : ℕ) (placements : List Placement) (r c : ℕ)
    → IsBlank placements
    → (total_tiles (lay_out rows cols placements) r c ≤ 1)
      × (0 < total_tiles (lay_out rows cols placements) r c → (r < rows) × (c < cols))
unfolding lay_out
lay_out-disjoint rows cols placements r c fresh =
    let start = no_cells rows cols in
    let g = (assign_rows 0 rows start placements).0 in
    let pls = (assign_rows 0 rows start placements).1 in
    let assigned : IsCount rows cols g (total_covers pls) =
      assign_rows-Assigned rows 0 start placements (no_cells-IsCount rows cols placements fresh)
        (IsBlank-IsFresh placements fresh) in
    let sorted = sort_stable before_2d (keep has_col pls) in
    let (g', h) =
      grow_all-IsCount {rows = rows} {cols = cols} g sorted (λ r c. 0)
        (IsCount-same g (total_covers pls) (λ r c. 0 + total_covers sorted r c)
          (λ r c. omega (arith, sort_stable-covers (keep has_col pls) r c, keep-covers pls r c))
          assigned) in
    let e : 0 + total_tiles (grow_all g sorted) r c ≡ bit (g'.taken r c) = (h.2 r c).0 in
    let inside : g'.taken r c ≡ true → (ltb r rows ≡ true) × (ltb c cols ≡ true) = (h.2 r c).1 in
    elim (Bool-cases (g'.taken r c)) [
      | inl t ↦
          let one : 0 + total_tiles (grow_all g sorted) r c ≡ 1 = e ∙ ap bit t in
          let (x, y) = inside t in (omega (arith, one), λ k. (ltb→lt r rows x, ltb→lt c cols y))
      | inr t ↦
          let zero_times : 0 + total_tiles (grow_all g sorted) r c ≡ 0 = e ∙ ap bit t in
          (omega (arith, zero_times), λ k. absurd (omega (arith, zero_times, k)))
    ]

place-IsBlank :
    (panes : List Pane) (rows cols : ℕ) (capacity : List ℕ) (min_row : ℕ)
    → IsBlank (place panes rows cols capacity min_row)
unfolding place
place-IsBlank [] rows cols capacity min_row = tt
place-IsBlank (p ∷ panes) rows cols capacity min_row =
    let cs = span_of p cols in
    let rs = row_span_of p rows cols in
    elim (Option-cases (first_row capacity min_row ((rows + 1) - (min_row + rs)) rs cs)) [
      | inl e ↦
          let same : place panes rows cols capacity min_row
              ≡ place (p ∷ panes) rows cols capacity min_row =
            ground (arith, e) in
          subst IsBlank same (place-IsBlank panes rows cols capacity min_row)
      | inr (row, e) ↦
          let rest = place panes rows cols (spend capacity row rs cs) row in
          let same : record {
            pane = p;
            row = row;
            col = none;
            col_end = 0;
            col_span = cs;
            row_span = rs;
          }
                ∷ rest
              ≡ place (p ∷ panes) rows cols capacity min_row =
            ground (arith, e) in
          subst IsBlank same (refl, place-IsBlank panes rows cols (spend capacity row rs cs) row)
    ]

-- Whatever the panes ask for, on a body of `rows` rows and `cols` columns, no two tiles share a cell and
-- every tile lies inside the rows that are used.
pub place_all-disjoint :
    (panes : List Pane) (rows cols r c : ℕ)
    → let placements = place_all panes rows cols in
      let tiles = lay_out (row_count placements) cols placements in
      (total_tiles tiles r c ≤ 1)
      × (0 < total_tiles tiles r c → (r < row_count placements) × (c < cols))
unfolding place_all
place_all-disjoint panes rows cols r c =
    lay_out-disjoint (row_count (place_all panes rows cols)) cols (place_all panes rows cols) r c
      (place-IsBlank panes rows cols (replicate rows cols) 0)
