-- ===== src/Grid/Cells/Grow.antt =====
-- The growth of the tiles, and the count of the cells that are taken (`Compute` of
-- pkg/tui/grid/grid.go).
use binnacle.Prelude.{
  ℕ, zero, suc, ◌+◌, ◌-◌, ◌≤◌, List, [], ◌∷◌, Option, none, some, ◌≡◌, inl, inr, arith, Bool-cases,
  Option-cases, ap, subst,
}
use binnacle.Grid.{Placement}
use binnacle.Grid.Cells.{Occupied, cells_free, in_block, mark_cells, grow_end, grow_all}
use binnacle.Grid.Cells.Count.{
  bit, span_at, covers, total_covers, IsCount, IsCount-same, mark_cells-IsCount,
}

-- How often a grown tile covers a cell: once in the columns from `col` up to `colEnd`.
abbrev pub tile_at : Option ℕ → ℕ → ℕ → ℕ → ℕ → ℕ → ℕ
tile_at none row row_span end r c = 0
tile_at (some col) row row_span end r c = bit (in_block row row_span col (end - col) r c)

abbrev pub tile_covers : Placement → ℕ → ℕ → ℕ
tile_covers pl r c = tile_at pl.col pl.row pl.row_span pl.col_end r c

abbrev pub total_tiles : List Placement → ℕ → ℕ → ℕ
total_tiles [] r c = 0
total_tiles (pl ∷ pls) r c = tile_covers pl r c + total_tiles pls r c

-- A block that is one column wider covers that column's cells too.
pub in_block-suc :
    (row row_span col w r c : ℕ)
    → bit (in_block row row_span col (suc w) r c)
      ≡ bit (in_block row row_span col w r c) + bit (in_block row row_span (col + w) 1 r c)
unfolding in_block
in_block-suc row row_span col w r c = ground arith

abbrev pub Grown : ℕ → ℕ → ℕ → ℕ → ℕ → (ℕ → ℕ → ℕ) → Occupied × ℕ → Type 0
Grown rows cols row row_span col n (g, e) =
    (col ≤ e) × IsCount rows cols g (λ r c. n r c + bit (in_block row row_span col (e - col) r c))

module _ {rows cols : ℕ} where
  pub grow_end-Grown :
      (k : ℕ) (g : Occupied) (row row_span col w : ℕ) (n : ℕ → ℕ → ℕ)
      → IsCount rows cols g (λ r c. n r c + bit (in_block row row_span col w r c))
      → Grown rows cols row row_span col n (grow_end g row row_span (col + w) k)
  unfolding grow_end
  grow_end-Grown zero g row row_span col w n h =
      let same : w ≡ (col + w) - col = omega arith in
      (
        omega arith,
        subst (λ x. IsCount rows cols g (λ r c. n r c + bit (in_block row row_span col x r c))) same
            h,
      )
  grow_end-Grown (suc k) g row row_span col w n h =
      elim (Bool-cases (cells_free g row row_span (col + w) 1)) [
        | inr e ↦
            let same : (g, col + w) ≡ grow_end g row row_span (col + w) (suc k) =
              ground (arith, e) in
            let width : w ≡ (col + w) - col = omega arith in
            subst (Grown rows cols row row_span col n) same (
              omega arith,
              subst
                  (λ x. IsCount rows cols g (λ r c. n r c + bit (in_block row row_span col x r c)))
                  width h,
            )
        | inl e ↦
            let g' = mark_cells g row row_span (col + w) 1 in
            let marked =
              mark_cells-IsCount g (λ r c. n r c + bit (in_block row row_span col w r c)) row
                row_span (col + w) 1 h e in
            let wider =
              IsCount-same g'
                (λ r c.
                  n r c
                  + bit (in_block row row_span col w r c)
                  + bit (in_block row row_span (col + w) 1 r c))
                (λ r c. n r c + bit (in_block row row_span col (suc w) r c))
                (λ r c. omega (arith, in_block-suc row row_span col w r c)) marked in
            let next : col + suc w ≡ suc (col + w) = omega arith in
            let ih =
              subst (λ x. Grown rows cols row row_span col n (grow_end g' row row_span x k)) next
                (grow_end-Grown k g' row row_span col (suc w) n wider) in
            let same : grow_end g' row row_span (suc (col + w)) k
                ≡ grow_end g row row_span (col + w) (suc k) =
              ground (arith, e) in
            subst (Grown rows cols row row_span col n) same ih
      ]

  -- The tiles that growing leaves behind still cover each cell as often as it is taken.
  pub grow_all-IsCount :
      (g : Occupied) (pls : List Placement) (n : ℕ → ℕ → ℕ)
      → IsCount rows cols g (λ r c. n r c + total_covers pls r c)
      → (g' : Occupied) × IsCount rows cols g' (λ r c. n r c + total_tiles (grow_all g pls) r c)
  unfolding grow_all
  grow_all-IsCount g [] n h = (g, h)
  grow_all-IsCount g (pl ∷ pls) n h = elim (Option-cases pl.col) [
    | inl e ↦
        let z : (r c : ℕ) → covers pl r c ≡ 0 =
          λ r c. ap (λ o. span_at o pl.row pl.row_span pl.col_span r c) e in
        let z' : (r c : ℕ) → tile_covers pl r c ≡ 0 =
          λ r c. ap (λ o. tile_at o pl.row pl.row_span pl.col_end r c) e in
        let (g', ih) = grow_all-IsCount g pls n (
          IsCount-same g (λ r c. n r c + total_covers (pl ∷ pls) r c)
            (λ r c. n r c + total_covers pls r c) (λ r c. omega (arith, z r c)) h) in
        let same : pl ∷ grow_all g pls ≡ grow_all g (pl ∷ pls) = ground (arith, e) in
        (
          g',
          subst (λ x. IsCount rows cols g' (λ r c. n r c + total_tiles x r c)) same
              (IsCount-same g' (λ r c. n r c + total_tiles (grow_all g pls) r c)
                (λ r c. n r c + total_tiles (pl ∷ grow_all g pls) r c)
                (λ r c. omega (arith, z' r c)) ih),
        )
    | inr (col, e) ↦
        let b : ℕ → ℕ → ℕ = λ r c. bit (in_block pl.row pl.row_span col pl.col_span r c) in
        let y : (r c : ℕ) → covers pl r c ≡ b r c =
          λ r c. ap (λ o. span_at o pl.row pl.row_span pl.col_span r c) e in
        let k = g.cols - (col + pl.col_span) in
        let (le, grown) =
          grow_end-Grown k g pl.row pl.row_span col pl.col_span
            (λ r c. n r c + total_covers pls r c)
            (IsCount-same g (λ r c. n r c + total_covers (pl ∷ pls) r c)
              (λ r c. n r c + total_covers pls r c + b r c) (λ r c. omega (arith, y r c)) h) in
        let g₁ = (grow_end g pl.row pl.row_span (col + pl.col_span) k).0 in
        let end = (grow_end g pl.row pl.row_span (col + pl.col_span) k).1 in
        let t : ℕ → ℕ → ℕ = λ r c. bit (in_block pl.row pl.row_span col (end - col) r c) in
        let (g', ih) =
          grow_all-IsCount g₁ pls (λ r c. n r c + t r c)
            (IsCount-same g₁ (λ r c. n r c + total_covers pls r c + t r c)
              (λ r c. n r c + t r c + total_covers pls r c) (λ r c. omega arith) grown) in
        let same : record pl { col_end = end } ∷ grow_all g₁ pls ≡ grow_all g (pl ∷ pls) =
          ground (arith, e) in
        let y' : (r c : ℕ) → tile_covers (record pl { col_end = end }) r c ≡ t r c =
          λ r c. ap (λ o. tile_at o pl.row pl.row_span end r c) e in
        (
          g',
          subst (λ x. IsCount rows cols g' (λ r c. n r c + total_tiles x r c)) same
              (IsCount-same g' (λ r c. n r c + t r c + total_tiles (grow_all g₁ pls) r c)
                (λ r c. n r c + total_tiles (record pl { col_end = end } ∷ grow_all g₁ pls) r c)
                (λ r c. omega (arith, y' r c)) ih),
        )
  ]
