-- ===== src/Grid/Cells/Count.antt =====
-- How often the cells of the grid are covered, and the marking of a free block
-- (`cellsFree` and `markCells` of pkg/tui/grid/grid.go).
use binnacle.Prelude.{
  ℕ, zero, suc, ◌+◌, ◌≤◌, ◌<◌, Bool, true, false, ◌&&◌, List, [], ◌∷◌, Option, none, some, ltb,
  ◌==◌, ◌≡◌, inl, inr, arith, Bool-cases, ap, sym, ◌∙◌, subst,
}
use binnacle.Grid.{Placement}
use binnacle.Grid.Cells.{Occupied, row_free, cells_free, in_block, mark_cells, first_col}

abbrev pub bit : Bool → ℕ
bit true = 1
bit false = 0

-- How often a placement covers a cell: once in its block, if it has a column.
abbrev pub span_at : Option ℕ → ℕ → ℕ → ℕ → ℕ → ℕ → ℕ
span_at none row row_span width r c = 0
span_at (some col) row row_span width r c = bit (in_block row row_span col width r c)

abbrev pub covers : Placement → ℕ → ℕ → ℕ
covers pl r c = span_at pl.col pl.row pl.row_span pl.col_span r c

abbrev pub total_covers : List Placement → ℕ → ℕ → ℕ
total_covers [] r c = 0
total_covers (pl ∷ pls) r c = covers pl r c + total_covers pls r c

pub row_free_sound :
    (g : Occupied) (r c n c' : ℕ)
    → row_free g r c n ≡ true
    → c ≤ c'
    → c' < c + n
    → (g.taken r c' ≡ false) × (c' < g.cols)
unfolding row_free
row_free_sound g r c zero c' h le lt = absurd (omega (arith, le, lt))
row_free_sound g r c (suc n) c' h le lt = elim (Bool-cases (c == c')) [
  | inl e ↦ let same : c ≡ c' = ground arith in ground (arith, same)
  | inr e ↦
      let rest : row_free g r (suc c) n ≡ true = ground arith in
      row_free_sound g r (suc c) n c' rest (ground arith) (ground arith)
]

pub cells_free_sound :
    (g : Occupied) (r n c w r' c' : ℕ)
    → cells_free g r n c w ≡ true
    → in_block r n c w r' c' ≡ true
    → (g.taken r' c' ≡ false) × (ltb r' g.rows ≡ true) × (ltb c' g.cols ≡ true)
unfolding cells_free in_block
cells_free_sound g r zero c w r' c' h b = absurd (ground arith)
cells_free_sound g r (suc n) c w r' c' h b = elim (Bool-cases (r == r')) [
  | inl e ↦
      let same : r ≡ r' = ground arith in
      let row : row_free g r c w ≡ true = ground arith in
      let (free, inside) = row_free_sound g r c w c' row (ground arith) (ground arith) in
      ground (arith, free, inside, same)
  | inr e ↦
      let rest : cells_free g (suc r) n c w ≡ true = ground arith in
      cells_free_sound g (suc r) n c w r' c' rest (ground arith)
]

-- Marking a free block adds the block's cells to those that are taken, each of them once.
pub mark_cells-bit :
    (g : Occupied) (r n c w r' c' : ℕ)
    → cells_free g r n c w ≡ true
    → bit ((mark_cells g r n c w).taken r' c') ≡ bit (g.taken r' c') + bit (in_block r n c w r' c')
unfolding mark_cells
mark_cells-bit g r n c w r' c' h = elim (Bool-cases (in_block r n c w r' c')) [
  | inl e ↦ let (x, y, z) = cells_free_sound g r n c w r' c' h e in ground (arith, e, x, y, z)
  | inr e ↦ ground (arith, e)
]

-- The cells that are taken are those that `n` counts, each once, inside `rows` and `cols`.
abbrev pub IsCount : ℕ → ℕ → Occupied → (ℕ → ℕ → ℕ) → Type 0
IsCount rows cols g n =
    (g.rows ≡ rows)
    × (g.cols ≡ cols)
    × ((r c : ℕ)
        → (n r c ≡ bit (g.taken r c))
          × (g.taken r c ≡ true → (ltb r rows ≡ true) × (ltb c cols ≡ true)))

module _ {rows cols : ℕ} where
  pub IsCount-same :
      (g : Occupied) (n m : ℕ → ℕ → ℕ)
      → ((r c : ℕ) → m r c ≡ n r c)
      → IsCount rows cols g n
      → IsCount rows cols g m
  IsCount-same g n m same h = (h.0, h.1, λ r c. (same r c ∙ (h.2 r c).0, (h.2 r c).1))

  pub mark_cells-IsCount :
      (g : Occupied) (n : ℕ → ℕ → ℕ) (r k c w : ℕ)
      → IsCount rows cols g n
      → cells_free g r k c w ≡ true
      → IsCount rows cols (mark_cells g r k c w) (λ r' c'. n r' c' + bit (in_block r k c w r' c'))
  unfolding mark_cells
  mark_cells-IsCount g n r k c w h free = (
    h.0,
    h.1,
    λ r' c'.
        let (e, inside) = h.2 r' c' in
        let more = mark_cells-bit g r k c w r' c' free in
        (
          ap (λ x. x + bit (in_block r k c w r' c')) e ∙ sym more,
          λ t. elim (Bool-cases (ltb r' g.rows && ltb c' g.cols && in_block r k c w r' c')) [
            | inl b ↦ let rs = h.0 in let cs = h.1 in ground (arith, b, rs, cs)
            | inr b ↦ inside (ground (arith, b, t))
          ],
        ),
  )

pub first_col_sound :
    (g : Occupied) (pl : Placement) (c n c' : ℕ)
    → first_col g pl c n ≡ some c'
    → cells_free g pl.row pl.row_span c' pl.col_span ≡ true
unfolding first_col
first_col_sound g pl c zero c' h = absurd (ground arith)
first_col_sound g pl c (suc n) c' h =
    elim (Bool-cases (cells_free g pl.row pl.row_span c pl.col_span)) [
      | inl e ↦
          let same : c ≡ c' = ground (arith, e) in
          subst (λ x. cells_free g pl.row pl.row_span x pl.col_span ≡ true) same e
      | inr e ↦ first_col_sound g pl (suc c) n c' (ground (arith, e))
    ]
