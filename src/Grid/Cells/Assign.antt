-- ===== src/Grid/Cells/Assign.antt =====
-- The passes that give the tiles their columns, and the count of the cells that are taken (`Compute` of
-- pkg/tui/grid/grid.go).
use binnacle.Prelude.{
  ℕ, zero, suc, ◌+◌, ◌-◌, true, List, [], ◌∷◌, none, some, leb, ◌==◌, ◌≡◌, inl, inr, arith,
  Bool-cases, Option-cases, ap, subst, All,
}
use binnacle.Grid.{Placement}
use binnacle.Grid.Cells.{Occupied, in_block, mark_cells, first_col, assign_row, assign_rows}
use binnacle.Grid.Cells.Count.{
  bit, span_at, covers, total_covers, IsCount, IsCount-same, mark_cells-IsCount, first_col_sound,
}

-- No placement of a row from `r` on has a column yet.
abbrev pub IsFresh : ℕ → List Placement → Type 0
IsFresh r = All (λ p. leb r p.row ≡ true → p.col ≡ none)

abbrev pub Assigned : ℕ → ℕ → ℕ → (ℕ → ℕ → ℕ) → Occupied × List Placement → Type 0
Assigned rows cols r n (g, pls) =
    IsCount rows cols g (λ r' c'. n r' c' + total_covers pls r' c') × IsFresh (suc r) pls

module _ {rows cols : ℕ} where
  pub assign_row-Assigned :
      (r : ℕ) (g : Occupied) (pls : List Placement) (n : ℕ → ℕ → ℕ)
      → IsCount rows cols g (λ r' c'. n r' c' + total_covers pls r' c')
      → IsFresh r pls
      → Assigned rows cols r n (assign_row r g pls)
  unfolding assign_row
  assign_row-Assigned r g [] n h f = (h, tt)
  assign_row-Assigned r g (pl ∷ pls) n h f =
      let skip : (leb (suc r) pl.row ≡ true → pl.col ≡ none)
          → Assigned rows cols r n ((assign_row r g pls).0, pl ∷ (assign_row r g pls).1) =
        λ still.
          let ih =
            assign_row-Assigned r g pls (λ r' c'. n r' c' + covers pl r' c')
              (IsCount-same g (λ r' c'. n r' c' + total_covers (pl ∷ pls) r' c')
                (λ r' c'. n r' c' + covers pl r' c' + total_covers pls r' c') (λ r' c'. omega arith)
                h)
              f.1 in
          (
            IsCount-same (assign_row r g pls).0
                (λ r' c'. n r' c' + covers pl r' c' + total_covers (assign_row r g pls).1 r' c')
                (λ r' c'. n r' c' + total_covers (pl ∷ (assign_row r g pls).1) r' c')
                (λ r' c'. omega arith) ih.0,
            (still, ih.1),
          ) in
      elim (Bool-cases (pl.row == r)) [
        | inr e ↦
            let same : ((assign_row r g pls).0, pl ∷ (assign_row r g pls).1)
                ≡ assign_row r g (pl ∷ pls) =
              ground (arith, e) in
            subst (Assigned rows cols r n) same (skip (λ k. f.0 (ground arith)))
        | inl e ↦ elim (Option-cases (first_col g pl 0 ((g.cols + 1) - pl.col_span))) [
          | inl o ↦
              let same : ((assign_row r g pls).0, pl ∷ (assign_row r g pls).1)
                  ≡ assign_row r g (pl ∷ pls) =
                ground (arith, e, o) in
              subst (Assigned rows cols r n) same (skip (λ k. f.0 (ground arith)))
          | inr (c, o) ↦
              let g' = mark_cells g pl.row pl.row_span c pl.col_span in
              let blank : pl.col ≡ none = f.0 (ground arith) in
              let b : ℕ → ℕ → ℕ = λ r' c'. bit (in_block pl.row pl.row_span c pl.col_span r' c') in
              let marked =
                mark_cells-IsCount g (λ r' c'. n r' c' + total_covers (pl ∷ pls) r' c') pl.row
                  pl.row_span c pl.col_span h
                  (first_col_sound g pl 0 ((g.cols + 1) - pl.col_span) c o) in
              let ih =
                assign_row-Assigned r g' pls (λ r' c'. n r' c' + b r' c')
                  (IsCount-same g' (λ r' c'. n r' c' + total_covers (pl ∷ pls) r' c' + b r' c')
                    (λ r' c'. n r' c' + b r' c' + total_covers pls r' c')
                    (λ r' c'.
                      let z : covers pl r' c' ≡ 0 =
                        ap (λ o. span_at o pl.row pl.row_span pl.col_span r' c') blank in
                      omega (arith, z))
                    marked)
                  f.1 in
              let out : Assigned rows cols r n
                  ((assign_row r g' pls).0, record pl { col = some c } ∷ (assign_row r g' pls).1) =
                (
                  IsCount-same (assign_row r g' pls).0
                      (λ r' c'. n r' c' + b r' c' + total_covers (assign_row r g' pls).1 r' c')
                      (λ r' c'.
                        n r' c'
                        + total_covers (record pl { col = some c } ∷ (assign_row r g' pls).1) r' c')
                      (λ r' c'. omega arith) ih.0,
                  ((λ k. absurd (ground arith)), ih.1),
                ) in
              let same : (
                (assign_row r g' pls).0,
                record pl { col = some c } ∷ (assign_row r g' pls).1,
              )
                  ≡ assign_row r g (pl ∷ pls) =
                ground (arith, e, o) in
              subst (Assigned rows cols r n) same out
        ]
      ]

  pub assign_rows-Assigned :
      (k r : ℕ) (g : Occupied) (pls : List Placement)
      → IsCount rows cols g (total_covers pls)
      → IsFresh r pls
      → IsCount rows cols (assign_rows r k g pls).0 (total_covers (assign_rows r k g pls).1)
  unfolding assign_rows
  assign_rows-Assigned zero r g pls h f = h
  assign_rows-Assigned (suc k) r g pls h f =
      let step =
        assign_row-Assigned r g pls (λ r' c'. 0)
          (IsCount-same g (total_covers pls) (λ r' c'. 0 + total_covers pls r' c')
            (λ r' c'. omega arith) h)
          f in
      let g' = (assign_row r g pls).0 in
      let pls' = (assign_row r g pls).1 in
      assign_rows-Assigned k (suc r) g' pls'
        (IsCount-same g' (λ r' c'. 0 + total_covers pls' r' c') (total_covers pls')
          (λ r' c'. omega arith) step.0)
        step.1
