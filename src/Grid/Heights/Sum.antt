-- ===== src/Grid/Heights/Sum.antt =====
-- The sum of the rows' heights (`capRowHeights` of pkg/tui/grid/grid.go).
use native.Mathlib.Nat.{div-mul-le_self, le_of_mul-le-mul_right}
use binnacle.Prelude.{
  ℕ, zero, suc, ◌+◌, ◌-◌, ◌*◌, ◌≤◌, ◌<◌, Bool, ◌||◌, List, [], ◌∷◌, Option, none, some, ltb, leb,
  max, ◌≡◌, refl, inl, inr, arith, Bool-cases, Option-cases, ap, sym, ◌∙◌,
}
use binnacle.Grid.{Placement}
use binnacle.Grid.Heights.{
  Row, Chrome, free_weight, surplus_of, trim, extra, give, given, give_rest, share_surplus,
  height_sum, declare, declare_rows, declare_all, ceiling_of, unlimited, cap_row_heights,
}

trim-sum : (rs : List Row) → height_sum (trim rs) + surplus_of rs ≡ height_sum rs
unfolding height_sum trim surplus_of
trim-sum [] = refl
trim-sum (r ∷ rs) = ground (arith, trim-sum rs)

trim-free : (rs : List Row) → free_weight (trim rs) ≡ free_weight rs
unfolding free_weight trim
trim-free [] = refl
trim-free (r ∷ rs) = ground (arith, trim-free rs)

give-sum :
    (surplus free : ℕ) (rs : List Row)
    → height_sum (give surplus free rs) ≡ height_sum rs + given surplus free rs
unfolding height_sum give given
give-sum surplus free [] = refl
give-sum surplus free (r ∷ rs) = ground (arith, give-sum surplus free rs)

give-free : (surplus free : ℕ) (rs : List Row) → free_weight (give surplus free rs) ≡ free_weight rs
unfolding free_weight give
give-free surplus free [] = refl
give-free surplus free (r ∷ rs) = ground (arith, give-free surplus free rs)

given-le :
    (surplus free : ℕ) (rs : List Row) → given surplus free rs * free ≤ surplus * free_weight rs
unfolding given free_weight
given-le surplus free [] = ground arith
given-le surplus free (r ∷ rs) =
    let one = div-mul-le_self (surplus * max r.weight 1) free in
    let ih = given-le surplus free rs in
    elim (Bool-cases r.capped) [
      | inl e ↦ ground (arith, e, ih)
      | inr e ↦
          let sum : (extra surplus free r + given surplus free rs) * free
              ≤ surplus * (max r.weight 1 + free_weight rs) =
            omega (arith, one, ih) in
          ground (arith, e, sum)
    ]

give_rest-sum :
    (rest : ℕ) (rs rs' : List Row)
    → give_rest rest rs ≡ some rs'
    → height_sum rs' ≡ height_sum rs + rest
unfolding give_rest height_sum
give_rest-sum rest [] rs' h = absurd (ground arith)
give_rest-sum rest (r ∷ rs) rs' h = elim (Option-cases (give_rest rest rs)) [
  | inr (rs'', e) ↦
      let ih = give_rest-sum rest rs rs'' e in
      let same : r ∷ rs'' ≡ rs' = ground (arith, e) in sym (ap height_sum same) ∙ omega (arith, ih)
  | inl e ↦ elim (Bool-cases r.capped) [
    | inl f ↦ absurd (ground (arith, e, f))
    | inr f ↦
        let same : record r { height = r.height + rest } ∷ rs ≡ rs' = ground (arith, e, f) in
        sym (ap height_sum same) ∙ omega arith
  ]
]

give_rest-none : (rest : ℕ) (rs : List Row) → give_rest rest rs ≡ none → free_weight rs ≡ 0
unfolding give_rest free_weight
give_rest-none rest [] h = refl
give_rest-none rest (r ∷ rs) h = elim (Option-cases (give_rest rest rs)) [
  | inr (rs'', e) ↦ absurd (ground (arith, e))
  | inl e ↦ elim (Bool-cases r.capped) [
    | inl f ↦ ground (arith, f, give_rest-none rest rs e)
    | inr f ↦ absurd (ground (arith, e, f))
  ]
]

share_surplus-sum : (rs : List Row) → height_sum (share_surplus rs) ≡ height_sum rs
unfolding share_surplus
share_surplus-sum rs =
    let surplus = surplus_of rs in
    let free = free_weight rs in
    let grown = give surplus free (trim rs) in
    let got = given surplus free (trim rs) in
    let sum = give-sum surplus free (trim rs) in
    let cut = trim-sum rs in
    elim (Bool-cases (leb surplus 0 || leb free 0)) [
      | inl e ↦ let same : share_surplus rs ≡ rs = ground (arith, e) in ap height_sum same
      | inr e ↦
          let pos : 0 < free = ground (arith, e) in
          let bound : got * free ≤ surplus * free =
            omega (arith, given-le surplus free (trim rs), ap (λ x. surplus * x) (trim-free rs)) in
          let le : got ≤ surplus = le_of_mul-le-mul_right bound pos in
          elim (Bool-cases (ltb got surplus)) [
            | inr f ↦
                let same : share_surplus rs ≡ grown = ground (arith, e, f) in
                let full : surplus ≤ got = ground (arith, f) in
                let total : height_sum grown ≡ height_sum rs = omega (arith, sum, cut, le, full) in
                ap height_sum same ∙ total
            | inl f ↦ elim (Option-cases (give_rest (surplus - got) grown)) [
              | inl g ↦
                  let z = give_rest-none (surplus - got) grown g in
                  let w = give-free surplus free (trim rs) in
                  absurd (omega (arith, z, w, trim-free rs, pos))
              | inr (rs', g) ↦
                  let same : share_surplus rs ≡ rs' = ground (arith, e, f, g) in
                  let more = give_rest-sum (surplus - got) grown rs' g in
                  let total : height_sum rs' ≡ height_sum rs = omega (arith, more, sum, cut, le) in
                  ap height_sum same ∙ total
            ]
          ]
    ]

declare_rows-sum :
    (h row span : ℕ) (rs : List Row) → height_sum (declare_rows h row span rs) ≡ height_sum rs
unfolding height_sum declare_rows declare
declare_rows-sum h row span [] = refl
declare_rows-sum h zero zero (r ∷ rs) = refl
declare_rows-sum h zero (suc span) (r ∷ rs) = ground (arith, declare_rows-sum h zero span rs)
declare_rows-sum h (suc row) span (r ∷ rs) = ground (arith, declare_rows-sum h row span rs)

declare_all-sum :
    (chrome : Chrome) (tiles : List (Placement × Option (ℕ → ℕ) × Bool)) (col_w : List (List ℕ))
    (rs : List Row)
    → height_sum (declare_all chrome tiles col_w rs) ≡ height_sum rs
unfolding declare_all
declare_all-sum chrome [] col_w rs = refl
declare_all-sum chrome ((pl, content, shared) ∷ tiles) col_w rs =
    let h = ceiling_of chrome content shared pl col_w in
    let one = declare_rows-sum h pl.row pl.row_span rs in
    elim (Option-cases pl.col) [
      | inl e ↦ ground (arith, e, declare_all-sum chrome tiles col_w rs)
      | inr (c, e) ↦
          let ih = declare_all-sum chrome tiles col_w (declare_rows h pl.row pl.row_span rs) in
          ground (arith, e, ih, one)
    ]

unlimited-sum : (rs : List Row) → height_sum (unlimited rs) ≡ height_sum rs
unfolding height_sum
unlimited-sum [] = refl
unlimited-sum (r ∷ rs) = ap (λ x. r.height + x) (unlimited-sum rs)

-- Capping the rows' heights neither loses nor invents a line: whatever the panes declare, the heights add
-- up to what they added up to before.
pub cap_row_heights-sum :
    (chrome : Chrome) (tiles : List (Placement × Option (ℕ → ℕ) × Bool)) (col_w : List (List ℕ))
    (rows : List Row)
    → height_sum (cap_row_heights chrome tiles col_w rows) ≡ height_sum rows
unfolding cap_row_heights
cap_row_heights-sum chrome tiles col_w rows =
    share_surplus-sum (declare_all chrome tiles col_w (unlimited rows))
    ∙ (declare_all-sum chrome tiles col_w (unlimited rows) ∙ unlimited-sum rows)
