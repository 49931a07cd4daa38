-- ===== src/Grid/Heights.antt =====
-- The rows' heights: `bandOf`, `tileWidth` and `capRowHeights`, which takes the
-- height that no pane of a row can use and gives it to the rows that never say.
use binnacle.Prelude.{
  ℕ, zero, suc, ◌+◌, ◌-◌, ◌*◌, ◌/◌, Bool, true, false, not, ◌&&◌, ◌||◌, List, [], ◌∷◌, Option, none,
  some, if◌then◌else◌, ltb, leb, max, is_some, get_or,
}
use binnacle.Grid.{Placement, ceil_div}
pub mod Sum

-- Whether a placement with a column covers the row `r` and the row above it.
abbrev pub bridges : ℕ → Placement → Bool
bridges r pl = is_some pl.col && ltb pl.row r && ltb r (pl.row + pl.row_span)

unfoldable pub is_joined : List Placement → ℕ → Bool
is_joined [] r = false
is_joined (pl ∷ pls) r = bridges r pl || is_joined pls r

-- The bands of the rows `r`, `r + 1`, …, of which `n` are left, after a row of the band `id`.
unfoldable pub bands_from : List Placement → ℕ → ℕ → ℕ → List ℕ
unfolding is_joined
bands_from pls r zero id = []
bands_from pls r (suc n) id =
    let here = if is_joined pls r then id else id + 1 in here ∷ bands_from pls (suc r) n here

unfoldable pub band_of : List Placement → ℕ → List ℕ
unfolding bands_from
band_of pls zero = []
band_of pls (suc n) = 0 ∷ bands_from pls 1 n 0

-- The widths of `n` columns of a row, from the column `c` on.
abbrev pub sum_from : List ℕ → ℕ → ℕ → ℕ
sum_from ws c zero = 0
sum_from ws c (suc n) = get_or ws c 0 + sum_from ws (suc c) n

-- A column out of range counts nothing, and a row out of range gives 0.
unfoldable pub tile_width : Placement → List (List ℕ) → ℕ
tile_width pl col_w = elim pl.col [
  | none ↦ 0
  | some c ↦ sum_from (get_or col_w pl.row []) c (pl.col_end - c)
]

-- What the code gathers of a row: its height and weight, the highest ceiling that a tile of it declares,
-- and whether all of them declare one.
pub record Row : Type 0 where
  pub height : ℕ
  pub weight : ℕ
  pub ceiling : ℕ
  pub capped : Bool

-- The ceiling of one tile on the rows that it covers: `h` is what it declares, 0 for nothing.
unfoldable pub declare : ℕ → Row → Row
declare h r =
    if leb h 0 then record r { capped = false } else record r { ceiling = max r.ceiling h }

unfoldable pub declare_rows : ℕ → ℕ → ℕ → List Row → List Row
unfolding declare
declare_rows h row span [] = []
declare_rows h zero zero (r ∷ rs) = r ∷ rs
declare_rows h zero (suc span) (r ∷ rs) = declare h r ∷ declare_rows h zero span rs
declare_rows h (suc row) span (r ∷ rs) = r ∷ declare_rows h row span rs

-- The frame and the padding that a tile adds to its pane's content.
pub record Chrome : Type 0 where
  pub chrome_h : ℕ
  pub chrome_v : ℕ
  pub pad_v : ℕ

-- What a tile declares: `content` is the pane's `ContentHeight`, if it has one, and `shared` tells that
-- another pane is stacked under it.
unfoldable pub ceiling_of : Chrome → Option (ℕ → ℕ) → Bool → Placement → List (List ℕ) → ℕ
unfolding tile_width ceil_div
ceiling_of chrome content shared pl col_w = if shared then 0 else elim content [
  | none ↦ 0
  | some content_height ↦
      let v = content_height (max (tile_width pl col_w - chrome.chrome_h) 1) in
      if ltb 0 v then ceil_div (v + chrome.chrome_v + chrome.pad_v) pl.row_span else 0
]

-- The loop over the placements, each with its content and whether it is shared.
unfoldable pub declare_all :
    Chrome → List (Placement × Option (ℕ → ℕ) × Bool) → List (List ℕ) → List Row → List Row
unfolding ceiling_of declare_rows
declare_all chrome [] col_w rows = rows
declare_all chrome ((pl, content, shared) ∷ tiles) col_w rows =
    let declared =
      declare_rows (ceiling_of chrome content shared pl col_w) pl.row pl.row_span rows in
    let next = if is_some pl.col then declared else rows in declare_all chrome tiles col_w next

-- A row that is over its ceiling.
abbrev pub is_over : Row → Bool
is_over r = r.capped && ltb 0 r.ceiling && ltb r.ceiling r.height

unfoldable pub free_weight : List Row → ℕ
free_weight [] = 0
free_weight (r ∷ rs) = if not r.capped then max r.weight 1 + free_weight rs else free_weight rs

unfoldable pub surplus_of : List Row → ℕ
surplus_of [] = 0
surplus_of (r ∷ rs) = if is_over r then (r.height - r.ceiling) + surplus_of rs else surplus_of rs

unfoldable pub trim : List Row → List Row
trim [] = []
trim (r ∷ rs) = (if is_over r then record r { height = r.ceiling } else r) ∷ trim rs

-- `surplus * max(rowWeights[r], 1) / freeWeight`
abbrev pub extra : ℕ → ℕ → Row → ℕ
extra surplus free r = surplus * max r.weight 1 / free

unfoldable pub give : ℕ → ℕ → List Row → List Row
give surplus free [] = []
give surplus free (r ∷ rs) =
    (if r.capped then r else record r { height = r.height + extra surplus free r })
    ∷ give surplus free rs

unfoldable pub given : ℕ → ℕ → List Row → ℕ
given surplus free [] = 0
given surplus free (r ∷ rs) =
    if r.capped then given surplus free rs else extra surplus free r + given surplus free rs

-- The last row that is not capped takes what the rounding left; `none` where there is none.
unfoldable pub give_rest : ℕ → List Row → Option (List Row)
give_rest rest [] = none
give_rest rest (r ∷ rs) = elim (give_rest rest rs) [
  | some rs' ↦ some (r ∷ rs')
  | none ↦ if r.capped then none else some (record r { height = r.height + rest } ∷ rs)
]

abbrev pub or_rows : Option (List Row) → List Row → List Row
or_rows none rs = rs
or_rows (some rs') rs = rs'

-- What follows the gathering of the ceilings.
unfoldable pub share_surplus : List Row → List Row
unfolding free_weight surplus_of trim give given give_rest
share_surplus rs =
    let surplus = surplus_of rs in
    let free = free_weight rs in
    let trimmed = trim rs in
    let grown = give surplus free trimmed in
    let got = given surplus free trimmed in
    if leb surplus 0 || leb free 0
    then rs
    else if ltb got surplus
    then or_rows (give_rest (surplus - got) grown) grown
    else grown

abbrev pub unlimited : List Row → List Row
unlimited [] = []
unlimited (r ∷ rs) = record r { ceiling = 0; capped = true } ∷ unlimited rs

unfoldable pub cap_row_heights :
    Chrome → List (Placement × Option (ℕ → ℕ) × Bool) → List (List ℕ) → List Row → List Row
unfolding declare_all share_surplus
cap_row_heights chrome tiles col_w rows =
    share_surplus (declare_all chrome tiles col_w (unlimited rows))

unfoldable pub height_sum : List Row → ℕ
height_sum [] = 0
height_sum (r ∷ rs) = r.height + height_sum rs
