-- ===== src/Grid/Widths.antt =====
-- `divideWidth` and `liftToFloors`: the columns of a band share the width of the terminal.
--
-- The four slices of the source, all of one length, are one list of columns.
use binnacle.Prelude.{
  ℕ, zero, suc, ◌+◌, ◌-◌, ◌*◌, ◌/◌, Bool, true, false, not, ◌&&◌, ◌||◌, List, [], ◌∷◌, ◌++◌, Option,
  none, some, if◌then◌else◌, ltb, leb, get_elem?, max, length, map,
}
pub mod Sum

pub record Column : Type 0 where
  pub appetite : ℕ
  pub floor : ℕ
  pub covered : Bool
  pub width : ℕ

unfoldable pub sum_declared : List Column → ℕ
sum_declared [] = 0
sum_declared (c ∷ cs) =
    if c.covered && ltb 0 c.appetite then c.appetite + sum_declared cs else sum_declared cs

unfoldable pub count_declared : List Column → ℕ
count_declared [] = 0
count_declared (c ∷ cs) =
    if c.covered && ltb 0 c.appetite then suc (count_declared cs) else count_declared cs

unfoldable pub fallback_of : List Column → ℕ
unfolding sum_declared count_declared
fallback_of cs =
    if ltb 0 (count_declared cs) then max (sum_declared cs / count_declared cs) 1 else 1

unfoldable pub want : ℕ → Column → ℕ
want fallback c = if not c.covered then 0 else if ltb 0 c.appetite then c.appetite else fallback

unfoldable pub total_want : ℕ → List Column → ℕ
unfolding want
total_want fallback [] = 0
total_want fallback (c ∷ cs) = want fallback c + total_want fallback cs

-- `w[c] = total * wants[c] / totalWant` where the column wants anything.
unfoldable pub share_out : ℕ → ℕ → ℕ → List Column → List Column
unfolding want
share_out total fallback all [] = []
share_out total fallback all (c ∷ cs) =
    record c {
      width = (if leb (want fallback c) 0 then c.width else total * want fallback c / all);
    }
    ∷ share_out total fallback all cs

unfoldable pub width_sum : List Column → ℕ
width_sum [] = 0
width_sum (c ∷ cs) = c.width + width_sum cs

-- The last column that wants anything takes what is left; `none` where there is none.
unfoldable pub give_last : ℕ → ℕ → List Column → Option (List Column)
unfolding want
give_last fallback rest [] = none
give_last fallback rest (c ∷ cs) = elim (give_last fallback rest cs) [
  | some cs' ↦ some (c ∷ cs')
  | none ↦ if leb (want fallback c) 0 then none else some (record c { width = c.width + rest } ∷ cs)
]

-- `best < 0 || d > ` the best distance
abbrev pub further : Option (ℕ × ℕ) → ℕ → Bool
further none d = true
further (some (j, e)) d = ltb e d

-- The first of the columns that are furthest below their floor: its place and how far.
unfoldable pub neediest : ℕ → List Column → Option (ℕ × ℕ) → Option (ℕ × ℕ)
neediest i [] best = best
neediest i (c ∷ cs) best =
    let taken = neediest (suc i) cs (some (i, c.floor - c.width)) in
    let kept = neediest (suc i) cs best in
    if c.covered && ltb c.width c.floor && further best (c.floor - c.width) then taken else kept

-- The first of the columns that are furthest above it.
unfoldable pub richest : ℕ → List Column → Option (ℕ × ℕ) → Option (ℕ × ℕ)
richest i [] best = best
richest i (c ∷ cs) best =
    let taken = richest (suc i) cs (some (i, c.width - c.floor)) in
    let kept = richest (suc i) cs best in
    if ltb c.floor c.width && further best (c.width - c.floor) then taken else kept

-- `w[i]--` and `w[i]++`
unfoldable pub drop_one : List Column → ℕ → List Column
drop_one [] i = []
drop_one (c ∷ cs) zero = record c { width = c.width - 1 } ∷ cs
drop_one (c ∷ cs) (suc i) = c ∷ drop_one cs i

unfoldable pub add_one : List Column → ℕ → List Column
add_one [] i = []
add_one (c ∷ cs) zero = record c { width = c.width + 1 } ∷ cs
add_one (c ∷ cs) (suc i) = c ∷ add_one cs i

-- One pass of the loop; `none` where it returns.
unfoldable pub lift_step : List Column → Option (List Column)
unfolding neediest richest drop_one add_one
lift_step cs = elim (neediest 0 cs none) [
  | none ↦ none
  | some (need, d) ↦ elim (richest 0 cs none) [
    | none ↦ none
    | some (from, e) ↦ some (add_one (drop_one cs from) need)
  ]
]

-- The loop, on fuel.
unfoldable pub lift_from : ℕ → List Column → List Column
unfolding lift_step
lift_from zero cs = cs
lift_from (suc fuel) cs = elim (lift_step cs) [ none ↦ cs | some cs' ↦ lift_from fuel cs' ]

-- How far the columns are below their floors together: each pass makes it smaller.
unfoldable pub shortfall : List Column → ℕ
shortfall [] = 0
shortfall (c ∷ cs) = (c.floor - c.width) + shortfall cs

unfoldable pub lift_to_floors : List Column → List Column
unfolding lift_from shortfall
lift_to_floors cs = lift_from (suc (shortfall cs)) cs

abbrev pub or_same : Option (List Column) → List Column → List Column
or_same none cs = cs
or_same (some cs') cs = cs'

abbrev pub cleared : List Column → List Column
cleared [] = []
cleared (c ∷ cs) = record c { width = 0 } ∷ cleared cs

unfoldable pub divide_width : ℕ → List Column → List Column
unfolding fallback_of total_want share_out width_sum give_last lift_to_floors
divide_width total cs =
    let blank = cleared cs in
    let fallback = fallback_of blank in
    let all = total_want fallback blank in
    if leb all 0
    then blank
    else let shared = share_out total fallback all blank in
      let used = width_sum shared in
      lift_to_floors (
        if ltb used total
        then or_same (give_last fallback (total - used) shared) shared
        else shared)
