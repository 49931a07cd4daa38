-- ===== src/Fleet/Tables/Folds.antt =====
-- Ordering and folding a table (internal/fleet/tables.go, `split`).
use mathlib.Core.List.{Perm}
use binnacle.Prelude.{
  ℕ, ◌≤◌, ◌<◌, Bool, false, List, [], ◌∷◌, ◌++◌, ◌≡◌, refl, ◌⊎◌, inl, inr, arith, if◌then◌else◌,
  length, ltb, leb, is_empty, All, Bool-cases, sym, subst, ◌∙◌,
}
use binnacle.Prelude.Orders.{by_number, by_number-IsWeakOrder}
use binnacle.Prelude.Sort.{
  sort_stable, IsSorted, IsWeakOrder, sort_stable-perm, sort_stable-IsSorted,
}
use binnacle.Fleet.Tables.{Split, split, all_rows, before_quiet, from_quiet, collapse_after}

module _ {T : Type 0} (rank : T → ℕ) (less : T → T → Bool) (quiet_rank : ℕ) where
  parts : (xs : List T) → before_quiet rank quiet_rank xs ++ from_quiet rank quiet_rank xs ≡ xs
  unfolding before_quiet from_quiet
  parts [] = refl
  parts (x ∷ xs) = elim (Bool-cases (leb quiet_rank (rank x))) [
    | inl e ↦ ground (arith, e)
    | inr e ↦ ground (arith, e, parts xs)
  ]

  before_quiet-All :
      (xs : List T) → All (λ x. rank x < quiet_rank) (before_quiet rank quiet_rank xs)
  unfolding before_quiet
  before_quiet-All [] = tt
  before_quiet-All (x ∷ xs) = elim (Bool-cases (leb quiet_rank (rank x))) [
    | inl e ↦ rw e tt
    | inr e ↦ rw e (ground arith, before_quiet-All xs)
  ]

  -- Behind a quiet row of a sorted table all rows are quiet.
  quiet_after :
      (x : T) (xs : List T)
      → quiet_rank ≤ rank x
      → All (λ y. by_number rank less y x ≡ false) xs
      → All (λ y. quiet_rank ≤ rank y) xs
  quiet_after x [] q h = tt
  quiet_after x (y ∷ ys) q h =
      (let e : by_number rank less y x ≡ false = h.0 in ground arith, quiet_after x ys q h.1)

  from_quiet-All :
      (xs : List T)
      → IsSorted (by_number rank less) xs
      → All (λ y. quiet_rank ≤ rank y) (from_quiet rank quiet_rank xs)
  unfolding from_quiet
  from_quiet-All [] s = tt
  from_quiet-All (x ∷ xs) s = elim (Bool-cases (leb quiet_rank (rank x))) [
    | inl e ↦ let q : quiet_rank ≤ rank x = ground arith in rw e (q, quiet_after x xs q s.0)
    | inr e ↦ rw e (from_quiet-All xs s.1)
  ]

  if_long : (xs ys : List T) → 10 ≤ length ys → (if is_empty ys then xs else xs ++ ys) ≡ xs ++ ys
  if_long xs [] h = absurd (omega (arith, h))
  if_long xs (y ∷ ys) h = refl

  -- No row is lost.
  pub all_rows-split :
      (rows : List T)
      → all_rows (split rank less quiet_rank rows) ≡ sort_stable (by_number rank less) rows
  unfolding split all_rows
  all_rows-split rows =
      let sorted = sort_stable (by_number rank less) rows in
      let head = before_quiet rank quiet_rank sorted in
      let tail = from_quiet rank quiet_rank sorted in
      elim (Bool-cases (ltb (length tail) collapse_after)) [
        | inl e ↦ ground (arith, e)
        | inr e ↦
            let long : 10 ≤ length tail = ground (arith, e) in
            ground (arith, e, if_long head tail long, parts sorted)
      ]

  -- A table that holds the rows, the worst first, and folds away quiet rows only, ten at least, with
  -- no quiet row left to see.
  abbrev pub IsFolded : List T → Split T → Type 0
  IsFolded rows s =
      Perm (all_rows s) rows
      × IsSorted (by_number rank less) (all_rows s)
      × All (λ x. quiet_rank ≤ rank x) s.quiet
      × ((s.quiet ≡ []) ⊎ ((10 ≤ length s.quiet) × All (λ x. rank x < quiet_rank) s.shown))

  -- Where the comparison of equal ranks is a strict weak order, the table holds all the rows, the worst
  -- first. Only quiet rows are folded away, and if any is, then at least ten are and no quiet row is shown.
  pub split-IsFolded :
      (rows : List T) → IsWeakOrder less → IsFolded rows (split rank less quiet_rank rows)
  unfolding split all_rows
  split-IsFolded rows o =
      let sorted = sort_stable (by_number rank less) rows in
      let head = before_quiet rank quiet_rank sorted in
      let tail = from_quiet rank quiet_rank sorted in
      let perm = sort_stable-perm (by_number rank less) rows in
      let ordered =
        sort_stable-IsSorted (by_number rank less) (by_number-IsWeakOrder less o rank) rows in
      elim (Bool-cases (ltb (length tail) collapse_after)) [
        | inl e ↦
            let same : record { shown = sorted; quiet = [] } ≡ split rank less quiet_rank rows =
              ground (arith, e) in
            subst (IsFolded rows) same (perm, ordered, tt, inl refl)
        | inr e ↦
            let same : record { shown = head; quiet = tail } ≡ split rank less quiet_rank rows =
              ground (arith, e) in
            let long : 10 ≤ length tail = ground arith in
            let whole : sorted ≡ all_rows (record { shown = head; quiet = tail }) =
              sym (if_long head tail long ∙ parts sorted) in
            subst (IsFolded rows) same (
              subst (λ l. Perm l rows) whole perm,
              subst (IsSorted (by_number rank less)) whole ordered,
              from_quiet-All sorted ordered,
              inr (long, before_quiet-All sorted),
            )
      ]
