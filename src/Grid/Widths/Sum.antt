-- ===== src/Grid/Widths/Sum.antt =====
-- The sum of a band's widths, and the end of the lifting to the floors (`divideWidth` and
-- `liftToFloors` of pkg/tui/grid/grid.go).
use binnacle.Prelude.{
  some_of, ℕ, zero, suc, ◌+◌, ◌-◌, ◌*◌, ◌/◌, ◌≤◌, ◌<◌, Bool, true, ◌&&◌, List, [], ◌∷◌, Option,
  none, some, if◌then◌else◌, ltb, leb, ◌≡◌, refl, ◌⊎◌, inl, inr, arith, Bool-cases, Option-cases,
  ap, sym, ◌∙◌, subst,
}
use native.Mathlib.Nat.{div-mul-le_self, le_of_mul-le-mul_right}
use binnacle.Grid.Widths.{
  Column, want, total_want, share_out, width_sum, give_last, neediest, richest, further, drop_one,
  add_one, lift_step, lift_from, shortfall, lift_to_floors, divide_width, cleared, fallback_of,
  or_same,
}

abbrev pub covered : Column → Bool
covered c = c.covered

-- The column at a place has the property.
abbrev pub At : (Column → Type 0) → List Column → ℕ → Type 0
At P [] k = ⊥
At P (c ∷ cs) zero = P c
At P (c ∷ cs) (suc k) = At P cs k

abbrev pub IsShort : Column → Type 0
IsShort c = (c.covered ≡ true) × (c.width < c.floor)

abbrev pub IsRich : Column → Type 0
IsRich c = c.floor < c.width

neediest-At :
    (i : ℕ) (cs : List Column) (best : Option (ℕ × ℕ)) (j d : ℕ)
    → neediest i cs best ≡ some (j, d)
    → (best ≡ some (j, d)) ⊎ ((k : ℕ) × (j ≡ i + k) × At IsShort cs k)
unfolding neediest
neediest-At i [] best j d h = inl h
neediest-At i (c ∷ cs) best j d h =
    elim (Bool-cases (c.covered && ltb c.width c.floor && further best (c.floor - c.width))) [
      | inl e ↦
          elim (neediest-At (suc i) cs (some (i, c.floor - c.width)) j d (ground (arith, e))) [
            | inl f ↦ inr (0, ground arith, ground arith)
            | inr (k, f, a) ↦ inr (suc k, omega (arith, f), a)
          ]
      | inr e ↦ elim (neediest-At (suc i) cs best j d (ground (arith, e))) [
        | inl f ↦ inl f
        | inr (k, f, a) ↦ inr (suc k, omega (arith, f), a)
      ]
    ]

richest-At :
    (i : ℕ) (cs : List Column) (best : Option (ℕ × ℕ)) (j d : ℕ)
    → richest i cs best ≡ some (j, d)
    → (best ≡ some (j, d)) ⊎ ((k : ℕ) × (j ≡ i + k) × At IsRich cs k)
unfolding richest
richest-At i [] best j d h = inl h
richest-At i (c ∷ cs) best j d h =
    elim (Bool-cases (ltb c.floor c.width && further best (c.width - c.floor))) [
      | inl e ↦ elim (richest-At (suc i) cs (some (i, c.width - c.floor)) j d (ground (arith, e))) [
        | inl f ↦ inr (0, ground arith, ground arith)
        | inr (k, f, a) ↦ inr (suc k, omega (arith, f), a)
      ]
      | inr e ↦ elim (richest-At (suc i) cs best j d (ground (arith, e))) [
        | inl f ↦ inl f
        | inr (k, f, a) ↦ inr (suc k, omega (arith, f), a)
      ]
    ]

drop_one-sums :
    (cs : List Column) (k : ℕ)
    → At IsRich cs k
    → (suc (width_sum (drop_one cs k)) ≡ width_sum cs) × (shortfall (drop_one cs k) ≡ shortfall cs)
unfolding drop_one width_sum shortfall
drop_one-sums [] k h = elim h [ ]
drop_one-sums (c ∷ cs) zero h = (omega (arith, h), omega (arith, h))
drop_one-sums (c ∷ cs) (suc k) h =
    let (e, f) = drop_one-sums cs k h in (omega (arith, e), omega (arith, f))

add_one-sums :
    (cs : List Column) (k : ℕ)
    → At IsShort cs k
    → (width_sum (add_one cs k) ≡ suc (width_sum cs))
      × (suc (shortfall (add_one cs k)) ≡ shortfall cs)
unfolding add_one width_sum shortfall
add_one-sums [] k h = elim h [ ]
add_one-sums (c ∷ cs) zero h = let lt = h.1 in (omega arith, omega (arith, lt))
add_one-sums (c ∷ cs) (suc k) h =
    let (e, f) = add_one-sums cs k h in (omega (arith, e), omega (arith, f))

-- Taking a cell from a rich column leaves the short ones short.
drop_one-At :
    (cs : List Column) (i k : ℕ) → At IsRich cs i → At IsShort cs k → At IsShort (drop_one cs i) k
unfolding drop_one
drop_one-At [] i k h s = elim h [ ]
drop_one-At (c ∷ cs) zero zero h s = let lt = s.1 in absurd (omega (arith, h, lt))
drop_one-At (c ∷ cs) zero (suc k) h s = s
drop_one-At (c ∷ cs) (suc i) zero h s = s
drop_one-At (c ∷ cs) (suc i) (suc k) h s = drop_one-At cs i k h s

-- A pass moves one cell: the sum stays and the shortfall falls by one.
pub lift_step-sums :
    (cs cs' : List Column)
    → lift_step cs ≡ some cs'
    → (width_sum cs' ≡ width_sum cs) × (suc (shortfall cs') ≡ shortfall cs)
unfolding lift_step
lift_step-sums cs cs' h = elim (Option-cases (neediest 0 cs none)) [
  | inl e ↦ absurd (ground (arith, e))
  | inr ((j, d), e) ↦ elim (Option-cases (richest 0 cs none)) [
    | inl f ↦ absurd (ground (arith, e, f))
    | inr ((i, g), f) ↦
        let moved : add_one (drop_one cs i) j ≡ cs' = ground (arith, e, f) in
        elim (neediest-At 0 cs none j d e) [
          | inl n ↦ absurd (ground arith)
          | inr (k, same, short) ↦ elim (richest-At 0 cs none i g f) [
            | inl n ↦ absurd (ground arith)
            | inr (l, same', rich) ↦
                let at_j : At IsShort cs j = subst (At IsShort cs) (omega (arith, same)) short in
                let at_i : At IsRich cs i = subst (At IsRich cs) (omega (arith, same')) rich in
                let (s1, t1) = drop_one-sums cs i at_i in
                let (s2, t2) = add_one-sums (drop_one cs i) j (drop_one-At cs i j at_i at_j) in
                subst (λ x. (width_sum x ≡ width_sum cs) × (suc (shortfall x) ≡ shortfall cs)) moved
                  (omega (arith, s1, s2), omega (arith, t1, t2))
          ]
        ]
  ]
]

lift_from-sums :
    (fuel : ℕ) (cs : List Column)
    → shortfall cs < fuel
    → (width_sum (lift_from fuel cs) ≡ width_sum cs) × (lift_step (lift_from fuel cs) ≡ none)
unfolding lift_from
lift_from-sums zero cs h = absurd (omega (arith, h))
lift_from-sums (suc fuel) cs h = elim (Option-cases (lift_step cs)) [
  | inl e ↦ ground (arith, e)
  | inr (cs', e) ↦
      let (s, t) = lift_step-sums cs cs' e in
      let (s', stop) = lift_from-sums fuel cs' (omega (arith, h, t)) in
      let same : lift_from (suc fuel) cs ≡ lift_from fuel cs' = ground (arith, e) in
      (ap width_sum same ∙ (s' ∙ s), ap lift_step same ∙ stop)
]

-- The loop comes to an end, at a division it would not change, and keeps the sum.
pub lift_to_floors-stops :
    (cs : List Column)
    → (width_sum (lift_to_floors cs) ≡ width_sum cs) × (lift_step (lift_to_floors cs) ≡ none)
unfolding lift_to_floors
lift_to_floors-stops cs = lift_from-sums (suc (shortfall cs)) cs (omega arith)

-- The shares together are no more than the total, since each is rounded down.
share_out-le :
    (total fallback all : ℕ) (cs : List Column)
    → 0 < all
    → width_sum (share_out total fallback all (cleared cs)) * all
      ≤ total * total_want fallback (cleared cs)
unfolding width_sum share_out total_want
share_out-le total fallback all [] h = ground arith
share_out-le total fallback all (c ∷ cs) h =
    let ih = share_out-le total fallback all cs h in
    let w = want fallback (record c { width = 0 }) in
    let one : (if leb w 0 then 0 else total * w / all) * all ≤ total * w =
      ground (arith, div-mul-le_self (total * w) all) in
    omega (arith, ih, one)

-- Handing the rest to the last column that wants anything adds it to the sum.
give_last-sum :
    (fallback rest : ℕ) (cs cs' : List Column)
    → give_last fallback rest cs ≡ some cs'
    → width_sum cs' ≡ width_sum cs + rest
unfolding give_last width_sum
give_last-sum fallback rest [] cs' h = absurd (ground arith)
give_last-sum fallback rest (c ∷ cs) cs' h = elim (Option-cases (give_last fallback rest cs)) [
  | inr (cs'', e) ↦
      let ih = give_last-sum fallback rest cs cs'' e in
      let same : c ∷ cs'' ≡ cs' = ground (arith, e) in sym (ap width_sum same) ∙ omega (arith, ih)
  | inl e ↦ elim (Bool-cases (leb (want fallback c) 0)) [
    | inl f ↦ absurd (ground (arith, e, f))
    | inr f ↦
        let same : record c { width = c.width + rest } ∷ cs ≡ cs' = ground (arith, e, f) in
        sym (ap width_sum same) ∙ omega arith
  ]
]

give_last-none :
    (fallback rest : ℕ) (cs : List Column)
    → give_last fallback rest cs ≡ none
    → total_want fallback cs ≡ 0
unfolding give_last total_want
give_last-none fallback rest [] h = refl
give_last-none fallback rest (c ∷ cs) h = elim (Option-cases (give_last fallback rest cs)) [
  | inr (cs'', e) ↦ absurd (ground (arith, e))
  | inl e ↦
      let ih = give_last-none fallback rest cs e in
      elim (Bool-cases (leb (want fallback c) 0)) [
        | inl f ↦ let z : want fallback c ≤ 0 = ground (arith, f) in omega (arith, ih, z)
        | inr f ↦ absurd (ground (arith, e, f))
      ]
]

share_out-want :
    (total fallback all : ℕ) (cs : List Column)
    → total_want fallback (share_out total fallback all cs) ≡ total_want fallback cs
unfolding total_want share_out want
share_out-want total fallback all [] = refl
share_out-want total fallback all (c ∷ cs) = omega (arith, share_out-want total fallback all cs)

filled :
    (total fallback : ℕ) (cs : List Column)
    → 0 < total_want fallback cs
    → width_sum cs ≤ total
    → width_sum (
        if ltb (width_sum cs) total
        then or_same (give_last fallback (total - width_sum cs) cs) cs
        else cs)
      ≡ total
filled total fallback cs h le = elim (Bool-cases (ltb (width_sum cs) total)) [
  | inr e ↦
      let full : width_sum cs ≡ total = ground arith in
      let same : (if ltb (width_sum cs) total
            then or_same (give_last fallback (total - width_sum cs) cs) cs
            else cs)
          ≡ cs =
        ground (arith, e) in
      ap width_sum same ∙ full
  | inl e ↦ elim (Option-cases (give_last fallback (total - width_sum cs) cs)) [
    | inl f ↦
        let z = give_last-none fallback (total - width_sum cs) cs f in absurd (omega (arith, z, h))
    | inr (cs', f) ↦
        let same : (if ltb (width_sum cs) total
              then or_same (give_last fallback (total - width_sum cs) cs) cs
              else cs)
            ≡ cs' =
          ground (arith, e, f) in
        let more = give_last-sum fallback (total - width_sum cs) cs cs' f in
        let eq : width_sum cs' ≡ total = omega (arith, more, le) in ap width_sum same ∙ eq
  ]
]

fallback_of-pos : (cs : List Column) → 0 < fallback_of cs
unfolding fallback_of
fallback_of-pos cs = ground arith

total_want-pos :
    (fallback : ℕ) (cs : List Column)
    → 0 < fallback
    → some_of covered cs ≡ true
    → 0 < total_want fallback (cleared cs)
unfolding total_want want
total_want-pos fallback [] h k = absurd (ground arith)
total_want-pos fallback (c ∷ cs) h k = ground (arith, total_want-pos fallback cs h)

-- If a tile covers some column of the band, the widths add up to the terminal's width exactly, and the
-- lifting to the floors has nothing left to do.
pub divide_width-sum :
    (total : ℕ) (cs : List Column)
    → some_of covered cs ≡ true
    → (width_sum (divide_width total cs) ≡ total) × (lift_step (divide_width total cs) ≡ none)
unfolding divide_width
divide_width-sum total cs some_covered =
    let blank = cleared cs in
    let fallback = fallback_of blank in
    let h = total_want-pos fallback cs (fallback_of-pos blank) some_covered in
    let all = total_want fallback blank in
    let shared = share_out total fallback all blank in
    let le : width_sum shared ≤ total =
      le_of_mul-le-mul_right (share_out-le total fallback all cs h) h in
    let pos : 0 < total_want fallback shared =
      omega (arith, share_out-want total fallback all blank, h) in
    let fill =
      if ltb (width_sum shared) total
      then or_same (give_last fallback (total - width_sum shared) shared) shared
      else shared in
    let sum : width_sum fill ≡ total = filled total fallback shared pos le in
    let (s, stop) = lift_to_floors-stops fill in
    let same : divide_width total cs ≡ lift_to_floors fill = ground (arith, h) in
    (ap width_sum same ∙ (s ∙ sum), ap lift_step same ∙ stop)
