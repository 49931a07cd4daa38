-- ===== src/Prelude/Gather.antt =====
-- A loop that gathers entries by a key: the entry of the key is updated where it stands, or made and
-- appended. This is a Go map of pointers with the list of its keys in the order of their arrival.
use binnacle.Prelude.{
  Bool, true, false, ◌||◌, List, [], ◌∷◌, ◌++◌, map, ◌≡◌, ◌≢◌, ◌↔◌, inl, inr, refl, arith, sym, ap,
  subst, ◌∙◌, if◌then◌else◌, Bool-cases, In, In-append, In-append_left, In-append_right, Distinct,
  Distinct-append_one,
}

module _ {K B : Type 0} (eq : K → K → Bool) (key : B → K) where
  unfoldable pub gather : K → B → (B → B) → List B → List B
  gather k new update [] = new ∷ []
  gather k new update (b ∷ bs) =
      let rest = gather k new update bs in if eq (key b) k then update b ∷ bs else b ∷ rest

-- There is one entry for each used key, and it says what it should.
abbrev pub IsGathered : {K B : Type 0} → (K → B) → (K → Bool) → List B → Type 0
IsGathered {K} entry used bs =
    (names : List K) × (bs ≡ map entry names)
    × Distinct names
    × ((r : K) → In r names ↔ (used r ≡ true))

module _ {K B : Type 0} (entry entry' : K → B) (used used' : K → Bool) where
  map_ext : ((r : K) → entry r ≡ entry' r) → (names : List K) → map entry names ≡ map entry' names
  map_ext h [] = refl
  map_ext h (r ∷ rs) = cc (h r, map_ext h rs)

  pub IsGathered-ext :
      ((r : K) → entry r ≡ entry' r)
      → ((r : K) → used r ≡ used' r)
      → (bs : List B) → IsGathered entry used bs
      → IsGathered entry' used' bs
  IsGathered-ext e u bs (names, same, distinct, h) = (
    names,
    same ∙ map_ext e names,
    distinct,
    λ r. ((λ i. sym (u r) ∙ (h r).0 i), λ q. (h r).1 (u r ∙ q)),
  )

module _ {K B : Type 0} (eq : K → K → Bool) (eq_iff : (a b : K) → (eq a b ≡ true) ↔ (a ≡ b))
    (key : B → K) (seen now : K → B) (key-seen : (r : K) → key (seen r) ≡ r) (k : K) (new : B)
    (update : B → B) (other : (r : K) → r ≢ k → now r ≡ seen r) where
  map-other : (names : List K) → (In k names → ⊥) → map now names ≡ map seen names
  map-other [] h = refl
  map-other (r ∷ rs) h = cc (other r (λ e. h (inl (sym e))), map-other rs (λ i. h (inr i)))

  gather-known :
      update (seen k) ≡ now k
      → (names : List K) → Distinct names
      → In k names
      → gather eq key k new update (map seen names) ≡ map now names
  unfolding gather
  gather-known step [] d i = elim i [ ]
  gather-known step (r ∷ rs) d (inl e) = ground (
    arith,
    eq_iff (key (seen r)) k,
    e,
    key-seen r,
    subst (λ r. update (seen r) ≡ now r) e step,
    map-other rs (subst (λ r. In r rs → ⊥) (sym e) d.0),
  )
  gather-known step (r ∷ rs) d (inr i) =
      let ne : r ≢ k = λ e. d.0 (subst (λ r. In r rs) (sym e) i) in
      ground
        (arith, eq_iff (key (seen r)) k, ne, key-seen r, other r ne, gather-known step rs d.1 i)

  gather-new :
      (names : List K)
      → (In k names → ⊥)
      → new ≡ now k
      → gather eq key k new update (map seen names) ≡ map now (names ++ k ∷ [])
  unfolding gather
  gather-new [] h e = ap (λ b. b ∷ []) e
  gather-new (r ∷ rs) h e =
      let ne : r ≢ k = λ e. h (inl (sym e)) in
      ground (
        arith,
        eq_iff (key (seen r)) k,
        ne,
        key-seen r,
        other r ne,
        gather-new rs (λ i. h (inr i)) e,
      )

  module _ (used used' : K → Bool) (grown : (r : K) → used' r ≡ (used r || eq r k)) where
    used-known :
        (names : List K)
        → In k names
        → ((r : K) → In r names ↔ (used r ≡ true))
        → (r : K) → In r names ↔ (used' r ≡ true)
    used-known names known h r = (
      (λ i. ground (arith, grown r, (h r).0 i)),
      λ u. elim (Bool-cases (eq r k)) [
        | inl q ↦ let e = (eq_iff r k).0 q in subst (λ r. In r names) (sym e) known
        | inr ne ↦ (h r).1 (ground (arith, u, grown r, ne, eq_iff r k))
      ],
    )

    used-new :
        (names : List K)
        → ((r : K) → In r names ↔ (used r ≡ true))
        → (r : K) → In r (names ++ k ∷ []) ↔ (used' r ≡ true)
    used-new names h r = (
      (λ i. elim (In-append r names (k ∷ []) i) [
        | inl j ↦ ground (arith, grown r, (h r).0 j)
        | inr (inl e) ↦ ground (arith, grown r, e, eq_iff r k)
        | inr (inr j) ↦ elim j [ ]
      ]),
      λ u. elim (Bool-cases (eq r k)) [
        | inl q ↦ let e = (eq_iff r k).0 q in In-append_right r names (k ∷ []) (inl e)
        | inr ne ↦
            In-append_left r names (k ∷ []) ((h r).1 (ground (arith, u, grown r, ne, eq_iff r k)))
      ],
    )

    -- One more element keeps the entries right.
    pub gather-IsGathered :
        (used k ≡ true → update (seen k) ≡ now k)
        → (used k ≡ false → new ≡ now k)
        → (bs : List B) → IsGathered seen used bs
        → IsGathered now used' (gather eq key k new update bs)
    gather-IsGathered step made bs (names, same, distinct, h) = elim (Bool-cases (used k)) [
      | inl e ↦
          let known = (h k).1 e in
          (
            names,
            ap (gather eq key k new update) same ∙ gather-known (step e) names distinct known,
            distinct,
            used-known names known h,
          )
      | inr e ↦
          let missing : In k names → ⊥ = λ i. absurd (ground (arith, e, (h k).0 i)) in
          (
            names ++ k ∷ [],
            ap (gather eq key k new update) same ∙ gather-new names missing (made e),
            Distinct-append_one names k missing distinct,
            used-new names h,
          )
    ]
