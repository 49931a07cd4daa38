-- ===== src/Prelude/Reorder.antt =====
-- When the answer of a sort does not depend on the order of its input: no two elements that differ are
-- tied. Go leaves the order in which a map is ranged over open.
use mathlib.Core.List.{Perm, Permᴰ}
use mathlib.Core.Logic.{∥∥₁_elim}
use binnacle.Prelude.{
  ◌≡◌, refl, sym, ap, ◌∙◌, subst, ◌⊎◌, inl, inr, Bool, true, List, [], ◌∷◌, map, arith, In,
  Distinct,
}
use binnacle.Prelude.Sort.{insert_sorted, sort_stable, IsWeakOrder}

module _ {A : Type 0} where
  pub In-Permᴰ : {xs ys : List A} (a : A) → Permᴰ xs ys → In a ys → In a xs
  In-Permᴰ a Permᴰ.nil i = i
  In-Permᴰ a (Permᴰ.cons e d) (inl h) = inl (h ∙ sym e)
  In-Permᴰ a (Permᴰ.cons e d) (inr i) = inr (In-Permᴰ a d i)
  In-Permᴰ a (Permᴰ.swap e f) (inl h) = inr (inl (h ∙ sym f))
  In-Permᴰ a (Permᴰ.swap e f) (inr (inl h)) = inl (h ∙ sym e)
  In-Permᴰ a (Permᴰ.swap e f) (inr (inr i)) = inr (inr i)
  In-Permᴰ a (Permᴰ.trans d e) i = In-Permᴰ a d (In-Permᴰ a e i)

  pub In-map : {B : Type 0} (f : A → B) (xs : List A) (a : A) → In a xs → In (f a) (map f xs)
  In-map f [] a i = i
  In-map f (x ∷ xs) a (inl e) = inl (ap f e)
  In-map f (x ∷ xs) a (inr i) = inr (In-map f xs a i)

  -- Elements with the same key are one element, where the keys are distinct.
  pub Distinct-key :
      {K : Type 0} (key : A → K) (xs : List A)
      → Distinct (map key xs)
      → (x y : A) → In x xs
      → In y xs
      → key x ≡ key y
      → x ≡ y
  Distinct-key key [] d x y i j h = elim i [ ]
  Distinct-key key (z ∷ xs) d x y (inl e) (inl f) h = e ∙ sym f
  Distinct-key key (z ∷ xs) d x y (inl e) (inr j) h =
      absurd (d.0 (subst (λ k. In k (map key xs)) (sym h ∙ ap key e) (In-map key xs y j)))
  Distinct-key key (z ∷ xs) d x y (inr i) (inl f) h =
      absurd (d.0 (subst (λ k. In k (map key xs)) (h ∙ ap key f) (In-map key xs x i)))
  Distinct-key key (z ∷ xs) d x y (inr i) (inr j) h = Distinct-key key xs d.1 x y i j h

  module _ (less : A → A → Bool) where
    -- One is less, or they are the same.
    abbrev pub Comparable : A → A → Type 0
    Comparable x y = (less x y ≡ true) ⊎ (less y x ≡ true) ⊎ (x ≡ y)

    module _ (o : IsWeakOrder less) where
      insert_sorted_comm_lt :
          (x y : A) (zs : List A)
          → less x y ≡ true
          → insert_sorted less x (insert_sorted less y zs)
            ≡ insert_sorted less y (insert_sorted less x zs)
      unfolding insert_sorted
      insert_sorted_comm_lt x y [] h = ground (arith, h, o.asym x y)
      insert_sorted_comm_lt x y (z ∷ zs) h = ground (
        arith,
        h,
        insert_sorted_comm_lt x y zs h,
        o.asym x y,
        o.asym x z,
        o.asym z x,
        o.trans_not y z x,
        o.trans_not x z y,
        o.trans_not z x y,
        o.trans_not y x z,
      )

      insert_sorted_comm :
          (x y : A) (zs : List A)
          → Comparable x y
          → insert_sorted less x (insert_sorted less y zs)
            ≡ insert_sorted less y (insert_sorted less x zs)
      insert_sorted_comm x y zs (inl h) = insert_sorted_comm_lt x y zs h
      insert_sorted_comm x y zs (inr (inl h)) = sym (insert_sorted_comm_lt y x zs h)
      insert_sorted_comm x y zs (inr (inr e)) =
          ap (λ a. insert_sorted less a (insert_sorted less y zs)) e
          ∙ ap (λ a. insert_sorted less y (insert_sorted less a zs)) (sym e)

      pub sort_stable-Permᴰ :
          {xs ys : List A}
          → Permᴰ xs ys
          → ((x y : A) → In x xs → In y xs → Comparable x y)
          → sort_stable less xs ≡ sort_stable less ys
      unfolding sort_stable
      sort_stable-Permᴰ Permᴰ.nil h = refl
      sort_stable-Permᴰ (Permᴰ.cons e d) h =
          cc (e, sort_stable-Permᴰ d (λ x y i j. h x y (inr i) (inr j)))
      sort_stable-Permᴰ (Permᴰ.swap {a = a} {b = b} {l = l} e f) h =
          rw (← e, ← f)
            (insert_sorted_comm a b (sort_stable less l) (h a b (inl refl) (inr (inl refl))))
      sort_stable-Permᴰ (Permᴰ.trans d e) h =
          sort_stable-Permᴰ d h
          ∙ sort_stable-Permᴰ e (λ x y i j. h x y (In-Permᴰ x d i) (In-Permᴰ y d j))

      pub sort_stable-order :
          IsSet (List A)
          → (xs ys : List A) → Perm xs ys
          → ((x y : A) → In x xs → In y xs → Comparable x y)
          → sort_stable less xs ≡ sort_stable less ys
      sort_stable-order set xs ys p h = ∥∥₁_elim p (set _ _) (λ d. sort_stable-Permᴰ d h)

module _ {A : Type 0} where
  pub Distinct-Permᴰ : {xs ys : List A} → Permᴰ xs ys → Distinct xs → Distinct ys
  Distinct-Permᴰ Permᴰ.nil h = h
  Distinct-Permᴰ (Permᴰ.cons {a = a} e d) h =
      rw (← e) ((λ i. h.0 (In-Permᴰ a d i)), Distinct-Permᴰ d h.1)
  Distinct-Permᴰ (Permᴰ.swap {l = l} e f) h = (
    elim [ inl k ↦ h.0 (inl (e ∙ sym k ∙ sym f)) | inr i ↦ h.1.0 (subst (λ x. In x l) (sym f) i) ],
    ((λ i. h.0 (inr (subst (λ x. In x l) (sym e) i))), h.1.1),
  )
  Distinct-Permᴰ (Permᴰ.trans d e) h = Distinct-Permᴰ e (Distinct-Permᴰ d h)

  Distinct-prop : (xs : List A) → IsProp (Distinct xs)
  Distinct-prop [] = hlevel
  Distinct-prop (x ∷ xs) = hlevel (Distinct-prop xs)

  pub Distinct-Perm : (xs ys : List A) → Perm xs ys → Distinct xs → Distinct ys
  Distinct-Perm xs ys p h = ∥∥₁_elim p (Distinct-prop ys) (λ d. Distinct-Permᴰ d h)

module _ {A B : Type 0} (f : A → B) (less : A → A → Bool) (less_of : B → B → Bool) where
  insert_sorted-map :
      ((x y : A) → less_of (f x) (f y) ≡ less x y)
      → (x : A) (ys : List A)
      → insert_sorted less_of (f x) (map f ys) ≡ map f (insert_sorted less x ys)
  unfolding insert_sorted
  insert_sorted-map h x [] = refl
  insert_sorted-map h x (y ∷ ys) = ground (arith, h y x, insert_sorted-map h x ys)

  -- A map that keeps the comparison may be applied before a sort or after it.
  pub sort_stable-map :
      ((x y : A) → less_of (f x) (f y) ≡ less x y)
      → (xs : List A) → sort_stable less_of (map f xs) ≡ map f (sort_stable less xs)
  unfolding sort_stable
  sort_stable-map h [] = refl
  sort_stable-map h (x ∷ xs) =
      ap (insert_sorted less_of (f x)) (sort_stable-map h xs)
      ∙ insert_sorted-map h x (sort_stable less xs)
