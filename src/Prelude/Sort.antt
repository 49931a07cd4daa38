-- ===== src/Prelude/Sort.antt =====
-- The stable sort of Go's package `sort`, as insertion from the right: an element goes before the
-- elements that follow it in the input, unless one of these is less.
use mathlib.Core.List.{Perm}
use mathlib.Core.List.Perm
use binnacle.Prelude.{
  ◌≡◌, refl, inl, inr, Bool, true, false, List, [], ◌∷◌, arith, if◌then◌else◌, is_empty, Bool-cases,
  All, In, ◌⊎◌, suc, length, ap, ◌∙◌,
}

module _ {ℓ} {A : Type ℓ} where
  -- Every element stands in the relation to all the later ones.
  abbrev pub Pairwise : (A → A → Type 0) → List A → Type 0
  Pairwise R [] = Unit {0}
  Pairwise R (x ∷ xs) = All (R x) xs × Pairwise R xs

module _ {ℓ} {A : Type ℓ} (less : A → A → Bool) where
  unfoldable pub insert_sorted : A → List A → List A
  insert_sorted x [] = x ∷ []
  insert_sorted x (y ∷ ys) =
      let rest = insert_sorted x ys in if less y x then y ∷ rest else x ∷ y ∷ ys

  unfoldable pub sort_stable : List A → List A
  unfolding insert_sorted
  sort_stable [] = []
  sort_stable (x ∷ xs) = insert_sorted x (sort_stable xs)

  -- No element is less than one before it.
  abbrev pub IsSorted : List A → Type 0
  IsSorted [] = Unit {0}
  IsSorted (x ∷ xs) = All (λ y. less y x ≡ false) xs × IsSorted xs

  All-imply : (P Q : A → Type 0) → ((y : A) → P y → Q y) → (ys : List A) → All P ys → All Q ys
  All-imply P Q f [] h = tt
  All-imply P Q f (y ∷ ys) h = (f y h.0, All-imply P Q f ys h.1)

  -- What a comparison does not deny holds between the elements of a sorted list.
  pub IsSorted-Pairwise :
      (R : A → A → Type 0)
      → ((x y : A) → less y x ≡ false → R x y)
      → (xs : List A) → IsSorted xs
      → Pairwise R xs
  IsSorted-Pairwise R f [] h = tt
  IsSorted-Pairwise R f (x ∷ xs) h =
      (All-imply (λ y. less y x ≡ false) (R x) (f x) xs h.0, IsSorted-Pairwise R f xs h.1)

  insert_sorted-perm : (x : A) (ys : List A) → Perm (insert_sorted x ys) (x ∷ ys)
  unfolding insert_sorted
  insert_sorted-perm x [] = Perm.refl (x ∷ [])
  insert_sorted-perm x (y ∷ ys) = elim (Bool-cases (less y x)) [
    | inl e ↦ rw e (Perm.trans (Perm.cons y (insert_sorted-perm x ys)) (Perm.swap x y ys))
    | inr e ↦ rw e (Perm.refl (x ∷ y ∷ ys))
  ]

  pub sort_stable-perm : (xs : List A) → Perm (sort_stable xs) xs
  unfolding sort_stable
  sort_stable-perm [] = Perm.refl []
  sort_stable-perm (x ∷ xs) =
      Perm.trans (insert_sorted-perm x (sort_stable xs)) (Perm.cons x (sort_stable-perm xs))

  insert_sorted-All :
      (P : A → Type 0) (x : A) (ys : List A) → P x → All P ys → All P (insert_sorted x ys)
  unfolding insert_sorted
  insert_sorted-All P x [] p h = (p, tt)
  insert_sorted-All P x (y ∷ ys) p h = elim (Bool-cases (less y x)) [
    | inl e ↦ rw e (h.0, insert_sorted-All P x ys p h.1)
    | inr e ↦ rw e (p, h)
  ]

  is_empty-insert_sorted : (x : A) (ys : List A) → is_empty (insert_sorted x ys) ≡ false
  unfolding insert_sorted
  is_empty-insert_sorted x [] = refl
  is_empty-insert_sorted x (y ∷ ys) = ground arith

  pub is_empty-sort_stable : (xs : List A) → is_empty (sort_stable xs) ≡ is_empty xs
  unfolding sort_stable
  is_empty-sort_stable [] = refl
  is_empty-sort_stable (x ∷ xs) = is_empty-insert_sorted x (sort_stable xs)

  length-insert_sorted : (x : A) (ys : List A) → length (insert_sorted x ys) ≡ suc (length ys)
  unfolding insert_sorted
  length-insert_sorted x [] = refl
  length-insert_sorted x (y ∷ ys) = ground (arith, length-insert_sorted x ys)

  pub length-sort_stable : (xs : List A) → length (sort_stable xs) ≡ length xs
  unfolding sort_stable
  length-sort_stable [] = refl
  length-sort_stable (x ∷ xs) =
      length-insert_sorted x (sort_stable xs) ∙ ap suc (length-sort_stable xs)

  -- The comparison of a strict weak order: what is needed of it.
  pub record IsWeakOrder : Type ℓ where
    pub asym : (x y : A) → less x y ≡ true → less y x ≡ false
    pub trans_not : (x y z : A) → less y x ≡ false → less z y ≡ false → less z x ≡ false

  All-weaken :
      (o : IsWeakOrder) (x y : A) (ys : List A)
      → less y x ≡ false
      → All (λ z. less z y ≡ false) ys
      → All (λ z. less z x ≡ false) ys
  All-weaken o x y [] e h = tt
  All-weaken o x y (z ∷ ys) e h = (o.trans_not x y z e h.0, All-weaken o x y ys e h.1)

  insert_sorted-IsSorted :
      (o : IsWeakOrder) (x : A) (ys : List A) → IsSorted ys → IsSorted (insert_sorted x ys)
  unfolding insert_sorted
  insert_sorted-IsSorted o x [] h = (tt, tt)
  insert_sorted-IsSorted o x (y ∷ ys) h = elim (Bool-cases (less y x)) [
    | inl e ↦ rw e (
      insert_sorted-All (λ z. less z y ≡ false) x ys (o.asym y x e) h.0,
      insert_sorted-IsSorted o x ys h.1,
    )
    | inr e ↦ rw e ((e, All-weaken o x y ys e h.0), h)
  ]

  pub sort_stable-IsSorted : (o : IsWeakOrder) (xs : List A) → IsSorted (sort_stable xs)
  unfolding sort_stable
  sort_stable-IsSorted o [] = tt
  sort_stable-IsSorted o (x ∷ xs) =
      insert_sorted-IsSorted o x (sort_stable xs) (sort_stable-IsSorted o xs)

module _ {A : Type 0} (less : A → A → Bool) where
  In-insert_sorted_step :
      (a x y : A) (ys : List A)
      → (In a (insert_sorted less x ys) → (a ≡ x) ⊎ In a ys)
      → (b : Bool) → In a (if b then y ∷ insert_sorted less x ys else x ∷ y ∷ ys)
      → (a ≡ x) ⊎ In a (y ∷ ys)
  In-insert_sorted_step a x y ys ih true (inl e) = inr (inl e)
  In-insert_sorted_step a x y ys ih true (inr i) = elim (ih i) [
    | inl e ↦ inl e
    | inr k ↦ inr (inr k)
  ]
  In-insert_sorted_step a x y ys ih false i = i

  In-insert_sorted : (a x : A) (ys : List A) → In a (insert_sorted less x ys) → (a ≡ x) ⊎ In a ys
  unfolding insert_sorted
  In-insert_sorted a x [] i = i
  In-insert_sorted a x (y ∷ ys) i =
      In-insert_sorted_step a x y ys (In-insert_sorted a x ys) (less y x) i

  insert_sorted-In_step :
      (a x y : A) (ys : List A)
      → ((a ≡ x) ⊎ In a ys → In a (insert_sorted less x ys))
      → (b : Bool) → (a ≡ x) ⊎ In a (y ∷ ys)
      → In a (if b then y ∷ insert_sorted less x ys else x ∷ y ∷ ys)
  insert_sorted-In_step a x y ys ih true (inl e) = inr (ih (inl e))
  insert_sorted-In_step a x y ys ih true (inr (inl e)) = inl e
  insert_sorted-In_step a x y ys ih true (inr (inr i)) = inr (ih (inr i))
  insert_sorted-In_step a x y ys ih false i = i

  insert_sorted-In : (a x : A) (ys : List A) → (a ≡ x) ⊎ In a ys → In a (insert_sorted less x ys)
  unfolding insert_sorted
  insert_sorted-In a x [] i = i
  insert_sorted-In a x (y ∷ ys) i =
      insert_sorted-In_step a x y ys (insert_sorted-In a x ys) (less y x) i

  pub In-sort_stable : (a : A) (xs : List A) → In a (sort_stable less xs) → In a xs
  unfolding sort_stable
  In-sort_stable a [] i = i
  In-sort_stable a (x ∷ xs) i = elim (In-insert_sorted a x (sort_stable less xs) i) [
    | inl e ↦ inl e
    | inr k ↦ inr (In-sort_stable a xs k)
  ]

  pub sort_stable-In : (a : A) (xs : List A) → In a xs → In a (sort_stable less xs)
  unfolding sort_stable
  sort_stable-In a [] i = i
  sort_stable-In a (x ∷ xs) (inl e) = insert_sorted-In a x (sort_stable less xs) (inl e)
  sort_stable-In a (x ∷ xs) (inr i) =
      insert_sorted-In a x (sort_stable less xs) (inr (sort_stable-In a xs i))
