-- ===== src/Prelude/Lists.antt =====
-- Lists measured and indexed by native numbers, under the library's names, and predicates on the
-- elements of a list by recursion.
use Prim.Native.Nat.{ℕ, zero, suc, ◌+◌, ◌-◌, ◌≤◌}
use mathlib.Core.Path.{◌≡◌, refl, ap, sym, subst, ◌∙◌}
use mathlib.Core.Logic.{◌≢◌, ◌⊎◌, inl, inr}
use mathlib.Core.Bool.{Bool, true, false, ◌||◌}
use mathlib.Core.List.{List, [], ◌∷◌, ◌++◌, map}
use mathlib.Core.Option.{Option, none, some}
use native.Mathlib.Omega.{arith}
use binnacle.Prelude.Tests.{ltb, if◌then◌else◌}

module _ {ℓ} {A : Type ℓ} where
  abbrev pub length : List A → ℕ
  length [] = 0
  length (x ∷ xs) = suc (length xs)

  abbrev pub get_elem? : List A → ℕ → Option A
  get_elem? [] i = none
  get_elem? (x ∷ xs) zero = some x
  get_elem? (x ∷ xs) (suc i) = get_elem? xs i

  abbrev pub get_or : List A → ℕ → A → A
  get_or [] i d = d
  get_or (x ∷ xs) zero d = x
  get_or (x ∷ xs) (suc i) d = get_or xs i d

  -- A write out of bounds changes nothing.
  abbrev pub set : List A → ℕ → A → List A
  set [] i v = []
  set (x ∷ xs) zero v = v ∷ xs
  set (x ∷ xs) (suc i) v = x ∷ set xs i v

  abbrev pub replicate : ℕ → A → List A
  replicate zero a = []
  replicate (suc n) a = a ∷ replicate n a

  abbrev pub take : ℕ → List A → List A
  take zero xs = []
  take (suc n) [] = []
  take (suc n) (x ∷ xs) = x ∷ take n xs

  abbrev pub drop : ℕ → List A → List A
  drop zero xs = xs
  drop (suc n) [] = []
  drop (suc n) (x ∷ xs) = drop n xs

  abbrev pub is_empty : List A → Bool
  is_empty [] = true
  is_empty (x ∷ xs) = false

  -- `m[k]` of a Go map whose values are texts or lists: a missing key gives the empty one.
  abbrev pub or_empty : Option (List A) → List A
  or_empty none = []
  or_empty (some xs) = xs

  -- A loop that keeps the elements that pass a test.
  abbrev pub keep : (A → Bool) → List A → List A
  keep p [] = []
  keep p (x ∷ xs) = if p x then x ∷ keep p xs else keep p xs

  -- A loop that counts them.
  abbrev pub count_if : (A → Bool) → List A → ℕ
  count_if p [] = 0
  count_if p (x ∷ xs) = if p x then suc (count_if p xs) else count_if p xs

  -- A loop that returns true at the first element that passes a test.
  abbrev pub some_of : (A → Bool) → List A → Bool
  some_of p [] = false
  some_of p (x ∷ xs) = p x || some_of p xs

  abbrev pub All {κ} : (A → Type κ) → List A → Type κ
  All P [] = Unit
  All P (x ∷ xs) = P x × All P xs

module _ {ℓ} {A : Type ℓ} where
  pub length-append : (xs ys : List A) → length (xs ++ ys) ≡ length xs + length ys
  length-append [] ys = omega arith
  length-append (x ∷ xs) ys = omega (arith, length-append xs ys)

  pub is_empty-ne : (xs : List A) → xs ≢ [] → is_empty xs ≡ false
  is_empty-ne [] h = absurd (h refl)
  is_empty-ne (x ∷ xs) h = refl

  pub take-drop : (n : ℕ) (xs : List A) → take n xs ++ drop n xs ≡ xs
  take-drop zero xs = refl
  take-drop (suc n) [] = refl
  take-drop (suc n) (x ∷ xs) = ap (λ ys. x ∷ ys) (take-drop n xs)

  pub length-drop : (n : ℕ) (xs : List A) → length (drop n xs) ≡ length xs - n
  length-drop zero xs = omega arith
  length-drop (suc n) [] = omega arith
  length-drop (suc n) (x ∷ xs) = omega (arith, length-drop n xs)

  pub length-take-le : (n : ℕ) (xs : List A) → length (take n xs) ≤ n
  length-take-le zero xs = omega arith
  length-take-le (suc n) [] = omega arith
  length-take-le (suc n) (x ∷ xs) = omega (arith, length-take-le n xs)

  pub take_all : (n : ℕ) (xs : List A) → length xs ≤ n → take n xs ≡ xs
  take_all zero [] h = refl
  take_all zero (x ∷ xs) h = absurd (omega (arith, h))
  take_all (suc n) [] h = refl
  take_all (suc n) (x ∷ xs) h = ap (λ ys. x ∷ ys) (take_all n xs (omega (arith, h)))

  pub is_empty_sound : (xs : List A) → is_empty xs ≡ true → xs ≡ []
  is_empty_sound [] h = refl
  is_empty_sound (x ∷ xs) h = absurd (ground arith)

  pub length-set : (xs : List A) (i : ℕ) (v : A) → length (set xs i v) ≡ length xs
  length-set [] i v = refl
  length-set (x ∷ xs) zero v = refl
  length-set (x ∷ xs) (suc i) v = ap suc (length-set xs i v)

  pub count_if-le : (p : A → Bool) (xs : List A) → count_if p xs ≤ length xs
  count_if-le p [] = omega arith
  count_if-le p (x ∷ xs) = ground (arith, count_if-le p xs)

  -- A loop that looks for an element finds one exactly when their count is not 0.
  pub some_of-count : (p : A → Bool) (xs : List A) → some_of p xs ≡ ltb 0 (count_if p xs)
  some_of-count p [] = ground arith
  some_of-count p (x ∷ xs) = ground (arith, some_of-count p xs)

  pub some_of-append :
      (p : A → Bool) (xs ys : List A) → some_of p (xs ++ ys) ≡ (some_of p xs || some_of p ys)
  some_of-append p [] ys = refl
  some_of-append p (x ∷ xs) ys = ground (arith, some_of-append p xs ys)

  pub keep-append : (p : A → Bool) (xs ys : List A) → keep p (xs ++ ys) ≡ keep p xs ++ keep p ys
  keep-append p [] ys = refl
  keep-append p (x ∷ xs) ys = ground (arith, keep-append p xs ys)

  -- Where the loop that looks for an element finds none, none is kept.
  pub keep_none : (p : A → Bool) (xs : List A) → some_of p xs ≡ false → keep p xs ≡ []
  keep_none p [] h = refl
  keep_none p (x ∷ xs) h = ground (arith, h, keep_none p xs)

  pub count_if-append :
      (p : A → Bool) (xs ys : List A) → count_if p (xs ++ ys) ≡ count_if p xs + count_if p ys
  count_if-append p [] ys = omega arith
  count_if-append p (x ∷ xs) ys = ground (arith, count_if-append p xs ys)

module _ {A : Type 0} where
  -- An element with its place: `In a xs` is a position of `a` in `xs`.
  abbrev pub In : A → List A → Type 0
  In a [] = ⊥
  In a (x ∷ xs) = (a ≡ x) ⊎ In a xs

  -- No element stands at two places.
  abbrev pub Distinct : List A → Type 0
  Distinct [] = Unit
  Distinct (x ∷ xs) = (In x xs → ⊥) × Distinct xs

  pub not_In-append_one : (xs : List A) (x y : A) → (In x xs → ⊥) → x ≢ y → In x (xs ++ y ∷ []) → ⊥
  not_In-append_one [] x y h ne (inl e) = ne e
  not_In-append_one [] x y h ne (inr i) = elim i [ ]
  not_In-append_one (z ∷ xs) x y h ne (inl e) = h (inl e)
  not_In-append_one (z ∷ xs) x y h ne (inr i) = not_In-append_one xs x y (λ k. h (inr k)) ne i

  pub Distinct-append_one :
      (xs : List A) (y : A) → (In y xs → ⊥) → Distinct xs → Distinct (xs ++ y ∷ [])
  Distinct-append_one [] y h d = ((λ i. elim i [ ]), tt)
  Distinct-append_one (x ∷ xs) y h d = (
    not_In-append_one xs x y d.0 (λ e. h (inl (sym e))),
    Distinct-append_one xs y (λ i. h (inr i)) d.1,
  )

  some_of-In_step :
      (p : A → Bool) (x : A) (xs : List A)
      → (some_of p xs ≡ true → (a : A) × In a xs × (p a ≡ true))
      → (b : Bool) → p x ≡ b
      → (b || some_of p xs) ≡ true
      → (a : A) × In a (x ∷ xs) × (p a ≡ true)
  some_of-In_step p x xs ih true e k = (x, inl refl, e)
  some_of-In_step p x xs ih false e k = let (a, i, q) = ih k in (a, inr i, q)

  pub some_of-In :
      (p : A → Bool) (xs : List A) → some_of p xs ≡ true → (a : A) × In a xs × (p a ≡ true)
  some_of-In p [] h = absurd (ground arith)
  some_of-In p (x ∷ xs) h = some_of-In_step p x xs (some_of-In p xs) (p x) refl h

  pub In-some_of : (p : A → Bool) (xs : List A) (a : A) → In a xs → p a ≡ true → some_of p xs ≡ true
  In-some_of p [] a i h = elim i [ ]
  In-some_of p (x ∷ xs) a (inl e) h = ground arith
  In-some_of p (x ∷ xs) a (inr i) h = ground (arith, In-some_of p xs a i h)

  pub In-append_left : (a : A) (xs ys : List A) → In a xs → In a (xs ++ ys)
  In-append_left a [] ys i = elim i [ ]
  In-append_left a (x ∷ xs) ys (inl e) = inl e
  In-append_left a (x ∷ xs) ys (inr i) = inr (In-append_left a xs ys i)

  pub In-append_right : (a : A) (xs ys : List A) → In a ys → In a (xs ++ ys)
  In-append_right a [] ys i = i
  In-append_right a (x ∷ xs) ys i = inr (In-append_right a xs ys i)

  pub In-append : (a : A) (xs ys : List A) → In a (xs ++ ys) → In a xs ⊎ In a ys
  In-append a [] ys i = inr i
  In-append a (x ∷ xs) ys (inl e) = inl (inl e)
  In-append a (x ∷ xs) ys (inr i) = elim (In-append a xs ys i) [
    | inl l ↦ inl (inr l)
    | inr r ↦ inr r
  ]

  In-keep_step :
      (p : A → Bool) (x : A) (xs : List A) (a : A)
      → (In a (keep p xs) → In a xs × (p a ≡ true))
      → (b : Bool) → p x ≡ b
      → In a (if b then x ∷ keep p xs else keep p xs)
      → In a (x ∷ xs) × (p a ≡ true)
  In-keep_step p x xs a ih true e (inl h) = (inl h, ap p h ∙ e)
  In-keep_step p x xs a ih true e (inr k) = (inr (ih k).0, (ih k).1)
  In-keep_step p x xs a ih false e k = (inr (ih k).0, (ih k).1)

  -- What `keep` keeps is what was there and passes.
  pub In-keep : (p : A → Bool) (xs : List A) (a : A) → In a (keep p xs) → In a xs × (p a ≡ true)
  In-keep p [] a i = elim i [ ]
  In-keep p (x ∷ xs) a i = In-keep_step p x xs a (In-keep p xs a) (p x) refl i

  keep-In_step :
      (p : A → Bool) (x : A) (xs : List A) (a : A)
      → p a ≡ true
      → (In a xs → In a (keep p xs))
      → (b : Bool) → p x ≡ b
      → In a (x ∷ xs)
      → In a (if b then x ∷ keep p xs else keep p xs)
  keep-In_step p x xs a h ih true e (inl k) = inl k
  keep-In_step p x xs a h ih true e (inr k) = inr (ih k)
  keep-In_step p x xs a h ih false e (inl k) = absurd (ground arith)
  keep-In_step p x xs a h ih false e (inr k) = ih k

  pub keep-In : (p : A → Bool) (xs : List A) (a : A) → In a xs → p a ≡ true → In a (keep p xs)
  keep-In p [] a i h = elim i [ ]
  keep-In p (x ∷ xs) a i h = keep-In_step p x xs a h (λ k. keep-In p xs a k h) (p x) refl i

  pub All-In {κ} : (P : A → Type κ) (xs : List A) (a : A) → All P xs → In a xs → P a
  All-In P [] a h i = elim i [ ]
  All-In P (x ∷ xs) a h (inl e) = subst P (sym e) h.0
  All-In P (x ∷ xs) a h (inr i) = All-In P xs a h.1 i

  pub All-of-In {κ} : (P : A → Type κ) (xs : List A) → ((a : A) → In a xs → P a) → All P xs
  All-of-In P [] h = tt
  All-of-In P (x ∷ xs) h = (h x (inl refl), All-of-In P xs (λ a i. h a (inr i)))

module _ {A B : Type 0} (f : A → B) where
  pub In-map : (xs : List A) (b : B) → In b (map f xs) → (a : A) × In a xs × (b ≡ f a)
  In-map [] b i = elim i [ ]
  In-map (x ∷ xs) b (inl e) = (x, inl refl, e)
  In-map (x ∷ xs) b (inr i) = let (a, j, e) = In-map xs b i in (a, inr j, e)

  pub map-In : (xs : List A) (a : A) → In a xs → In (f a) (map f xs)
  map-In [] a i = elim i [ ]
  map-In (x ∷ xs) a (inl e) = inl (ap f e)
  map-In (x ∷ xs) a (inr i) = inr (map-In xs a i)
