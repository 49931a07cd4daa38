-- ===== src/Profile/Order.antt =====
-- Go leaves the order in which a map is ranged over open. `RolesOf` (pkg/profile/profile.go) ranges over
-- the labels and sorts what it finds, so its answer does not depend on that order.
use mathlib.Core.List.{Perm, Permᴰ}
use mathlib.Core.List.Permᴰ
use mathlib.Core.Logic.{∥∥₁_elim}
use binnacle.Prelude.{
  Bool-cases, ◌≡◌, refl, ap, ◌∙◌, ◌≢◌, inl, inr, List, [], ◌∷◌, ◌++◌, Option, none, some, arith,
  Text, text, text_eq_iff, text_lt, text_lt-total, cut_prefix, is_empty, Option-cases, Distinct,
  map,
}
use binnacle.Prelude.Sort.{sort_stable}
use binnacle.Prelude.Orders.{by_last-IsWeakOrder}
use binnacle.Prelude.Reorder.{Comparable, sort_stable-Permᴰ, Distinct-Permᴰ}
use binnacle.Profile.{
  NodeRoles, add_matched, find_key, cut_wildcard, matched_roles, roles_of_key, add_roles,
  roles_from, roles_of,
}

Text_list_set : IsSet (List Text)
Text_list_set = hlevel

text_lt-Comparable : (x y : Text) → Comparable text_lt x y
text_lt-Comparable x y = elim (Bool-cases (text_lt x y)) [
  | inl e ↦ inl e
  | inr e ↦ elim (Bool-cases (text_lt y x)) [
    | inl f ↦ inr (inl f)
    | inr f ↦ inr (inr (text_lt-total x y e f))
  ]
]

sort-Permᴰ : {xs ys : List Text} → Permᴰ xs ys → sort_stable text_lt xs ≡ sort_stable text_lt ys
sort-Permᴰ d =
    sort_stable-Permᴰ text_lt (by_last-IsWeakOrder (λ t. t)) d (λ x y i j. text_lt-Comparable x y)

add_matched-Permᴰ :
    (o : Option Text) {xs ys : List Text}
    → Permᴰ xs ys
    → Permᴰ (add_matched o xs) (add_matched o ys)
add_matched-Permᴰ none d = d
add_matched-Permᴰ (some []) d = d
add_matched-Permᴰ (some (c ∷ r)) d = Permᴰ.cons refl d

add_matched_swap :
    (o q : Option Text) (l : List Text)
    → Permᴰ (add_matched o (add_matched q l)) (add_matched q (add_matched o l))
add_matched_swap none q l = Permᴰ.refl _
add_matched_swap (some []) q l = Permᴰ.refl _
add_matched_swap (some (c ∷ r)) none l = Permᴰ.refl _
add_matched_swap (some (c ∷ r)) (some []) l = Permᴰ.refl _
add_matched_swap (some (c ∷ r)) (some (d ∷ s)) l = Permᴰ.swap refl refl

matched_roles-Permᴰ :
    (prefix : Text) {xs ys : List (Text × Text)}
    → Permᴰ xs ys
    → Permᴰ (matched_roles prefix xs) (matched_roles prefix ys)
unfolding matched_roles
matched_roles-Permᴰ prefix Permᴰ.nil = Permᴰ.nil
matched_roles-Permᴰ prefix (Permᴰ.cons {a = a} e d) =
    rw (← e)
      (add_matched-Permᴰ (cut_prefix a.0 (prefix ++ text "/")) (matched_roles-Permᴰ prefix d))
matched_roles-Permᴰ prefix (Permᴰ.swap {a = a} {b = b} {l = l} e f) =
    rw (← e, ← f)
      (add_matched_swap (cut_prefix a.0 (prefix ++ text "/")) (cut_prefix b.0 (prefix ++ text "/"))
        (matched_roles prefix l))
matched_roles-Permᴰ prefix (Permᴰ.trans d e) =
    Permᴰ.trans (matched_roles-Permᴰ prefix d) (matched_roles-Permᴰ prefix e)

abbrev pub keys_of : List (Text × Text) → List Text
keys_of = map (λ e. e.0)

keys-Permᴰ : {xs ys : List (Text × Text)} → Permᴰ xs ys → Permᴰ (keys_of xs) (keys_of ys)
keys-Permᴰ Permᴰ.nil = Permᴰ.nil
keys-Permᴰ (Permᴰ.cons e d) = Permᴰ.cons (ap (λ (x : Text × Text). x.0) e) (keys-Permᴰ d)
keys-Permᴰ (Permᴰ.swap e f) =
    Permᴰ.swap (ap (λ (x : Text × Text). x.0) e) (ap (λ (x : Text × Text). x.0) f)
keys-Permᴰ (Permᴰ.trans d e) = Permᴰ.trans (keys-Permᴰ d) (keys-Permᴰ e)

find_key-Permᴰ :
    (k : Text) {xs ys : List (Text × Text)}
    → Permᴰ xs ys
    → Distinct (keys_of xs)
    → find_key k xs ≡ find_key k ys
unfolding find_key
find_key-Permᴰ k Permᴰ.nil h = refl
find_key-Permᴰ k (Permᴰ.cons e d) h = rw (← e, find_key-Permᴰ k d h.1) refl
find_key-Permᴰ k (Permᴰ.swap {a = a} {b = b} e f) h =
    let apart : a.0 ≢ b.0 = (λ p. h.0 (inl p)) in
    rw (← e, ← f) (ground (arith, text_eq_iff a.0 k, text_eq_iff b.0 k))
find_key-Permᴰ k (Permᴰ.trans d e) h =
    find_key-Permᴰ k d h ∙ find_key-Permᴰ k e (Distinct-Permᴰ (keys-Permᴰ d) h)

module _ {xs ys : List (Text × Text)} (d : Permᴰ xs ys) (h : Distinct (keys_of xs)) where
  roles_of_key-Permᴰ : (key : Text) → roles_of_key xs key ≡ roles_of_key ys key
  unfolding roles_of_key
  roles_of_key-Permᴰ key = elim (Option-cases (cut_wildcard key)) [
    | inl e ↦ rw (e, find_key-Permᴰ key d h, roles_of_key) refl
    | inr (prefix, e) ↦ rw (e, roles_of_key) (sort-Permᴰ (matched_roles-Permᴰ prefix d))
  ]

  roles_from-Permᴰ : (keys out : List Text) → roles_from xs keys out ≡ roles_from ys keys out
  unfolding roles_from
  roles_from-Permᴰ [] out = refl
  roles_from-Permᴰ (key ∷ keys) out =
      rw (roles_of_key-Permᴰ key) (roles_from-Permᴰ keys (add_roles out (roles_of_key ys key)))

is_empty-Permᴰ : {xs ys : List (Text × Text)} → Permᴰ xs ys → is_empty xs ≡ is_empty ys
is_empty-Permᴰ Permᴰ.nil = refl
is_empty-Permᴰ (Permᴰ.cons e d) = refl
is_empty-Permᴰ (Permᴰ.swap e f) = refl
is_empty-Permᴰ (Permᴰ.trans d e) = is_empty-Permᴰ d ∙ is_empty-Permᴰ e

-- Two listings of the same labels, with distinct keys and in whatever orders, give a node the same
-- roles in the same order.
pub roles_of-order :
    (n : NodeRoles) (xs ys : List (Text × Text))
    → Perm xs ys
    → Distinct (keys_of xs)
    → roles_of n xs ≡ roles_of n ys
unfolding roles_of
roles_of-order n xs ys p h =
    ∥∥₁_elim p (Text_list_set _ _)
      (λ d. rw (is_empty-Permᴰ d, roles_from-Permᴰ d h n.label_keys []) refl)
