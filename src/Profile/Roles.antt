-- ===== src/Profile/Roles.antt =====
-- The roles of a node (pkg/profile/profile.go, `RolesOf`, `PrimaryRole` and `RoleOf`).
use mathlib.Core.Path.{subst}
use mathlib.Core.List.{append_assoc}
use binnacle.Prelude.Sort.{sort_stable, In-sort_stable, sort_stable-In}
use binnacle.Prelude.{
  ◌≡◌, refl, sym, ap, text, text_lt, or_empty, if◌then◌else◌, Option, cut_prefix, cut_prefix_sound,
  cut_prefix-append, text_eq_iff, Option-cases, ◌∙◌, ◌≢◌, ◌↔◌, ◌⊎◌, inl, inr, true, false, List, [],
  ◌∷◌, ◌++◌, none, some, arith, Text, text_eq, text_eq_sound, text_eq_refl, Bool-cases, In,
  Distinct, Distinct-append_one, not_In-append_one, In-append, In-append_left, In-append_right,
  In-some_of, All,
}
use binnacle.Profile.{
  NodeRoles, contains_role, add_role, add_roles, add_matched, matched_roles, cut_wildcard, find_key,
  roles_of_key, roles_from, roles_of, legacy_control_plane_role, first_other, primary_role,
}

contains_role_sound :
    (role : Text) (out : List Text) → contains_role role out ≡ false → In role out → ⊥
contains_role_sound role out h i =
    absurd (ground (arith, In-some_of (text_eq role) out role i (text_eq_refl role)))

contains_role-In : (role : Text) (out : List Text) → contains_role role out ≡ true → In role out
contains_role-In role [] h = absurd (ground arith)
contains_role-In role (x ∷ out) h = elim (Bool-cases (text_eq role x)) [
  | inl e ↦ inl (text_eq_sound role x e)
  | inr e ↦ inr (contains_role-In role out (ground arith))
]

-- The roles of a node: none twice, and none empty.
abbrev pub IsClean : List Text → Type 0
IsClean out = Distinct out × (In [] out → ⊥)

-- What `add` does, on both branches.
add_role-cases :
    (out : List Text) (role : Text)
    → ((add_role out role ≡ out) × ((role ≡ []) ⊎ In role out))
      ⊎ ((add_role out role ≡ out ++ role ∷ []) × (role ≢ []) × (In role out → ⊥))
unfolding add_role
add_role-cases out [] = inl (refl, inl refl)
add_role-cases out (c ∷ role) = elim (Bool-cases (contains_role (c ∷ role) out)) [
  | inl e ↦ inl (rw e refl, inr (contains_role-In (c ∷ role) out e))
  | inr e ↦ inr (rw e refl, (λ h. cc), contains_role_sound (c ∷ role) out e)
]

add_role-IsClean : (out : List Text) (role : Text) → IsClean out → IsClean (add_role out role)
add_role-IsClean out role h = elim (add_role-cases out role) [
  | inl (same, _) ↦ rw same h
  | inr (added, ne, fresh) ↦
      rw added (
        Distinct-append_one out role fresh h.0,
        not_In-append_one out [] role h.1 (λ e. ne (sym e)),
      )
]

In-add_role :
    (out : List Text) (role r : Text)
    → In r (add_role out role)
    → In r out ⊎ ((r ≡ role) × (r ≢ []))
In-add_role out role r i = elim (add_role-cases out role) [
  | inl (same, _) ↦ inl (rw same at i)
  | inr (added, ne, _) ↦ elim (In-append r out (role ∷ []) (rw added at i)) [
    | inl old ↦ inl old
    | inr (inl e) ↦ inr (e, λ h. ne (sym e ∙ h))
    | inr (inr none_left) ↦ elim none_left [ ]
  ]
]

add_role-keeps : (out : List Text) (role r : Text) → In r out → In r (add_role out role)
add_role-keeps out role r i = elim (add_role-cases out role) [
  | inl (same, _) ↦ rw same i
  | inr (added, _, _) ↦ rw added (In-append_left r out (role ∷ []) i)
]

add_role-adds : (out : List Text) (role : Text) → role ≢ [] → In role (add_role out role)
add_role-adds out role ne = elim (add_role-cases out role) [
  | inl (same, inl e) ↦ absurd (ne e)
  | inl (same, inr i) ↦ rw same i
  | inr (added, _, _) ↦ rw added (In-append_right role out (role ∷ []) (inl refl))
]

add_roles-IsClean : (out roles : List Text) → IsClean out → IsClean (add_roles out roles)
unfolding add_roles
add_roles-IsClean out [] h = h
add_roles-IsClean out (role ∷ roles) h =
    add_roles-IsClean (add_role out role) roles (add_role-IsClean out role h)

add_roles-keeps : (out roles : List Text) (r : Text) → In r out → In r (add_roles out roles)
unfolding add_roles
add_roles-keeps out [] r i = i
add_roles-keeps out (role ∷ roles) r i =
    add_roles-keeps (add_role out role) roles r (add_role-keeps out role r i)

add_roles-adds :
    (out roles : List Text) (r : Text) → r ≢ [] → In r roles → In r (add_roles out roles)
unfolding add_roles
add_roles-adds out [] r ne i = elim i [ ]
add_roles-adds out (role ∷ roles) r ne (inl e) =
    add_roles-keeps (add_role out role) roles r (rw e (add_role-adds out role (λ h. ne (e ∙ h))))
add_roles-adds out (role ∷ roles) r ne (inr i) = add_roles-adds (add_role out role) roles r ne i

In-add_roles :
    (out roles : List Text) (r : Text)
    → In r (add_roles out roles)
    → In r out ⊎ (In r roles × (r ≢ []))
unfolding add_roles
In-add_roles out [] r i = inl i
In-add_roles out (role ∷ roles) r i = elim (In-add_roles (add_role out role) roles r i) [
  | inl before ↦ elim (In-add_role out role r before) [
    | inl old ↦ inl old
    | inr (e, ne) ↦ inr (inl e, ne)
  ]
  | inr (later, ne) ↦ inr (inr later, ne)
]

module _ (labels : List (Text × Text)) where
  roles_from-IsClean : (keys out : List Text) → IsClean out → IsClean (roles_from labels keys out)
  unfolding roles_from
  roles_from-IsClean [] out h = h
  roles_from-IsClean (key ∷ keys) out h =
      roles_from-IsClean keys (add_roles out (roles_of_key labels key))
        (add_roles-IsClean out (roles_of_key labels key) h)

  roles_from-keeps :
      (keys out : List Text) (r : Text) → In r out → In r (roles_from labels keys out)
  unfolding roles_from
  roles_from-keeps [] out r i = i
  roles_from-keeps (key ∷ keys) out r i =
      roles_from-keeps keys (add_roles out (roles_of_key labels key)) r
        (add_roles-keeps out (roles_of_key labels key) r i)

  roles_from-adds :
      (keys out : List Text) (r key : Text)
      → r ≢ []
      → In key keys
      → In r (roles_of_key labels key)
      → In r (roles_from labels keys out)
  unfolding roles_from
  roles_from-adds [] out r key ne k i = elim k [ ]
  roles_from-adds (key' ∷ keys) out r key ne (inl e) i =
      roles_from-keeps keys (add_roles out (roles_of_key labels key')) r
        (add_roles-adds out (roles_of_key labels key') r ne (rw e at i))
  roles_from-adds (key' ∷ keys) out r key ne (inr k) i =
      roles_from-adds keys (add_roles out (roles_of_key labels key')) r key ne k i

  In-roles_from :
      (keys out : List Text) (r : Text)
      → In r (roles_from labels keys out)
      → In r out ⊎ ((r ≢ []) × ((key : Text) × In key keys × In r (roles_of_key labels key)))
  unfolding roles_from
  In-roles_from [] out r i = inl i
  In-roles_from (key ∷ keys) out r i =
      elim (In-roles_from keys (add_roles out (roles_of_key labels key)) r i) [
        | inl before ↦ elim (In-add_roles out (roles_of_key labels key) r before) [
          | inl old ↦ inl old
          | inr (here, ne) ↦ inr (ne, (key, inl refl, here))
        ]
        | inr (ne, (key', k, later)) ↦ inr (ne, (key', inr k, later))
      ]

cut_wildcard_sound : (key p : Text) → cut_wildcard key ≡ some p → key ≡ p ++ text "/*"
unfolding cut_wildcard
cut_wildcard_sound [] p h = absurd (ground (arith, h))
cut_wildcard_sound (c ∷ s) p h = elim (Bool-cases (text_eq (c ∷ s) (text "/*"))) [
  | inl e ↦
      let empty : [] ≡ p = ground (arith, h, e) in
      text_eq_sound (c ∷ s) (text "/*") e ∙ ap (λ p. p ++ text "/*") empty
  | inr e ↦ elim (Option-cases (cut_wildcard s)) [
    | inl q ↦ absurd (ground (arith, h, e, q))
    | inr (r, q) ↦
        let same : c ∷ r ≡ p = ground (arith, h, e, q) in
        ap (λ s. c ∷ s) (cut_wildcard_sound s r q) ∙ ap (λ p. p ++ text "/*") same
  ]
]

not_empty_suffix : (p : Text) → text_eq (p ++ text "/*") [] ≡ false
unfolding text_eq
not_empty_suffix [] = refl
not_empty_suffix (c ∷ p) = refl

cut_wildcard-append : (p : Text) → cut_wildcard (p ++ text "/*") ≡ some p
unfolding cut_wildcard text_eq
cut_wildcard-append [] = refl
cut_wildcard-append (c ∷ []) = ground arith
cut_wildcard-append (c ∷ d ∷ p) = ground (arith, cut_wildcard-append (d ∷ p), not_empty_suffix p)

In-add_matched :
    (o : Option Text) (rest : List Text) (r : Text)
    → In r (add_matched o rest)
    → ((o ≡ some r) × (r ≢ [])) ⊎ In r rest
In-add_matched none rest r i = inr i
In-add_matched (some []) rest r i = inr i
In-add_matched (some (c ∷ role)) rest r (inl e) =
    inl (ap some (sym e), λ q. absurd (ground (arith, e, q)))
In-add_matched (some (c ∷ role)) rest r (inr i) = inr i

add_matched-keeps :
    (o : Option Text) (rest : List Text) (r : Text) → In r rest → In r (add_matched o rest)
add_matched-keeps none rest r i = i
add_matched-keeps (some []) rest r i = i
add_matched-keeps (some (c ∷ role)) rest r i = inr i

In-matched_roles :
    (prefix : Text) (labels : List (Text × Text)) (r : Text)
    → In r (matched_roles prefix labels)
    → (v : Text) × In (prefix ++ (text "/" ++ r), v) labels
unfolding matched_roles
In-matched_roles prefix [] r i = elim i [ ]
In-matched_roles prefix ((k, v) ∷ labels) r i =
    elim (In-add_matched (cut_prefix k (prefix ++ text "/")) (matched_roles prefix labels) r i) [
      | inl (e, ne) ↦
          let whole : k ≡ prefix ++ (text "/" ++ r) =
            cut_prefix_sound k (prefix ++ text "/") r e ∙ append_assoc prefix (text "/") r in
          (v, inl (ap (λ k. (k, v)) (sym whole)))
      | inr j ↦ let (w, l) = In-matched_roles prefix labels r j in (w, inr l)
    ]

matched_roles-In :
    (prefix : Text) (labels : List (Text × Text)) (r v : Text)
    → r ≢ []
    → In (prefix ++ (text "/" ++ r), v) labels
    → In r (matched_roles prefix labels)
unfolding matched_roles
matched_roles-In prefix [] r v ne i = elim i [ ]
matched_roles-In prefix ((k, w) ∷ labels) [] v ne i = absurd (ne refl)
matched_roles-In prefix ((k, w) ∷ labels) (c ∷ r) v ne (inl e) =
    let whole : (prefix ++ text "/") ++ (c ∷ r) ≡ k =
      append_assoc prefix (text "/") (c ∷ r) ∙ ap (λ (p : Text × Text). p.0) e in
    let found : cut_prefix k (prefix ++ text "/") ≡ some (c ∷ r) =
      subst (λ k. cut_prefix k (prefix ++ text "/") ≡ some (c ∷ r)) whole
        (cut_prefix-append (prefix ++ text "/") (c ∷ r)) in
    rw found (inl refl)
matched_roles-In prefix ((k, w) ∷ labels) (c ∷ r) v ne (inr i) =
    add_matched-keeps (cut_prefix k (prefix ++ text "/")) (matched_roles prefix labels) (c ∷ r)
      (matched_roles-In prefix labels (c ∷ r) v ne i)

-- The value of the first label with a key.
abbrev pub value_of : Text → List (Text × Text) → Text
value_of k [] = []
value_of k ((j, v) ∷ labels) = if text_eq k j then v else value_of k labels

value_of_lem :
    (k : Text) (labels : List (Text × Text)) → or_empty (find_key k labels) ≡ value_of k labels
unfolding find_key
value_of_lem k [] = refl
value_of_lem k ((j, v) ∷ labels) =
    ground (arith, value_of_lem k labels, text_eq_iff j k, text_eq_iff k j)

-- A label key yields a role: a key that ends in a slash and a star yields what follows the slash in the
-- key of a label below it, and any other key the value of the label that it names.
abbrev pub Yields : List (Text × Text) → Text → Text → Type 0
Yields labels key r =
    ((prefix : Text) × (key ≡ prefix ++ text "/*")
      × ((v : Text) × In (prefix ++ (text "/" ++ r), v) labels))
    ⊎ (((prefix : Text) → key ≡ prefix ++ text "/*" → ⊥) × (r ≡ value_of key labels))

roles_of_key_iff :
    (labels : List (Text × Text)) (key r : Text)
    → r ≢ []
    → In r (roles_of_key labels key) ↔ Yields labels key r
unfolding roles_of_key
roles_of_key_iff labels key r ne = elim (Option-cases (cut_wildcard key)) [
  | inl e ↦
      let plain : (prefix : Text) → key ≡ prefix ++ text "/*" → ⊥ =
        λ p q. absurd (ground (arith, e, ap cut_wildcard q, cut_wildcard-append p)) in
      let same : or_empty (find_key key labels) ∷ [] ≡ roles_of_key labels key =
        ground (arith, e) in
      subst (λ l. In r l ↔ Yields labels key r) same
        (
          (elim [ inl q ↦ inr (plain, q ∙ value_of_lem key labels) | inr j ↦ elim j [ ] ]),
          elim [
            | inl (p, q, x) ↦ absurd (plain p q)
            | inr (other, q) ↦ inl (q ∙ sym (value_of_lem key labels))
          ],
        )
  | inr (p, e) ↦
      let found = matched_roles p labels in
      let whole = cut_wildcard_sound key p e in
      let same : sort_stable text_lt found ≡ roles_of_key labels key = ground (arith, e) in
      subst (λ l. In r l ↔ Yields labels key r) same
        (
          (λ i. inl (p, whole, In-matched_roles p labels r (In-sort_stable text_lt r found i))),
          elim [
            | inl (p', q, (v, i)) ↦
                let one : p' ≡ p = ground (arith, e, ap cut_wildcard q, cut_wildcard-append p') in
                sort_stable-In text_lt r found (
                  subst (λ p. In r (matched_roles p labels)) one
                    (matched_roles-In p' labels r v ne i))
            | inr (plain, q) ↦ absurd (plain p whole)
          ],
        )
]

-- The roles of a node with a label are listed once each and none is empty, and a text is one of them exactly when it is
-- not empty and one of the configured label keys yields it.
pub roles_of_complete :
    (n : NodeRoles) (labels : List (Text × Text))
    → labels ≢ []
    → Distinct (roles_of n labels)
      × ((r : Text)
          → In r (roles_of n labels)
            ↔ ((r ≢ []) × ((key : Text) × In key n.label_keys × Yields labels key r)))
unfolding roles_of
roles_of_complete n [] h = absurd (h refl)
roles_of_complete n (label ∷ labels) h = (
  (roles_from-IsClean (label ∷ labels) n.label_keys [] (tt, λ i. elim i [ ])).0,
  λ r. (
    (λ i. elim (In-roles_from (label ∷ labels) n.label_keys [] r i) [
      | inl none_yet ↦ elim none_yet [ ]
      | inr (ne, (key, k, j)) ↦ (ne, (key, k, (roles_of_key_iff (label ∷ labels) key r ne).0 j))
    ]),
    (λ (ne, (key, k, y)).
        roles_from-adds (label ∷ labels) n.label_keys [] r key ne k
          ((roles_of_key_iff (label ∷ labels) key r ne).1 y)),
  ),
)

first_other-cases :
    (roles : List Text)
    → ((first_other roles ≡ none) × All (λ r. r ≡ legacy_control_plane_role) roles)
      ⊎ ((r : Text) × (first_other roles ≡ some r) × In r roles × (r ≢ legacy_control_plane_role))
unfolding first_other
first_other-cases [] = inl (refl, tt)
first_other-cases (r ∷ roles) = elim (Bool-cases (text_eq r legacy_control_plane_role)) [
  | inl e ↦ elim (first_other-cases roles) [
    | inl (no_other, all) ↦ inl (rw e no_other, (text_eq_sound r legacy_control_plane_role e, all))
    | inr (other, found, i, ne) ↦ inr (other, rw e found, inr i, ne)
  ]
  | inr e ↦ inr (r, rw e refl, inl refl, λ h. absurd (ground (arith, text_eq_refl r)))
]

-- The primary role of a list with at least one role is one of its roles. It is the first unless that
-- is "master", and it is "master" only if every role is.
pub primary_role_lem :
    (r : Text) (roles : List Text)
    → In (primary_role (r ∷ roles)) (r ∷ roles)
      × (r ≢ legacy_control_plane_role → primary_role (r ∷ roles) ≡ r)
      × (primary_role (r ∷ roles) ≡ legacy_control_plane_role
          → All (λ q. q ≡ legacy_control_plane_role) (r ∷ roles))
unfolding primary_role
primary_role_lem r roles = elim (Bool-cases (text_eq r legacy_control_plane_role)) [
  | inr e ↦ rw e (inl refl, (λ h. refl), (λ h. absurd (ground (arith, text_eq_refl r))))
  | inl e ↦ elim (first_other-cases roles) [
    | inl (no_other, all) ↦
        rw (e, no_other)
          (inl refl, (λ h. refl), (λ h. (text_eq_sound r legacy_control_plane_role e, all)))
    | inr (other, found, i, ne) ↦
        let answer : primary_role (r ∷ roles) ≡ other = ground arith in
        (
          inr (subst (λ q. In q roles) (sym answer) i),
          (λ h. absurd (h (text_eq_sound r legacy_control_plane_role e))),
          (λ h. absurd (ne (sym answer ∙ h))),
        )
  ]
]
