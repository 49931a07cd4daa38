-- ===== src/Profile/Candidates.antt =====
-- The role that a MachineDeployment's name gives (pkg/profile/profile.go,
-- `RoleFromMachineDeploymentName`).
use mathlib.Core.Path.{subst}
use binnacle.Prelude.{
  map, not, keep, keep-In, some_of-In, text_eq, text_eq_sound, text_lt, ◌≤◌, ◌≡◌, refl, sym, ap,
  ◌∙◌, ◌≢◌, inl, inr, true, false, List, [], ◌∷◌, arith, Text, contains, length, All, All-In,
  is_empty, is_empty-ne, or_empty, Bool-cases, In, In-append, In-append_left, In-append_right,
}
use binnacle.Prelude.Sort.{
  sort_stable, sort_stable-IsSorted, IsSorted, IsWeakOrder, In-sort_stable, sort_stable-In,
}
use binnacle.Profile.{
  contains_role, NodeRoles, Candidate, candidates_of, candidates_for, known_roles, longer,
  first_contained, role_from_machine_deployment_name, find_key,
}

longer-IsWeakOrder : IsWeakOrder longer
longer-IsWeakOrder = record { asym = λ x y h. ground arith; trans_not = λ x y z h k. ground arith }

le-of_sorted :
    (d : Candidate) (cs : List Candidate) (c : Candidate)
    → All (λ y. longer y d ≡ false) cs
    → In c (d ∷ cs)
    → length c.pattern ≤ length d.pattern
le-of_sorted d cs c h (inl e) = rw e (omega arith)
le-of_sorted d cs c h (inr i) =
    let no_longer : longer c d ≡ false = All-In (λ y. longer y d ≡ false) cs c h i in ground arith

-- In a list sorted by falling length the first pattern that the name contains is a longest one.
first_contained-longest :
    (name : Text) (cs : List Candidate) (c : Candidate)
    → IsSorted longer cs
    → In c cs
    → contains name c.pattern ≡ true
    → (d : Candidate) × In d cs
      × (contains name d.pattern ≡ true)
      × (first_contained name cs ≡ d.role)
      × (length c.pattern ≤ length d.pattern)
unfolding first_contained
first_contained-longest name [] c sorted i h = elim i [ ]
first_contained-longest name (d ∷ cs) c sorted i h = elim (Bool-cases (contains name d.pattern)) [
  | inl e ↦ (d, inl refl, e, rw e refl, le-of_sorted d cs c sorted.0 i)
  | inr e ↦ elim i [
    | inl same ↦ absurd (ground arith)
    | inr k ↦
        let (f, j, held, answer, le) = first_contained-longest name cs c sorted.1 k h in
        (f, inr j, held, rw e answer, le)
  ]
]

In-candidates_of :
    (role : Text) (pats : List Text) (c : Candidate)
    → In c (candidates_of role pats)
    → (c.role ≡ role) × In c.pattern pats
unfolding candidates_of
In-candidates_of role [] c i = elim i [ ]
In-candidates_of role ([] ∷ pats) c i = let (e, k) = In-candidates_of role pats c i in (e, inr k)
In-candidates_of role ((b ∷ pat) ∷ pats) c (inl e) =
    (ap (λ (x : Candidate). x.role) e, inl (ap (λ (x : Candidate). x.pattern) e))
In-candidates_of role ((b ∷ pat) ∷ pats) c (inr i) =
    let (e, k) = In-candidates_of role pats c i in (e, inr k)

candidates_of-In :
    (role : Text) (pats : List Text) (pat : Text)
    → In pat pats
    → pat ≢ []
    → In (record { role = role; pattern = pat }) (candidates_of role pats)
unfolding candidates_of
candidates_of-In role [] pat i ne = elim i [ ]
candidates_of-In role ([] ∷ pats) pat (inl e) ne = absurd (ne e)
candidates_of-In role ([] ∷ pats) pat (inr i) ne = candidates_of-In role pats pat i ne
candidates_of-In role ((b ∷ p) ∷ pats) pat (inl e) ne = inl (ground arith)
candidates_of-In role ((b ∷ p) ∷ pats) pat (inr i) ne = inr (candidates_of-In role pats pat i ne)

-- The patterns that a profile gives a role.
abbrev pub patterns_of : NodeRoles → Text → List Text
patterns_of n role = or_empty (find_key role n.machine_deployment_match)

In-candidates_for :
    (n : NodeRoles) (roles : List Text) (c : Candidate)
    → In c (candidates_for n roles)
    → In c.role roles × In c.pattern (patterns_of n c.role)
unfolding candidates_for
In-candidates_for n [] c i = elim i [ ]
In-candidates_for n (role ∷ roles) c i =
    elim (In-append c (candidates_of role (patterns_of n role)) (candidates_for n roles) i) [
      | inl first ↦
          let (e, k) = In-candidates_of role (patterns_of n role) c first in
          (inl e, subst (λ r. In c.pattern (patterns_of n r)) (sym e) k)
      | inr later ↦ let (j, k) = In-candidates_for n roles c later in (inr j, k)
    ]

candidates_for-In :
    (n : NodeRoles) (roles : List Text) (role pat : Text)
    → In role roles
    → In pat (patterns_of n role)
    → pat ≢ []
    → In (record { role = role; pattern = pat }) (candidates_for n roles)
unfolding candidates_for
candidates_for-In n [] role pat i k ne = elim i [ ]
candidates_for-In n (role' ∷ roles) role pat (inl e) k ne =
    In-append_left _ (candidates_of role' (patterns_of n role')) (candidates_for n roles) (
      subst (λ r. In (record { role = role; pattern = pat }) (candidates_of r (patterns_of n r))) e
        (candidates_of-In role (patterns_of n role) pat k ne))
candidates_for-In n (role' ∷ roles) role pat (inr i) k ne =
    In-append_right _ (candidates_of role' (patterns_of n role')) (candidates_for n roles)
      (candidates_for-In n roles role pat i k ne)

configured :
    (match_table : List (Text × List Text)) (role pat : Text)
    → In pat (or_empty (find_key role match_table))
    → is_empty match_table ≡ false
unfolding find_key
configured [] role pat i = elim i [ ]
configured (e ∷ table) role pat i = refl

In-find_key :
    (table : List (Text × List Text)) (role pat : Text)
    → In pat (or_empty (find_key role table))
    → In role (map (λ e. e.0) table)
unfolding find_key
In-find_key [] role pat i = elim i [ ]
In-find_key ((j, v) ∷ table) role pat i = elim (Bool-cases (text_eq j role)) [
  | inl e ↦ inl (sym (text_eq_sound j role e))
  | inr e ↦
      let rest : or_empty (find_key role ((j, v) ∷ table)) ≡ or_empty (find_key role table) =
        ground (arith, e) in
      inr (In-find_key table role pat (subst (In pat) rest i))
]

-- A role with a pattern is one of the known roles.
patterns-known :
    (n : NodeRoles) (role pat : Text) → In pat (patterns_of n role) → In role (known_roles n)
unfolding known_roles
patterns-known n role pat i =
    let shown = map (λ e. e.0) n.display in
    let keys = map (λ e. e.0) n.machine_deployment_match in
    let extra = keep (λ r. not (contains_role r shown)) keys in
    elim (Bool-cases (contains_role role shown)) [
      | inl e ↦
          let (r, j, q) = some_of-In (text_eq role) shown e in
          let here : In role shown = subst (λ r. In r shown) (sym (text_eq_sound role r q)) j in
          In-append_left role (sort_stable text_lt shown) (sort_stable text_lt extra)
            (sort_stable-In text_lt role shown here)
      | inr e ↦
          let here = In-find_key n.machine_deployment_match role pat i in
          let kept : In role extra =
            keep-In (λ r. not (contains_role r shown)) keys role here (ground (arith, e)) in
          In-append_right role (sort_stable text_lt shown) (sort_stable text_lt extra)
            (sort_stable-In text_lt role extra kept)
    ]

-- Where the name is not empty and contains a non-empty pattern of a role, the answer is a known
-- role with a pattern that the name contains and that is at least as long: the longest pattern of
-- any role wins, whichever place the role has in the order of the roles.
pub role_from_name-longest :
    (n : NodeRoles) (name role pat : Text)
    → name ≢ []
    → In pat (patterns_of n role)
    → pat ≢ []
    → contains name pat ≡ true
    → (r : Text) × (p : Text) × (role_from_machine_deployment_name n name ≡ r)
      × In r (known_roles n)
      × In p (patterns_of n r)
      × (contains name p ≡ true)
      × (length pat ≤ length p)
unfolding role_from_machine_deployment_name
role_from_name-longest n name role pat named k ne held =
    let known = patterns-known n role pat k in
    let cs = candidates_for n (known_roles n) in
    let guards : role_from_machine_deployment_name n name
        ≡ first_contained name (sort_stable longer cs) =
      rw
        (
          is_empty-ne name named,
          configured n.machine_deployment_match role pat k,
          role_from_machine_deployment_name,
        )
        refl in
    let (d, i, found, answer, le) =
      first_contained-longest name (sort_stable longer cs) (record { role = role; pattern = pat })
        (sort_stable-IsSorted longer longer-IsWeakOrder cs)
        (sort_stable-In longer _ cs (candidates_for-In n (known_roles n) role pat known k ne))
        held in
    let (r_known, p_listed) =
      In-candidates_for n (known_roles n) d (In-sort_stable longer d cs i) in
    (d.role, d.pattern, guards ∙ answer, r_known, p_listed, found, le)
