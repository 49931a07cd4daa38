-- ===== src/Profile.antt =====
-- pkg/profile/profile.go: the conventions of a site, which label keys carry a node's role, which
-- cordons are expected, which events and workloads matter, and which Cluster object is watched.
--
-- A Go map is an association list with distinct keys. Where the code ranges over one, the model takes
-- the entries in the list's order, which stands for the iteration order that Go leaves open.
use binnacle.Prelude.{
  ℕ, zero, suc, Bool, true, false, not, ◌&&◌, ◌||◌, List, [], ◌∷◌, ◌++◌, map, Option, none, some,
  Text, text, text_eq, text_lt, cut_prefix, has_prefix, contains, if◌then◌else◌, length, keep,
  some_of, ltb, is_empty, or_empty,
}
use binnacle.Prelude.Sort.{sort_stable}
pub mod Roles
pub mod Candidates
pub mod Order

pub record ClusterRef : Type 0 where
  pub context : Text
  pub context_pattern : Text
  pub namespaces : List Text
  pub capi_name : Text
  pub capi_name_pattern : Text

pub record NodeRoles : Type 0 where
  pub label_keys : List Text
  pub display : List (Text × Text)
  pub machine_deployment_match : List (Text × List Text)
  pub cordon_expected : List Text

pub record Events : Type 0 where
  pub namespaces : List Text
  pub namespace_prefixes : List Text
  pub all_namespaces : Bool

pub record CriticalWorkload : Type 0 where
  pub kind : Text
  pub namespace : Text
  pub name : Text

-- `v, ok := m[k]`
unfoldable pub find_key : {V : Type 0} → Text → List (Text × V) → Option V
find_key k [] = none
find_key k ((j, v) ∷ m) = if text_eq j k then some v else find_key k m

-- `regexp.Compile` and `FindStringSubmatch` are the argument `find`: it takes a pattern and a text,
-- and answers the whole match and the capture groups, or `none` where the pattern does not compile
-- or does not match.
unfoldable pub capi_name_for : (Text → Text → Option (Text × List Text)) → ClusterRef → Text → Text
capi_name_for find c context_name =
    if not (is_empty c.capi_name)
    then c.capi_name
    else if is_empty c.capi_name_pattern || is_empty context_name
    then []
    else elim (find c.capi_name_pattern context_name) [
      | none ↦ []
      | some (whole, groups) ↦ elim groups [
        | [] ↦ whole
        | group ∷ more ↦ if is_empty group then whole else group
      ]
    ]

-- `strings.CutSuffix(key, "/*")`
unfoldable pub cut_wildcard : Text → Option Text
cut_wildcard [] = none
cut_wildcard (c ∷ s) =
    let rest = cut_wildcard s in
    if text_eq (c ∷ s) (text "/*")
    then some []
    else elim rest [ none ↦ none | some p ↦ some (c ∷ p) ]

abbrev pub contains_role : Text → List Text → Bool
contains_role role = some_of (text_eq role)

-- The closure `add`. The map `seen` holds exactly the roles of `out`.
unfoldable pub add_role : List Text → Text → List Text
add_role out role =
    if not (is_empty role) && not (contains_role role out) then out ++ role ∷ [] else out

unfoldable pub add_roles : List Text → List Text → List Text
unfolding add_role
add_roles out [] = out
add_roles out (role ∷ roles) = add_roles (add_role out role) roles

-- A label below the prefix names a role, unless what follows the prefix is empty.
abbrev pub add_matched : Option Text → List Text → List Text
add_matched none rest = rest
add_matched (some []) rest = rest
add_matched (some (c ∷ role)) rest = (c ∷ role) ∷ rest

-- The inner loop of a wildcard key: the roles that the labels below the prefix name.
unfoldable pub matched_roles : Text → List (Text × Text) → List Text
matched_roles prefix [] = []
matched_roles prefix ((k, v) ∷ labels) =
    add_matched (cut_prefix k (prefix ++ text "/")) (matched_roles prefix labels)

-- What one label key adds.
unfoldable pub roles_of_key : List (Text × Text) → Text → List Text
roles_of_key labels key = elim (cut_wildcard key) [
  | none ↦ or_empty (find_key key labels) ∷ []
  | some prefix ↦ sort_stable text_lt (matched_roles prefix labels)
]

unfoldable pub roles_from : List (Text × Text) → List Text → List Text → List Text
roles_from labels [] out = out
roles_from labels (key ∷ keys) out =
    roles_from labels keys (add_roles out (roles_of_key labels key))

unfoldable pub roles_of : NodeRoles → List (Text × Text) → List Text
roles_of n labels = if is_empty labels then [] else roles_from labels n.label_keys []

abbrev pub legacy_control_plane_role : Text
legacy_control_plane_role = text "master"

unfoldable pub first_other : List Text → Option Text
first_other [] = none
first_other (r ∷ roles) = if text_eq r legacy_control_plane_role then first_other roles else some r

unfoldable pub primary_role : List Text → Text
primary_role [] = []
primary_role (r ∷ roles) =
    if not (text_eq r legacy_control_plane_role)
    then r
    else elim (first_other roles) [ none ↦ r | some other ↦ other ]

unfoldable pub role_of : NodeRoles → List (Text × Text) → Text
unfolding roles_of primary_role
role_of n labels =
    let roles = roles_of n labels in if is_empty roles then [] else primary_role roles

unfoldable pub cordon_is_news : NodeRoles → Text → Bool → Bool
cordon_is_news n role ready =
    if not ready then true else not (some_of (λ r. text_eq r role) n.cordon_expected)

unfoldable pub display_name : NodeRoles → Text → Text
unfolding find_key
display_name n role =
    if is_empty role
    then text "(unlabeled)"
    else elim (find_key role n.display) [ none ↦ role | some d ↦ if is_empty d then role else d ]

-- The keys of a map are distinct, so the first loop adds each key of `display` once, and the second
-- loop those of `machine_deployment_match` that are no key of `display`.
unfoldable pub known_roles : NodeRoles → List Text
known_roles n =
    let shown = map (λ e. e.0) n.display in
    let extra =
      keep (λ r. not (contains_role r shown)) (map (λ e. e.0) n.machine_deployment_match) in
    sort_stable text_lt shown ++ sort_stable text_lt extra

-- A role with one of its patterns.
pub record Candidate : Type 0 where
  pub role : Text
  pub pattern : Text

unfoldable pub candidates_of : Text → List Text → List Candidate
candidates_of role [] = []
candidates_of role (pat ∷ pats) =
    let rest = candidates_of role pats in
    if is_empty pat then rest else (record { role = role; pattern = pat }) ∷ rest

unfoldable pub candidates_for : NodeRoles → List Text → List Candidate
unfolding candidates_of find_key
candidates_for n [] = []
candidates_for n (role ∷ roles) =
    candidates_of role (or_empty (find_key role n.machine_deployment_match))
    ++ candidates_for n roles

abbrev pub longer : Candidate → Candidate → Bool
longer a b = ltb (length b.pattern) (length a.pattern)

unfoldable pub first_contained : Text → List Candidate → Text
first_contained name [] = []
first_contained name (c ∷ cs) = if contains name c.pattern then c.role else first_contained name cs

unfoldable pub role_from_machine_deployment_name : NodeRoles → Text → Text
role_from_machine_deployment_name n name =
    if is_empty name || is_empty n.machine_deployment_match
    then []
    else first_contained name (sort_stable longer (candidates_for n (known_roles n)))

unfoldable pub interesting : Events → Text → Bool
interesting e namespace =
    if e.all_namespaces
    then true
    else if some_of (λ ns. text_eq ns namespace) e.namespaces
    then true
    else some_of (λ p. not (is_empty p) && has_prefix namespace p) e.namespace_prefixes

unfoldable pub matches : CriticalWorkload → Text → Text → Bool
matches c namespace pod_name =
    text_eq c.namespace namespace && has_prefix pod_name (c.name ++ text "-")
