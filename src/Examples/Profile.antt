-- ===== src/Examples/Profile.antt =====
-- pkg/profile/profile.go at concrete inputs: the roles of a node in two orders of its labels.
use binnacle.Prelude.{
  List, [], ◌∷◌, Text, text, ◌≡◌, ◌≢◌, refl, In, inl, inr, ◌↔◌, All, Distinct, true, text_eq,
  contains, cut_prefix, length, ◌≤◌, arith,
}
use mathlib.Core.List.{Permᴰ}
use binnacle.Profile.{
  NodeRoles, roles_of, primary_role, legacy_control_plane_role, known_roles, find_key,
  role_from_machine_deployment_name,
}
use binnacle.Profile.Roles.{Yields, roles_of_complete, primary_role_lem}
use binnacle.Profile.Order.{roles_of-order, keys_of}
use binnacle.Profile.Candidates.{role_from_name-longest, patterns_of}

abbrev roles : NodeRoles
roles = record {
  label_keys = text "node/role/*" ∷ text "tier" ∷ [];
  display = [];
  machine_deployment_match = (text "worker", text "wrk" ∷ text "w" ∷ []) ∷ [];
  cordon_expected = [];
}

abbrev labels : List (Text × Text)
labels = (text "node/role/infra", []) ∷ (text "tier", text "gold") ∷ []

labels_set : labels ≢ []
labels_set e = absurd (ground (arith, e))

roles_of_complete_example :
    Distinct (roles_of roles labels)
    × ((r : Text)
        → In r (roles_of roles labels)
          ↔ ((r ≢ []) × ((key : Text) × In key roles.label_keys × Yields labels key r)))
roles_of_complete_example = roles_of_complete roles labels labels_set

primary_role_lem_example :
    In (primary_role (text "master" ∷ text "infra" ∷ [])) (text "master" ∷ text "infra" ∷ [])
    × (text "master" ≢ legacy_control_plane_role
        → primary_role (text "master" ∷ text "infra" ∷ []) ≡ text "master")
    × (primary_role (text "master" ∷ text "infra" ∷ []) ≡ legacy_control_plane_role
        → All (λ q. q ≡ legacy_control_plane_role) (text "master" ∷ text "infra" ∷ []))
primary_role_lem_example = primary_role_lem (text "master") (text "infra" ∷ [])

abbrev turned : List (Text × Text)
turned = (text "tier", text "gold") ∷ (text "node/role/infra", []) ∷ []

keys_apart : Distinct (keys_of labels)
keys_apart = (
  (λ i. elim i [ inl e ↦ absurd (ground (arith, e)) | inr j ↦ elim j [ ] ]),
  ((λ j. elim j [ ]), tt),
)

roles_of-order_example : roles_of roles labels ≡ roles_of roles turned
roles_of-order_example = roles_of-order roles labels turned ∣ Permᴰ.swap refl refl ∣₁ keys_apart

w_pattern : In (text "w") (patterns_of roles (text "worker"))
unfolding find_key text_eq
w_pattern = inr (inl refl)

name_contains : contains (text "site-wrk-1") (text "w") ≡ true
unfolding contains cut_prefix
name_contains = refl

role_from_name-longest_example :
    (r : Text) × (p : Text) × (role_from_machine_deployment_name roles (text "site-wrk-1") ≡ r)
    × In r (known_roles roles)
    × In p (patterns_of roles r)
    × (contains (text "site-wrk-1") p ≡ true)
    × (length (text "w") ≤ length p)
role_from_name-longest_example =
    role_from_name-longest roles (text "site-wrk-1") (text "worker") (text "w")
      (λ e. absurd (ground (arith, e))) w_pattern (λ e. absurd (ground (arith, e))) name_contains
