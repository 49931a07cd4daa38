-- ===== src/Fleet/Storage/Roles.antt =====
-- The hosts of a storage cluster by their roles (internal/fleet/storage.go, `storageRoles`).
use mathlib.Core.List.{append-nil, append_assoc}
use mathlib.Core.List.Perm
use binnacle.Prelude.{
  ℕ, ◌≡◌, ◌↔◌, refl, Bool, true, false, not, is_empty, if◌then◌else◌, leb, ◌&&◌, List, [], ◌∷◌,
  ◌++◌, map, Text, text, text_eq, text_eq_iff, text_lt, arith, count_if, count_if-append, some_of,
  some_of-append, In, Distinct, sym, ap, subst, ◌∙◌,
}
use binnacle.Prelude.Gather.{IsGathered, gather-IsGathered}
use binnacle.Prelude.Orders.{by_last, by_last-IsWeakOrder}
use binnacle.Prelude.Sort.{
  IsSorted, sort_stable, sort_stable-perm, sort_stable-IsSorted, In-sort_stable, sort_stable-In,
}
use binnacle.Prelude.Reorder.{Distinct-Perm, sort_stable-map}
use binnacle.Model.{BareMetalHost}
use binnacle.Fleet.Tables.{host_rank}
use binnacle.Fleet.Views.{RoleCount}
use binnacle.Fleet.Storage.{label_of, tally, count_host, count_hosts, storage_roles}

abbrev pub has_role : Text → BareMetalHost → Bool
has_role role h = text_eq role (label_of (text "atmosphere-role") h)

-- How sick a host is: 0 with an error message, 1 with a bad operational status, or else 2.
abbrev pub sickness : BareMetalHost → ℕ
sickness h =
    if not (is_empty h.error_message)
    then 0
    else if not (is_empty h.operational_status) && not (text_eq h.operational_status (text "OK"))
    then 1
    else 2

-- The host has the role and is not among the sick ones.
abbrev pub well_in : Text → BareMetalHost → Bool
well_in role h = has_role role h && leb 2 (sickness h)

-- What a role's entry should say.
abbrev pub role_entry : List BareMetalHost → Text → RoleCount
role_entry hosts role = record {
  role = role;
  label = [];
  ready = count_if (well_in role) hosts;
  total = count_if (has_role role) hosts;
}

abbrev IsByRole : List BareMetalHost → List RoleCount → Type 0
IsByRole hosts = IsGathered (role_entry hosts) (λ r. some_of (has_role r) hosts)

none_in :
    (r : Text) (hs : List BareMetalHost)
    → some_of (has_role r) hs ≡ false
    → (count_if (has_role r) hs ≡ 0) × (count_if (well_in r) hs ≡ 0)
none_in r [] e = (refl, refl)
none_in r (h ∷ hs) e = ground (arith, e, none_in r hs)

count_host-IsByRole :
    (seen : List BareMetalHost) (h : BareMetalHost) (counts : List RoleCount)
    → IsByRole seen counts
    → IsByRole (seen ++ h ∷ []) (count_host counts h)
unfolding count_host tally host_rank
count_host-IsByRole seen h counts =
    let k = label_of (text "atmosphere-role") h in
    let total = λ (r : Text). count_if-append (has_role r) seen (h ∷ []) in
    let ready = λ (r : Text). count_if-append (well_in r) seen (h ∷ []) in
    gather-IsGathered text_eq text_eq_iff (λ (rc : RoleCount). rc.role) (role_entry seen)
      (role_entry (seen ++ h ∷ [])) (λ r. refl) k
      (tally h (record { role = k; label = []; ready = 0; total = 0 })) (tally h)
      (λ r ne. ground (arith, text_eq_iff r k, ne, total r, ready r))
      (λ r. some_of (has_role r) seen) (λ r. some_of (has_role r) (seen ++ h ∷ []))
      (λ r. ground (arith, some_of-append (has_role r) seen (h ∷ [])))
      (λ u. ground (arith, text_eq_iff k k, total k, ready k))
      (λ u. ground (arith, text_eq_iff k k, total k, ready k, none_in k seen u)) counts

count_hosts-IsByRole :
    (hs seen : List BareMetalHost) (counts : List RoleCount)
    → IsByRole seen counts
    → IsByRole (seen ++ hs) (count_hosts counts hs)
unfolding count_hosts
count_hosts-IsByRole [] seen counts i = subst (λ l. IsByRole l counts) (sym (append-nil seen)) i
count_hosts-IsByRole (h ∷ hs) seen counts i =
    subst (λ l. IsByRole l (count_hosts (count_host counts h) hs)) (append_assoc seen (h ∷ []) hs)
      (count_hosts-IsByRole hs (seen ++ h ∷ []) (count_host counts h)
        (count_host-IsByRole seen h counts i))

-- One entry for each role that a host has, in the order of the roles' names.
abbrev pub IsRoleTable : List BareMetalHost → List RoleCount → Type 0
IsRoleTable hosts counts =
    (names : List Text) × (counts ≡ map (role_entry hosts) names)
    × Distinct names
    × ((role : Text) → In role names ↔ (some_of (has_role role) hosts ≡ true))
    × IsSorted text_lt names

pub storage_roles-IsRoleTable :
    (hosts : List BareMetalHost) → IsRoleTable hosts (storage_roles hosts)
unfolding storage_roles
storage_roles-IsRoleTable hosts =
    let (names, same, distinct, used) =
      count_hosts-IsByRole hosts [] []
        ([], refl, tt, λ r. ((λ i. elim i [ ]), λ h. absurd (ground (arith, h)))) in
    let sorted = sort_stable text_lt names in
    (
      sorted,
      ap (sort_stable (by_last (λ (r : RoleCount). r.role))) same
          ∙ sort_stable-map (role_entry hosts) text_lt (by_last (λ (r : RoleCount). r.role))
              (λ x y. refl) names,
      Distinct-Perm names sorted (Perm.symm (sort_stable-perm text_lt names)) distinct,
      (λ r. (
        (λ i. (used r).0 (In-sort_stable text_lt r names i)),
        λ h. sort_stable-In text_lt r names ((used r).1 h),
      )),
      sort_stable-IsSorted text_lt (by_last-IsWeakOrder (λ t. t)) names,
    )
