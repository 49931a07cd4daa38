-- ===== src/Fleet/Views/Workloads/Counts.antt =====
-- What a card counts of the nodes (internal/fleet/fleet.go, the loop of `readWorkload`).
use mathlib.Core.List.{append-nil, append_assoc}
use mathlib.Core.List.Perm
use binnacle.Prelude.{
  some_of, some_of-append, true, false, ◌≡◌, ◌↔◌, refl, Bool, ◌&&◌, List, [], ◌∷◌, ◌++◌, map, Text,
  text_eq, text_eq_iff, text_lt, arith, length, length-append, count_if, count_if-append, In,
  Distinct, ap, sym, subst, ◌∙◌,
}
use binnacle.Prelude.Gather.{IsGathered, gather-IsGathered}
use binnacle.Prelude.Orders.{by_last, by_last-IsWeakOrder}
use binnacle.Prelude.Sort.{
  IsSorted, sort_stable, sort_stable-perm, sort_stable-IsSorted, sort_stable-In, In-sort_stable,
}
use binnacle.Prelude.Reorder.{Distinct-Perm, sort_stable-map}
use binnacle.Model.{Snapshot, Node, node_ready}
use binnacle.Profile.{NodeRoles, display_name}
use binnacle.Health.Cells.{news}
use binnacle.Fleet.Views.{ClusterView, RoleCount}
use binnacle.Fleet.Views.Workloads.{
  Tally, role_name, count_role, count_in, count_node, count_nodes, with_nodes,
}

abbrev pub has_role : Text → Node → Bool
has_role role n = text_eq role (role_name n)

abbrev pub ready_in : Text → Node → Bool
ready_in role n = has_role role n && node_ready n

-- What a role's entry should say.
abbrev pub entry : NodeRoles → List Node → Text → RoleCount
entry roles items role = record {
  role = role;
  label = display_name roles role;
  ready = count_if (ready_in role) items;
  total = count_if (has_role role) items;
}

-- There is one entry for each role that a node has, and it says what it should.
abbrev pub IsByRole : NodeRoles → List Node → List RoleCount → Type 0
IsByRole roles items = IsGathered (entry roles items) (λ r. some_of (has_role r) items)

ready_in_none :
    (r : Text) (ns : List Node)
    → some_of (has_role r) ns ≡ false
    → (count_if (has_role r) ns ≡ 0) × (count_if (ready_in r) ns ≡ 0)
ready_in_none r [] h = (refl, refl)
ready_in_none r (n ∷ ns) h = ground (arith, h, ready_in_none r ns)

-- One more node keeps the entries right.
count_in-IsByRole :
    (roles : NodeRoles) (seen : List Node) (n : Node) (counts : List RoleCount)
    → IsByRole roles seen counts
    → IsByRole roles (seen ++ n ∷ []) (count_in roles n counts)
unfolding count_in count_role
count_in-IsByRole roles seen n counts =
    let k = role_name n in
    let total = λ (r : Text). count_if-append (has_role r) seen (n ∷ []) in
    let ready = λ (r : Text). count_if-append (ready_in r) seen (n ∷ []) in
    gather-IsGathered text_eq text_eq_iff (λ (rc : RoleCount). rc.role) (entry roles seen)
      (entry roles (seen ++ n ∷ [])) (λ r. refl) k
      (count_role n (record { role = k; label = display_name roles k; ready = 0; total = 0 }))
      (count_role n) (λ r ne. ground (arith, text_eq_iff r k, ne, total r, ready r))
      (λ r. some_of (has_role r) seen) (λ r. some_of (has_role r) (seen ++ n ∷ []))
      (λ r. ground (arith, some_of-append (has_role r) seen (n ∷ [])))
      (λ u. ground (arith, text_eq_iff k k, total k, ready k))
      (λ u. ground (arith, text_eq_iff k k, total k, ready k, ready_in_none k seen u)) counts

-- The tally of some nodes.
abbrev pub IsTally : NodeRoles → List Node → Tally → Type 0
IsTally roles items t =
    (t.nodes.total ≡ length items)
    × (t.nodes.ready ≡ count_if node_ready items)
    × (t.nodes.cordoned ≡ count_if (news roles) items)
    × IsByRole roles items t.by_role

count_node-IsTally :
    (roles : NodeRoles) (seen : List Node) (n : Node) (t : Tally)
    → IsTally roles seen t
    → IsTally roles (seen ++ n ∷ []) (count_node roles t n)
unfolding count_node
count_node-IsTally roles seen n t (total, ready, cordoned, by_role) = (
  omega (arith, total, length-append seen (n ∷ [])),
  ground (arith, ready, count_if-append node_ready seen (n ∷ [])),
  ground (arith, cordoned, count_if-append (news roles) seen (n ∷ [])),
  count_in-IsByRole roles seen n t.by_role by_role,
)

count_nodes-IsTally :
    (roles : NodeRoles) (items seen : List Node) (t : Tally)
    → IsTally roles seen t
    → IsTally roles (seen ++ items) (count_nodes roles t items)
unfolding count_nodes
count_nodes-IsTally roles [] seen t h = subst (λ ns. IsTally roles ns t) (sym (append-nil seen)) h
count_nodes-IsTally roles (n ∷ ns) seen t h =
    subst (λ l. IsTally roles l (count_nodes roles (count_node roles t n) ns))
      (append_assoc seen (n ∷ []) ns)
      (count_nodes-IsTally roles ns (seen ++ n ∷ []) (count_node roles t n)
        (count_node-IsTally roles seen n t h))

-- A card that has counted no node yet.
abbrev pub IsUncounted : ClusterView → Type 0
IsUncounted v =
    (v.nodes.total ≡ 0) × (v.nodes.ready ≡ 0) × (v.nodes.cordoned ≡ 0) × (v.nodes_by_role ≡ [])

-- One entry for each role that a node has, in the order of the roles' names.
abbrev pub IsRoleTable : NodeRoles → List Node → List RoleCount → Type 0
IsRoleTable roles items counts =
    (names : List Text) × (counts ≡ map (entry roles items) names)
    × Distinct names
    × ((role : Text) → In role names ↔ (some_of (has_role role) items ≡ true))
    × IsSorted text_lt names

-- A card counts the nodes of the snapshot, those that are ready and those whose cordon is news. By
-- role it has one entry for each role that a node has, a node without a role being unlabelled, in the
-- order of their names, with the number of the nodes that have the role and of those of them that are
-- ready.
pub with_nodes-IsCounted :
    (roles : NodeRoles) (snap : Snapshot Node) (v : ClusterView)
    → IsUncounted v
    → let w = with_nodes roles snap v in
      (w.nodes.total ≡ length snap.items)
      × (w.nodes.ready ≡ count_if node_ready snap.items)
      × (w.nodes.cordoned ≡ count_if (news roles) snap.items)
      × IsRoleTable roles snap.items w.nodes_by_role
unfolding with_nodes
with_nodes-IsCounted roles snap v (total, ready, cordoned, empty) =
    let start : Tally = record { nodes = v.nodes; capacity = v.capacity; by_role = [] } in
    let t = count_nodes roles start snap.items in
    let (total', ready', cordoned', (names, same, distinct, used)) =
      count_nodes-IsTally roles snap.items [] start (
        total,
        ready,
        cordoned,
        ([], refl, tt, λ r. ((λ i. elim i [ ]), λ h. absurd (ground (arith, h)))),
      ) in
    let sorted = sort_stable text_lt names in
    (
      total',
      ready',
      cordoned',
      (
        sorted,
        ap (λ l. l ++ sort_stable (by_last (λ (r : RoleCount). r.role)) t.by_role) empty
            ∙ ap (sort_stable (by_last (λ (r : RoleCount). r.role))) same
            ∙ sort_stable-map (entry roles snap.items) text_lt (by_last (λ (r : RoleCount). r.role))
                (λ x y. refl) names,
        Distinct-Perm names sorted (Perm.symm (sort_stable-perm text_lt names)) distinct,
        (λ r. (
          (λ i. (used r).0 (In-sort_stable text_lt r names i)),
          λ h. sort_stable-In text_lt r names ((used r).1 h),
        )),
        sort_stable-IsSorted text_lt (by_last-IsWeakOrder (λ t. t)) names,
      ),
    )
