-- ===== src/Health/Verdict.antt =====
-- The verdict over the whole strip (pkg/health/cells.go, `CoreCells`, and health.go, `Worst`).
use binnacle.Prelude.{
  ◌≡◌, refl, ◌↔◌, Bool, true, false, List, [], ◌∷◌, Option, none, some, arith, ◌==◌, ◌||◌, some_of,
  ◌∙◌, some_of-count,
}
use binnacle.Model.{
  Value, Node, BareMetalHost, as_bare_metal_hosts, as_nodes, as_kcps, as_machine_deployments,
  key_mgmt_kcps, key_mgmt_machine_deployments, KubeadmControlPlane, MachineDeployment,
  key_mgmt_bare_metal_hosts, key_workload_nodes, Pod, Machine,
}
use binnacle.Health.{Status, loading, broken, Cell, worst, worst_from, worse, rank}
use binnacle.Health.Cells.{
  some_cells, items_of, built, core_cells, cell_rollout, cell_machines, cell_hosts, cell_nodes,
  cell_pods, machines_cell, hosts_cell, nodes_cell, pods_cell, totals_cell, rollout_cell, usable,
  errored, not_ready,
}
use binnacle.Profile.{NodeRoles}
use binnacle.Store.{Store, get}

status_iff : (s : Status) (b : Bool) → (rank s == 3) ≡ b → (s ≡ broken) ↔ (b ≡ true)
status_iff s b h = (ground arith, ground arith)

abbrev is_broken : Cell → Bool
is_broken c = rank c.status == 3

worst_from-broken :
    (s : Status) (cells : List Cell)
    → (rank (worst_from s cells) == 3) ≡ (rank s == 3) || some_of is_broken cells
unfolding worst_from worse
worst_from-broken s [] = ground arith
worst_from-broken s (c ∷ cells) = worst_from-broken (worse s c.status) cells ∙ ground arith

machines_cell-not_broken : (items : List Machine) → is_broken (machines_cell items) ≡ false
unfolding machines_cell
machines_cell-not_broken items = ground arith

pods_cell-not_broken : (items : List Pod) → is_broken (pods_cell items) ≡ false
unfolding pods_cell
pods_cell-not_broken items = ground arith

hosts_cell-broken :
    (items : List BareMetalHost) → is_broken (hosts_cell items) ≡ some_of errored items
unfolding hosts_cell
hosts_cell-broken [] = ground arith
hosts_cell-broken (b ∷ items) = rw (some_of-count errored (b ∷ items)) (ground arith)

nodes_cell-broken :
    (roles : NodeRoles) (items : List Node)
    → is_broken (nodes_cell roles items) ≡ some_of not_ready items
unfolding nodes_cell
nodes_cell-broken roles [] = ground arith
nodes_cell-broken roles (n ∷ items) = rw (some_of-count not_ready (n ∷ items)) (ground arith)

totals_cell-not_broken :
    (ks : List KubeadmControlPlane) (ds : List MachineDeployment)
    → is_broken (totals_cell ks ds) ≡ false
unfolding totals_cell rollout_cell
totals_cell-not_broken ks ds = ground arith

-- Whether an item of a usable snapshot passes a test.
abbrev pub among : {A : Type 0} → (A → Bool) → Option (List A) → Bool
among p none = false
among p (some items) = some_of p items

-- A builder's cell is err.
abbrev broken_in : Option Cell → Bool
broken_in none = false
broken_in (some c) = is_broken c

built-broken :
    {A : Type 0} (build : List A → Cell) (p : A → Bool)
    → ((items : List A) → is_broken (build items) ≡ some_of p items)
    → (o : Option (List A)) → broken_in (built build o) ≡ among p o
built-broken build p law none = refl
built-broken build p law (some items) = law items

built-not_broken :
    {A : Type 0} (build : List A → Cell)
    → ((items : List A) → is_broken (build items) ≡ false)
    → (o : Option (List A)) → broken_in (built build o) ≡ false
built-not_broken build law none = refl
built-not_broken build law (some items) = law items

cell_hosts-broken :
    (s : Store Value) (roles : NodeRoles)
    → broken_in (cell_hosts s roles)
      ≡ among errored (usable (get as_bare_metal_hosts s key_mgmt_bare_metal_hosts))
unfolding cell_hosts
cell_hosts-broken s roles = built-broken hosts_cell errored hosts_cell-broken _

cell_nodes-broken :
    (s : Store Value) (roles : NodeRoles)
    → broken_in (cell_nodes s roles) ≡ among not_ready (usable (get as_nodes s key_workload_nodes))
unfolding cell_nodes
cell_nodes-broken s roles = built-broken (nodes_cell roles) not_ready (nodes_cell-broken roles) _

cell_rollout-not_broken :
    (s : Store Value) (roles : NodeRoles) → broken_in (cell_rollout s roles) ≡ false
unfolding cell_rollout
cell_rollout-not_broken s roles = ground (
  arith,
  totals_cell-not_broken (items_of (get as_kcps s key_mgmt_kcps))
      (items_of (get as_machine_deployments s key_mgmt_machine_deployments)),
)

cell_machines-not_broken :
    (s : Store Value) (roles : NodeRoles) → broken_in (cell_machines s roles) ≡ false
unfolding cell_machines
cell_machines-not_broken s roles = built-not_broken machines_cell machines_cell-not_broken _

cell_pods-not_broken : (s : Store Value) (roles : NodeRoles) → broken_in (cell_pods s roles) ≡ false
unfolding cell_pods
cell_pods-not_broken s roles = built-not_broken pods_cell pods_cell-not_broken _

some_cells-broken :
    (o : Option Cell) (os : List (Option Cell))
    → some_of is_broken (some_cells (o ∷ os)) ≡ broken_in o || some_of is_broken (some_cells os)
some_cells-broken none os = refl
some_cells-broken (some c) os = refl

-- The verdict over the whole strip is err exactly when a bare-metal host has an error or a node is
-- not ready, in a snapshot that was published with no error. Nothing else makes it err.
pub core_cells-broken :
    (s : Store Value) (roles : NodeRoles)
    → (worst (core_cells s roles) ≡ broken) ↔ (
        (among errored (usable (get as_bare_metal_hosts s key_mgmt_bare_metal_hosts))
          || among not_ready (usable (get as_nodes s key_workload_nodes)))
        ≡ true)
unfolding worst core_cells
core_cells-broken s roles =
    let rollout = cell_rollout s roles in
    let machines = cell_machines s roles in
    let hosts = cell_hosts s roles in
    let nodes = cell_nodes s roles in
    let pods = cell_pods s roles in
    rw (← cell_hosts-broken s roles, ← cell_nodes-broken s roles)
      (status_iff (worst_from loading (core_cells s roles)) _ (
        worst_from-broken loading (core_cells s roles)
        ∙ ground (
          arith,
          some_cells-broken rollout (machines ∷ hosts ∷ nodes ∷ pods ∷ []),
          some_cells-broken machines (hosts ∷ nodes ∷ pods ∷ []),
          some_cells-broken hosts (nodes ∷ pods ∷ []),
          some_cells-broken nodes (pods ∷ []),
          some_cells-broken pods [],
          cell_rollout-not_broken s roles,
          cell_machines-not_broken s roles,
          cell_pods-not_broken s roles,
        )))
