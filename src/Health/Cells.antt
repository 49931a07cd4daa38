-- ===== src/Health/Cells.antt =====
-- The cells of the summary strip (pkg/health/cells.go). A builder answers a cell, or none where its
-- source has published nothing usable.
use binnacle.Prelude.{
  is_empty, ℕ, Bool, not, ◌&&◌, ◌||◌, List, [], ◌∷◌, ◌++◌, Option, none, some, Text, text, String,
  text_eq, decimal, if◌then◌else◌, length, count_if, ltb, ◌==◌,
}
use binnacle.Prelude.Int.{ℤ, pos, ◌+ℤ◌, leb_ℤ, wrap32, decimal_ℤ}
use binnacle.Model.{
  Snapshot, Value, KubeadmControlPlane, MachineDeployment, Machine, BareMetalHost, Node, Pod,
  as_kcps, as_machine_deployments, as_machines, as_bare_metal_hosts, as_nodes, as_pods,
  key_mgmt_kcps, key_mgmt_machine_deployments, key_mgmt_machines, key_mgmt_bare_metal_hosts,
  key_workload_nodes, key_workload_pods, node_ready,
}
use binnacle.Health.{Status, loading, healthy, warn, broken, Cell, needs_attention}
use binnacle.Profile.{NodeRoles, cordon_is_news}
use binnacle.Store.{Store, get}

abbrev pub cell : String → Status → Text → Cell
cell name status detail = record { name = text name; status = status; detail = detail }

-- A snapshot that was read and carries no error.
abbrev pub usable : {A : Type 0} → Option (Snapshot A) → Option (List A)
usable none = none
usable (some snap) = elim snap.err [ none ↦ some snap.items | some e ↦ none ]

-- A builder's early return where there is nothing usable.
abbrev pub built : {A : Type 0} → (List A → Cell) → Option (List A) → Option Cell
built build none = none
built build (some items) = some (build items)

-- The items of a snapshot, none where there is no snapshot: an error does not empty them.
abbrev pub items_of : {A : Type 0} → Option (Snapshot A) → List A
items_of none = []
items_of (some snap) = snap.items

-- The two loops of `cellRollout`, with `int32` sums.
unfoldable pub sum_kcps : List KubeadmControlPlane → ℤ × ℤ → ℤ × ℤ
sum_kcps [] acc = acc
sum_kcps (k ∷ ks) acc =
    sum_kcps ks (wrap32 (acc.0 +ℤ k.desired_replicas), wrap32 (acc.1 +ℤ k.up_to_date_replicas))

unfoldable pub sum_deployments : List MachineDeployment → ℤ × ℤ → ℤ × ℤ
sum_deployments [] acc = acc
sum_deployments (d ∷ ds) acc =
    sum_deployments ds
      (wrap32 (acc.0 +ℤ d.desired_replicas), wrap32 (acc.1 +ℤ d.up_to_date_replicas))

abbrev is_zero : ℤ → Bool
is_zero z = leb_ℤ z (pos 0) && leb_ℤ (pos 0) z

-- The `switch` of `cellRollout`.
unfoldable pub rollout_cell : ℤ → ℤ → Cell
rollout_cell desired up_to_date =
    if is_zero desired
    then cell "CAPI" loading []
    else if leb_ℤ desired up_to_date
    then cell "CAPI" healthy []
    else cell "CAPI" warn (decimal_ℤ up_to_date ++ (text "/" ++ decimal_ℤ desired))

-- The sums over both kinds, and the cell that they give.
unfoldable pub totals_cell : List KubeadmControlPlane → List MachineDeployment → Cell
unfolding sum_kcps sum_deployments rollout_cell
totals_cell ks ds =
    let totals = sum_deployments ds (sum_kcps ks (pos 0, pos 0)) in rollout_cell totals.0 totals.1

unfoldable pub cell_rollout : Store Value → NodeRoles → Option Cell
cell_rollout s roles =
    let kcps = get as_kcps s key_mgmt_kcps in
    let mds = get as_machine_deployments s key_mgmt_machine_deployments in
    elim (usable kcps) [
      | none ↦ elim (usable mds) [
        | none ↦ none
        | some ds ↦ some (totals_cell (items_of kcps) (items_of mds))
      ]
      | some ks ↦ some (totals_cell (items_of kcps) (items_of mds))
    ]

-- `n` of `m` things, or their number alone, behind a count.
abbrev of_total : ℕ → ℕ → String → Text
of_total n m what = decimal n ++ (text "/" ++ (decimal m ++ text what))

abbrev counted : ℕ → String → Text
counted n what = decimal n ++ text what

abbrev pub not_running : Machine → Bool
not_running m = not (text_eq m.phase (text "Running"))

-- `cellMachines` once its snapshot is read.
unfoldable pub machines_cell : List Machine → Cell
machines_cell items =
    let moving = count_if not_running items in
    if is_empty items
    then cell "Machines" loading []
    else if moving == 0
    then cell "Machines" healthy []
    else cell "Machines" warn (of_total moving (length items) " moving")

unfoldable pub cell_machines : Store Value → NodeRoles → Option Cell
cell_machines s roles = built (machines_cell) (usable (get as_machines s key_mgmt_machines))

abbrev pub errored : BareMetalHost → Bool
errored b = not (is_empty b.error_message) || text_eq b.operational_status (text "error")

unfoldable pub hosts_cell : List BareMetalHost → Cell
hosts_cell hosts =
    let bad = count_if errored hosts in
    if is_empty hosts
    then cell "Hosts" loading []
    else if bad == 0
    then cell "Hosts" healthy []
    else cell "Hosts" broken (counted bad " errored")

unfoldable pub cell_hosts : Store Value → NodeRoles → Option Cell
cell_hosts s roles =
    built (hosts_cell) (usable (get as_bare_metal_hosts s key_mgmt_bare_metal_hosts))

abbrev pub not_ready : Node → Bool
not_ready n = not (node_ready n)

abbrev pub news : NodeRoles → Node → Bool
news roles n = n.cordoned && cordon_is_news roles n.role (node_ready n)

-- `cellNodes` once its snapshot is read.
unfoldable pub nodes_cell : NodeRoles → List Node → Cell
nodes_cell roles items =
    let down = count_if not_ready items in
    let cordoned = count_if (news roles) items in
    if is_empty items
    then cell "Nodes" loading []
    else if ltb 0 down
    then cell "Nodes" broken (counted down " NotReady")
    else if ltb 0 cordoned
    then cell "Nodes" warn (counted cordoned " cordoned")
    else cell "Nodes" healthy []

unfoldable pub cell_nodes : Store Value → NodeRoles → Option Cell
cell_nodes s roles = built (nodes_cell roles) (usable (get as_nodes s key_workload_nodes))

-- `cellPods` once its snapshot is read.
unfoldable pub pods_cell : List Pod → Cell
pods_cell items =
    let unhealthy = count_if needs_attention items in
    if is_empty items
    then cell "Pods" loading []
    else if unhealthy == 0
    then cell "Pods" healthy []
    else cell "Pods" warn (counted unhealthy " unhealthy")

unfoldable pub cell_pods : Store Value → NodeRoles → Option Cell
cell_pods s roles = built (pods_cell) (usable (get as_pods s key_workload_pods))

-- The loop of `CoreCells` over the builders.
abbrev pub some_cells : List (Option Cell) → List Cell
some_cells [] = []
some_cells (none ∷ cells) = some_cells cells
some_cells (some c ∷ cells) = c ∷ some_cells cells

unfoldable pub core_cells : Store Value → NodeRoles → List Cell
core_cells s roles = some_cells (
    cell_rollout s roles
    ∷ cell_machines s roles
    ∷ cell_hosts s roles
    ∷ cell_nodes s roles
    ∷ cell_pods s roles
    ∷ [])
